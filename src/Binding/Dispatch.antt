-- ===== src/Binding/Dispatch.antt =====
-- What the bindings of main/BindingHandler.cpp get for the requests that the server of
-- main/CoapServer.cpp takes.
use matter_lwm2m_bridge.Base.{
  ℕ, ◌≡◌, refl, ap, ◌∙◌, append_assoc, true, some, List, [], ◌∷◌, ◌++◌, map, ok, find,
}
use matter_lwm2m_bridge.Text.{Bytes, Bytes_discrete}
use matter_lwm2m_bridge.Mapping.{MatterIpsoMapping}
use matter_lwm2m_bridge.Mapping.Lookup.{IsConsistent}
use matter_lwm2m_bridge.Binding.{
  Data, BindingCommandData, new_command_data, OnOffIds, BindingType, Peer, until_end,
  state_changed_handler, switch_worker_function,
}
use matter_lwm2m_bridge.Bridge.Reaching.{
  IsMapped, attribute_path, command_path, forward_attribute_write_message-attribute_path,
  forward_command_message-command_path,
}
use matter_lwm2m_bridge.Server.Forward.{TypeMap, hnd_attribute_put, hnd_command_put}
use matter_lwm2m_bridge.Binding.Handling.{
  type_of, bytes_of, load_data-bytes_of, map-agree, write_reaction, Effect, HasEffect, AreDistinct,
  command_reaction, handle_data-write, handle_data-command,
}

module _ (ids : OnOffIds) where
  module _ (bound : ℕ → ℕ → List (BindingType × Peer)) (m : MatterIpsoMapping)
      (types : TypeMap) where
    -- When the server takes a PUT on the path of an attribute, with the bytes of a value of the type that
    -- the path is registered with, the worker goes through the bindings of endpoint 2 to the attribute's
    -- cluster: each device that has a session gets exactly one interaction, the write of the value to
    -- the attribute, up to the first binding that ends the program, a device without a session or a
    -- group; with a consistent mapping that has the cluster and the attribute.
    pub hnd_attribute_put-writes :
        (cluster_id attribute_id : ℕ) (content : Data) (rest : Bytes)
        → IsConsistent m
        → IsMapped m.cluster_object_map cluster_id
        → IsMapped m.attribute_resource_map attribute_id
        → find Bytes_discrete (attribute_path m types cluster_id attribute_id) types
          ≡ some (type_of content)
        → (d : BindingCommandData) × (hnd_attribute_put m types
              (attribute_path m types cluster_id attribute_id)
              (some (bytes_of content ++ rest))
            ≡ ok d)
          × (switch_worker_function ids bound (some d)
              ≡ until_end
                  (map (write_reaction cluster_id attribute_id content) (bound 2 cluster_id)))
    unfolding hnd_attribute_put switch_worker_function state_changed_handler
    hnd_attribute_put-writes cluster_id attribute_id content rest h k l e =
        let d : BindingCommandData = record new_command_data {
          attribute_id = attribute_id;
          cluster_id = cluster_id;
          write_attribute = true;
          content = content;
        } in
        (
          d,
          forward_attribute_write_message-attribute_path m types cluster_id attribute_id _ h k l
              ∙ rw
                  (
                    e,
                    append_assoc (bytes_of content) rest (0 ∷ []),
                    load_data-bytes_of content (rest ++ 0 ∷ []),
                  )
                  refl,
          ap until_end (map-agree _ _ (bound 2 cluster_id) (λ b. handle_data-write ids d b refl)),
        )

    -- When the server takes a PUT on the path of a command, the worker goes through the bindings of
    -- endpoint 2 to the command's cluster, up to the first that ends the program: if the cluster is
    -- On/Off and the id that of toggle, on or off, each single device that has a session is invoked with
    -- just this command; with another id it gets nothing; one without a session ends the program in
    -- either case; and groups get nothing, nor does any binding of another cluster. It needs a
    -- consistent mapping that has the cluster and the command, and three ids that differ.
    pub hnd_command_put-invokes :
        (cluster_id command_id : ℕ) (e : Effect)
        → IsConsistent m
        → IsMapped m.cluster_object_map cluster_id
        → IsMapped m.command_resource_map command_id
        → AreDistinct ids
        → HasEffect ids cluster_id command_id e
        → (d : BindingCommandData) × (hnd_command_put m types
              (command_path m types cluster_id command_id)
            ≡ ok d)
          × (switch_worker_function ids bound (some d)
              ≡ until_end (map (command_reaction e) (bound 2 cluster_id)))
    unfolding hnd_command_put switch_worker_function state_changed_handler
    hnd_command_put-invokes cluster_id command_id e h k l distinct effect =
        let d : BindingCommandData = record new_command_data {
          command_id = command_id;
          cluster_id = cluster_id;
        } in
        (
          d,
          forward_command_message-command_path m types cluster_id command_id h k l,
          ap until_end (
              map-agree _ _ (bound 2 cluster_id)
                (λ b. handle_data-command ids d e b distinct (refl, refl, refl) effect)),
        )
