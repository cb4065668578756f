-- ===== src/Bridge/Reaching.antt =====
-- From an interaction at the bridge's callbacks in main/main.cpp to the request handlers of
-- main/CoapServer.cpp at the other end: which cluster and which element they arrive at.
use matter_lwm2m_bridge.Base.{
  ℕ, ◌^◌, ◌<◌, ◌≡◌, ◌≢◌, refl, ℤ, minus_one, to_unsigned, IsInt32, ◌++◌, ltb, true, if◌then◌else◌,
  arith, ok, ◌>>=◌, find, length, append_assoc,
}
use matter_lwm2m_bridge.Text.{Bytes, Bytes_discrete}
use matter_lwm2m_bridge.BiMap.{BiMap, get_ipso_id, get_matter_id}
use matter_lwm2m_bridge.BiMap.Inverse.{IsInverse, get_matter_id-get_ipso_id}
use matter_lwm2m_bridge.Mapping.{MatterIpsoMapping}
use matter_lwm2m_bridge.Mapping.Lookup.{IsConsistent}
use matter_lwm2m_bridge.Binding.{new_command_data}
use matter_lwm2m_bridge.Client.Library.{Libcoap}
use matter_lwm2m_bridge.Client.State.{Client}
use matter_lwm2m_bridge.Client.Requests.{coap_client_put, coap_client_put_payload}
use matter_lwm2m_bridge.Server.Forward.{
  TypeMap, load_data, forward_attribute_write_message, forward_command_message, hnd_command_put,
}
use matter_lwm2m_bridge.Server.Register.{resource_uri}
use matter_lwm2m_bridge.Server.Routes.{ids_of_uri-resource_uri}
use matter_lwm2m_bridge.Bridge.{
  device_uri, target_of, failure, success, Devices, int_of_id,
  ember_af_external_attribute_write_callback, ember_af_actions_cluster_instant_action_callback,
}

-- An id of 32 bits that has an LwM2M id, which is an `int` of 32 bits.
abbrev pub IsMapped : BiMap → ℕ → Type 0
IsMapped b id =
    (id < 2 ^ 32)
    × (get_ipso_id (int_of_id id) b ≢ minus_one)
    × IsInt32 (get_ipso_id (int_of_id id) b)

-- Passing an id through an `int` loses nothing.
to_unsigned-int_of_id : (id : ℕ) → id < 2 ^ 32 → to_unsigned 32 (int_of_id id) ≡ id
to_unsigned-int_of_id id h = ground arith

-- The id that the other end translates back to.
pub translated_back :
    (b : BiMap) (id : ℕ)
    → IsInverse b
    → IsMapped b id
    → to_unsigned 32 (get_matter_id (get_ipso_id (int_of_id id) b) b) ≡ id
translated_back b id h (small, found, _) =
    rw (get_matter_id-get_ipso_id b (int_of_id id) h found) (to_unsigned-int_of_id id small)

-- The target is the address of the device and the path there.
pub target_of-eq-append :
    (object_id resource_id : ℤ)
    → target_of object_id resource_id ≡ device_uri ++ resource_uri object_id resource_id
unfolding target_of
target_of-eq-append object_id resource_id = simp append_assoc refl

module _ (m : MatterIpsoMapping) (types : TypeMap) where
  -- The path of an attribute or a command at the LwM2M device.
  abbrev pub attribute_path : ℕ → ℕ → Bytes
  attribute_path cluster_id attribute_id =
      resource_uri (get_ipso_id (int_of_id cluster_id) m.cluster_object_map)
        (get_ipso_id (int_of_id attribute_id) m.attribute_resource_map)

  abbrev pub command_path : ℕ → ℕ → Bytes
  command_path cluster_id command_id =
      resource_uri (get_ipso_id (int_of_id cluster_id) m.cluster_object_map)
        (get_ipso_id (int_of_id command_id) m.command_resource_map)

  pub forward_attribute_write_message-attribute_path :
      (cluster_id attribute_id : ℕ) (payload : Bytes)
      → IsConsistent m
      → IsMapped m.cluster_object_map cluster_id
      → IsMapped m.attribute_resource_map attribute_id
      → forward_attribute_write_message m types (attribute_path cluster_id attribute_id) payload ≡ (
          load_data (find Bytes_discrete (attribute_path cluster_id attribute_id) types) payload
          >>= λ content. ok (record new_command_data {
            attribute_id = attribute_id;
            cluster_id = cluster_id;
            write_attribute = true;
            content = content;
          }))
  unfolding forward_attribute_write_message
  forward_attribute_write_message-attribute_path cluster_id attribute_id payload h k l =
      rw
        (
          ids_of_uri-resource_uri _ _ k.2 l.2,
          translated_back m.cluster_object_map cluster_id h.clusters k,
          translated_back m.attribute_resource_map attribute_id h.attributes l,
        )
        refl

  pub forward_command_message-command_path :
      (cluster_id command_id : ℕ)
      → IsConsistent m
      → IsMapped m.cluster_object_map cluster_id
      → IsMapped m.command_resource_map command_id
      → forward_command_message m types (command_path cluster_id command_id)
        ≡ ok (record new_command_data { command_id = command_id; cluster_id = cluster_id })
  unfolding forward_command_message
  forward_command_message-command_path cluster_id command_id h k l =
      rw
        (
          ids_of_uri-resource_uri _ _ k.2 l.2,
          translated_back m.cluster_object_map cluster_id h.clusters k,
          translated_back m.command_resource_map command_id h.commands l,
        )
        refl

  module _ (lib : Libcoap) (g_devices : Devices) (dynamic_index : ℕ → ℕ) where
    -- With a consistent mapping that has the cluster and the attribute, a write at an endpoint in range
    -- puts the attribute's bytes to the path of the pair at the device; a server with the same mapping
    -- that gets a payload on this path schedules a write of that cluster and attribute, with the content
    -- that the type of the path makes of the payload. An endpoint out of range sends nothing.
    pub write_callback-arrives :
        (fuel endpoint cluster_id attribute_id size : ℕ) (buffer payload : Bytes) (c : Client)
        → IsConsistent m
        → IsMapped m.cluster_object_map cluster_id
        → IsMapped m.attribute_resource_map attribute_id
        → let path = attribute_path cluster_id attribute_id in
          (ember_af_external_attribute_write_callback lib m g_devices dynamic_index fuel endpoint
              cluster_id attribute_id size buffer c
            ≡ (if ltb (dynamic_index endpoint) (length g_devices)
                then success (coap_client_put_payload lib fuel (device_uri ++ path) buffer size c)
                else failure))
          × (forward_attribute_write_message m types path payload ≡ (
              load_data (find Bytes_discrete path types) payload >>= λ content.
              ok (record new_command_data {
                attribute_id = attribute_id;
                cluster_id = cluster_id;
                write_attribute = true;
                content = content;
              })))
    unfolding ember_af_external_attribute_write_callback
    write_callback-arrives fuel endpoint cluster_id attribute_id size buffer payload c h k l = (
      rw (target_of-eq-append) refl,
      forward_attribute_write_message-attribute_path cluster_id attribute_id payload h k l,
    )

    -- With a consistent mapping that has the cluster and the command, the command callback puts to the
    -- path of the pair at the device, and a server with the same mapping that gets this request
    -- schedules that command for that cluster.
    pub command_callback-arrives :
        (fuel cluster_id command_id : ℕ) (c : Client)
        → IsConsistent m
        → IsMapped m.cluster_object_map cluster_id
        → IsMapped m.command_resource_map command_id
        → let path = command_path cluster_id command_id in
          (ember_af_actions_cluster_instant_action_callback lib m g_devices dynamic_index fuel
              cluster_id command_id c
            ≡ success (coap_client_put lib fuel (device_uri ++ path) c))
          × (hnd_command_put m types path
              ≡ ok (record new_command_data { command_id = command_id; cluster_id = cluster_id }))
    unfolding ember_af_actions_cluster_instant_action_callback hnd_command_put
    command_callback-arrives fuel cluster_id command_id c h k l = (
      rw (target_of-eq-append) refl,
      forward_command_message-command_path cluster_id command_id h k l,
    )
