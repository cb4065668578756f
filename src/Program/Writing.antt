-- ===== src/Program/Writing.antt =====
-- What a write sends once `InitServer` of main/main.cpp has loaded a mapping file.
use matter_lwm2m_bridge.Base.{
  ℕ, ◌^◌, ◌<◌, ◌≡◌, ◌≢◌, refl, sym, ◌∙◌, ap, minus_one, List, ◌++◌, ltb, true, if◌then◌else◌, ok,
  ◌>>=◌, find, length, All, All-Memᴰ, Memᴰ,
}
use matter_lwm2m_bridge.Text.{Bytes, Bytes_discrete}
use matter_lwm2m_bridge.BiMap.{empty, get_ipso_id}
use matter_lwm2m_bridge.BiMap.Load.{load, Links, load-Links}
use matter_lwm2m_bridge.Mapping.{
  MatterIpsoMapping, Kind, sdf_object, sdf_property, no_mapping, generate_matter_ipso_mapping,
}
use matter_lwm2m_bridge.Mapping.Lookup.{IsConsistent, generate_matter_ipso_mapping-IsConsistent}
use matter_lwm2m_bridge.Mapping.Encoded.{
  Entry, encode, entry_kind, is_kind, pairs_of, load_entries, FitsInt32,
  generate_matter_ipso_mapping-encode,
}
use matter_lwm2m_bridge.Mapping.Unordered.{IsUnambiguous, Memᴰ-pairs_of}
use matter_lwm2m_bridge.Binding.{new_command_data}
use matter_lwm2m_bridge.Bridge.{
  Devices, device_uri, failure, success, int_of_id, ember_af_external_attribute_write_callback,
}
use matter_lwm2m_bridge.Bridge.Reaching.{IsMapped, attribute_path, write_callback-arrives}
use matter_lwm2m_bridge.Client.Library.{Libcoap}
use matter_lwm2m_bridge.Client.State.{Client}
use matter_lwm2m_bridge.Client.Cleanup.{IsIdle}
use matter_lwm2m_bridge.Client.Requests.{coap_client_put_payload}
use matter_lwm2m_bridge.Server.Forward.{TypeMap, load_data, forward_attribute_write_message}
use matter_lwm2m_bridge.Server.Register.{resource_uri}
use matter_lwm2m_bridge.Program.Flow.{done}
use matter_lwm2m_bridge.Program.Parts.{IsWorking}
use matter_lwm2m_bridge.Program.Deploy.{Bridge, Environment, init_server}
use matter_lwm2m_bridge.Program.Success.{init_server_ends}

-- The entry is in the file, about an element of the kind, and its ids are `id` and one that is not -1.
pub record IsEntry (es : List Entry) (kind : Kind) (id : ℕ) (e : Entry) : Type 0 where
  pub listed : Memᴰ e es
  pub has_kind : is_kind kind (entry_kind e) ≡ true
  pub small : id < 2 ^ 32
  pub has_id : e.matter_id ≡ int_of_id id
  pub has_oma_id : e.oma_id ≢ minus_one

-- The id of an entry leads to the LwM2M id of the entry.
IsEntry-finds :
    (es : List Entry) (kind : Kind) (id : ℕ) (e : Entry)
    → IsUnambiguous es
    → IsEntry es kind id e
    → get_ipso_id (int_of_id id) (load (pairs_of kind es) empty) ≡ e.oma_id
IsEntry-finds es kind id e o h =
    ap (λ m. get_ipso_id m (load (pairs_of kind es) empty)) (sym h.has_id)
    ∙ (All-Memᴰ (Links (load (pairs_of kind es) empty)) (pairs_of kind es)
        (load-Links (pairs_of kind es) (o kind))
        (Memᴰ-pairs_of kind (e.matter_id, e.oma_id) e es h.listed (h.has_kind, refl))).0

IsEntry-IsMapped :
    (es : List Entry) (kind : Kind) (id : ℕ) (e : Entry)
    → All FitsInt32 es
    → IsUnambiguous es
    → IsEntry es kind id e
    → IsMapped (load (pairs_of kind es) empty) id
IsEntry-IsMapped es kind id e fits o h =
    let found = IsEntry-finds es kind id e o h in
    (h.small, (λ q. h.has_oma_id (sym found ∙ q)), rw found (All-Memᴰ FitsInt32 es fits h.listed).1)

module _ (types : TypeMap) (lib : Libcoap) (dynamic_index : ℕ → ℕ)
    (cluster_id attribute_id : ℕ) where
  -- A write of the attribute puts to the path at the device, and a server that gets a payload on the
  -- path schedules a write of that attribute.
  abbrev pub Writes :
      Bytes
      → MatterIpsoMapping
      → MatterIpsoMapping
      → Devices
      → ℕ
      → ℕ
      → ℕ
      → Bytes
      → Bytes
      → Client
      → Type 0
  Writes path matter_mapping coap_mapping devices fuel endpoint size buffer payload c =
      (ember_af_external_attribute_write_callback lib matter_mapping devices dynamic_index fuel
          endpoint cluster_id attribute_id size buffer c
        ≡ (if ltb (dynamic_index endpoint) (length devices)
            then success (coap_client_put_payload lib fuel (device_uri ++ path) buffer size c)
            else failure))
      × (forward_attribute_write_message coap_mapping types path payload ≡ (
          load_data (find Bytes_discrete path types) payload >>= λ content.
          ok (record new_command_data {
            attribute_id = attribute_id;
            cluster_id = cluster_id;
            write_attribute = true;
            content = content;
          })))

module _ (es : List Entry) (m : MatterIpsoMapping) (fits : All FitsInt32 es)
    (maps : generate_matter_ipso_mapping (encode es) ≡ ok m) where
  is_loaded : m ≡ load_entries es no_mapping
  is_loaded = let e = sym maps ∙ generate_matter_ipso_mapping-encode es fits in cc

  is_consistent : IsConsistent m
  is_consistent = let h = generate_matter_ipso_mapping-IsConsistent (encode es) in rw maps at h

  module _ (types : TypeMap) (lib : Libcoap) (dynamic_index : ℕ → ℕ) (o : IsUnambiguous es)
      (cluster_id attribute_id : ℕ) (e f : Entry) (object : IsEntry es sdf_object cluster_id e)
      (resource : IsEntry es sdf_property attribute_id f) where
    mapping-Writes :
        (devices : Devices) (fuel endpoint size : ℕ) (buffer payload : Bytes) (c : Client)
        → Writes types lib dynamic_index cluster_id attribute_id
            (resource_uri e.oma_id f.oma_id)
            m
            m
            devices
            fuel
            endpoint
            size
            buffer
            payload
            c
    mapping-Writes devices fuel endpoint size buffer payload c =
        let path : attribute_path m types cluster_id attribute_id ≡ resource_uri e.oma_id f.oma_id =
          rw
            (
              is_loaded,
              IsEntry-finds es sdf_object cluster_id e o object,
              IsEntry-finds es sdf_property attribute_id f o resource,
            )
            refl in
        let writes : Writes types lib dynamic_index cluster_id attribute_id
            (attribute_path m types cluster_id attribute_id) m m devices fuel endpoint size buffer
            payload c =
          write_callback-arrives m types lib devices dynamic_index fuel endpoint cluster_id
            attribute_id size buffer payload c is_consistent
            (rw is_loaded (IsEntry-IsMapped es sdf_object cluster_id e fits o object))
            (rw is_loaded (IsEntry-IsMapped es sdf_property attribute_id f fits o resource)) in
        rw path at writes

module _ {Table Entries Bindings : Type 0} (env : Environment Table) (es : List Entry)
    (m : MatterIpsoMapping) (types : TypeMap) (dynamic_index : ℕ → ℕ) where
  -- From the mapping file to the wire: when every download brings the same file of entries, whose ids
  -- are `int`s and of which no two of one kind share an id, the parser and the converter take it, the
  -- SDK accepts the endpoints, and the client is idle, `InitServer` comes to its end; and behind it a
  -- write of an attribute that an entry of the file is about, in a cluster that an entry is about, puts
  -- the attribute's bytes to the LwM2M ids of the two entries, or fails where the endpoint is out of
  -- range, and a payload that the server gets on that path is scheduled as a write of that cluster and
  -- attribute; for ids of 32 bits and LwM2M ids other than -1.
  pub init_server-Writes :
      (payload : Bytes) (b : Bridge Table Entries Bindings)
      (fuel endpoint cluster_id attribute_id size : ℕ) (buffer content : Bytes) (e f : Entry)
      → IsWorking env payload (encode es) m
      → IsIdle b.custom.client
      → All FitsInt32 es
      → IsUnambiguous es
      → IsEntry es sdf_object cluster_id e
      → IsEntry es sdf_property attribute_id f
      → (b' : Bridge Table Entries Bindings) × (init_server env b ≡ done b')
        × Writes types env.lib dynamic_index cluster_id attribute_id
            (resource_uri e.oma_id f.oma_id)
            b'.matter_mapping
            b'.coap_mapping
            b'.custom.endpoints.g_devices
            fuel
            endpoint
            size
            buffer
            content
            b'.custom.client
  init_server-Writes payload b fuel endpoint cluster_id attribute_id size buffer content e f working
        idle fits o object resource =
      let (b', ends, coap, matter, _, _) =
        init_server_ends env payload (encode es) m working b idle in
      (
        b',
        ends,
        rw (coap, matter)
            (mapping-Writes es m fits working.maps types env.lib dynamic_index o cluster_id
              attribute_id e f object resource b'.custom.endpoints.g_devices fuel endpoint size
              buffer content b'.custom.client),
      )
