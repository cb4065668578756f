-- ===== src/Server/Forward.antt =====
-- The server's way from the URI of a request to the data for a bound Matter device:
-- `ForwardAttributeWriteMessage`, `ForwardCommandMessage` and the PUT handlers.
use matter_lwm2m_bridge.Base.{
  ℕ, zero, suc, ◌+◌, ◌*◌, ℤ, to_unsigned, Bool, true, false, Option, none, some, List, [], ◌∷◌,
  ◌++◌, get_elem?, Result, ok, err, Fault, ◌>>=◌, find,
}
use mathlib.Core.Logic.{ite}
use matter_lwm2m_bridge.Text.{Bytes, codes, slash, Bytes_discrete, stoi, split_string}
use matter_lwm2m_bridge.BiMap.{get_matter_id}
use matter_lwm2m_bridge.Mapping.{MatterIpsoMapping}
use matter_lwm2m_bridge.Binding.{Data, uint16, boolean, BindingCommandData, new_command_data}

-- `type_map`, from the URI of a resource to its type.
abbrev pub TypeMap : Type 0
TypeMap = List (Bytes × Bytes)

-- `v.at(i)` of a vector, which throws past its end.
abbrev pub at_index : List Bytes → ℕ → Result Bytes
at_index v i = elim (get_elem? v i) [ none ↦ err Fault.out_of_range | some x ↦ ok x ]

-- The object id and the resource id: the first and the third part of the URI.
unfoldable pub ids_of_uri : Bytes → Result (ℤ × ℤ)
ids_of_uri uri = do
  let parts = split_string uri slash
  first ← at_index parts 0
  object_id ← stoi first
  third ← at_index parts 2
  resource_id ← stoi third
  ok (object_id, resource_id)

-- `*reinterpret_cast<bool *>(p)`: one byte, which has to be 0 or 1.
unfoldable pub load_bool : Bytes → Result Bool
load_bool [] = err Fault.undefined
load_bool (zero ∷ _) = ok false
load_bool (suc zero ∷ _) = ok true
load_bool (suc (suc _) ∷ _) = err Fault.undefined

-- `*reinterpret_cast<uint16_t *>(p)`: two bytes, the low one first.
unfoldable pub load_uint16 : Bytes → Result ℕ
load_uint16 (low ∷ high ∷ _) = ok (low + 256 * high)
load_uint16 _ = err Fault.undefined

-- The ladder over the type of the resource, `type_map.at(uri)`; another type leaves the data as it
-- was made, the number 0.
unfoldable pub load_data : Option Bytes → Bytes → Result Data
load_data none memory = err Fault.out_of_range
load_data (some type) memory =
    ite (Bytes_discrete type (codes "Boolean")) (do b ← load_bool memory; ok (boolean b))
      (ite (Bytes_discrete type (codes "Unsigned Integer"))
        (do n ← load_uint16 memory; ok (uint16 n)) (ok (uint16 0)))

module _ (coap_mapping : MatterIpsoMapping) (type_map : TypeMap) where
  -- The data that is scheduled for the binding handler.
  unfoldable pub forward_attribute_write_message : Bytes → Bytes → Result BindingCommandData
  forward_attribute_write_message uri payload = do
    (object_id, resource_id) ← ids_of_uri uri
    let cluster_id = get_matter_id object_id coap_mapping.cluster_object_map
    let attribute_id = get_matter_id resource_id coap_mapping.attribute_resource_map
    content ← load_data (find Bytes_discrete uri type_map) payload
    ok (record new_command_data {
      attribute_id = to_unsigned 32 attribute_id;
      cluster_id = to_unsigned 32 cluster_id;
      write_attribute = true;
      content = content;
    })

  unfoldable pub forward_command_message : Bytes → Result BindingCommandData
  forward_command_message uri = do
    (object_id, resource_id) ← ids_of_uri uri
    let cluster_id = get_matter_id object_id coap_mapping.cluster_object_map
    let command_id = get_matter_id resource_id coap_mapping.command_resource_map
    ok (record new_command_data {
      command_id = to_unsigned 32 command_id;
      cluster_id = to_unsigned 32 cluster_id;
    })

  -- The payload of the request, if it has one, is copied with a 0 behind it; a request without one is
  -- forwarded with an array of no bytes. The response code is 2.04 Changed.
  unfoldable pub hnd_attribute_put : Bytes → Option Bytes → Result BindingCommandData
  hnd_attribute_put uri none = forward_attribute_write_message uri []
  hnd_attribute_put uri (some payload) = forward_attribute_write_message uri (payload ++ 0 ∷ [])

  unfoldable pub hnd_command_put : Bytes → Result BindingCommandData
  hnd_command_put uri = forward_command_message uri
