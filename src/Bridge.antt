-- ===== src/Bridge.antt =====
-- The Matter side of the bridge in main/main.cpp: the attribute callbacks of the external attributes
-- and the command callback, which turn interactions into CoAP requests.
pub mod Reaching
pub mod Reading
pub mod Endpoints
pub mod Placing
pub mod Searching
use matter_lwm2m_bridge.Base.{
  ℕ, ℤ, pos, Option, none, some, List, length, get_elem?, ◌++◌, ltb, if◌then◌else◌,
}
use matter_lwm2m_bridge.Text.{Bytes, codes, to_string}
use matter_lwm2m_bridge.BiMap.{get_ipso_id}
use matter_lwm2m_bridge.Mapping.{MatterIpsoMapping, wrap_int32}
use matter_lwm2m_bridge.Client.Library.{Libcoap}
use matter_lwm2m_bridge.Client.State.{Client, Run, Buffer}
use matter_lwm2m_bridge.Client.Requests.{
  coap_client_put, coap_client_get_answer, coap_client_put_payload,
}

-- The address of the LwM2M device.
abbrev pub device_uri : Bytes
device_uri = codes "coap://[fd73:13f6:c3ed:1:d8bd:9673:d9cd:a562]:5184/"

-- The target that is built of the translated ids.
unfoldable pub target_of : ℤ → ℤ → Bytes
target_of ipso_object_id ipso_resource_id =
    device_uri ++ to_string ipso_object_id ++ codes "/0/" ++ to_string ipso_resource_id

-- The status of an interaction, with the exchange that was made for it.
pub data InteractionResult : Type 0 where
  failure : InteractionResult
  success : Run → InteractionResult

-- `gDevices`, with `none` for a null pointer.
abbrev pub Devices : Type 0
Devices = List (Option ℕ)

-- An id of 32 bits passed as an `int`.
abbrev pub int_of_id : ℕ → ℤ
int_of_id id = wrap_int32 (pos id)

-- `dynamic_index` is the Matter SDK's `emberAfGetDynamicIndexFromEndpoint`.
module _ (lib : Libcoap) (matter_mapping : MatterIpsoMapping) (g_devices : Devices)
    (dynamic_index : ℕ → ℕ) where
  abbrev attribute_target : ℕ → ℕ → Bytes
  attribute_target cluster_id attribute_id =
      target_of (get_ipso_id (int_of_id cluster_id) matter_mapping.cluster_object_map)
        (get_ipso_id (int_of_id attribute_id) matter_mapping.attribute_resource_map)

  abbrev command_target : ℕ → ℕ → Bytes
  command_target cluster_id command_id =
      target_of (get_ipso_id (int_of_id cluster_id) matter_mapping.cluster_object_map)
        (get_ipso_id (int_of_id command_id) matter_mapping.command_resource_map)

  -- An index out of range and a null pointer are refused alike.
  unfoldable pub ember_af_external_attribute_read_callback :
      ℕ → ℕ → ℕ → ℕ → Buffer → ℕ → Client → InteractionResult
  ember_af_external_attribute_read_callback fuel endpoint cluster_id attribute_id buffer
        max_read_length c =
      elim (get_elem? g_devices (dynamic_index endpoint)) [
        | some (some _) ↦ success (
            coap_client_get_answer lib fuel (attribute_target cluster_id attribute_id) buffer
              max_read_length c)
        | _ ↦ failure
      ]

  -- The write tests the index alone. `size` is the size of the attribute's metadata.
  unfoldable pub ember_af_external_attribute_write_callback :
      ℕ → ℕ → ℕ → ℕ → ℕ → Bytes → Client → InteractionResult
  ember_af_external_attribute_write_callback fuel endpoint cluster_id attribute_id size buffer c =
      if ltb (dynamic_index endpoint) (length g_devices)
      then success (
          coap_client_put_payload lib fuel (attribute_target cluster_id attribute_id) buffer size c)
      else failure

  -- A command is sent without its data.
  unfoldable pub ember_af_actions_cluster_instant_action_callback :
      ℕ → ℕ → ℕ → Client → InteractionResult
  ember_af_actions_cluster_instant_action_callback fuel cluster_id command_id c =
      success (coap_client_put lib fuel (command_target cluster_id command_id) c)
