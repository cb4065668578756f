-- ===== src/Examples/Bridges.antt =====
-- The callbacks and the endpoints of main/main.cpp.
use matter_lwm2m_bridge.Base.{
  ℕ, ◌≡◌, ◌≢◌, refl, ℤ_discrete, pos, Bool, true, false, none, some, List, [], ◌∷◌, ◌++◌, arith,
  find, put, ok, if◌then◌else◌, ◌==◌,
}
use matter_lwm2m_bridge.Text.{codes}
use matter_lwm2m_bridge.BiMap.{empty, insert, get_ipso_id}
use matter_lwm2m_bridge.BiMap.Inverse.{empty-IsInverse, insert-IsInverse}
use matter_lwm2m_bridge.Mapping.Lookup.{IsConsistent}
use matter_lwm2m_bridge.Binding.{new_command_data}
use matter_lwm2m_bridge.Client.Requests.{coap_client_put}
use matter_lwm2m_bridge.Server.Forward.{hnd_command_put}
use matter_lwm2m_bridge.Bridge.{
  device_uri, success, Devices, ember_af_actions_cluster_instant_action_callback,
}
use matter_lwm2m_bridge.Bridge.Reaching.{
  IsMapped, attribute_path, command_path, command_callback-arrives,
}
use matter_lwm2m_bridge.Bridge.Reading.{ReadsFrom, read_callback-arrives}
use matter_lwm2m_bridge.Binding.{uint16}
use matter_lwm2m_bridge.Client.Library.{Libcoap}
use matter_lwm2m_bridge.Client.Answer.{write_answer}
use matter_lwm2m_bridge.Client.Storing.{Gives}
use matter_lwm2m_bridge.Client.Requests.{coap_client_get_answer}
use matter_lwm2m_bridge.Server.Read.{
  overwrite, print_result, forward_attribute_read_message, hnd_attribute_get,
}
use matter_lwm2m_bridge.Base.{IfOk}
use matter_lwm2m_bridge.Bridge.{ember_af_external_attribute_read_callback}
use matter_lwm2m_bridge.Bridge.Endpoints.{
  EmberAfStatus, status_success, duplicate_exists, no_error, internal, EndpointState, searching,
  add_device_endpoint, remove_device_endpoint,
}
use matter_lwm2m_bridge.Bridge.Placing.{
  place, has_free, Leaves, add_device_endpoint-Leaves, remove_device_endpoint-place,
}
use matter_lwm2m_bridge.Bridge.Searching.{add_device_endpoint-returns}
use matter_lwm2m_bridge.Examples.Clients.{
  quiet_coap, idle_client, coap_with, coap_with-IsServing, some_buffer,
}
use matter_lwm2m_bridge.Examples.Servers.{
  light_mapping, light_types, light_type, encode_var, stack, third, on_off_ids,
}
use matter_lwm2m_bridge.Binding.{
  boolean, BindingCommandData, BindingType, unicast, multicast, Peer, ready, no_peer,
  toggle_command, until_end, switch_worker_function,
}
use matter_lwm2m_bridge.Binding.Handling.{bytes_of, write_reaction, known, command_reaction}
use matter_lwm2m_bridge.Binding.Dispatch.{hnd_attribute_put-writes, hnd_command_put-invokes}
use matter_lwm2m_bridge.Server.Forward.{hnd_attribute_put}
use matter_lwm2m_bridge.Base.{map}

light_mapping-IsConsistent : IsConsistent light_mapping
light_mapping-IsConsistent = record {
  clusters = insert-IsInverse (pos 6) (pos 3311) empty empty-IsInverse;
  attributes = insert-IsInverse (pos 0) (pos 5850) empty empty-IsInverse;
  commands = insert-IsInverse (pos 2) (pos 5823) empty empty-IsInverse;
  events = empty-IsInverse;
}

on_off-IsMapped : IsMapped light_mapping.cluster_object_map 6
unfolding insert get_ipso_id find put ℤ_discrete
on_off-IsMapped = (omega arith, (λ e. cc), omega arith)

state-IsMapped : IsMapped light_mapping.attribute_resource_map 0
unfolding insert get_ipso_id find put ℤ_discrete
state-IsMapped = (omega arith, (λ e. cc), omega arith)

toggle-IsMapped : IsMapped light_mapping.command_resource_map 2
unfolding insert get_ipso_id find put ℤ_discrete
toggle-IsMapped = (omega arith, (λ e. cc), omega arith)

abbrev one_device : Devices
one_device = some 7 ∷ none ∷ []

command_callback-arrives_example :
    let path = command_path light_mapping light_types 6 2 in
    (ember_af_actions_cluster_instant_action_callback quiet_coap light_mapping one_device
        (λ e. e)
        10
        6
        2
        idle_client
      ≡ success (coap_client_put quiet_coap 10 (device_uri ++ path) idle_client))
    × (hnd_command_put light_mapping light_types path
        ≡ ok (record new_command_data { command_id = 2; cluster_id = 6 }))
command_callback-arrives_example =
    command_callback-arrives light_mapping light_types quiet_coap one_device (λ e. e) 10 6 2
      idle_client light_mapping-IsConsistent on_off-IsMapped toggle-IsMapped

-- An SDK whose table is the list of the ids in use.
abbrev is_used : ℕ → List ℕ → Bool
is_used id [] = false
is_used id (j ∷ ids) = if j == id then true else is_used id ids

abbrev set_id : ℕ → ℕ → List ℕ → EmberAfStatus × List ℕ
set_id index id table =
    if is_used id table then (duplicate_exists, table) else (status_success, id ∷ table)

abbrev clear_id : ℕ → List ℕ → List ℕ
clear_id index table = table

abbrev before_adding : EndpointState (List ℕ)
before_adding = record {
  g_devices = one_device;
  g_current_endpoint_id = 3;
  endpoint_ids = [];
  table = 3 ∷ [];
}

set_id-keeps :
    (index id : ℕ) (table : List ℕ)
    → (set_id index id table).0 ≡ duplicate_exists
    → (set_id index id table).1 ≡ table
set_id-keeps index id table h = ground arith

add_device_endpoint-Leaves_example :
    Leaves (place 8 one_device) (add_device_endpoint set_id clear_id 3 5 8 before_adding)
add_device_endpoint-Leaves_example = add_device_endpoint-Leaves set_id clear_id 3 5 8 before_adding

remove_device_endpoint-place_example :
    let (error, s') =
      remove_device_endpoint set_id clear_id 3 8
        (record before_adding { g_devices = place 8 one_device }) in
    (error ≡ (if has_free one_device then no_error else internal)) × (s'.g_devices ≡ one_device)
remove_device_endpoint-place_example =
    remove_device_endpoint-place set_id clear_id 3 8 one_device
      (record before_adding { g_devices = place 8 one_device }) refl (ground arith)

add_device_endpoint-returns_example :
    add_device_endpoint set_id clear_id 3 65536 8 before_adding ≢ searching
add_device_endpoint-returns_example =
    add_device_endpoint-returns set_id clear_id 3 65536 8 before_adding 4 set_id-keeps (omega arith)
      (omega arith) (omega arith) (omega arith) (omega arith) (λ i e. cc)

-- A library that brings the text of the value that `third` answers.
abbrev value_coap : Libcoap
value_coap = coap_with (pos 20, some (print_result (uint16 2200)) ∷ [])

read_callback-arrives_example :
    let path = attribute_path light_mapping light_types 6 0 in
    let run = coap_client_get_answer value_coap 2 (device_uri ++ path) some_buffer 2 idle_client in
    IfOk (ReadsFrom 6 0) (
      forward_attribute_read_message light_mapping light_types third path
        (overwrite (encode_var 1) (overwrite (encode_var 0) stack))
        40
        none)
    × (hnd_attribute_get light_mapping light_types third encode_var path stack none
        ≡ ok (print_result (uint16 2200), none))
    × (ember_af_external_attribute_read_callback value_coap light_mapping one_device
          (λ e. 0)
          2
          3
          6
          0
          some_buffer
          2
          idle_client
        ≡ success run)
    × Gives idle_client.documents (write_answer (print_result (uint16 2200)) some_buffer) run
unfolding insert get_ipso_id find put ℤ_discrete
read_callback-arrives_example =
    read_callback-arrives light_mapping light_types third value_coap one_device (λ e. 0) encode_var
      0 3 6 0 2 7 2 some_buffer idle_client stack (codes "Boolean") (uint16 2200)
      light_mapping-IsConsistent on_off-IsMapped state-IsMapped refl (refl, refl) refl light_type
      (omega arith) (refl, (refl, refl)) (omega arith) refl
      (coap_with-IsServing (some (print_result (uint16 2200))))

-- A light and a group, for which there is no device.
abbrev light_then_group : ℕ → ℕ → List (BindingType × Peer)
light_then_group endpoint cluster = (unicast, ready) ∷ (multicast, no_peer) ∷ []

hnd_attribute_put-writes_example :
    (d : BindingCommandData) × (hnd_attribute_put light_mapping light_types
        (attribute_path light_mapping light_types 6 0)
        (some (bytes_of (boolean true) ++ []))
      ≡ ok d)
    × (switch_worker_function on_off_ids light_then_group (some d)
        ≡ until_end (map (write_reaction 6 0 (boolean true)) (light_then_group 2 6)))
unfolding insert get_ipso_id find put ℤ_discrete
hnd_attribute_put-writes_example =
    hnd_attribute_put-writes on_off_ids light_then_group light_mapping light_types 6 0
      (boolean true) [] light_mapping-IsConsistent on_off-IsMapped state-IsMapped light_type

hnd_command_put-invokes_example :
    (d : BindingCommandData) × (hnd_command_put light_mapping light_types
        (command_path light_mapping light_types 6 2)
      ≡ ok d)
    × (switch_worker_function on_off_ids light_then_group (some d)
        ≡ until_end (map (command_reaction (known toggle_command)) (light_then_group 2 6)))
hnd_command_put-invokes_example =
    hnd_command_put-invokes on_off_ids light_then_group light_mapping light_types 6 2
      (known toggle_command) light_mapping-IsConsistent on_off-IsMapped toggle-IsMapped
      ((λ e. omega (arith, e)), (λ e. omega (arith, e)), (λ e. omega (arith, e))) (refl, refl)
