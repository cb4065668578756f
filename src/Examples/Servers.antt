-- ===== src/Examples/Servers.antt =====
-- The server of main/CoapServer.cpp with a small resource table, and the devices bound to its data.
use mathlib.Core.Logic.{ite}
use matter_lwm2m_bridge.Base.{
  ◌↔◌, ◌==◌, Bool, ℕ, zero, suc, ◌≡◌, refl, pos, true, ◌||◌, Option, none, some, List, [], ◌∷◌, All,
  arith, find, ok, err, Fault, if◌then◌else◌, replicate,
}
use matter_lwm2m_bridge.Text.{Bytes, codes, Bytes_discrete, index_of}
use matter_lwm2m_bridge.BiMap.{empty, insert}
use matter_lwm2m_bridge.Mapping.{MatterIpsoMapping, no_mapping}
use matter_lwm2m_bridge.Binding.{
  Data, uint16, BindingCommandData, new_command_data, OnOffIds, BindingType, unicast, Peer, ready,
  switch_worker_function,
}
use matter_lwm2m_bridge.Binding.Safety.{IsSafe, IsServable, switch_worker_function-IsSafe}
use matter_lwm2m_bridge.Server.Forward.{TypeMap, ids_of_uri}
use matter_lwm2m_bridge.Server.Read.{hnd_attribute_get, print_result}
use matter_lwm2m_bridge.Server.Polling.{hnd_attribute_get-timeout, hnd_attribute_get-stale}
use matter_lwm2m_bridge.Server.Register.{
  Method, get, Handler, CoapResources, ResourceDefinition, ObjectDefinition, has_operation,
  resource_uri, ServerState, generate_coap_resource, same_method,
}
use matter_lwm2m_bridge.Server.Routes.{served, ids_of_uri-resource_uri}
use matter_lwm2m_bridge.Server.Startup.{
  Starting, Startup, Serving, serving, init_server, start_server, start_server-init_server,
}
use matter_lwm2m_bridge.Server.Serving.{handler_at, type_at, generate_coap_resource-serves}

abbrev pub light_mapping : MatterIpsoMapping
light_mapping = record no_mapping {
  cluster_object_map = insert (pos 6) (pos 3311) empty;
  attribute_resource_map = insert (pos 0) (pos 5850) empty;
  command_resource_map = insert (pos 2) (pos 5823) empty;
}

abbrev pub light_uri : Bytes
light_uri = resource_uri (pos 3311) (pos 5850)

abbrev pub light_types : TypeMap
light_types = (light_uri, codes "Boolean") ∷ []

pub light_ids : ids_of_uri light_uri ≡ ok (pos 3311, pos 5850)
light_ids = ids_of_uri-resource_uri (pos 3311) (pos 5850) (omega arith) (omega arith)

pub light_type : find Bytes_discrete light_uri light_types ≡ some (codes "Boolean")
unfolding find
light_type = ground arith

-- `coap_encode_var_safe` for the two options.
abbrev pub encode_var : ℕ → Bytes
encode_var zero = []
encode_var (suc n) = suc n ∷ []

abbrev pub stack : Bytes
stack = replicate 40 0

-- The device answers during the third sleep.
abbrev pub third : ℕ → Option Data
third (suc (suc zero)) = some (uint16 2200)
third _ = none

hnd_attribute_get-timeout_example :
    hnd_attribute_get light_mapping light_types (λ n. none) encode_var light_uri stack none
    ≡ err Fault.undefined
hnd_attribute_get-timeout_example =
    hnd_attribute_get-timeout light_mapping light_types (λ n. none) encode_var light_uri stack
      (codes "Boolean") (pos 3311, pos 5850) (refl, refl) refl light_ids light_type
      (refl, (refl, (refl, (refl, (refl, (refl, (refl, (refl, (refl, (refl, tt))))))))))

hnd_attribute_get-stale_example :
    hnd_attribute_get light_mapping light_types third encode_var light_uri stack (some (uint16 7))
    ≡ ok (print_result (uint16 7), none)
hnd_attribute_get-stale_example =
    hnd_attribute_get-stale light_mapping light_types third encode_var light_uri stack
      (codes "Boolean") (pos 3311, pos 5850) (uint16 7) (refl, refl) refl light_ids light_type refl
      (omega arith)

-- The SDK's ids of the On/Off cluster, and one bound light.
abbrev pub on_off_ids : OnOffIds
on_off_ids = record { on_off = 6; toggle = 2; on = 1; off = 0 }

abbrev pub one_light : ℕ → ℕ → List (BindingType × Peer)
one_light endpoint cluster = (unicast, ready) ∷ []

abbrev pub light_toggle : BindingCommandData
light_toggle = record new_command_data { command_id = 2; cluster_id = 6 }

switch_worker_function-IsSafe_example :
    (All IsSafe (switch_worker_function on_off_ids one_light (some light_toggle))
      ↔ All (IsServable on_off_ids light_toggle) (one_light 2 6))
    × (switch_worker_function on_off_ids one_light none ≡ [])
switch_worker_function-IsSafe_example =
    switch_worker_function-IsSafe on_off_ids one_light light_toggle

-- The handler that the first resource with the path has.
abbrev lookup_in : Bytes → Method → List (Bytes × (Method → Option Handler)) → Option Handler
lookup_in uri m [] = none
lookup_in uri m (r ∷ rs) = ite (Bytes_discrete r.0 uri) (r.1 m) (lookup_in uri m rs)

-- Resources as functions from methods to handlers, and contexts as lists of them.
abbrev pub list_coap : CoapResources
list_coap = record {
  Resource = Bytes × (Method → Option Handler);
  Context = List (Bytes × (Method → Option Handler));
  resource_init = λ uri. (uri, λ m. none);
  register_handler = λ m h r. (r.0, λ n. if same_method m n then some h else r.1 n);
  add_resource = λ r c. r ∷ c;
  path_of = λ r. r.0;
  handler_of = λ m r. r.1 m;
  lookup = lookup_in;
  path_of_init = λ uri. refl;
  path_of_register = λ m h r. refl;
  handler_of_init = λ m uri. refl;
  handler_of_register = λ n m h r. refl;
  lookup_add = λ uri m r c. refl;
}

abbrev pub light_state : ResourceDefinition
light_state = record {
  id = pos 5850;
  name = codes "On/Off";
  type = codes "Boolean";
  operations = codes "RW";
  instance_mandatory = true;
  state = [];
}

abbrev pub light_object : ObjectDefinition
light_object = record { id = pos 3311; name = codes "Light Control"; resources = light_state ∷ [] }

abbrev pub no_resources : ServerState list_coap
no_resources = record { coap_ctx = []; type_map = [] }

generate_coap_resource-serves_example :
    (handler_at list_coap light_uri get (generate_coap_resource list_coap light_object no_resources)
      ≡ served
          (has_operation b'R' light_state)
          (has_operation b'W' light_state)
          (has_operation b'E' light_state)
          get)
    × ((has_operation b'R' light_state || has_operation b'W' light_state) ≡ true
        → type_at list_coap light_uri (generate_coap_resource list_coap light_object no_resources)
          ≡ some (codes "Boolean"))
generate_coap_resource-serves_example =
    generate_coap_resource-serves list_coap light_object [] [] light_state get no_resources refl
      (omega arith) (omega arith) tt (unfold index_of in refl)

-- A board whose two addresses can be listened on, but for the first.
abbrev pub second_address : Starting
second_address = record {
  new_context = some 9;
  resolve_local = λ s. 1 ∷ 2 ∷ [];
  new_endpoint = λ k a. a == 2;
}

abbrev pub not_started : Startup
not_started = record { coap_ctx = none; freed = []; startups = 0; cleanups = 0 }

start_server-init_server_example :
    let (done, s') = init_server second_address (codes "fd73::1") not_started in
    ◌≡◌ {A = Bool × Serving} (done, start_server s') (true, serving 9)
start_server-init_server_example =
    start_server-init_server second_address (codes "fd73::1") not_started refl
