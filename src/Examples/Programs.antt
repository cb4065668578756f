-- ===== src/Examples/Programs.antt =====
-- The start of the program of main/main.cpp with a small SDK.
use mathlib.Core.Path.{subst}
use matter_lwm2m_bridge.Base.{
  All, sym, ℕ, pos, ◌≡◌, refl, ◌∙◌, true, false, none, some, List, [], ◌∷◌, ◌++◌, length, arith,
  ◌∙◌,
}
use matter_lwm2m_bridge.Text.{codes}
use matter_lwm2m_bridge.Json.{Json}
use matter_lwm2m_bridge.Mapping.{MatterIpsoMapping, no_mapping}
use matter_lwm2m_bridge.Mapping.Encoded.{encode, load_entries, generate_matter_ipso_mapping-encode}
use matter_lwm2m_bridge.Binding.{BindingType, Peer, switch_worker_function}
use matter_lwm2m_bridge.Binding.Setup.{
  Work, init_server_work, init_binding_handler_work, switch_work,
}
use matter_lwm2m_bridge.Bridge.Endpoints.{status_success}
use matter_lwm2m_bridge.Client.Cleanup.{IsIdle}
use matter_lwm2m_bridge.Program.Flow.{done, IfDone}
use matter_lwm2m_bridge.Program.Converter.{MatterAttribute, MatterCluster, Converter}
use matter_lwm2m_bridge.Program.Declarations.{UtilityIds, custom_cluster}
use matter_lwm2m_bridge.Program.Attributes.{
  find_attribute, metadata_of, find_attribute-custom_cluster,
}
use matter_lwm2m_bridge.Program.Deploy.{Bridge, Environment, init_server}
use matter_lwm2m_bridge.Program.Mappings.{IsMappedBothWays, init_server-IsMappedBothWays}
use matter_lwm2m_bridge.Program.Success.{init_server_ends}
use matter_lwm2m_bridge.Program.Parts.{IsWorking}
use matter_lwm2m_bridge.Program.Works.{schedule_work, do_work, do_next, do_works}
use matter_lwm2m_bridge.Program.Works.Doing.{IsServed, do_next_cons}
use matter_lwm2m_bridge.Program.Works.Order.{booted, worked, switch_work_arrives}
use matter_lwm2m_bridge.Program.Works.Early.{switch_work_early}
use matter_lwm2m_bridge.Examples.Clients.{
  idle_client, idle_client-IsIdle, coap_with, coap_with-IsServing,
}
use matter_lwm2m_bridge.Examples.Maps.{two_entries}
use matter_lwm2m_bridge.Examples.Servers.{on_off_ids, one_light, light_toggle}

abbrev state_attribute : MatterAttribute
state_attribute = record { id = 0; type = codes "bool" }

abbrev level_attribute : MatterAttribute
level_attribute = record { id = 1; type = codes "uint16" }

abbrev light_cluster : MatterCluster
light_cluster = record {
  id = 6;
  attributes = state_attribute ∷ level_attribute ∷ [];
  client_commands = 0 ∷ 1 ∷ 2 ∷ [];
}

find_attribute-custom_cluster_example :
    find_attribute 1 (custom_cluster light_cluster).attributes ≡ metadata_of level_attribute
find_attribute-custom_cluster_example =
    find_attribute-custom_cluster light_cluster level_attribute (state_attribute ∷ []) [] refl
      ((λ e. omega (arith, e)), tt) tt (λ e. omega (arith, e)) (omega arith)

-- A converter that finds the one cluster.
abbrev one_cluster : Converter
one_cluster = record {
  SdfModel = Json;
  SdfMapping = Json;
  parse_sdf_model = λ j. some j;
  parse_sdf_mapping = λ j. some j;
  parse_cluster = λ x. light_cluster;
  parse_device = λ x. record { id = 0x100; name = codes "Light" };
  map_sdf_to_matter = λ model mapping clusters.
      (some (record { id = 0x100; name = codes "Light" }), light_cluster ∷ clusters);
  map_matter_to_sdf = λ device clusters sdf. sdf;
}

abbrev utility_ids : UtilityIds
utility_ids = record {
  descriptor = 0x1D;
  device_type_list = 0;
  server_list = 1;
  client_list = 2;
  parts_list = 3;
  bridged_device_basic_information = 0x39;
  node_label = 5;
  reachable = 17;
  binding = 0x1E;
  binding_list = 0;
  on_off = 6;
  on_off_attribute = 0;
  off_command = 0;
  on_command = 1;
  toggle_command = 2;
}

abbrev pub light_file : Json
light_file = encode two_entries

abbrev pub light_pairs : MatterIpsoMapping
light_pairs = load_entries two_entries no_mapping

-- The SDK's table as the list of the ids that were set.
abbrev pub working : Environment (List ℕ)
working = record {
  lib = coap_with (pos 20, some (codes "{}") ∷ []);
  parsers = record {
    parse = λ s. some light_file;
    load_buffer = λ s. idle_client.documents.cluster_xml;
  };
  converter = one_cluster;
  copy_string = λ n s. s;
  ids = utility_ids;
  endpoints = record {
    set_dynamic_endpoint = λ ep index id t. (status_success, id ∷ t);
    clear_dynamic_endpoint = λ index t. t;
    last_fixed_endpoint = 2;
    disable = λ id t. t;
    set_device_type_list = λ id types t. t;
  };
  clear = λ j. j;
  client_fuel = 2;
  endpoint_fuel = 1;
}

pub working-IsWorking : IsWorking working (codes "{}") light_file light_pairs
working-IsWorking = record {
  serves = coap_with-IsServing (some (codes "{}"));
  parses = refl;
  model = light_file;
  models = refl;
  mapping = light_file;
  mappings = refl;
  maps = generate_matter_ipso_mapping-encode two_entries (omega arith);
  accepts = λ ep index id t. refl;
  fuel = 0;
  client_fuel_enough = refl;
  rounds = 0;
  endpoint_fuel_enough = refl;
}

-- The state in which `app_main` has scheduled `InitServer`; the binding table is a list of numbers.
abbrev pub scheduled_start : Bridge (List ℕ) ℕ (List ℕ)
scheduled_start = record {
  custom = record {
    client = idle_client;
    client_cluster = none;
    custom_device = none;
    endpoints = record {
      g_devices = none ∷ none ∷ none ∷ [];
      g_current_endpoint_id = 0;
      endpoint_ids = [];
      table = [];
    };
  };
  converted_device = record { id = 0; name = [] };
  clusters = [];
  coap_mapping = no_mapping;
  matter_mapping = no_mapping;
  works = init_server_work ∷ [];
  manager = record {
    initialised = false;
    has_changed_handler = false;
    has_release_handler = false;
    bindings = [];
  };
  reactions = [];
  reported = [];
  server_tasks = 0;
}

init_server-IsMappedBothWays_example :
    IfDone
      (λ b'.
        IsMappedBothWays working b'
        × (b'.works ≡ init_server_work ∷ init_binding_handler_work ∷ [])
        × (b'.server_tasks ≡ 1))
      (init_server working scheduled_start)
init_server-IsMappedBothWays_example = init_server-IsMappedBothWays working scheduled_start

init_server_ends_example :
    (b' : Bridge (List ℕ) ℕ (List ℕ)) × (init_server working scheduled_start ≡ done b')
    × (b'.coap_mapping ≡ light_pairs)
    × (b'.matter_mapping ≡ light_pairs)
    × (b'.server_tasks ≡ 1)
    × IsIdle b'.custom.client
init_server_ends_example =
    init_server_ends working (codes "{}") light_file light_pairs working-IsWorking scheduled_start
      idle_client-IsIdle

-- The works that are there when `InitServer` is run, and the state behind it.
abbrev with_works : List (Work ℕ) → Bridge (List ℕ) ℕ (List ℕ)
with_works works = record scheduled_start { works = works }

abbrev behind : List (Work ℕ) → Bridge (List ℕ) ℕ (List ℕ)
behind works =
    (init_server_ends working (codes "{}") light_file light_pairs working-IsWorking
      (with_works works) idle_client-IsIdle).0

abbrev bound_lights : List ℕ → ℕ → ℕ → List (BindingType × Peer)
bound_lights bindings = one_light

abbrev add_number : ℕ → List ℕ → List ℕ
add_number entry bindings = entry ∷ bindings

behind-do_next :
    (works : List (Work ℕ))
    → do_next working on_off_ids bound_lights add_number (with_works (init_server_work ∷ works))
      ≡ done (behind works)
unfolding do_work
behind-do_next works =
    do_next_cons working on_off_ids bound_lights add_number (with_works (init_server_work ∷ works))
      init_server_work works refl
    ∙ (init_server_ends working (codes "{}") light_file light_pairs working-IsWorking
        (with_works works) idle_client-IsIdle).1

abbrev press_work : Work ℕ
press_work = switch_work (some light_toggle)

behind-works : (behind []).works ≡ init_binding_handler_work ∷ []
behind-works =
    (subst
      (IfDone (λ b'.
        IsMappedBothWays working b'
        × (b'.works ≡ init_binding_handler_work ∷ [])
        × (b'.server_tasks ≡ 1)))
      (init_server_ends working (codes "{}") light_file light_pairs working-IsWorking
        (with_works []) idle_client-IsIdle).1
      (init_server-IsMappedBothWays working (with_works []))).1

switch_work_arrives_example :
    (b' : Bridge (List ℕ) ℕ (List ℕ)) × (do_works working on_off_ids bound_lights add_number
        (length (behind []).works)
        (schedule_work press_work (behind []))
      ≡ done b')
    × (b'.works ≡ press_work ∷ [])
    × (b'.manager.initialised ≡ true)
    × (do_next working on_off_ids bound_lights add_number b'
        ≡ done (record b' {
          works = [];
          reactions =
              b'.reactions ++ switch_worker_function on_off_ids one_light (some light_toggle);
        }))
switch_work_arrives_example =
    switch_work_arrives working on_off_ids bound_lights add_number (some light_toggle) (behind [])
      (worked (booted refl) (behind-do_next []))
      (subst (All (IsServed working on_off_ids bound_lights add_number)) (sym behind-works)
        (tt, tt))
      (λ bindings. ((λ e. refl), tt))

switch_work_early_example :
    (b₂ : Bridge (List ℕ) ℕ (List ℕ)) × (do_next working on_off_ids bound_lights add_number
        (behind (press_work ∷ []))
      ≡ done b₂)
    × (b₂.reactions ≡ [])
    × (b₂.works ≡ init_binding_handler_work ∷ [])
    × (b₂.manager.initialised ≡ false)
unfolding schedule_work
switch_work_early_example =
    switch_work_early working on_off_ids bound_lights add_number (some light_toggle) scheduled_start
      (behind (press_work ∷ [])) refl refl (behind-do_next (press_work ∷ []))
