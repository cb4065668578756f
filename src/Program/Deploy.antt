-- ===== src/Program/Deploy.antt =====
-- `ConvertAndDeployMatter` and `InitServer` of main/main.cpp.
use matter_lwm2m_bridge.Base.{ℕ, suc, ◌+◌, ◌%◌, List, [], ◌∷◌}
use matter_lwm2m_bridge.Text.{Bytes, codes}
use matter_lwm2m_bridge.Json.{Json}
use matter_lwm2m_bridge.Devices.{Report}
use matter_lwm2m_bridge.Mapping.{MatterIpsoMapping, generate_matter_ipso_mapping}
use matter_lwm2m_bridge.Binding.{Reaction}
use matter_lwm2m_bridge.Binding.Setup.{Work, BindingManager, init_binding_handler}
use matter_lwm2m_bridge.Bridge.Endpoints.{EmberAfStatus, endpoint_mod}
use matter_lwm2m_bridge.Client.Library.{Libcoap}
use matter_lwm2m_bridge.Client.State.{Client, Documents}
use matter_lwm2m_bridge.Client.Requests.{
  Parsers, load_sdf_model_file, load_sdf_mapping_lwm2m_file, load_sdf_mapping_matter_file,
}
use matter_lwm2m_bridge.Program.Flow.{Flow, done, ◌>>=◌, finished, checked}
use matter_lwm2m_bridge.Program.Converter.{
  MatterCluster, MatterDevice, Converter, convert_sdf_to_matter,
}
use matter_lwm2m_bridge.Program.Declarations.{
  EndpointType, UtilityIds, bridged_light_endpoint, device_version_default,
}
use matter_lwm2m_bridge.Program.Custom.{CustomState, create_custom_device, add_endpoint}

-- The state of the program's start: what `CreateCustomDevice` works on, the statics of
-- `ConvertAndDeployMatter`, the two mappings, the works of the Matter thread that wait, the binding
-- manager, what bound devices were sent, the attributes reported, and the number of server tasks that were created.
pub record Bridge (Table Entry Bindings : Type 0) : Type 0 where
  pub custom : CustomState Table
  pub converted_device : MatterDevice
  pub clusters : List MatterCluster
  pub coap_mapping : MatterIpsoMapping
  pub matter_mapping : MatterIpsoMapping
  pub works : List (Work Entry)
  pub manager : BindingManager Bindings
  pub reactions : List Reaction
  pub reported : List Report
  pub server_tasks : ℕ

-- The part of the Matter SDK that `InitServer` calls for the endpoints.
pub record EndpointApi (Table : Type 0) : Type 0 where
  pub set_dynamic_endpoint : EndpointType → ℕ → ℕ → Table → EmberAfStatus × Table
  pub clear_dynamic_endpoint : ℕ → Table → Table
  pub last_fixed_endpoint : ℕ
  pub disable : ℕ → Table → Table
  pub set_device_type_list : ℕ → List (ℕ × ℕ) → Table → Table

-- What the program is linked with.
pub record Environment (Table : Type 0) : Type 1 where
  pub lib : Libcoap
  pub parsers : Parsers
  pub converter : Converter
  pub copy_string : ℕ → Bytes → Bytes
  pub ids : UtilityIds
  pub endpoints : EndpointApi Table
  -- `json::clear()`
  pub clear : Json → Json
  pub client_fuel : ℕ
  pub endpoint_fuel : ℕ

-- The files that the start loads.
abbrev pub sdf_model_uri : Bytes
sdf_model_uri = codes "coap://[2a02:8109:c40:7cc6:8150:45c1:c796:5026]:5683/sdf/sdf-model"

abbrev pub sdf_mapping_uri : Bytes
sdf_mapping_uri = codes "coap://[2a02:8109:c40:7cc6:8150:45c1:c796:5026]:5683/sdf/sdf-mapping"

abbrev pub lwm2m_to_matter_uri : Bytes
lwm2m_to_matter_uri =
    codes "coap://[2a02:8109:c40:7cc6:8150:45c1:c796:5026]:5683/sdf/sdf-lwm2m-to-matter-merged"

abbrev pub matter_to_lwm2m_uri : Bytes
matter_to_lwm2m_uri =
    codes "coap://[2a02:8109:c40:7cc6:8150:45c1:c796:5026]:5683/sdf/sdf-matter-to-lwm2m-merged"

-- The number that stands for the address of `gLight1`.
abbrev pub light_address : ℕ
light_address = 1

abbrev pub device_type_root_node : ℕ
device_type_root_node = 0x0016

abbrev pub device_type_bridge : ℕ
device_type_bridge = 0x000e

abbrev with_documents : (Documents → Documents) → Client → Client
with_documents f c = record c { documents = f c.documents }

module _ {Table : Type 0} (env : Environment Table) where
  open env use {
    lib, parsers, converter, copy_string, ids, endpoints, clear, client_fuel, endpoint_fuel,
  }
  open endpoints use {
    set_dynamic_endpoint, clear_dynamic_endpoint, last_fixed_endpoint, disable,
    set_device_type_list,
  }

  -- An endpoint id has 16 bits.
  abbrev pub first_dynamic_endpoint_id : ℕ
  first_dynamic_endpoint_id = (last_fixed_endpoint + 1) % endpoint_mod

  module _ {Entry Bindings : Type 0} where
    -- The delays and the messages are left out.
    unfoldable pub convert_and_deploy_matter :
        Bridge Table Entry Bindings → Flow (Bridge Table Entry Bindings)
    unfolding create_custom_device convert_sdf_to_matter
    convert_and_deploy_matter b = do
      c₁ ← finished (load_sdf_model_file lib parsers client_fuel sdf_model_uri b.custom.client)
      c₂ ← finished (load_sdf_mapping_matter_file lib parsers client_fuel sdf_mapping_uri c₁)
      (device, clusters) ←
          convert_sdf_to_matter converter c₂.documents.sdf_model_file
            c₂.documents.sdf_mapping_matter_file (b.converted_device, b.clusters)
      let c₃ =
          with_documents
            (λ d. record d {
              sdf_model_file = clear d.sdf_model_file;
              sdf_mapping_matter_file = clear d.sdf_mapping_matter_file;
            })
            c₂
      (_, custom) ←
          create_custom_device lib parsers converter copy_string ids set_dynamic_endpoint
            clear_dynamic_endpoint first_dynamic_endpoint_id client_fuel endpoint_fuel device
            clusters (record b.custom { client = c₃ })
      done (record b { custom = custom; converted_device = device; clusters = clusters })

    -- The fixed endpoint that is disabled is the last
    -- one; the light is added by `add_endpoint`, whose result is not used.
    abbrev pub light_added : Bridge Table Entry Bindings → Flow (Bridge Table Entry Bindings)
    light_added b = do
      let table = set_device_type_list 1 ((device_type_bridge, device_version_default) ∷ []) (
          set_device_type_list 0 ((device_type_root_node, device_version_default) ∷ [])
            (disable last_fixed_endpoint b.custom.endpoints.table))
      added ←
          add_endpoint lib parsers converter copy_string ids set_dynamic_endpoint
            clear_dynamic_endpoint first_dynamic_endpoint_id client_fuel endpoint_fuel
            (bridged_light_endpoint ids) light_address
            (record b.custom.endpoints {
              g_current_endpoint_id = first_dynamic_endpoint_id;
              table = table;
            })
      done (record b { custom = record b.custom { endpoints = added } })

    -- The mapping for the server is made of the file of one direction, that for the callbacks of the
    -- file of the other; the task of the server is created behind both.
    abbrev pub mappings_loaded : Bridge Table Entry Bindings → Flow (Bridge Table Entry Bindings)
    mappings_loaded b = do
      let c₁ =
          with_documents
            (λ d. record d { sdf_mapping_matter_file = clear d.sdf_mapping_matter_file })
            b.custom.client
      c₂ ← finished (load_sdf_mapping_matter_file lib parsers client_fuel lwm2m_to_matter_uri c₁)
      coap_mapping ← checked (generate_matter_ipso_mapping c₂.documents.sdf_mapping_matter_file)
      c₃ ← finished (load_sdf_mapping_lwm2m_file lib parsers client_fuel matter_to_lwm2m_uri c₂)
      matter_mapping ← checked (generate_matter_ipso_mapping c₃.documents.sdf_mapping_lwm2m_file)
      done (record b {
        custom = record b.custom { client = c₃ };
        coap_mapping = coap_mapping;
        matter_mapping = matter_mapping;
        server_tasks = suc b.server_tasks;
      })

    -- The initialisation of the SDK's own server and the messages are left out.
    unfoldable pub init_server : Bridge Table Entry Bindings → Flow (Bridge Table Entry Bindings)
    unfolding init_binding_handler convert_and_deploy_matter
    init_server b = do
      added ← light_added (record b { works = init_binding_handler b.works })
      deployed ← convert_and_deploy_matter added
      mappings_loaded deployed
