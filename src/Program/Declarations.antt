-- ===== src/Program/Declarations.antt =====
-- The endpoints that main/main.cpp declares: the light of the original bridge and the device of
-- `CreateCustomDevice`.
use mathlib.Core.Logic.{ite}
use matter_lwm2m_bridge.Base.{ℕ, List, [], ◌∷◌, ◌++◌, ◌^◌, ◌%◌, ◌-◌, length, take}
use matter_lwm2m_bridge.Text.{codes, Bytes_discrete}
use matter_lwm2m_bridge.Program.Converter.{MatterAttribute, MatterCluster, MatterDevice}

-- The ZAP types that the code declares.
pub data ZapType : Type 0 where
  boolean int16u array char_string : ZapType

-- `EmberAfAttributeMetadata`; `mask` is what the declaration adds to the mask of external storage.
pub record AttributeMetadata : Type 0 where
  pub id : ℕ
  pub type : ZapType
  pub size : ℕ
  pub mask : ℕ

-- `ZAP_CLUSTER_MASK(SERVER)` and `ZAP_CLUSTER_MASK(CLIENT)`.
pub data Side : Type 0 where
  server_side client_side : Side

-- `attributes` are those that the number of attributes reaches.
pub record Cluster : Type 0 where
  pub id : ℕ
  pub side : Side
  pub attributes : List AttributeMetadata
  pub incoming_commands : List ℕ

-- An endpoint with its clusters and its device types, each with its version, as it is given to
-- `AddDeviceEndpoint`.
pub record EndpointType : Type 0 where
  pub clusters : List Cluster
  pub device_types : List (ℕ × ℕ)

-- The ids that the Matter SDK generates.
pub record UtilityIds : Type 0 where
  pub descriptor : ℕ
  pub device_type_list : ℕ
  pub server_list : ℕ
  pub client_list : ℕ
  pub parts_list : ℕ
  pub bridged_device_basic_information : ℕ
  pub node_label : ℕ
  pub reachable : ℕ
  pub binding : ℕ
  pub binding_list : ℕ
  pub on_off : ℕ
  pub on_off_attribute : ℕ
  pub off_command : ℕ
  pub on_command : ℕ
  pub toggle_command : ℕ

abbrev pub node_label_size : ℕ
node_label_size = 32

abbrev pub descriptor_attribute_array_size : ℕ
descriptor_attribute_array_size = 254

abbrev pub binding_attribute_array_size : ℕ
binding_attribute_array_size = 254

abbrev pub device_type_bridged_node : ℕ
device_type_bridged_node = 0x0013

abbrev pub device_type_lo_on_off_light : ℕ
device_type_lo_on_off_light = 0x0100

abbrev pub device_version_default : ℕ
device_version_default = 1

-- `kInvalidCommandId`
abbrev pub invalid_command_id : ℕ
invalid_command_id = 2 ^ 32 - 1

abbrev pub declare_dynamic_attribute : ℕ → ZapType → ℕ → ℕ → AttributeMetadata
declare_dynamic_attribute id type size mask = record {
  id = id;
  type = type;
  size = size;
  mask = mask;
}

-- The attribute that `CreateCustomDevice` adds to a converted cluster, and that the SDK's
-- `DECLARE_DYNAMIC_ATTRIBUTE_LIST_END` adds to every list that is declared with it.
abbrev pub cluster_revision : AttributeMetadata
cluster_revision = declare_dynamic_attribute 0xFFFD int16u 2 0

-- The loop over the attributes: two types are known, and the others are left out.
unfoldable pub declare_attributes : List MatterAttribute → List AttributeMetadata
declare_attributes [] = []
declare_attributes (a ∷ rest) =
    ite (Bytes_discrete a.type (codes "bool"))
      (declare_dynamic_attribute a.id boolean 1 0 ∷ declare_attributes rest)
      (ite (Bytes_discrete a.type (codes "uint16"))
        (declare_dynamic_attribute a.id int16u 16 0 ∷ declare_attributes rest)
        (declare_attributes rest))

-- The number of attributes of a cluster is cut to 16 bits.
abbrev pub counted : List AttributeMetadata → List AttributeMetadata
counted attributes = take (length attributes % 2 ^ 16) attributes

-- `DECLARE_DYNAMIC_CUSTOM_CLUSTER`, which is a server cluster.
unfoldable pub custom_cluster : MatterCluster → Cluster
unfolding declare_attributes
custom_cluster c = record {
  id = c.id;
  side = server_side;
  attributes = counted (declare_attributes c.attributes ++ (cluster_revision ∷ []));
  incoming_commands = c.client_commands ++ (invalid_command_id ∷ []);
}

module _ (ids : UtilityIds) where
  abbrev pub descriptor_cluster : Cluster
  descriptor_cluster = record {
    id = ids.descriptor;
    side = server_side;
    attributes =
        declare_dynamic_attribute ids.device_type_list array descriptor_attribute_array_size 0
        ∷ declare_dynamic_attribute ids.server_list array descriptor_attribute_array_size 0
        ∷ declare_dynamic_attribute ids.client_list array descriptor_attribute_array_size 0
        ∷ declare_dynamic_attribute ids.parts_list array descriptor_attribute_array_size 0
        ∷ cluster_revision
        ∷ [];
    incoming_commands = [];
  }

  abbrev pub basic_information_cluster : Cluster
  basic_information_cluster = record {
    id = ids.bridged_device_basic_information;
    side = server_side;
    attributes =
        declare_dynamic_attribute ids.node_label char_string node_label_size 0
        ∷ declare_dynamic_attribute ids.reachable boolean 1 0
        ∷ cluster_revision
        ∷ [];
    incoming_commands = [];
  }

  abbrev pub binding_cluster : Cluster
  binding_cluster = record {
    id = ids.binding;
    side = server_side;
    attributes =
        declare_dynamic_attribute ids.binding_list array binding_attribute_array_size 1
        ∷ cluster_revision
        ∷ [];
    incoming_commands = [];
  }

  -- The endpoint of the light that is kept from the original bridge.
  abbrev pub bridged_light_endpoint : EndpointType
  bridged_light_endpoint = record {
    clusters =
        record {
          id = ids.on_off;
          side = server_side;
          attributes =
              declare_dynamic_attribute ids.on_off_attribute boolean 1 0 ∷ cluster_revision ∷ [];
          incoming_commands =
              ids.off_command ∷ ids.on_command ∷ ids.toggle_command ∷ invalid_command_id ∷ [];
        }
        ∷ descriptor_cluster
        ∷ basic_information_cluster
        ∷ [];
    device_types =
        (device_type_lo_on_off_light, device_version_default)
        ∷ (device_type_bridged_node, device_version_default)
        ∷ [];
  }

  -- The declarations of `CreateCustomDevice`; the client's cluster is declared like the server's.
  unfoldable pub custom_endpoint : MatterDevice → MatterCluster → MatterCluster → EndpointType
  unfolding custom_cluster
  custom_endpoint device cluster client_cluster = record {
    clusters =
        custom_cluster cluster
        ∷ custom_cluster client_cluster
        ∷ descriptor_cluster
        ∷ basic_information_cluster
        ∷ binding_cluster
        ∷ [];
    device_types =
        (device.id % 2 ^ 32, device_version_default)
        ∷ (device_type_bridged_node, device_version_default)
        ∷ [];
  }
