-- ===== src/Program/Custom.antt =====
-- `LoadClusterDefinition` and `CreateCustomDevice` of main/main.cpp.
use matter_lwm2m_bridge.Base.{ℕ, ℤ, pos, minus_one, true, Option, none, some, List, [], ◌∷◌}
use matter_lwm2m_bridge.Text.{Bytes, codes}
use matter_lwm2m_bridge.Devices.{Device, new_device, set_reachable}
use matter_lwm2m_bridge.Bridge.Endpoints.{
  EmberAfStatus, EndpointState, AddResult, returned, searching, add_device_endpoint,
}
use matter_lwm2m_bridge.Client.Library.{Libcoap}
use matter_lwm2m_bridge.Client.State.{Client}
use matter_lwm2m_bridge.Client.Requests.{Parsers, load_cluster_xml_file}
use matter_lwm2m_bridge.Server.Bringup.{no_document}
use matter_lwm2m_bridge.Program.Declarations.{EndpointType, UtilityIds, custom_endpoint}
use matter_lwm2m_bridge.Program.Flow.{Flow, done, endless, ◌>>=◌, finished}
use matter_lwm2m_bridge.Program.Converter.{MatterCluster, MatterDevice, Converter}

-- What `CreateCustomDevice` works on: the client, its two static locals, which are made in the first
-- call, and the endpoints.
pub record CustomState (Table : Type 0) : Type 0 where
  pub client : Client
  pub client_cluster : Option MatterCluster
  pub custom_device : Option Device
  pub endpoints : EndpointState Table

abbrev pub cluster_xml_uri : Bytes
cluster_xml_uri = codes "coap://[2a02:8109:c40:7cc6:8150:45c1:c796:5026]:5683/xml/cluster-xml"

-- The number that stands for the address of the static `bridged_custom_device`.
abbrev pub custom_device_address : ℕ
custom_device_address = 2

module _ {Table : Type 0} (lib : Libcoap) (parsers : Parsers) (converter : Converter)
    (copy_string : ℕ → Bytes → Bytes) (ids : UtilityIds)
    (set_dynamic_endpoint : EndpointType → ℕ → ℕ → Table → EmberAfStatus × Table)
    (clear_dynamic_endpoint : ℕ → Table → Table) (first_dynamic_endpoint_id : ℕ)
    (client_fuel endpoint_fuel : ℕ) where
  unfoldable pub load_cluster_definition : Client → Flow (MatterCluster × Client)
  load_cluster_definition c = do
    loaded ← finished (load_cluster_xml_file lib parsers client_fuel cluster_xml_uri c)
    done (
      converter.parse_cluster loaded.documents.cluster_xml,
      record loaded { documents = record loaded.documents { cluster_xml = no_document } },
    )

  -- The initialisation of the static `client_cluster`: it is loaded in the first call alone.
  abbrev pub static_cluster : Option MatterCluster → Client → Flow (MatterCluster × Client)
  static_cluster (some cluster) c = done (cluster, c)
  static_cluster none c = load_cluster_definition c

  -- The initialisation of the static `bridged_custom_device`.
  abbrev static_device : Option Device → MatterDevice → Device
  static_device (some d) device = d
  static_device none device = new_device copy_string device.name (codes "No Location")

  -- The result of the call is not used.
  abbrev after_add : AddResult Table → Flow (EndpointState Table)
  after_add (returned _ endpoints) = done endpoints
  after_add searching = endless

  abbrev pub add_endpoint : EndpointType → ℕ → EndpointState Table → Flow (EndpointState Table)
  add_endpoint ep dev endpoints = after_add (
      add_device_endpoint (set_dynamic_endpoint ep) clear_dynamic_endpoint first_dynamic_endpoint_id
        endpoint_fuel dev endpoints)

  -- Only the first cluster of the list is used. The arrays of the declarations live on the stack of
  -- this function, and the table keeps pointers to them; the model keeps their values. The device has no
  -- callback, so `SetReachable` reports nothing.
  unfoldable pub create_custom_device :
      MatterDevice → List MatterCluster → CustomState Table → Flow (ℤ × CustomState Table)
  unfolding load_cluster_definition custom_endpoint set_reachable
  create_custom_device device [] s = done (minus_one, s)
  create_custom_device device (cluster ∷ _) s = do
    (client_cluster, c) ← static_cluster s.client_cluster s.client
    let ep = custom_endpoint ids device cluster client_cluster
    endpoints ← add_endpoint ep custom_device_address s.endpoints
    done (
      pos 0,
      record {
        client = c;
        client_cluster = some client_cluster;
        custom_device = some (set_reachable true (static_device s.custom_device device)).0;
        endpoints = endpoints;
      },
    )
