-- ===== src/Program/Converter.antt =====
-- `ConvertSdfToMatter` and `ConvertMatterToSdf` of main/include/BridgeUtils.h over the library that
-- converts between SDF and Matter, which is a submodule.
use matter_lwm2m_bridge.Base.{ℕ, Option, none, some, List, map}
use matter_lwm2m_bridge.Text.{Bytes}
use matter_lwm2m_bridge.Json.{Json, Xml}
use matter_lwm2m_bridge.Program.Flow.{Flow, done, ◌>>=◌, present}

-- What the code reads of the library's definitions of attributes, commands, clusters and devices.
pub record MatterAttribute : Type 0 where
  pub id : ℕ
  pub type : Bytes

pub record MatterCluster : Type 0 where
  pub id : ℕ
  pub attributes : List MatterAttribute
  pub client_commands : List ℕ

pub record MatterDevice : Type 0 where
  pub id : ℕ
  pub name : Bytes

-- The functions of the library; `none` where one throws. The two that map add to what they are given.
pub record Converter : Type 1 where
  pub SdfModel : Type 0
  pub SdfMapping : Type 0
  pub parse_sdf_model : Json → Option SdfModel
  pub parse_sdf_mapping : Json → Option SdfMapping
  pub parse_cluster : Xml → MatterCluster
  pub parse_device : Xml → MatterDevice
  pub map_sdf_to_matter :
      SdfModel → SdfMapping → List MatterCluster → Option MatterDevice × List MatterCluster
  pub map_matter_to_sdf :
      MatterDevice → List MatterCluster → SdfModel × SdfMapping → SdfModel × SdfMapping

module _ (converter : Converter) where
  abbrev device_or : MatterDevice → Option MatterDevice → MatterDevice
  device_or device none = device
  device_or device (some found) = found

  -- The device is left as it is where the library finds none.
  unfoldable pub convert_sdf_to_matter :
      Json → Json → MatterDevice × List MatterCluster → Flow (MatterDevice × List MatterCluster)
  convert_sdf_to_matter sdf_model_json sdf_mapping_json (device, clusters) = do
    sdf_model ← present (converter.parse_sdf_model sdf_model_json)
    sdf_mapping ← present (converter.parse_sdf_mapping sdf_mapping_json)
    let (optional_device, clusters') = converter.map_sdf_to_matter sdf_model sdf_mapping clusters
    done (device_or device optional_device, clusters')

  unfoldable pub convert_matter_to_sdf :
      Xml
      → List Xml
      → converter.SdfModel × converter.SdfMapping
      → converter.SdfModel × converter.SdfMapping
  convert_matter_to_sdf device_xml cluster_xml_list sdf =
      converter.map_matter_to_sdf (converter.parse_device device_xml)
        (map converter.parse_cluster cluster_xml_list) sdf
