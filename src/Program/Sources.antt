-- ===== src/Program/Sources.antt =====
-- Which files `InitServer` of main/main.cpp makes the two mappings of.
use matter_lwm2m_bridge.Base.{◌≡◌, ◌++◌, ok}
use matter_lwm2m_bridge.Text.{Bytes, codes}
use matter_lwm2m_bridge.Mapping.{generate_matter_ipso_mapping}
use matter_lwm2m_bridge.Client.State.{Client}
use matter_lwm2m_bridge.Client.Requests.{load_sdf_mapping_matter_file, load_sdf_mapping_lwm2m_file}
use matter_lwm2m_bridge.Program.Flow.{Flow, done, finished}
use matter_lwm2m_bridge.Program.Deploy.{Bridge, Environment}

-- The path of a file on the server that the bridge downloads from.
abbrev pub file_uri : Bytes → Bytes
file_uri name = codes "coap://[2a02:8109:c40:7cc6:8150:45c1:c796:5026]:5683/sdf/" ++ name

module _ {Table Entry Bindings : Type 0} (env : Environment Table) where
  open env use {lib, parsers, client_fuel}

  -- The requests that the two mappings come of, the second made by the client that the first leaves.
  abbrev pub ComesOf : Bridge Table Entry Bindings → Type 0
  ComesOf b =
      (before : Client) × (between : Client) × (finished (
          load_sdf_mapping_matter_file lib parsers client_fuel
            (file_uri (codes "sdf-lwm2m-to-matter-merged")) before)
        ≡ done between)
      × (generate_matter_ipso_mapping between.documents.sdf_mapping_matter_file ≡ ok b.coap_mapping)
      × (finished (
            load_sdf_mapping_lwm2m_file lib parsers client_fuel
              (file_uri (codes "sdf-matter-to-lwm2m-merged")) between)
          ≡ done b.custom.client)
      × (generate_matter_ipso_mapping b.custom.client.documents.sdf_mapping_lwm2m_file
          ≡ ok b.matter_mapping)
