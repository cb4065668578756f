-- ===== src/Program/Success.antt =====
-- `InitServer` of main/main.cpp when the files can be loaded and converted.

use matter_lwm2m_bridge.Base.{ℕ, suc, ◌≡◌, refl, ◌∙◌, ap}
use matter_lwm2m_bridge.Text.{Bytes}
use matter_lwm2m_bridge.Json.{Json}
use matter_lwm2m_bridge.Mapping.{MatterIpsoMapping, generate_matter_ipso_mapping}
use matter_lwm2m_bridge.Binding.Setup.{init_binding_handler}
use matter_lwm2m_bridge.Client.Requests.{
  load_sdf_model_file, load_sdf_mapping_lwm2m_file, load_sdf_mapping_matter_file,
  store_sdf_model_file, store_sdf_mapping_lwm2m_file, store_sdf_mapping_matter_file,
}
use matter_lwm2m_bridge.Client.Cleanup.{IsIdle}
use matter_lwm2m_bridge.Program.Flow.{done, checked, Completes, Completes-bind}
use matter_lwm2m_bridge.Program.Deploy.{
  Bridge, Environment, convert_and_deploy_matter, init_server, light_added, mappings_loaded,
  sdf_model_uri, sdf_mapping_uri, lwm2m_to_matter_uri, matter_to_lwm2m_uri,
}
use matter_lwm2m_bridge.Program.Parts.{
  IsWorking, Loaded, IsIdle-documents, load-Loads, add_endpoint-done, create_custom_device-done,
  convert_sdf_to_matter-done,
}

module _ {Table : Type 0} (env : Environment Table) (payload : Bytes) (j : Json)
    (m : MatterIpsoMapping) (working : IsWorking env payload j m) where
  open env use {parsers}

  module _ {Entry Bindings : Type 0} where
    -- The client is idle; the mappings are both those of the file, and there is one more task.
    abbrev IsIdleBridge : Bridge Table Entry Bindings → Type 0
    IsIdleBridge b = IsIdle b.custom.client

    abbrev pub HasMappings : ℕ → Bridge Table Entry Bindings → Type 0
    HasMappings tasks b =
        (b.coap_mapping ≡ m)
        × (b.matter_mapping ≡ m)
        × (b.server_tasks ≡ tasks)
        × IsIdle b.custom.client

    convert_and_deploy_matter-done :
        (b : Bridge Table Entry Bindings)
        → IsIdleBridge b
        → Completes
            (λ b'. IsIdleBridge b' × (b'.server_tasks ≡ b.server_tasks))
            (convert_and_deploy_matter env b)
    unfolding convert_and_deploy_matter load_sdf_model_file load_sdf_mapping_matter_file
    convert_and_deploy_matter-done b idle =
        Completes-bind (Loaded _) _ _ _
          (load-Loads env payload j m working (store_sdf_model_file parsers)
            (record b.custom.client.documents { sdf_model_file = j }) sdf_model_uri b.custom.client
            idle (rw working.parses refl))
          λ c₁ (idle₁, e₁).
            Completes-bind (Loaded _) _ _ _
              (load-Loads env payload j m working (store_sdf_mapping_matter_file parsers)
                (record c₁.documents { sdf_mapping_matter_file = j }) sdf_mapping_uri c₁ idle₁
                (rw working.parses refl))
              λ c₂ (idle₂, e₂).
                Completes-bind (λ _. Unit) _ _ _
                  (convert_sdf_to_matter-done env payload j m working _ _ _
                    (ap (λ d. d.sdf_model_file) e₂ ∙ ap (λ d. d.sdf_model_file) e₁)
                    (ap (λ d. d.sdf_mapping_matter_file) e₂))
                  λ converted _.
                    Completes-bind (λ r. IsIdle r.1.client) _ _ _
                      (create_custom_device-done env payload j m working converted.0 converted.1 _
                        (IsIdle-documents c₂ _ idle₂))
                      λ created idle'. (_, refl, (idle', refl))

    mappings_loaded-done :
        (b : Bridge Table Entry Bindings)
        → IsIdleBridge b
        → Completes (HasMappings (suc b.server_tasks)) (mappings_loaded env b)
    unfolding load_sdf_mapping_matter_file load_sdf_mapping_lwm2m_file
    mappings_loaded-done b idle =
        Completes-bind (Loaded _) _ _ _
          (load-Loads env payload j m working (store_sdf_mapping_matter_file parsers)
            (record b.custom.client.documents { sdf_mapping_matter_file = j }) lwm2m_to_matter_uri _
            (IsIdle-documents b.custom.client _ idle) (rw working.parses refl))
          λ c₂ (idle₂, e₂).
            Completes-bind (λ n. n ≡ m) _ _ _
              (mapping_done _ (ap (λ d. d.sdf_mapping_matter_file) e₂))
              λ n at_coap.
                Completes-bind (Loaded _) _ _ _
                  (load-Loads env payload j m working (store_sdf_mapping_lwm2m_file parsers)
                    (record c₂.documents { sdf_mapping_lwm2m_file = j }) matter_to_lwm2m_uri c₂
                    idle₂ (rw working.parses refl))
                  λ c₃ (idle₃, e₃).
                    Completes-bind (λ n. n ≡ m) _ _ _
                      (mapping_done _ (ap (λ d. d.sdf_mapping_lwm2m_file) e₃))
                      λ k at_matter. (_, refl, (at_coap, at_matter, refl, idle₃))
      where
        mapping_done :
            (file : Json)
            → file ≡ j
            → Completes (λ n. n ≡ m) (checked (generate_matter_ipso_mapping file))
        mapping_done file e = (m, rw (e, working.maps) refl, refl)

    light_added-done :
        (b : Bridge Table Entry Bindings)
        → IsIdleBridge b
        → Completes (λ b'. IsIdleBridge b' × (b'.server_tasks ≡ b.server_tasks)) (light_added env b)
    light_added-done b idle =
        Completes-bind (λ _. Unit) _ _ _ (add_endpoint-done env payload j m working _ _ _)
          λ added _. (_, refl, (idle, refl))

    -- When every download brings the same file, which the parser and the converter take and from which
    -- a mapping is made, and the SDK accepts the endpoints, `InitServer` comes to its end from any state
    -- with an idle client: both mappings are that of the file, one more task of the server is created,
    -- and the client is idle again; on fuel for two rounds of waiting and one endpoint.
    pub init_server_ends :
        (b : Bridge Table Entry Bindings)
        → IsIdle b.custom.client
        → (b' : Bridge Table Entry Bindings) × (init_server env b ≡ done b')
          × (b'.coap_mapping ≡ m)
          × (b'.matter_mapping ≡ m)
          × (b'.server_tasks ≡ suc b.server_tasks)
          × IsIdle b'.custom.client
    unfolding init_server init_binding_handler
    init_server_ends b idle =
        let (b', e, (coap, matter, tasks, idle')) =
          Completes-bind (λ b₁. IsIdleBridge b₁ × (b₁.server_tasks ≡ b.server_tasks))
            (HasMappings (suc b.server_tasks)) _ _
            (light_added-done (record b { works = init_binding_handler b.works }) idle)
            λ b₁ (idle₁, t₁).
              Completes-bind (λ b₂. IsIdleBridge b₂ × (b₂.server_tasks ≡ b₁.server_tasks))
                (HasMappings (suc b.server_tasks)) _ _ (convert_and_deploy_matter-done b₁ idle₁)
                λ b₂ (idle₂, t₂).
                  let (b₃, d, (c, k, t₃, idle₃)) = mappings_loaded-done b₂ idle₂ in
                  (b₃, d, (c, k, t₃ ∙ ap suc (t₂ ∙ t₁), idle₃)) in
        (b', e, coap, matter, tasks, idle')
