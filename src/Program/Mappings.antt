-- ===== src/Program/Mappings.antt =====
-- What `InitServer` of main/main.cpp leaves for the callbacks of the bridge and for its server.
use matter_lwm2m_bridge.Base.{suc, ◌≡◌, refl, ◌∙◌, ap, [], ◌∷◌, ◌++◌, Result, ok, err, IfOk}
use matter_lwm2m_bridge.Mapping.Lookup.{IsConsistent, generate_matter_ipso_mapping-IsConsistent}
use matter_lwm2m_bridge.Binding.Setup.{init_binding_handler_work, init_binding_handler}
use matter_lwm2m_bridge.Program.Flow.{
  Flow, done, endless, thrown, ◌>>=◌, checked, IfDone, IfDone-bind,
}
use matter_lwm2m_bridge.Program.Deploy.{
  Bridge, Environment, convert_and_deploy_matter, init_server, light_added, mappings_loaded,
}

IfDone-any : {A : Type 0} (m : Flow A) → IfDone (λ _. Unit) m
IfDone-any (done a) = tt
IfDone-any endless = tt
IfDone-any thrown = tt

IfDone-bind_second :
    {A B : Type 0} (Q : B → Type 0) (m : Flow A) (f : A → Flow B)
    → ((a : A) → IfDone Q (f a))
    → IfDone Q (m >>= f)
IfDone-bind_second Q m f h = IfDone-bind (λ _. Unit) Q m f (IfDone-any m) (λ a _. h a)

IfDone-weaken :
    {A : Type 0} (P Q : A → Type 0) (m : Flow A) → IfDone P m → ((a : A) → P a → Q a) → IfDone Q m
IfDone-weaken P Q (done a) h k = k a h
IfDone-weaken P Q endless h k = tt
IfDone-weaken P Q thrown h k = tt

IfDone-checked : {A : Type 0} (P : A → Type 0) (r : Result A) → IfOk P r → IfDone P (checked r)
IfDone-checked P (ok a) h = h
IfDone-checked P (err e) h = tt

module _ {Table Entry Bindings : Type 0} (env : Environment Table) where
  -- What the devices bound to the bridge see is as it was.
  abbrev pub Quiet : Bridge Table Entry Bindings → Bridge Table Entry Bindings → Type 0
  Quiet b b' = (b'.manager ≡ b.manager) × (b'.reactions ≡ b.reactions)

  -- The works and the tasks are those of `b`.
  abbrev Keeps : Bridge Table Entry Bindings → Bridge Table Entry Bindings → Type 0
  Keeps b b' = Quiet b b' × (b'.works ≡ b.works) × (b'.server_tasks ≡ b.server_tasks)

  convert_and_deploy_matter-Keeps :
      (b : Bridge Table Entry Bindings) → IfDone (Keeps b) (convert_and_deploy_matter env b)
  unfolding convert_and_deploy_matter
  convert_and_deploy_matter-Keeps b = IfDone-bind_second (Keeps b) _ _ λ c₁.
      IfDone-bind_second (Keeps b) _ _ λ c₂.
        IfDone-bind_second (Keeps b) _ _
          λ converted. IfDone-bind_second (Keeps b) _ _ λ created. ((refl, refl), refl, refl)

  light_added-Keeps : (b : Bridge Table Entry Bindings) → IfDone (Keeps b) (light_added env b)
  light_added-Keeps b = IfDone-bind_second (Keeps b) _ _ λ endpoints. ((refl, refl), refl, refl)

  -- Both mappings can be used in both directions.
  abbrev pub IsMappedBothWays : Bridge Table Entry Bindings → Type 0
  IsMappedBothWays b = IsConsistent b.coap_mapping × IsConsistent b.matter_mapping

  abbrev Finishes : Bridge Table Entry Bindings → Bridge Table Entry Bindings → Type 0
  Finishes b b' =
      IsMappedBothWays b'
      × Quiet b b'
      × (b'.works ≡ b.works)
      × (b'.server_tasks ≡ suc b.server_tasks)

  mappings_loaded-Finishes :
      (b : Bridge Table Entry Bindings) → IfDone (Finishes b) (mappings_loaded env b)
  mappings_loaded-Finishes b = IfDone-bind_second (Finishes b) _ _ λ c₂.
      IfDone-bind IsConsistent (Finishes b) _ _
        (IfDone-checked IsConsistent _
          (generate_matter_ipso_mapping-IsConsistent c₂.documents.sdf_mapping_matter_file))
        λ m h. IfDone-bind_second (Finishes b) _ _ λ c₃.
          IfDone-bind IsConsistent (Finishes b) _ _
            (IfDone-checked IsConsistent _
              (generate_matter_ipso_mapping-IsConsistent c₃.documents.sdf_mapping_lwm2m_file))
            λ n k. ((h, k), (refl, refl), refl, refl)

  -- The result of `InitServer` from `b`.
  abbrev pub Initialised : Bridge Table Entry Bindings → Bridge Table Entry Bindings → Type 0
  Initialised b b' =
      IsMappedBothWays b'
      × Quiet b b'
      × (b'.works ≡ b.works ++ (init_binding_handler_work ∷ []))
      × (b'.server_tasks ≡ suc b.server_tasks)

  pub init_server-Initialised :
      (b : Bridge Table Entry Bindings) → IfDone (Initialised b) (init_server env b)
  unfolding init_server init_binding_handler
  init_server-Initialised b =
      let queued = record b { works = init_binding_handler b.works } in
      IfDone-bind (Keeps queued) (Initialised b) _ _ (light_added-Keeps queued)
        λ b₁ ((m₁, r₁), w₁, t₁).
          IfDone-bind (Keeps b₁) (Initialised b) _ _ (convert_and_deploy_matter-Keeps b₁)
            λ b₂ ((m₂, r₂), w₂, t₂).
              IfDone-weaken (Finishes b₂) (Initialised b) _ (mappings_loaded-Finishes b₂)
                λ b₃ (both, (m₃, r₃), w₃, t₃).
                  (both, (m₃ ∙ m₂ ∙ m₁, r₃ ∙ r₂ ∙ r₁), w₃ ∙ w₂ ∙ w₁, t₃ ∙ ap suc (t₂ ∙ t₁))

  -- Whatever the files say, when `InitServer` is done, the mapping of the server and the mapping of the
  -- callbacks are consistent, the set-up of the binding handler waits behind the works that were there
  -- before, and one more task of the server has been created.
  pub init_server-IsMappedBothWays :
      (b : Bridge Table Entry Bindings)
      → IfDone
          (λ b'.
            IsMappedBothWays b'
            × (b'.works ≡ b.works ++ (init_binding_handler_work ∷ []))
            × (b'.server_tasks ≡ suc b.server_tasks))
          (init_server env b)
  init_server-IsMappedBothWays b =
      IfDone-weaken (Initialised b) _ _ (init_server-Initialised b)
        λ b' (both, quiet, works, tasks). (both, works, tasks)
