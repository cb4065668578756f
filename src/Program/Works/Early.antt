-- ===== src/Program/Works/Early.antt =====
-- A press of the button before `InitServer` of main/main.cpp has been run.
use mathlib.Core.Path.{subst}
use matter_lwm2m_bridge.Base.{
  ℕ, ◌≡◌, refl, sym, ap, ◌∙◌, false, Option, List, [], ◌∷◌, ◌++◌, append-nil,
}
use matter_lwm2m_bridge.Binding.{BindingCommandData, OnOffIds, BindingType, Peer}
use matter_lwm2m_bridge.Binding.Setup.{
  init_server_work, init_binding_handler_work, switch_work, notify,
}
use matter_lwm2m_bridge.Program.Flow.{done, IfDone}
use matter_lwm2m_bridge.Program.Deploy.{Bridge, Environment}
use matter_lwm2m_bridge.Program.Mappings.{Initialised, init_server-Initialised}
use matter_lwm2m_bridge.Program.Works.Doing.{do_next_cons}
use matter_lwm2m_bridge.Program.Works.{schedule_work, do_work, do_next}

module _ {Table Entry Bindings : Type 0} (env : Environment Table) (ids : OnOffIds)
    (bound_in : Bindings → ℕ → ℕ → List (BindingType × Peer))
    (add : Entry → Bindings → Bindings) where
  notify_early :
      (d : Option BindingCommandData) (b : Bridge Table Entry Bindings)
      → b.manager.initialised ≡ false
      → notify ids bound_in d b.manager ≡ []
  unfolding notify
  notify_early d b e = rw e refl

  -- A switch that is scheduled while `InitServer` still waits is done before the set-up of the binding
  -- handler that `InitServer` schedules: when `InitServer` is done, the switch is next, it sends nothing
  -- to any bound device, and only the set-up is left to do.
  pub switch_work_early :
      (d : Option BindingCommandData) (b b₁ : Bridge Table Entry Bindings)
      → b.works ≡ init_server_work ∷ []
      → b.manager.initialised ≡ false
      → do_next env ids bound_in add (schedule_work (switch_work d) b) ≡ done b₁
      → (b₂ : Bridge Table Entry Bindings) × (do_next env ids bound_in add b₁ ≡ done b₂)
        × (b₂.reactions ≡ b.reactions)
        × (b₂.works ≡ init_binding_handler_work ∷ [])
        × (b₂.manager.initialised ≡ false)
  unfolding do_work schedule_work
  switch_work_early d b b₁ e early did =
      let started = record b { works = switch_work d ∷ [] } in
      let first =
        do_next_cons env ids bound_in add (schedule_work (switch_work d) b) init_server_work
          (switch_work d ∷ []) (ap (λ ws. ws ++ (switch_work d ∷ [])) e) in
      let (both, (manager, reactions), works, tasks) =
        subst (IfDone (Initialised env started)) (sym first ∙ did)
          (init_server-Initialised env started) in
      let still = ap (λ m. m.initialised) manager ∙ early in
      (
        record b₁ { works = init_binding_handler_work ∷ []; reactions = b₁.reactions ++ [] },
        do_next_cons env ids bound_in add b₁ (switch_work d) (init_binding_handler_work ∷ []) works
            ∙ rw (notify_early d (record b₁ { works = init_binding_handler_work ∷ [] }) still) refl,
        append-nil b₁.reactions ∙ reactions,
        refl,
        still,
      )
