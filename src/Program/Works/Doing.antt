-- ===== src/Program/Works/Doing.antt =====
-- What the works of the Matter thread do to its queue, one by one and in a row.
use matter_lwm2m_bridge.Base.{
  ℕ, suc, ◌≡◌, refl, ap, ◌∙◌, true, Option, none, some, List, [], ◌∷◌, ◌++◌, length, All,
  Bool-cases, inl, inr,
}
use matter_lwm2m_bridge.Binding.{
  BindingCommandData, OnOffIds, BindingType, Peer, survives, switch_worker_function,
}
use matter_lwm2m_bridge.Binding.Safety.{IsServable, survives-IsSafe, switch_worker_function-IsSafe}
use matter_lwm2m_bridge.Binding.Setup.{
  Work, init_server_work, init_binding_handler_work, switch_work, binding_work, reporting_work,
  init_binding_handler_internal, binding_worker_function, notify,
}
use matter_lwm2m_bridge.Program.Flow.{Flow, done, ◌>>=◌, IfDone, Completes}
use matter_lwm2m_bridge.Program.Deploy.{Bridge, Environment}
use matter_lwm2m_bridge.Program.Works.{call_reporting_callback, do_work, do_next, do_works}

-- A work that is scheduled after the program's own initialisation.
abbrev pub IsLater : {Entry : Type 0} → Work Entry → Type 0
IsLater init_server_work = ⊥
IsLater init_binding_handler_work = ⊥
IsLater _ = Unit

module _ {Table Entry Bindings : Type 0} (env : Environment Table) (ids : OnOffIds)
    (bound_in : Bindings → ℕ → ℕ → List (BindingType × Peer))
    (add : Entry → Bindings → Bindings) where
  pub do_next_cons :
      (b : Bridge Table Entry Bindings) (w : Work Entry) (ws : List (Work Entry))
      → b.works ≡ w ∷ ws
      → do_next env ids bound_in add b ≡ do_work env ids bound_in add w (record b { works = ws })
  unfolding do_next
  do_next_cons b w ws e = rw (e, do_next) refl

  -- The queue and whether the manager is set up have not changed.
  abbrev pub Keeps : Bridge Table Entry Bindings → Bridge Table Entry Bindings → Type 0
  Keeps b b' = (b'.works ≡ b.works) × (b'.manager.initialised ≡ b.manager.initialised)

  -- A switch finds a session for each binding that needs one, whatever the binding table is.
  abbrev pub IsServed : Work Entry → Type 0
  IsServed (switch_work (some d)) =
      (bindings : Bindings)
      → All (IsServable ids d) (bound_in bindings d.local_endpoint_id d.cluster_id)
  IsServed _ = Unit

  -- A later work that does not end the program changes neither the queue nor whether the manager is
  -- set up.
  pub do_work_later :
      (w : Work Entry) (b : Bridge Table Entry Bindings)
      → IsLater w
      → IfDone (Keeps b) (do_work env ids bound_in add w b)
  unfolding do_work call_reporting_callback binding_worker_function
  do_work_later init_server_work b h = absurd h
  do_work_later init_binding_handler_work b h = absurd h
  do_work_later (switch_work d) b h =
      elim (Bool-cases (survives (notify ids bound_in d b.manager))) [
        | inl lives ↦ rw lives (refl, refl)
        | inr ends ↦ rw ends tt
      ]
  do_work_later (binding_work none) b h = (refl, refl)
  do_work_later (binding_work (some e)) b h = (refl, refl)
  do_work_later (reporting_work path) b h = (refl, refl)

  notify-survives :
      (d : Option BindingCommandData) (b : Bridge Table Entry Bindings)
      → IsServed (switch_work d)
      → survives (notify ids bound_in d b.manager) ≡ true
  unfolding notify switch_worker_function
  notify-survives none b h = elim (Bool-cases b.manager.initialised) [
    | inl e ↦ rw e refl
    | inr e ↦ rw e refl
  ]
  notify-survives (some d) b h = elim (Bool-cases b.manager.initialised) [
    | inl e ↦ rw e (
        survives-IsSafe _ (
          (switch_worker_function-IsSafe ids (bound_in b.manager.bindings) d).0.1
            (h b.manager.bindings)))
    | inr e ↦ rw e refl
  ]

  -- A later work that is served is done.
  do_work_served :
      (w : Work Entry) (b : Bridge Table Entry Bindings)
      → IsLater w
      → IsServed w
      → Completes (Keeps b) (do_work env ids bound_in add w b)
  unfolding do_work call_reporting_callback binding_worker_function
  do_work_served init_server_work b h s = absurd h
  do_work_served init_binding_handler_work b h s = absurd h
  do_work_served (switch_work d) b h s = rw (notify-survives d b s) (_, refl, (refl, refl))
  do_work_served (binding_work none) b h s = (_, refl, (refl, refl))
  do_work_served (binding_work (some e)) b h s = (_, refl, (refl, refl))
  do_work_served (reporting_work path) b h s = (_, refl, (refl, refl))

  pub do_work_set_up :
      (b : Bridge Table Entry Bindings)
      → (b' : Bridge Table Entry Bindings) × (do_work env ids bound_in add init_binding_handler_work
            b
          ≡ done b')
        × (b'.works ≡ b.works)
        × (b'.manager.initialised ≡ true)
  unfolding do_work init_binding_handler_internal
  do_work_set_up b = (_, refl, refl, refl)

  do_works_step :
      (n : ℕ) (b b' : Bridge Table Entry Bindings)
      → do_next env ids bound_in add b ≡ done b'
      → do_works env ids bound_in add (suc n) b ≡ do_works env ids bound_in add n b'
  unfolding do_works ◌>>=◌
  do_works_step n b b' e = rw (e, do_works, ◌>>=◌) refl

  pub do_works_later :
      (ws extra : List (Work Entry)) (b : Bridge Table Entry Bindings)
      → All IsLater ws
      → All IsServed ws
      → b.works ≡ ws ++ extra
      → (b' : Bridge Table Entry Bindings) × (do_works env ids bound_in add (length ws) b ≡ done b')
        × (b'.works ≡ extra)
        × (b'.manager.initialised ≡ b.manager.initialised)
  unfolding do_works
  do_works_later [] extra b h s e = (b, refl, e, refl)
  do_works_later (w ∷ ws) extra b (h, hs) (s, ss) e =
      let (b₁, did, (works, kept)) = do_work_served w (record b { works = ws ++ extra }) h s in
      let (b', all_did, left, same) = do_works_later ws extra b₁ hs ss works in
      (
        b',
        do_works_step (length ws) b b₁ (do_next_cons b w (ws ++ extra) e ∙ did) ∙ all_did,
        left,
        same ∙ kept,
      )

  pub do_works_queued :
      (before after extra : List (Work Entry)) (b : Bridge Table Entry Bindings)
      → All IsLater before
      → All IsLater after
      → All IsServed before
      → All IsServed after
      → b.works ≡ before ++ init_binding_handler_work ∷ (after ++ extra)
      → (b' : Bridge Table Entry Bindings) × (do_works env ids bound_in add
            (length (before ++ init_binding_handler_work ∷ after))
            b
          ≡ done b')
        × (b'.works ≡ extra)
        × (b'.manager.initialised ≡ true)
  do_works_queued [] after extra b h k s t e =
      let (b₁, did, works, ready) = do_work_set_up (record b { works = after ++ extra }) in
      let (b', all_did, left, same) = do_works_later after extra b₁ k t works in
      (
        b',
        do_works_step (length after) b b₁
              (do_next_cons b init_binding_handler_work (after ++ extra) e ∙ did)
            ∙ all_did,
        left,
        same ∙ ready,
      )
  do_works_queued (w ∷ before) after extra b (h, hs) k (s, ss) t e =
      let rest = before ++ init_binding_handler_work ∷ (after ++ extra) in
      let (b₁, did, (works, kept)) = do_work_served w (record b { works = rest }) h s in
      let (b', all_did, left, ready) = do_works_queued before after extra b₁ hs k ss t works in
      (b', do_works_step _ b b₁ (do_next_cons b w rest e ∙ did) ∙ all_did, left, ready)

  pub do_next_nil :
      (b : Bridge Table Entry Bindings) → b.works ≡ [] → do_next env ids bound_in add b ≡ done b
  unfolding do_next
  do_next_nil b e =
      ap
        (λ works. elim works as (λ _. Flow (Bridge Table Entry Bindings)) [
          | [] ↦ done b
          | w ∷ ws ↦ do_work env ids bound_in add w (record b { works = ws })
        ])
        e

  notify_ready :
      (d : Option BindingCommandData) (b : Bridge Table Entry Bindings)
      → b.manager.initialised ≡ true
      → notify ids bound_in d b.manager ≡ switch_worker_function ids (bound_in b.manager.bindings) d
  unfolding notify
  notify_ready d b e = rw e refl

  pub do_next_switch :
      (d : Option BindingCommandData) (b : Bridge Table Entry Bindings)
      → b.works ≡ switch_work d ∷ []
      → b.manager.initialised ≡ true
      → IsServed (switch_work d)
      → do_next env ids bound_in add b
        ≡ done (record b {
          works = [];
          reactions = b.reactions ++ switch_worker_function ids (bound_in b.manager.bindings) d;
        })
  unfolding do_work
  do_next_switch d b e ready s =
      do_next_cons b (switch_work d) [] e
      ∙ rw (notify-survives d (record b { works = [] }) s) (
          ap (λ rs. done (record b { works = []; reactions = b.reactions ++ rs }))
            (notify_ready d b ready))
