-- ===== src/Program/Works/Order.antt =====
-- The order of the works of the Matter thread: the set-up of the binding handler against the switches.
use mathlib.Core.Path.{subst}
use matter_lwm2m_bridge.Base.{
  ℕ, ◌≡◌, refl, sym, ap, ◌∙◌, ◌⊎◌, inl, inr, Bool, true, false, ◌||◌, Option, List, [], ◌∷◌, ◌++◌,
  append_assoc, length, All, All-append,
}
use matter_lwm2m_bridge.Binding.{
  BindingCommandData, OnOffIds, BindingType, Peer, switch_worker_function,
}
use matter_lwm2m_bridge.Binding.Setup.{
  Work, init_server_work, init_binding_handler_work, switch_work,
}
use matter_lwm2m_bridge.Program.Flow.{done, IfDone}
use matter_lwm2m_bridge.Program.Deploy.{Bridge, Environment}
use matter_lwm2m_bridge.Program.Mappings.{Initialised, init_server-Initialised}
use matter_lwm2m_bridge.Program.Works.Doing.{
  IsLater, IsServed, Keeps, do_next_cons, do_next_nil, do_work_later, do_work_set_up,
  do_works_later, do_works_queued, do_next_switch,
}
use matter_lwm2m_bridge.Program.Works.{schedule_work, do_work, do_next, do_works}

done_injective : {A : Type 0} {a b : A} → done a ≡ done b → a ≡ b
done_injective e = cc

-- The next work is `InitServer`.
abbrev pub starts : {Entry : Type 0} → List (Work Entry) → Bool
starts (init_server_work ∷ _) = true
starts _ = false

module _ {Table Entry Bindings : Type 0} (env : Environment Table) (ids : OnOffIds)
    (bound_in : Bindings → ℕ → ℕ → List (BindingType × Peer))
    (add : Entry → Bindings → Bindings) where
  -- The states of the Matter thread, and whether `InitServer` has been run: `app_main` has scheduled it,
  -- and from then on other tasks may schedule works at any time.
  pub data Reachable : Bool → Bridge Table Entry Bindings → Type 0 where
    booted : {b : Bridge Table Entry Bindings} → b.works ≡ init_server_work ∷ [] → Reachable false b
    scheduled :
        {f : Bool} {b : Bridge Table Entry Bindings} (w : Work Entry)
        → IsLater w
        → Reachable f b
        → Reachable f (schedule_work w b)
    worked :
        {f : Bool} {b b' : Bridge Table Entry Bindings}
        → Reachable f b
        → do_next env ids bound_in add b ≡ done b'
        → Reachable (f || starts b.works) b'

  abbrev IsSetUp : Bridge Table Entry Bindings → Type 0
  IsSetUp b = (b.manager.initialised ≡ true) × All IsLater b.works

  abbrev IsQueued : Bridge Table Entry Bindings → Type 0
  IsQueued b =
      (before : List (Work Entry)) × (after : List (Work Entry)) × (b.works
        ≡ before ++ init_binding_handler_work ∷ after)
      × All IsLater before
      × All IsLater after

  abbrev Inv : Bool → Bridge Table Entry Bindings → Type 0
  Inv false b = (rest : List (Work Entry)) × (b.works ≡ init_server_work ∷ rest) × All IsLater rest
  Inv true b = IsSetUp b ⊎ IsQueued b

  -- What is known of the state behind the next work.
  next_is :
      (w : Work Entry) (ws : List (Work Entry)) (b b' : Bridge Table Entry Bindings)
      (P : Bridge Table Entry Bindings → Type 0)
      → b.works ≡ w ∷ ws
      → IfDone P (do_work env ids bound_in add w (record b { works = ws }))
      → do_next env ids bound_in add b ≡ done b'
      → P b'
  next_is w ws b b' P e h d =
      subst (IfDone P) (sym (do_next_cons env ids bound_in add b w ws e) ∙ d) h

  IsSetUp-next :
      (ws : List (Work Entry)) (b b' : Bridge Table Entry Bindings)
      → b.works ≡ ws
      → b.manager.initialised ≡ true
      → All IsLater ws
      → do_next env ids bound_in add b ≡ done b'
      → Inv true b'
  IsSetUp-next [] b b' e ready h d =
      subst (Inv true) (done_injective (sym (do_next_nil env ids bound_in add b e) ∙ d))
        (inl (ready, subst (All IsLater) (sym e) tt))
  IsSetUp-next (w ∷ ws) b b' e ready (h, hs) d =
      let (works, kept) =
        next_is w ws b b' (Keeps env ids bound_in add (record b { works = ws })) e
          (do_work_later env ids bound_in add w (record b { works = ws }) h) d in
      inl (kept ∙ ready, subst (All IsLater) (sym works) hs)

  IsQueued-next :
      (before after : List (Work Entry)) (b b' : Bridge Table Entry Bindings)
      → b.works ≡ before ++ init_binding_handler_work ∷ after
      → All IsLater before
      → All IsLater after
      → do_next env ids bound_in add b ≡ done b'
      → Inv true b'
  IsQueued-next [] after b b' e h k d =
      let (c, did, works, ready) =
        do_work_set_up env ids bound_in add (record b { works = after }) in
      subst (Inv true)
        (done_injective
          (sym (do_next_cons env ids bound_in add b init_binding_handler_work after e ∙ did) ∙ d))
        (inl (ready, subst (All IsLater) (sym works) k))
  IsQueued-next (w ∷ before) after b b' e (h, hs) k d =
      let rest = before ++ init_binding_handler_work ∷ after in
      let (works, kept) =
        next_is w rest b b' (Keeps env ids bound_in add (record b { works = rest })) e
          (do_work_later env ids bound_in add w (record b { works = rest }) h) d in
      inr (before, after, works, hs, k)

  init_server_next :
      (b b' : Bridge Table Entry Bindings) (rest : List (Work Entry))
      → b.works ≡ init_server_work ∷ rest
      → All IsLater rest
      → do_next env ids bound_in add b ≡ done b'
      → Inv true b'
  unfolding do_work
  init_server_next b b' rest e h d =
      let started = record b { works = rest } in
      let (both, quiet, works, tasks) =
        subst (IfDone (Initialised env started))
          (sym (do_next_cons env ids bound_in add b init_server_work rest e) ∙ d)
          (init_server-Initialised env started) in
      inr (rest, [], works, h, tt)

  Reachable-Inv : {f : Bool} {b : Bridge Table Entry Bindings} → Reachable f b → Inv f b
  unfolding schedule_work
  Reachable-Inv (booted e) = ([], e, tt)
  Reachable-Inv (scheduled {f = false} {b} w later r) =
      let (rest, e, h) = Reachable-Inv r in
      (
        rest ++ (w ∷ []),
        ap (λ ws. ws ++ (w ∷ [])) e,
        All-append IsLater rest (w ∷ []) h (later, tt),
      )
  Reachable-Inv (scheduled {f = true} {b} w later r) = elim (Reachable-Inv r) [
    | inl (ready, h) ↦ inl (ready, All-append IsLater b.works (w ∷ []) h (later, tt))
    | inr (before, after, e, h, k) ↦ inr (
      before,
      after ++ (w ∷ []),
      ap (λ ws. ws ++ (w ∷ [])) e ∙ append_assoc before _ _,
      h,
      All-append IsLater after (w ∷ []) k (later, tt),
    )
  ]
  Reachable-Inv (worked {f = false} {b} {b'} r d) =
      let (rest, e, h) = Reachable-Inv r in
      subst (λ ws. Inv (starts ws) b') (sym e) (init_server_next b b' rest e h d)
  Reachable-Inv (worked {f = true} {b} {b'} r d) = elim (Reachable-Inv r) [
    | inl (ready, h) ↦ IsSetUp-next b.works b b' refl ready h d
    | inr (before, after, e, h, k) ↦ IsQueued-next before after b b' e h k d
  ]

  -- A part of a queue of served works.
  All-split :
      (before after : List (Work Entry))
      → All (IsServed env ids bound_in add) (before ++ after)
      → All (IsServed env ids bound_in add) before × All (IsServed env ids bound_in add) after
  All-split [] after h = (tt, h)
  All-split (w ∷ before) after (h, hs) = let (f, g) = All-split before after hs in ((h, f), g)

  -- A switch that is scheduled once `InitServer` has been run is never too early: the works that wait
  -- before it are all done, leave it as the only work and the binding manager set up, and the bindings
  -- then get what the worker sends them, whose reactions do not end the program. This holds however
  -- works of other tasks are mixed in, under the condition that each switch that waits, and this one,
  -- finds a session for every binding that needs one, whatever the binding table is by then.
  pub switch_work_arrives :
      (d : Option BindingCommandData) (b : Bridge Table Entry Bindings)
      → Reachable true b
      → All (IsServed env ids bound_in add) b.works
      → IsServed env ids bound_in add (switch_work d)
      → (b' : Bridge Table Entry Bindings) × (do_works env ids bound_in add
            (length b.works)
            (schedule_work (switch_work d) b)
          ≡ done b')
        × (b'.works ≡ switch_work d ∷ [])
        × (b'.manager.initialised ≡ true)
        × (do_next env ids bound_in add b'
            ≡ done (record b' {
              works = [];
              reactions =
                  b'.reactions ++ switch_worker_function ids (bound_in b'.manager.bindings) d;
            }))
  unfolding schedule_work
  switch_work_arrives d b r served s = elim (Reachable-Inv r) [
    | inl (ready, h) ↦
        let (b', did, left, same) =
          do_works_later env ids bound_in add b.works (switch_work d ∷ [])
            (schedule_work (switch_work d) b) h served refl in
        (
          b',
          did,
          left,
          same ∙ ready,
          do_next_switch env ids bound_in add d b' left (same ∙ ready) s,
        )
    | inr (before, after, e, h, k) ↦
        let (first, (_, second)) =
          All-split before (init_binding_handler_work ∷ after)
            (subst (All (IsServed env ids bound_in add)) e served) in
        let (b', did, left, ready) =
          do_works_queued env ids bound_in add before after (switch_work d ∷ [])
            (schedule_work (switch_work d) b) h k first second
            (ap (λ ws. ws ++ (switch_work d ∷ [])) e ∙ append_assoc before _ _) in
        (
          b',
          ap (λ ws. do_works env ids bound_in add (length ws) (schedule_work (switch_work d) b)) e
              ∙ did,
          left,
          ready,
          do_next_switch env ids bound_in add d b' left ready s,
        )
  ]
