-- ===== src/Task/Toggling.antt =====
-- From the button of main/Button.cpp through the queue of main/AppTask.cpp to the lights that
-- main/BindingHandler.cpp finds in the binding table.
use matter_lwm2m_bridge.Base.{
  ℕ, zero, suc, true, [], ◌∷◌, ◌≤◌, ◌≡◌, refl, sym, ◌∙◌, ap, inl, inr, Option, some, List, [], ◌++◌,
  map, length, All, append_assoc, append-nil, drop, drop-append, replicate, arith, if◌then◌else◌,
  ==_of_eq,
}
use matter_lwm2m_bridge.Binding.{
  BindingCommandData, OnOffIds, BindingType, Peer, Reaction, unused, unicast, multicast, nothing,
  sent, invoke, toggle_command, is_unicast, switch_worker_function, state_changed_handler,
  command_of, handle_data, until_end, ready,
}
use matter_lwm2m_bridge.Binding.Handling.{known, command_reaction, handle_data-on_off}
use matter_lwm2m_bridge.Binding.Safety.{IsSafe, until_end-IsSafe}
use matter_lwm2m_bridge.Task.Queues.{AppEvent, QueueOps, IsFifo}
use matter_lwm2m_bridge.Task.{Task, Posted, app_event_queue_size, toggle_data, serve_events}
use matter_lwm2m_bridge.Task.Steps.{queued}
use matter_lwm2m_bridge.Task.Counting.{Reachable, taken, Reachable-Inv, take_event-cases}

-- What a bound device gets for a press: its light is toggled if it is bound alone.
abbrev pub toggle_reaction : OnOffIds → BindingType × Peer → Reaction
toggle_reaction ids b = if is_unicast ids b.0 then sent (invoke toggle_command) else nothing

-- A device that is bound alone has a session; a group has none.
abbrev pub HasSession : OnOffIds → BindingType × Peer → Type 0
HasSession ids b = is_unicast ids b.0 ≡ true → b.1 ≡ ready

module _ {Q : Type 0} (queues : QueueOps Q) (ids : OnOffIds) (items : Q → List AppEvent) where
  module _ (fifo : IsFifo queues items app_event_queue_size) where
    abbrev Empties : Task Q → Task Q → Type 0
    Empties t t' =
        (queued queues items t' ≡ [])
        × (t'.scheduled
            ≡ t.scheduled
              ++ replicate (length (queued queues items t)) (some (toggle_data queues ids)))

    serve_events_long :
        (fuel : ℕ) (ps : List Posted) (t : Task Q)
        → Reachable queues ids ps t
        → length (queued queues items t) ≤ fuel
        → Empties t (serve_events queues ids fuel t)
    unfolding serve_events
    serve_events_long zero ps t r h =
        elim (take_event-cases queues ids items fifo (Reachable-Inv queues ids items fifo r)) [
          | inl (empty, idle) ↦ rw empty (refl, sym (append-nil _))
          | inr (q, waits, took) ↦ absurd (omega (arith, ap (λ xs. length xs) waits))
        ]
    serve_events_long (suc n) ps t r h =
        elim (take_event-cases queues ids items fifo (Reachable-Inv queues ids items fifo r)) [
          | inl (empty, idle) ↦ rw (idle, serve_events, empty) (refl, sym (append-nil _))
          | inr (q, waits, took) ↦
              let (left, made) =
                serve_events_long n ps _ (taken r took)
                  (omega (arith, ap (λ xs. length xs) waits)) in
              rw (took, serve_events, waits) (left, made ∙ append_assoc t.scheduled _ _)
        ]

    -- A turn of the task's loop, on fuel for the ten events that fit, handles every event that waits: it
    -- leaves the queue empty and has scheduled one toggle for each of them, in any state of the program.
    pub serve_events-empties :
        (fuel : ℕ) (ps : List Posted) (t : Task Q)
        → Reachable queues ids ps t
        → app_event_queue_size ≤ fuel
        → (queued queues items (serve_events queues ids fuel t) ≡ [])
          × ((serve_events queues ids fuel t).scheduled
              ≡ t.scheduled
                ++ replicate (length (queued queues items t)) (some (toggle_data queues ids)))
    serve_events-empties fuel ps t r h =
        let v = Reachable-Inv queues ids items fifo r in
        serve_events_long fuel ps t r (omega (arith, v.bounded))

    module _ (bound : ℕ → ℕ → List (BindingType × Peer)) where
      command_reaction-toggle :
          (b : BindingType × Peer)
          → HasSession ids b
          → command_reaction (known toggle_command) b ≡ toggle_reaction ids b
      command_reaction-toggle (unused, peer) h = refl
      command_reaction-toggle (multicast, peer) h = refl
      command_reaction-toggle (unicast, peer) h = rw (h refl) refl

      handle_data-toggle :
          (bs : List (BindingType × Peer))
          → All (HasSession ids) bs
          → map (λ b. handle_data ids b.0 b.1 (toggle_data queues ids)) bs
            ≡ map (toggle_reaction ids) bs
      unfolding command_of
      handle_data-toggle [] h = refl
      handle_data-toggle (b ∷ bs) (h, hs) =
          rw
            (
              handle_data-on_off ids (toggle_data queues ids) b (some toggle_command)
                    (refl, refl, refl) refl (rw (==_of_eq ids.toggle ids.toggle refl) refl)
                  ∙ command_reaction-toggle b h,
              handle_data-toggle bs hs,
            )
            refl

      toggle_reaction-IsSafe :
          (bs : List (BindingType × Peer)) → All IsSafe (map (toggle_reaction ids) bs)
      toggle_reaction-IsSafe [] = tt
      toggle_reaction-IsSafe ((unused, peer) ∷ bs) = (tt, toggle_reaction-IsSafe bs)
      toggle_reaction-IsSafe ((multicast, peer) ∷ bs) = (tt, toggle_reaction-IsSafe bs)
      toggle_reaction-IsSafe ((unicast, peer) ∷ bs) = (tt, toggle_reaction-IsSafe bs)

      switch_worker_function-toggle :
          All (HasSession ids) (bound 2 ids.on_off)
          → switch_worker_function ids bound (some (toggle_data queues ids))
            ≡ map (toggle_reaction ids) (bound 2 ids.on_off)
      unfolding switch_worker_function state_changed_handler
      switch_worker_function-toggle h =
          ap until_end (handle_data-toggle (bound 2 ids.on_off) h)
          ∙ until_end-IsSafe _ (toggle_reaction-IsSafe (bound 2 ids.on_off))

      map-replicate :
          (n : ℕ) (works : List (Option BindingCommandData))
          → All (HasSession ids) (bound 2 ids.on_off)
          → works ≡ replicate n (some (toggle_data queues ids))
          → map (switch_worker_function ids bound) works
            ≡ replicate n (map (toggle_reaction ids) (bound 2 ids.on_off))
      map-replicate n works h e = rw e (go n)
        where
          go :
              (n : ℕ)
              → map (switch_worker_function ids bound) (replicate n (some (toggle_data queues ids)))
                ≡ replicate n (map (toggle_reaction ids) (bound 2 ids.on_off))
          go zero = refl
          go (suc n) = rw (switch_worker_function-toggle h, go n) refl

      -- In any state of the program, for each press that waits, a turn of the task's loop has the worker
      -- toggle every light bound alone to the On/Off cluster on endpoint 2 once, and does nothing to
      -- groups; under the condition that all devices bound alone there have a session.
      pub serve_events-toggles :
          (fuel : ℕ) (ps : List Posted) (t : Task Q)
          → Reachable queues ids ps t
          → app_event_queue_size ≤ fuel
          → All (HasSession ids) (bound 2 ids.on_off)
          → map
              (switch_worker_function ids bound)
              (drop (length t.scheduled) (serve_events queues ids fuel t).scheduled)
            ≡ replicate
                (length (queued queues items t))
                (map (toggle_reaction ids) (bound 2 ids.on_off))
      serve_events-toggles fuel ps t r h served =
          map-replicate _ _ served
            (rw (serve_events-empties fuel ps t r h).1 (drop-append t.scheduled _))
