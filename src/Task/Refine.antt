-- ===== src/Task/Refine.antt =====
-- The task of main/AppTask.cpp, once its button is set up, as a bounded counter of presses.
use mathlib.Core.Path.{subst}
use matter_lwm2m_bridge.Base.{
  ◌+◌, ◌≤◌, ◌<◌, ◌≡◌, ◌≢◌, refl, sym, ◌∙◌, ap, inl, inr, Option, none, some, List, [], ◌∷◌, length,
  length-append, arith, Option-cases, lt→ltb, le→ltb,
}
use matter_lwm2m_bridge.Binding.{OnOffIds}
use matter_lwm2m_bridge.Task.Queues.{AppEvent, QueueOps, IsFifo}
use matter_lwm2m_bridge.Task.{
  Task, Posted, posted, queue_full, app_event_queue_size, gpio_input_io_0, button_press_callback,
  edge_at_pin, take_event,
}
use matter_lwm2m_bridge.Task.Steps.{
  queued, items_of, Pressed, ignored, accepted, refused, edge_at_pin-Pressed, edge_at_pin_hooked,
  gpio_isr_handler_set,
}
use matter_lwm2m_bridge.Task.Counter.{Action, press, turn, Counter}
use matter_lwm2m_bridge.Task.Counter
use matter_lwm2m_bridge.Task.Counting.{Reachable, pressed, taken, Reachable-Inv, take_event-cases}

act_press_room :
    (c : Counter)
    → c.waiting < app_event_queue_size
    → Counter.act press c ≡ (record c { waiting = c.waiting + 1 }, some posted)
act_press_room c h = rw (lt→ltb c.waiting app_event_queue_size h) refl

act_press_full :
    (c : Counter) → app_event_queue_size ≤ c.waiting → Counter.act press c ≡ (c, some queue_full)
act_press_full c h = rw (le→ltb c.waiting app_event_queue_size h) refl

module _ {Q : Type 0} (queues : QueueOps Q) (ids : OnOffIds) where
  -- The task does nothing where no event waits.
  abbrev after_turn : Task Q → Option (Task Q) → Task Q
  after_turn t none = t
  after_turn t (some t') = t'

  abbrev pub act : Action → Task Q → Task Q × Option Posted
  act press t = edge_at_pin queues t
  act turn t = (after_turn t (take_event queues ids t), none)

  abbrev pub run : List Action → Task Q → Task Q × List (Option Posted)
  run [] t = (t, [])
  run (a ∷ later) t = let (t', p) = act a t in let (t'', ps) = run later t' in (t'', p ∷ ps)

  -- `AppTask::Init` has been run.
  abbrev pub IsListening : Task Q → Type 0
  IsListening t =
      (t.button.hooked ≡ some gpio_input_io_0)
      × (t.button.press_handler ≡ some button_press_callback)

  module _ (items : Q → List AppEvent) where
    abbrev pub view : Task Q → Counter
    view t = record { waiting = length (queued queues items t); toggles = length t.scheduled }

    module _ (fifo : IsFifo queues items app_event_queue_size) where
      was : (t : Task Q) {q : Q} → t.event_queue ≡ some q → queued queues items t ≡ items q
      was t e = ap (items_of queues items) e

      Pressed-view :
          (t : Task Q) (r : Task Q × Option Posted)
          → Pressed queues items t r
          → r.1 ≢ none
          → (view r.0, r.1) ≡ Counter.act press (view t)
      Pressed-view t _ ignored h = absurd (h refl)
      Pressed-view t _ (accepted {q} {q'} e room grown) h =
          rw
            (
              act_press_room (view t) (omega (arith, ap (λ xs. length xs) (was t e))),
              grown,
              length-append,
              was t e,
            )
            refl
      Pressed-view t _ (refused e full) h =
          sym (act_press_full (view t) (omega (arith, ap (λ xs. length xs) (was t e))))

      edge_at_pin_answers : (t : Task Q) → IsListening t → (edge_at_pin queues t).1 ≢ none
      edge_at_pin_answers t (hooked, set) =
          subst (λ r. r.1 ≢ none)
            (sym (
              edge_at_pin_hooked queues items fifo t gpio_input_io_0 hooked
              ∙ gpio_isr_handler_set queues items fifo t set))
            (λ e. cc)

      act-view :
          (a : Action) (ps : List Posted) (t : Task Q)
          → Reachable queues ids ps t
          → IsListening t
          → (view (act a t).0, (act a t).1) ≡ Counter.act a (view t)
      act-view press ps t r h =
          Pressed-view t _
            (edge_at_pin-Pressed queues items fifo t
              (Reachable-Inv queues ids items fifo r).callback)
            (edge_at_pin_answers t h)
      act-view turn ps t r h =
          elim (take_event-cases queues ids items fifo (Reachable-Inv queues ids items fifo r)) [
            | inl (empty, idle) ↦ rw (idle, empty) refl
            | inr (q, waits, took) ↦ rw (took, waits, length-append) refl
          ]

      act-Reachable :
          (a : Action) (ps : List Posted) (t : Task Q)
          → Reachable queues ids ps t
          → (ps' : List Posted) × Reachable queues ids ps' (act a t).0
      act-Reachable press ps t r = (_, pressed r)
      act-Reachable turn ps t r = elim (Option-cases (take_event queues ids t)) [
        | inl e ↦ (ps, rw e r)
        | inr (t', e) ↦ (ps, rw e (taken r e))
      ]

      act-button :
          (a : Action) (ps : List Posted) (t : Task Q)
          → Reachable queues ids ps t
          → (act a t).0.button ≡ t.button
      act-button press ps t r =
          Pressed-button t _ (
            edge_at_pin-Pressed queues items fifo t
              (Reachable-Inv queues ids items fifo r).callback)
        where
          Pressed-button :
              (t : Task Q) (r : Task Q × Option Posted)
              → Pressed queues items t r
              → r.0.button ≡ t.button
          Pressed-button t _ ignored = refl
          Pressed-button t _ (accepted e room grown) = refl
          Pressed-button t _ (refused e full) = refl
      act-button turn ps t r =
          elim (take_event-cases queues ids items fifo (Reachable-Inv queues ids items fifo r)) [
            | inl (empty, idle) ↦ rw idle refl
            | inr (q, waits, took) ↦ rw took refl
          ]

      -- Once the task has set up its button, no sequence of presses and turns tells the code from a
      -- counter of at most ten waiting presses: the answers to the presses, the number of waiting events
      -- and the number of scheduled toggles are the counter's.
      pub run-refines :
          (actions : List Action) (ps : List Posted) (t : Task Q)
          → Reachable queues ids ps t
          → IsListening t
          → (view (run actions t).0, (run actions t).1) ≡ Counter.run actions (view t)
      run-refines [] ps t r h = refl
      run-refines (a ∷ later) ps t r h =
          let (ps', r') = act-Reachable a ps t r in
          let h' =
            subst
              (λ b.
                (b.hooked ≡ some gpio_input_io_0) × (b.press_handler ≡ some button_press_callback))
              (sym (act-button a ps t r)) h in
          rw (← act-view a ps t r h, ← run-refines later ps' (act a t).0 r' h') refl
