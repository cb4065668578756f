-- ===== src/Task/Counting.antt =====
-- The queue of main/AppTask.cpp against a counter: which presses of the button are kept.
use mathlib.Core.Path.{subst}
use matter_lwm2m_bridge.Base.{
  ℕ, ◌+◌, ◌≤◌, ◌≡◌, ◌≢◌, refl, sym, ◌∙◌, ap, ◌⊎◌, inl, inr, Bool, true, false, Option, none, some,
  List, [], ◌∷◌, ◌++◌, length, length-append, All, All-append, arith, Option-cases, if◌then◌else◌,
}
use matter_lwm2m_bridge.Binding.{OnOffIds}
use matter_lwm2m_bridge.Task.Queues.{AppEvent, QueueOps, IsFifo}
use matter_lwm2m_bridge.Task.{
  Task, Button, boot, Posted, posted, queue_full, no_queue, app_event_queue_size, button_init,
  button_press_callback, set_button_press_callback, start_app_task, edge_at_pin, button_event,
  toggle_data, take_event,
}
use matter_lwm2m_bridge.Task.Steps.{
  queued, items_of, HasQueue, Pressed, ignored, accepted, refused, edge_at_pin-Pressed,
  take_event-none, take_event-some,
}

none_ne_some {ℓ} : {A : Type ℓ} {x : A} → none ≢ some x
none_ne_some e = cc

some_injective {ℓ} : {A : Type ℓ} {x y : A} → some x ≡ some y → x ≡ y
some_injective e = cc

abbrev pub report : Option Posted → List Posted → List Posted
report none ps = ps
report (some p) ps = p ∷ ps

abbrev same : Posted → Posted → Bool
same posted posted = true
same queue_full queue_full = true
same no_queue no_queue = true
same _ _ = false

-- How many of the reports are `p`.
abbrev pub tally : Posted → List Posted → ℕ
tally p [] = 0
tally p (x ∷ xs) = (if same p x then 1 else 0) + tally p xs

module _ {Q : Type 0} (queues : QueueOps Q) (ids : OnOffIds) where
  -- The states of the program, with what the presses so far came to: the task is started once, then
  -- sets up its button in two steps and takes events, while edges come at any time.
  pub data Reachable : List Posted → Task Q → Type 0 where
    booted : Reachable [] boot
    started : (created : Bool) → Reachable [] (start_app_task queues created boot).1
    set_up :
        {ps : List Posted} {t : Task Q}
        → t.is_running ≡ true
        → Reachable ps t
        → Reachable ps (record t { button = button_init t.button })
    given_callback :
        {ps : List Posted} {t : Task Q}
        → t.is_running ≡ true
        → Reachable ps t
        → Reachable ps
            (record t { button = set_button_press_callback (some button_press_callback) t.button })
    pressed :
        {ps : List Posted} {t : Task Q}
        → Reachable ps t
        → Reachable (report (edge_at_pin queues t).1 ps) (edge_at_pin queues t).0
    taken :
        {ps : List Posted} {t t' : Task Q}
        → Reachable ps t
        → take_event queues ids t ≡ some t'
        → Reachable ps t'

  module _ (items : Q → List AppEvent) where
    pub record Inv (ps : List Posted) (t : Task Q) : Type 0 where
      pub running : (t.is_running ≡ false) ⊎ HasQueue queues items t
      pub callback : (t.button.press_handler ≡ none) ⊎ HasQueue queues items t
      pub bounded : length (queued queues items t) ≤ app_event_queue_size
      pub events : All (λ e. e ≡ button_event queues) (queued queues items t)
      pub works : All (λ d. d ≡ some (toggle_data queues ids)) t.scheduled
      pub counted : tally posted ps ≡ length (queued queues items t) + length t.scheduled
      pub queue_known : tally no_queue ps ≡ 0

    -- The task finds no event, or makes a toggle of the oldest press.
    abbrev pub Taken : Task Q → Type 0
    Taken t =
        ((queued queues items t ≡ []) × (take_event queues ids t ≡ none))
        ⊎ ((q : Q) × (queued queues items t ≡ button_event queues ∷ items q)
            × (take_event queues ids t
                ≡ some (record t {
                  event_queue = some q;
                  scheduled = t.scheduled ++ (some (toggle_data queues ids) ∷ []);
                })))

    boot-Inv : Inv [] boot
    boot-Inv = record {
      running = inl refl;
      callback = inl refl;
      bounded = omega arith;
      events = tt;
      works = tt;
      counted = refl;
      queue_known = refl;
    }

    module _ (fifo : IsFifo queues items app_event_queue_size) where
      made-Inv :
          (q : Q) (is_running : Bool)
          → items q ≡ []
          → Inv [] (record boot { event_queue = some q; is_running = is_running })
      made-Inv q is_running e = record {
        running = inr (q, refl);
        callback = inl refl;
        bounded = rw e (omega arith);
        events = rw e tt;
        works = tt;
        counted = rw e refl;
        queue_known = refl;
      }

      start_app_task-Inv : (created : Bool) → Inv [] (start_app_task queues created boot).1
      unfolding start_app_task
      start_app_task-Inv true = elim (Option-cases (queues.create app_event_queue_size)) [
        | inl e ↦ rw (e, start_app_task) boot-Inv
        | inr (q, e) ↦ rw (e, start_app_task) (made-Inv q true (fifo.create_empty e))
      ]
      start_app_task-Inv false = elim (Option-cases (queues.create app_event_queue_size)) [
        | inl e ↦ rw (e, start_app_task) boot-Inv
        | inr (q, e) ↦ rw (e, start_app_task) (made-Inv q false (fifo.create_empty e))
      ]

      Pressed-Inv :
          (ps : List Posted) (t : Task Q) (r : Task Q × Option Posted)
          → Inv ps t
          → Pressed queues items t r
          → Inv (report r.1 ps) r.0
      Pressed-Inv ps t _ v ignored = v
      Pressed-Inv ps t _ v (accepted {q} {q'} e room grown) = record {
        running = inr (q', refl);
        callback = inr (q', refl);
        bounded = rw (grown, length-append) (omega arith);
        events = rw grown (
            All-append (λ e'. e' ≡ button_event queues) (items q) _
              (subst (All (λ e'. e' ≡ button_event queues)) was v.events) (refl, tt));
        works = v.works;
        counted = rw (grown, length-append) (omega (arith, v.counted, ap (λ xs. length xs) was));
        queue_known = omega (arith, v.queue_known);
      }
        where
          was : queued queues items t ≡ items q
          was = ap (items_of queues items) e
      Pressed-Inv ps t _ v (refused e full) = record {
        running = v.running;
        callback = v.callback;
        bounded = v.bounded;
        events = v.events;
        works = v.works;
        counted = omega (arith, v.counted);
        queue_known = omega (arith, v.queue_known);
      }

      pub take_event-cases : {ps : List Posted} {t : Task Q} → Inv ps t → Taken t
      take_event-cases {t} v = go (queued queues items t) refl
        where
          go : (es : List AppEvent) → queued queues items t ≡ es → Taken t
          go [] empty = inl (empty, take_event-none queues items fifo ids t empty)
          go (x ∷ es) h =
              let (first, others) = subst (All (λ e'. e' ≡ button_event queues)) h v.events in
              let waits = h ∙ ap (λ y. y ∷ es) first in
              let (q, took, rest) = take_event-some queues items fifo ids t es waits in
              inr (q, waits ∙ ap (λ ys. button_event queues ∷ ys) (sym rest), took)

      taken-Inv :
          (ps : List Posted) (t t' : Task Q)
          → Inv ps t
          → take_event queues ids t ≡ some t'
          → Inv ps t'
      taken-Inv ps t t' v e = elim (take_event-cases v) [
        | inl (_, idle) ↦ absurd (none_ne_some (sym idle ∙ e))
        | inr (q, waits, took) ↦ subst (Inv ps) (some_injective (sym took ∙ e)) (record {
          running = inr (q, refl);
          callback = inr (q, refl);
          bounded = omega (arith, v.bounded, ap (λ xs. length xs) waits);
          events = (subst (All (λ e'. e' ≡ button_event queues)) waits v.events).1;
          works =
              All-append (λ d. d ≡ some (toggle_data queues ids)) t.scheduled _ v.works (refl, tt);
          counted = rw length-append (omega (arith, v.counted, ap (λ xs. length xs) waits));
          queue_known = v.queue_known;
        })
      ]

      with_button-Inv :
          (ps : List Posted) (t : Task Q) (b : Button)
          → Inv ps t
          → (b.press_handler ≡ none) ⊎ HasQueue queues items t
          → Inv ps (record t { button = b })
      with_button-Inv ps t b v h = record {
        running = v.running;
        callback = h;
        bounded = v.bounded;
        events = v.events;
        works = v.works;
        counted = v.counted;
        queue_known = v.queue_known;
      }

      set_up-Inv :
          (ps : List Posted) (t : Task Q)
          → Inv ps t
          → Inv ps (record t { button = button_init t.button })
      unfolding button_init
      set_up-Inv ps t v = with_button-Inv ps t (button_init t.button) v v.callback

      given_callback-Inv :
          (ps : List Posted) (t : Task Q)
          → t.is_running ≡ true
          → Inv ps t
          → Inv ps (record t {
            button = set_button_press_callback (some button_press_callback) t.button;
          })
      given_callback-Inv ps t on v =
          with_button-Inv ps t _ v (elim v.running [ inl off ↦ absurd cc | inr has ↦ inr has ])

      pub Reachable-Inv : {ps : List Posted} {t : Task Q} → Reachable ps t → Inv ps t
      Reachable-Inv booted = boot-Inv
      Reachable-Inv (started created) = start_app_task-Inv created
      Reachable-Inv (set_up {ps} {t} on r) = set_up-Inv ps t (Reachable-Inv r)
      Reachable-Inv (given_callback {ps} {t} on r) = given_callback-Inv ps t on (Reachable-Inv r)
      Reachable-Inv (pressed {ps} {t} r) =
          let v = Reachable-Inv r in
          Pressed-Inv ps t _ v (edge_at_pin-Pressed queues items fifo t v.callback)
      Reachable-Inv (taken {ps} {t} {t'} r e) = taken-Inv ps t t' (Reachable-Inv r) e

      -- However presses and the task are interleaved from the start of the program on, at most ten events
      -- wait, every event is a press, only toggles are scheduled, each accepted press either waits or has
      -- its toggle scheduled, and the report of a missing queue, which the source says should never
      -- happen, does not.
      pub Reachable-counts :
          {ps : List Posted} {t : Task Q}
          → Reachable ps t
          → (length (queued queues items t) ≤ app_event_queue_size)
            × All (λ e. e ≡ button_event queues) (queued queues items t)
            × All (λ d. d ≡ some (toggle_data queues ids)) t.scheduled
            × (tally posted ps ≡ length (queued queues items t) + length t.scheduled)
            × (tally no_queue ps ≡ 0)
      Reachable-counts r =
          let v = Reachable-Inv r in (v.bounded, v.events, v.works, v.counted, v.queue_known)
