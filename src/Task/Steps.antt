-- ===== src/Task/Steps.antt =====
-- What a press of the button and a turn of the task of main/AppTask.cpp do to the queue of events.
use mathlib.Core.Path.{subst}
use matter_lwm2m_bridge.Base.{
  ℕ, ◌≤◌, ◌<◌, ◌≡◌, ◌≢◌, refl, sym, ◌∙◌, ap, ◌⊎◌, inl, inr, true, Option, none, some, List, [], ◌∷◌,
  ◌++◌, length, arith, dec_lt, Option-cases,
}
use matter_lwm2m_bridge.Binding.{OnOffIds}
use matter_lwm2m_bridge.Task.Queues.{AppEvent, QueueOps, IsFifo}
use matter_lwm2m_bridge.Task.{
  Task, button_press_callback, Posted, posted, queue_full, app_event_queue_size, post_event,
  press_button, gpio_isr_handler, edge_at_pin, button_event, toggle_data, handle_switch_action,
  dispatch_event, take_event,
}

cons_ne_nil {ℓ} : {A : Type ℓ} {x : A} {xs : List A} → x ∷ xs ≢ []
cons_ne_nil e = cc

module _ {Q : Type 0} (queues : QueueOps Q) (items : Q → List AppEvent) where
  abbrev pub items_of : Option Q → List AppEvent
  items_of none = []
  items_of (some q) = items q

  -- The events that wait, the oldest first.
  abbrev pub queued : Task Q → List AppEvent
  queued t = items_of t.event_queue

  abbrev pub HasQueue : Task Q → Type 0
  HasQueue t = (q : Q) × (t.event_queue ≡ some q)

  -- What an edge at the pin comes to.
  pub data Pressed (t : Task Q) : Task Q × Option Posted → Type 0 where
    ignored : Pressed t (t, none)
    accepted :
        {q q' : Q}
        → t.event_queue ≡ some q
        → length (items q) < app_event_queue_size
        → items q' ≡ items q ++ (button_event queues ∷ [])
        → Pressed t (record t { event_queue = some q' }, some posted)
    refused :
        {q : Q}
        → t.event_queue ≡ some q
        → app_event_queue_size ≤ length (items q)
        → Pressed t (t, some queue_full)

  module _ (fifo : IsFifo queues items app_event_queue_size) where
    press_button-Pressed :
        (t : Task Q) {q : Q}
        → t.event_queue ≡ some q
        → Pressed t (let (t', p) = press_button queues true t in (t', some p))
    unfolding press_button post_event
    press_button-Pressed t {q} e = elim (dec_lt (length (items q)) app_event_queue_size) [
      | yes h ↦
          let (q', sent, grown) = fifo.send_room q (button_event queues) h in
          rw (e, sent) (accepted refl h grown)
      | no h ↦
          rw (e, fifo.send_full q (button_event queues) (omega arith)) (refused refl (omega arith))
    ]

    edge_at_pin_unhooked : (t : Task Q) → t.button.hooked ≡ none → edge_at_pin queues t ≡ (t, none)
    unfolding edge_at_pin
    edge_at_pin_unhooked t e = rw e refl

    gpio_isr_handler_unset :
        (t : Task Q) → t.button.press_handler ≡ none → gpio_isr_handler queues t ≡ (t, none)
    unfolding gpio_isr_handler
    gpio_isr_handler_unset t e = rw e refl

    pub gpio_isr_handler_set :
        (t : Task Q)
        → t.button.press_handler ≡ some button_press_callback
        → gpio_isr_handler queues t ≡ (let (t', p) = press_button queues true t in (t', some p))
    unfolding gpio_isr_handler
    gpio_isr_handler_set t e = rw e refl

    pub edge_at_pin_hooked :
        (t : Task Q) (pin : ℕ)
        → t.button.hooked ≡ some pin
        → edge_at_pin queues t ≡ gpio_isr_handler queues t
    unfolding edge_at_pin
    edge_at_pin_hooked t pin e = rw e refl

    gpio_isr_handler-Pressed :
        (t : Task Q)
        → (t.button.press_handler ≡ none) ⊎ HasQueue t
        → Pressed t (gpio_isr_handler queues t)
    gpio_isr_handler-Pressed t h = elim (Option-cases t.button.press_handler) [
      | inl unset ↦ subst (Pressed t) (sym (gpio_isr_handler_unset t unset)) ignored
      | inr (button_press_callback, set) ↦ elim h [
        | inl unset ↦ absurd cc
        | inr (q, has) ↦
            subst (Pressed t) (sym (gpio_isr_handler_set t set)) (press_button-Pressed t has)
      ]
    ]

    pub edge_at_pin-Pressed :
        (t : Task Q)
        → (t.button.press_handler ≡ none) ⊎ HasQueue t
        → Pressed t (edge_at_pin queues t)
    edge_at_pin-Pressed t h = elim (Option-cases t.button.hooked) [
      | inl e ↦ subst (Pressed t) (sym (edge_at_pin_unhooked t e)) ignored
      | inr (pin, e) ↦
          subst (Pressed t) (sym (edge_at_pin_hooked t pin e)) (gpio_isr_handler-Pressed t h)
    ]

    pub take_event-none :
        (ids : OnOffIds) (t : Task Q) → queued t ≡ [] → take_event queues ids t ≡ none
    unfolding take_event
    take_event-none ids t h = elim (Option-cases t.event_queue) [
      | inl e ↦ rw e refl
      | inr (q, e) ↦ rw (e, fifo.receive_none q (sym (ap items_of e) ∙ h), take_event) refl
    ]

    -- An event of the button is received and its toggle scheduled.
    pub take_event-some :
        (ids : OnOffIds) (t : Task Q) (es : List AppEvent)
        → queued t ≡ button_event queues ∷ es
        → (q : Q) × (take_event queues ids t
            ≡ some (record t {
              event_queue = some q;
              scheduled = t.scheduled ++ (some (toggle_data queues ids) ∷ []);
            }))
          × (items q ≡ es)
    unfolding take_event dispatch_event handle_switch_action
    take_event-some ids t es h = elim (Option-cases t.event_queue) [
      | inl e ↦ absurd (cons_ne_nil (sym h ∙ ap items_of e))
      | inr (q, e) ↦
          let (q', received, rest) = fifo.receive_some q (sym (ap items_of e) ∙ h) in
          (q', rw (take_event, e, received) refl, rest)
    ]
