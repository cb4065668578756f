-- ===== src/Task/Queues.antt =====
-- What the task uses of the queues of FreeRTOS, which is a library beside the source.
use matter_lwm2m_bridge.Base.{ℕ, ◌≤◌, ◌<◌, ◌≡◌, Option, none, some, List, [], ◌∷◌, ◌++◌, length}

-- The functions of the program that are given as the handler of an event.
pub data EventHandler : Type 0 where
  switch_action_event_handler : EventHandler

-- `AppEvent` of main/include/AppEvent.h without its union, which no code of the program reads.
pub record AppEvent : Type 0 where
  pub type : ℕ
  pub handler : Option EventHandler

-- `xQueueCreate`, `xQueueSendFromISR`, `xQueueSend` and `xQueueReceive`; `none` for a null queue, a
-- send that fails and a receive that times out.
pub record QueueOps (Q : Type 0) : Type 0 where
  pub create : ℕ → Option Q
  pub send_from_isr : Q → AppEvent → Option Q
  pub send : Q → AppEvent → Option Q
  pub receive : Q → Option (AppEvent × Q)

-- What FreeRTOS documents: a queue is made empty, an interrupt adds at its end as long as there is
-- room, and what is received is the oldest item.
pub record IsFifo {Q : Type 0} (queues : QueueOps Q) (items : Q → List AppEvent) (size : ℕ)
    : Type 0 where
  pub create_empty : {q : Q} → queues.create size ≡ some q → items q ≡ []
  pub send_room :
      (q : Q) (e : AppEvent)
      → length (items q) < size
      → (q' : Q) × (queues.send_from_isr q e ≡ some q') × (items q' ≡ items q ++ (e ∷ []))
  pub send_full : (q : Q) (e : AppEvent) → size ≤ length (items q) → queues.send_from_isr q e ≡ none
  pub receive_none : (q : Q) → items q ≡ [] → queues.receive q ≡ none
  pub receive_some :
      (q : Q) {e : AppEvent} {es : List AppEvent}
      → items q ≡ e ∷ es
      → (q' : Q) × (queues.receive q ≡ some (e, q')) × (items q' ≡ es)
