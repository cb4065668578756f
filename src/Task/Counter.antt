-- ===== src/Task/Counter.antt =====
-- A bounded counter of presses: what the task of main/AppTask.cpp promises.
use matter_lwm2m_bridge.Base.{
  ℕ, zero, suc, ◌+◌, Option, none, some, List, [], ◌∷◌, ltb, if◌then◌else◌,
}
use matter_lwm2m_bridge.Task.{Posted, posted, queue_full, app_event_queue_size}

-- What happens to it: an edge at the pin of the button, or processor time for the task.
pub data Action : Type 0 where
  press turn : Action

-- The presses that wait, and the toggles made.
pub record Counter : Type 0 where
  pub waiting : ℕ
  pub toggles : ℕ

-- A toggle is made for one press that waits.
abbrev serve : ℕ → ℕ → Counter
serve zero n = record { waiting = zero; toggles = n }
serve (suc k) n = record { waiting = k; toggles = n + 1 }

-- A press is kept as long as fewer than ten wait; the answer tells.
abbrev pub act : Action → Counter → Counter × Option Posted
act press c =
    if ltb c.waiting app_event_queue_size
    then (record c { waiting = c.waiting + 1 }, some posted)
    else (c, some queue_full)
act turn c = (serve c.waiting c.toggles, none)

abbrev pub run : List Action → Counter → Counter × List (Option Posted)
run [] c = (c, [])
run (a ∷ later) c = let (c', p) = act a c in let (c'', ps) = run later c' in (c'', p ∷ ps)
