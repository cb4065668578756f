-- ===== src/Examples/Tasks.antt =====
-- The task and the button of main/AppTask.cpp with a small queue.
use matter_lwm2m_bridge.Base.{
  ℕ, ◌≡◌, ◌≤◌, refl, true, Option, none, some, List, [], ◌∷◌, ◌++◌, ◌^◌, length, ltb, lt→ltb,
  le→ltb, All, arith, if◌then◌else◌, map, replicate, drop, ◌+◌,
}
use matter_lwm2m_bridge.Binding.{
  OnOffIds, unicast, multicast, BindingType, Peer, ready, no_peer, switch_worker_function,
}
use matter_lwm2m_bridge.Task.Queues.{AppEvent, QueueOps, IsFifo}
use matter_lwm2m_bridge.Task.{
  Task, falling, button_press_callback, Posted, posted, no_queue, app_event_queue_size,
  gpio_input_io_0, button_init, set_button_press_callback, start_app_task, edge_at_pin,
  gpio_isr_handler, press_button, post_event, button_event, toggle_data, serve_events,
}
use matter_lwm2m_bridge.Task.Steps.{queued}
use matter_lwm2m_bridge.Task.Counter.{press, turn, Counter}
use matter_lwm2m_bridge.Task.Counter
use matter_lwm2m_bridge.Task.Counting.{
  Reachable, started, set_up, given_callback, pressed, tally, Reachable-counts,
}
use matter_lwm2m_bridge.Task.Refine.{run, view, run-refines}
use matter_lwm2m_bridge.Task.Toggling.{toggle_reaction, serve_events-toggles}

-- A queue as the list of its items.
abbrev list_queues : QueueOps (List AppEvent)
list_queues = record {
  create = λ n. some [];
  send_from_isr = λ q e. if ltb (length q) 10 then some (q ++ (e ∷ [])) else none;
  send = λ q e. if ltb (length q) 10 then some (q ++ (e ∷ [])) else none;
  receive = λ q. elim q [ [] ↦ none | e ∷ es ↦ some (e, es) ];
}

list_queues-IsFifo : IsFifo list_queues (λ q. q) app_event_queue_size
list_queues-IsFifo = record {
  create_empty = λ e. cc;
  send_room = λ q e h. (q ++ (e ∷ []), rw (lt→ltb (length q) 10 h) refl, refl);
  send_full = λ q e h. rw (le→ltb (length q) 10 h) refl;
  receive_none = λ q e. rw e refl;
  receive_some = λ q {e} {es} h. (es, rw h refl, refl);
}

abbrev some_ids : OnOffIds
some_ids = record { on_off = 6; toggle = 2; on = 1; off = 0 }

-- The task after its set-up.
abbrev listening : Task (List AppEvent)
listening = record {
  event_queue = some [];
  is_running = true;
  button = record {
    config = some (record {
      interrupt = falling;
      pin_bit_mask = 2 ^ gpio_input_io_0;
      is_input = true;
      pull_up = true;
    });
    hooked = some gpio_input_io_0;
    press_handler = some button_press_callback;
  };
  scheduled = [];
}

listening-Reachable : Reachable list_queues some_ids [] listening
unfolding start_app_task button_init set_button_press_callback
listening-Reachable = given_callback refl (set_up refl (started true))

-- The task after one press.
abbrev pressed_once : Task (List AppEvent)
pressed_once = record listening { event_queue = some (button_event list_queues ∷ []) }

pressed_once-Reachable : Reachable list_queues some_ids (posted ∷ []) pressed_once
unfolding edge_at_pin gpio_isr_handler press_button post_event
pressed_once-Reachable = pressed listening-Reachable

run-refines_example :
    ◌≡◌ {A = Counter.Counter × List (Option Posted)}
      (
        view list_queues some_ids
            (λ q. q)
            (run list_queues some_ids (press ∷ press ∷ turn ∷ []) listening).0,
        (run list_queues some_ids (press ∷ press ∷ turn ∷ []) listening).1,
      )
      (record { waiting = 1; toggles = 1 }, some posted ∷ some posted ∷ none ∷ [])
run-refines_example =
    run-refines list_queues some_ids (λ q. q) list_queues-IsFifo (press ∷ press ∷ turn ∷ []) []
      listening listening-Reachable (refl, refl)

Reachable-counts_example :
    (length (queued list_queues (λ q. q) pressed_once) ≤ app_event_queue_size)
    × All (λ e. e ≡ button_event list_queues) (queued list_queues (λ q. q) pressed_once)
    × All (λ d. d ≡ some (toggle_data list_queues some_ids)) pressed_once.scheduled
    × (tally posted (posted ∷ [])
        ≡ length (queued list_queues (λ q. q) pressed_once) + length pressed_once.scheduled)
    × (tally no_queue (posted ∷ []) ≡ 0)
Reachable-counts_example =
    Reachable-counts list_queues some_ids (λ q. q) list_queues-IsFifo pressed_once-Reachable

-- A light and a group are bound to the cluster.
abbrev light_and_group : ℕ → ℕ → List (BindingType × Peer)
light_and_group endpoint cluster = (unicast, ready) ∷ (multicast, no_peer) ∷ []

serve_events-toggles_example :
    map
      (switch_worker_function some_ids light_and_group)
      (drop 0 (serve_events list_queues some_ids 10 pressed_once).scheduled)
    ≡ replicate 1 (map (toggle_reaction some_ids) (light_and_group 2 6))
serve_events-toggles_example =
    serve_events-toggles list_queues some_ids (λ q. q) list_queues-IsFifo light_and_group 10
      (posted ∷ []) pressed_once pressed_once-Reachable (omega arith)
      ((λ e. refl), ((λ e. absurd cc), tt))
