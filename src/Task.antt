-- ===== src/Task.antt =====
-- The application task and its button: main/AppTask.cpp, main/Button.cpp and main/include/AppEvent.h.
pub mod Queues
pub mod Steps
pub mod Counting
pub mod Counter
pub mod Refine
pub mod Toggling
use matter_lwm2m_bridge.Base.{
  ℕ, zero, suc, ◌^◌, Bool, true, false, Option, none, some, List, [], ◌∷◌, ◌++◌, ◌==◌,
  if◌then◌else◌,
}
use matter_lwm2m_bridge.Binding.{BindingCommandData, new_command_data, OnOffIds}
use Queues.{EventHandler, switch_action_event_handler, AppEvent, QueueOps}

-- `gpio_config_t`
pub data Edge : Type 0 where
  rising falling : Edge

pub record GpioConfig : Type 0 where
  pub interrupt : Edge
  pub pin_bit_mask : ℕ
  pub is_input : Bool
  pub pull_up : Bool

-- The functions of the program that are given as the callback of the button.
pub data PressCallback : Type 0 where
  button_press_callback : PressCallback

-- `AppButton` with `button_press_handler`; `hooked` is the pin whose interrupt calls
-- `gpio_isr_handler`.
pub record Button : Type 0 where
  pub config : Option GpioConfig
  pub hooked : Option ℕ
  pub press_handler : Option PressCallback

-- What the task keeps, and the data given to `ScheduleWork` for `SwitchWorkerFunction` so far.
pub record Task (Q : Type 0) : Type 0 where
  pub event_queue : Option Q
  pub is_running : Bool
  pub button : Button
  pub scheduled : List (Option BindingCommandData)

-- Before `StartAppTask`.
abbrev pub boot : {Q : Type 0} → Task Q
boot = record {
  event_queue = none;
  is_running = false;
  button = record { config = none; hooked = none; press_handler = none };
  scheduled = [];
}

-- The errors of AppTask.h that the code returns.
pub data StartError : Type 0 where
  event_queue_failed create_task_failed : StartError

abbrev pub error_number : StartError → ℕ
error_number event_queue_failed = 1
error_number create_task_failed = 2

abbrev pub app_event_queue_size : ℕ
app_event_queue_size = 10

abbrev pub gpio_input_io_0 : ℕ
gpio_input_io_0 = 5

-- `Button::Init`. The results of the calls are ignored.
unfoldable pub button_init : Button → Button
button_init b = record b {
  config = some (record {
    interrupt = falling;
    pin_bit_mask = 2 ^ gpio_input_io_0;
    is_input = true;
    pull_up = true;
  });
  hooked = some gpio_input_io_0;
}

-- `Button::SetButtonPressCallback`
unfoldable pub set_button_press_callback : Option PressCallback → Button → Button
set_button_press_callback none b = b
set_button_press_callback (some f) b = record b { press_handler = some f }

-- What `PostEvent` came to; the last two are only logged.
pub data Posted : Type 0 where
  posted queue_full no_queue : Posted

module _ {Q : Type 0} (queues : QueueOps Q) where
  -- `created` tells whether FreeRTOS makes the task (`pdPASS`).
  unfoldable pub start_app_task : Bool → Task Q → Option StartError × Task Q
  start_app_task created t = elim (queues.create app_event_queue_size) [
    | none ↦ (some event_queue_failed, record t { event_queue = none })
    | some q ↦
        if created
        then (none, record t { event_queue = some q; is_running = true })
        else (some create_task_failed, record t { event_queue = some q })
  ]

  abbrev sent_to : Task Q → Option Q → Task Q × Posted
  sent_to t none = (t, queue_full)
  sent_to t (some q) = (record t { event_queue = some q }, posted)

  -- `in_isr` is `xPortInIsrContext()`.
  unfoldable pub post_event : Bool → AppEvent → Task Q → Task Q × Posted
  post_event in_isr e t = elim t.event_queue [
    | none ↦ (t, no_queue)
    | some q ↦ sent_to t (if in_isr then queues.send_from_isr q e else queues.send q e)
  ]

  abbrev pub event_type_button : ℕ
  event_type_button = 0

  -- The local event of `ButtonPressCallback`; its union is left as it is and nothing reads it.
  abbrev pub button_event : AppEvent
  button_event = record { type = event_type_button; handler = some switch_action_event_handler }

  unfoldable pub press_button : Bool → Task Q → Task Q × Posted
  unfolding post_event
  press_button in_isr t = post_event in_isr button_event t

  abbrev run_callback : PressCallback → Bool → Task Q → Task Q × Posted
  run_callback button_press_callback in_isr t = press_button in_isr t

  -- `none` where there is no handler to call.
  unfoldable pub gpio_isr_handler : Task Q → Task Q × Option Posted
  unfolding press_button
  gpio_isr_handler t = elim t.button.press_handler [
    | none ↦ (t, none)
    | some f ↦ let (t', p) = run_callback f true t in (t', some p)
  ]

  -- An edge at the pin: the interrupt is taken once the handler is hooked to it.
  unfoldable pub edge_at_pin : Task Q → Task Q × Option Posted
  unfolding gpio_isr_handler
  edge_at_pin t = elim t.button.hooked [ none ↦ (t, none) | some _ ↦ gpio_isr_handler t ]

  module _ (ids : OnOffIds) where
    -- The data of `SwitchActionEventHandler`.
    abbrev pub toggle_data : BindingCommandData
    toggle_data = record new_command_data { command_id = ids.toggle; cluster_id = ids.on_off }

    -- Events of another type are ignored.
    unfoldable pub handle_switch_action : AppEvent → Task Q → Task Q
    handle_switch_action e t =
        if e.type == event_type_button
        then record t { scheduled = t.scheduled ++ (some toggle_data ∷ []) }
        else t

    abbrev call_handler : EventHandler → AppEvent → Task Q → Task Q
    call_handler switch_action_event_handler e t = handle_switch_action e t

    -- An event with no handler is dropped.
    unfoldable pub dispatch_event : AppEvent → Task Q → Task Q
    unfolding handle_switch_action
    dispatch_event e t = elim e.handler [ none ↦ t | some f ↦ call_handler f e t ]

    -- `AppTask::Init`; it has no error to return.
    unfoldable pub init : Task Q → Option StartError × Task Q
    unfolding button_init set_button_press_callback
    init t = (
      none,
      record t {
        button = set_button_press_callback (some button_press_callback) (button_init t.button);
      },
    )

    -- `xQueueReceive` on the task's queue.
    abbrev pub receive : Task Q → Option (AppEvent × Task Q)
    receive t = elim t.event_queue [
      | none ↦ none
      | some q ↦ elim (queues.receive q) [
        | none ↦ none
        | some (e, q') ↦ some (e, record t { event_queue = some q' })
      ]
    ]

    -- One event received and dispatched.
    unfoldable pub take_event : Task Q → Option (Task Q)
    unfolding dispatch_event
    take_event t = elim (receive t) [ none ↦ none | some (e, t') ↦ some (dispatch_event e t') ]

    -- A turn of the outer loop, with the inner loop on fuel.
    unfoldable pub serve_events : ℕ → Task Q → Task Q
    unfolding take_event
    serve_events zero t = t
    serve_events (suc n) t = elim (take_event t) [ none ↦ t | some t' ↦ serve_events n t' ]

    -- The outer loop never ends; `turns` counts its turns so far.
    unfoldable pub app_task_turns : ℕ → ℕ → Task Q → Task Q
    unfolding serve_events
    app_task_turns zero fuel t = t
    app_task_turns (suc turns) fuel t = app_task_turns turns fuel (serve_events fuel t)

    unfoldable pub app_task_main : ℕ → ℕ → Task Q → Task Q
    unfolding init app_task_turns
    app_task_main turns fuel t =
        let (e, t') = init t in elim e [ none ↦ app_task_turns turns fuel t' | some _ ↦ t' ]
