-- ===== src/Program/Works.antt =====
-- The work queue of the Matter thread: what main/main.cpp, main/AppTask.cpp and main/CoapServer.cpp
-- give to `ScheduleWork`, in the order in which it is done.
pub mod Doing
pub mod Early
pub mod Order
use matter_lwm2m_bridge.Base.{
  ℕ, zero, suc, Bool, true, false, Option, none, some, List, [], ◌∷◌, ◌++◌, if◌then◌else◌,
}
use matter_lwm2m_bridge.Binding.{BindingCommandData, OnOffIds, BindingType, Peer, survives}
use matter_lwm2m_bridge.Binding.Setup.{
  Work, init_server_work, init_binding_handler_work, switch_work, binding_work, reporting_work,
  init_binding_handler_internal, binding_worker_function, notify,
}
use matter_lwm2m_bridge.Devices.{Device}
use matter_lwm2m_bridge.Program.Flow.{Flow, done, thrown, ◌>>=◌}
use matter_lwm2m_bridge.Program.Deploy.{Bridge, Environment, init_server}

-- `ScheduleWork` puts a work behind those that wait.
unfoldable pub schedule_work :
    {Table Entry Bindings : Type 0}
    → Work Entry
    → Bridge Table Entry Bindings
    → Bridge Table Entry Bindings
schedule_work w b = record b { works = b.works ++ (w ∷ []) }

-- `ScheduleReportingCallback`
unfoldable pub schedule_reporting_callback :
    {Table Entry Bindings : Type 0}
    → Device
    → ℕ
    → ℕ
    → Bridge Table Entry Bindings
    → Bridge Table Entry Bindings
unfolding schedule_work
schedule_reporting_callback dev cluster attribute b =
    schedule_work (reporting_work (dev.endpoint_id, cluster, attribute)) b

-- `CallReportingCallback`: the path is reported, and deleted behind it.
unfoldable pub call_reporting_callback :
    {Table Entry Bindings : Type 0}
    → ℕ × ℕ × ℕ
    → Bridge Table Entry Bindings
    → Bridge Table Entry Bindings
call_reporting_callback path b = record b { reported = b.reported ++ (path ∷ []) }

module _ {Table Entry Bindings : Type 0} (env : Environment Table) (on_off_ids : OnOffIds)
    (bound_in : Bindings → ℕ → ℕ → List (BindingType × Peer))
    (add_binding_entry : Entry → Bindings → Bindings) where
  -- A switch ends the program where a reaction does.
  unfoldable pub do_work :
      Work Entry → Bridge Table Entry Bindings → Flow (Bridge Table Entry Bindings)
  unfolding call_reporting_callback notify init_binding_handler_internal binding_worker_function
  do_work init_server_work b = init_server env b
  do_work init_binding_handler_work b =
      done (record b { manager = init_binding_handler_internal b.manager })
  do_work (switch_work d) b =
      let reactions = notify on_off_ids bound_in d b.manager in
      if survives reactions
      then done (record b { reactions = b.reactions ++ reactions })
      else thrown
  do_work (binding_work e) b =
      done (record b { manager = binding_worker_function add_binding_entry e b.manager })
  do_work (reporting_work path) b = done (call_reporting_callback path b)

  -- The next work; nothing where none waits.
  unfoldable pub do_next : Bridge Table Entry Bindings → Flow (Bridge Table Entry Bindings)
  unfolding do_work
  do_next b = elim b.works [ [] ↦ done b | w ∷ ws ↦ do_work w (record b { works = ws }) ]

  -- The next works, as many as the number says.
  unfoldable pub do_works : ℕ → Bridge Table Entry Bindings → Flow (Bridge Table Entry Bindings)
  unfolding do_next
  do_works zero b = done b
  do_works (suc n) b = do_next b >>= do_works n
