-- ===== src/Program/Boot.antt =====
-- `app_main` of main/main.cpp.
use matter_lwm2m_bridge.Base.{
  ℕ, ◌≡◌, Bool, true, ◌&&◌, Option, none, some, [], ◌∷◌, ◌++◌, replicate, arith, if◌then◌else◌,
}
use matter_lwm2m_bridge.Binding.Setup.{init_server_work}
use matter_lwm2m_bridge.Task.Queues.{QueueOps}
use matter_lwm2m_bridge.Task.{Task, StartError, start_app_task}
use matter_lwm2m_bridge.Program.Deploy.{Bridge}
use matter_lwm2m_bridge.Program.Works.{schedule_work}

-- What the board's libraries answer; `wifi` is there where Wi-Fi is configured.
pub record Platform : Type 0 where
  pub nvs_flash_init : Bool
  pub event_loop_create_default : Bool
  pub wifi : Option Bool
  pub device_manager_init : Bool
  pub task_create : Bool
  -- `CHIP_DEVICE_CONFIG_DYNAMIC_ENDPOINT_COUNT`
  pub dynamic_endpoint_count : ℕ

-- Where `app_main` returns; the error of the task is only logged.
pub data BootEnd : Type 0 where
  nvs_failed event_loop_failed wifi_failed device_manager_failed : BootEnd
  booted : Option StartError → BootEnd

abbrev wifi_is_up : Option Bool → Bool
wifi_is_up none = true
wifi_is_up (some up) = up

-- The four initialisations succeed.
abbrev pub all_up : Platform → Bool
all_up platform =
    platform.nvs_flash_init
    && platform.event_loop_create_default
    && wifi_is_up platform.wifi
    && platform.device_manager_init

module _ {Table Entry Bindings Q : Type 0} (queues : QueueOps Q) (platform : Platform) where
  -- `memset(gDevices, 0, sizeof(gDevices))`
  abbrev pub devices_cleared : Bridge Table Entry Bindings → Bridge Table Entry Bindings
  devices_cleared b = record b {
    custom = record b.custom {
      endpoints = record b.custom.endpoints {
        g_devices = replicate platform.dynamic_endpoint_count none;
      };
    };
  }

  -- The last part: the providers and the thread stack are set up, `InitServer` is scheduled, and the
  -- task of the button is started.
  abbrev start_up :
      Bridge Table Entry Bindings → Task Q → BootEnd × Bridge Table Entry Bindings × Task Q
  start_up b t =
      let (error, t') = start_app_task queues platform.task_create t in
      (booted error, schedule_work init_server_work b, t')

  unfoldable pub app_main :
      Bridge Table Entry Bindings → Task Q → BootEnd × Bridge Table Entry Bindings × Task Q
  unfolding start_app_task schedule_work
  app_main b t =
      if platform.nvs_flash_init
      then (if platform.event_loop_create_default
          then (if wifi_is_up platform.wifi
              then (if platform.device_manager_init
                  then start_up (devices_cleared b) t
                  else (device_manager_failed, devices_cleared b, t))
              else (wifi_failed, devices_cleared b, t))
          else (event_loop_failed, b, t))
      else (nvs_failed, b, t)

  -- `InitServer` is scheduled, behind the works that wait, and the task of the button is started if and
  -- only if the four initialisations before have succeeded; on the first that fails, neither is done. An
  -- error of the task does not keep the server from starting.
  pub app_main-starts :
      (b : Bridge Table Entry Bindings) (t : Task Q)
      → let (end, b', t') = app_main b t in
        (b'.works ≡ (if all_up platform then b.works ++ (init_server_work ∷ []) else b.works))
        × (t' ≡ (if all_up platform then (start_app_task queues platform.task_create t).1 else t))
  unfolding app_main schedule_work
  app_main-starts b t = ground arith
