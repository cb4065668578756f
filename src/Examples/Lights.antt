-- ===== src/Examples/Lights.antt =====
-- The virtual light of main/main.cpp.
use matter_lwm2m_bridge.Base.{ℕ, zero, suc, ◌≡◌, refl, true, [], take, arith}
use matter_lwm2m_bridge.Text.{Bytes, codes}
use matter_lwm2m_bridge.Devices.{Device, state_off, ReportIds}
use matter_lwm2m_bridge.Devices.Changes.{new_name, differences, apply, apply-differences}

-- `CopyString` on an array of that size.
abbrev copy_string : ℕ → Bytes → Bytes
copy_string zero s = []
copy_string (suc n) s = take n s

abbrev light : Device
light = record {
  state = state_off;
  reachable = true;
  name = codes "Light 1";
  location = codes "Office";
  endpoint_id = 3;
  changed_cb = true;
}

apply-differences_example :
    (apply copy_string (new_name (codes "Lamp")) light).1
    ≡ differences light (apply copy_string (new_name (codes "Lamp")) light).0
apply-differences_example =
    apply-differences copy_string (new_name (codes "Lamp")) light (λ n s. refl) (omega arith)
      (omega arith) refl

abbrev some_ids : ReportIds
some_ids = record {
  bridged_device_basic_information = 57;
  attribute_reachable = 17;
  attribute_node_label = 5;
  on_off_cluster = 6;
  attribute_on_off = 0;
}
