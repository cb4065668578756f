-- ===== src/Devices/Reports.antt =====
-- What `HandleDeviceStatusChanged` of main/main.cpp would report to Matter when a device changes, if it
-- were set as the callback of a device; the program sets no callback.
use matter_lwm2m_bridge.Base.{ℕ, ◌≡◌, refl, ap, ◌∙◌, true, List, [], ◌∷◌, ◌++◌}
use matter_lwm2m_bridge.Text.{Bytes}
use matter_lwm2m_bridge.Devices.{
  Changed, changed_reachable, changed_state, changed_location, changed_name, Device, ReportIds,
  Report, mask_of, handle_device_status_changed,
}
use matter_lwm2m_bridge.Devices.Changes.{
  Setter, IsShort, IsTerminated, differences, Truncates, apply, apply-differences,
}

module _ (copy_string : ℕ → Bytes → Bytes) where
  module _ (ids : ReportIds) where
    -- What a change of the device is reported as; a location has no attribute.
    abbrev pub report_of : ℕ → Changed → List Report
    report_of endpoint changed_reachable =
        (endpoint, ids.bridged_device_basic_information, ids.attribute_reachable) ∷ []
    report_of endpoint changed_state = (endpoint, ids.on_off_cluster, ids.attribute_on_off) ∷ []
    report_of endpoint changed_location = []
    report_of endpoint changed_name =
        (endpoint, ids.bridged_device_basic_information, ids.attribute_node_label) ∷ []

    abbrev pub reports_of : ℕ → List Changed → List Report
    reports_of endpoint [] = []
    reports_of endpoint (x ∷ xs) = report_of endpoint x ++ reports_of endpoint xs

    -- `HandleDeviceStatusChanged`, for each call of a callback.
    abbrev pub handle_all : Device → List Changed → List Report
    handle_all d [] = []
    handle_all d (x ∷ xs) = handle_device_status_changed ids d (mask_of x) ++ handle_all d xs

    handle_all-eq-reports_of :
        (d : Device) (xs : List Changed) → handle_all d xs ≡ reports_of d.endpoint_id xs
    unfolding handle_device_status_changed
    handle_all-eq-reports_of d [] = refl
    handle_all-eq-reports_of d (changed_reachable ∷ xs) = rw (handle_all-eq-reports_of d xs) refl
    handle_all-eq-reports_of d (changed_state ∷ xs) = rw (handle_all-eq-reports_of d xs) refl
    handle_all-eq-reports_of d (changed_location ∷ xs) = rw (handle_all-eq-reports_of d xs) refl
    handle_all-eq-reports_of d (changed_name ∷ xs) = rw (handle_all-eq-reports_of d xs) refl

    -- With `HandleDeviceStatusChanged` as the callback, a setter schedules a report of the attribute of
    -- each thing that it changes and that has an attribute, which a location has not, at the endpoint
    -- of the device, and no other; under the conditions of texts that fit and a `CopyString` that
    -- truncates.
    pub apply-reports_of :
        (x : Setter) (d : Device)
        → Truncates copy_string
        → IsShort x
        → IsTerminated d
        → d.changed_cb ≡ true
        → handle_all (apply copy_string x d).0 (apply copy_string x d).1
          ≡ reports_of
              (apply copy_string x d).0.endpoint_id
              (differences d (apply copy_string x d).0)
    apply-reports_of x d t s h c =
        handle_all-eq-reports_of (apply copy_string x d).0 (apply copy_string x d).1
        ∙ ap (reports_of (apply copy_string x d).0.endpoint_id)
            (apply-differences copy_string x d t s h c)
