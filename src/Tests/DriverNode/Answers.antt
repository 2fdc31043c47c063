-- ===== src/Tests/DriverNode/Answers.antt =====
-- The tests of the services that answer with what the node or the device holds of litearm_driver/test/test_litearm_driver.cpp.
use litearm_ros.Prelude.{
  is_empty, ◌&&◌, ◌==◌, ◌*◌, ◌^◌, pos, true, false, Option, none, some, [], ◌∷◌, map, get_elem?,
  length, ◌≡◌, refl,
}
use litearm_ros.Double.{finite, nan, zero_d, whole}
use litearm_ros.Sdk.{RobotState, JointState}
use litearm_ros.Node.{Call}
use litearm_ros.Service.{serve, Request, Outcome, fresh_call, no_catalog, no_dump}
use litearm_ros.Model.{Catalog, handle_get_feedforward_catalog}
use litearm_ros.Diagnostics.{DumpReport, handle_log_dump}
use litearm_ros.Status.{LitearmStatus, build_status, handle_get_status}
use litearm_ros.Tests.Bench.{frame, moment, world}
use litearm_ros.Tests.Fake.{FakeArm, fake_sdk}
use litearm_ros.Tests.Find.{finds}
use litearm_ros.Tests.DriverNode.{program, driver, node, call}

abbrev asked : Call FakeArm (Option LitearmStatus)
asked = handle_get_status moment (finite (pos (2 ^ 1073))) (call none)

get_status_returns_a_fresh_frame :
    (asked.response.success ≡ true)
    × (elim asked.response.body [
      | none ↦ false
      | some s ↦ s.connected && (length s.joint_names == 7)
    ]
        ≡ true)
unfolding program
get_status_returns_a_fresh_frame = (refl, refl)

-- Axis 1 is hot and faulted, and the frame stops at axis 2. That mode 6 is a fault with the hold latch
-- is the SDK's to derive, so the frame says so here.
abbrev hot : JointState
hot = record {
  q = zero_d;
  dq = zero_d;
  tau = zero_d;
  t_mos = finite (pos (0x53 * 2 ^ 1073));
  t_coil = whole 52;
  err = 3;
}

abbrev cold : JointState
cold = record { q = zero_d; dq = zero_d; tau = zero_d; t_mos = zero_d; t_coil = zero_d; err = 0 }

abbrev emergency : RobotState
emergency = record (frame false) {
  faulted = true;
  drop_hold_inferred = true;
  mode = 6;
  mode_name = "EMERGENCY";
  joint_fault = 2;
  joints = cold ∷ hot ∷ cold ∷ [];
}

abbrev mapped : LitearmStatus
mapped = build_status moment node (some emergency)

build_status_maps_faults :
    (mapped.faulted ≡ true)
    × (mapped.drop_hold_inferred ≡ true)
    × (mapped.joint_fault ≡ 2)
    × (get_elem? mapped.joint_error_code 1 ≡ some 3)
    × (get_elem? mapped.temperature_mos 1 ≡ some hot.t_mos)
    × (get_elem? mapped.temperature_coil 1 ≡ some (whole 52))
    × (get_elem? mapped.temperature_mos 6 ≡ some nan)
unfolding program
build_status_maps_faults = (refl, refl, refl, refl, refl, refl, refl)

abbrev catalog : Call FakeArm Catalog
catalog = handle_get_feedforward_catalog (fresh_call no_catalog driver)

feedforward_catalog_needs_no_session :
    (catalog.response.success ≡ true)
    × (map (finds ": ") catalog.response.body.vector_items ≡ true ∷ [])
    × (map (finds ": ") catalog.response.body.scalar_items ≡ true ∷ [])
unfolding program
feedforward_catalog_needs_no_session = (refl, refl, refl)

abbrev unasked : Outcome FakeArm
unasked = serve world Request.get_diagnostics driver

diagnostics_refuse_without_a_session :
    (unasked.success ≡ false) × (is_empty unasked.message ≡ false)
unfolding program
diagnostics_refuse_without_a_session = (refl, refl)

abbrev escaping : Call FakeArm DumpReport
escaping =
    handle_log_dump world.create_directories "../../etc/passwd" false zero_d
      (fresh_call no_dump driver)

log_dump_refuses_a_path :
    (escaping.response.success ≡ false) × (finds "plain file name" escaping.response.message ≡ true)
unfolding program
log_dump_refuses_a_path = (refl, refl)
