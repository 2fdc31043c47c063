-- ===== src/Tests/DriverNode/Stops.antt =====
-- The tests of stopping, disabling and refused arguments of litearm_driver/test/test_litearm_driver.cpp.
use litearm_ros.Prelude.{◌*◌, ◌^◌, pos, true, false, none, [], ◌∷◌, ◌≡◌, refl}
use litearm_ros.Double.{finite, nan, zero_d, whole}
use litearm_ros.Node.{Parameters, Call, motors_enabled}
use litearm_ros.Service.{fresh_call}
use litearm_ros.Safety.{
  handle_enable, handle_disable, handle_save_params, handle_enter_dfu, handle_emergency_stop,
  handle_park, handle_zero_g,
}
use litearm_ros.Config.{
  handle_set_speed_scaling, handle_set_payload, handle_set_feedforward_preset,
  handle_set_feedforward_vector,
}
use litearm_ros.Status.{build_status}
use litearm_ros.Tests.Bench.{launch, moment}
use litearm_ros.Tests.Fake.{FakeArm, fake_sdk}
use litearm_ros.Tests.Find.{finds}
use litearm_ros.Tests.DriverNode.{program, node, call, IsSilentRefusal}

abbrev off : Call FakeArm (Unit {0})
off = handle_disable (call tt)

abbrev on : Call FakeArm (Unit {0})
on = handle_enable (fresh_call tt off.node)

enable_and_disable_reach_the_firmware :
    (motors_enabled node ≡ true)
    × (off.response.success ≡ true)
    × (motors_enabled off.node ≡ false)
    × (on.response.success ≡ true)
    × (motors_enabled on.node ≡ true)
unfolding program
enable_and_disable_reach_the_firmware = (refl, refl, refl, refl, refl)

refused_arguments_send_no_frame :
    IsSilentRefusal (handle_set_speed_scaling 150 (call tt))
    × IsSilentRefusal
        (handle_set_payload (whole 25) (record { x = zero_d; y = zero_d; z = zero_d }) (call tt))
    × IsSilentRefusal (handle_set_feedforward_preset (pos 7) (call tt))
    × IsSilentRefusal (handle_set_feedforward_vector (pos 4) (nan ∷ []) (call tt))
    × IsSilentRefusal (handle_enter_dfu (call tt))
unfolding program
refused_arguments_send_no_frame =
    ((refl, refl), (refl, refl), (refl, refl), (refl, refl), (refl, refl))

save_params_needs_disabled_motors :
    IsSilentRefusal (handle_save_params (call tt))
    × (finds "disable" (handle_save_params (call tt)).response.message ≡ true)
    × ((handle_save_params (fresh_call tt off.node)).response.success ≡ true)
unfolding program
save_params_needs_disabled_motors = ((refl, refl), refl, refl)

emergency_stop_and_park_reach_the_firmware :
    ((handle_emergency_stop (call tt)).response.success ≡ true)
    × (finds "hardware" (handle_emergency_stop (call tt)).response.message ≡ true)
    × ((handle_park (call tt)).response.success ≡ true)
unfolding program
emergency_stop_and_park_reach_the_firmware = (refl, refl, refl)

abbrev floating : Call FakeArm (Unit {0})
floating = handle_zero_g true (call tt)

abbrev held : Call FakeArm (Unit {0})
held = handle_zero_g false (fresh_call tt floating.node)

zero_gravity_starts_and_stops :
    (floating.response.success ≡ true)
    × ((build_status moment floating.node none).zero_g_active ≡ true)
    × (held.response.success ≡ true)
    × ((build_status moment held.node none).zero_g_active ≡ false)
unfolding program
zero_gravity_starts_and_stops = (refl, refl, refl, refl)

-- A period of 0.2 s.
abbrev too_slow : Parameters
too_slow = record (launch false) {
  zero_g_keepalive_period_s = finite (pos (0x1999999999999a * 2 ^ 1019));
}

zero_gravity_period_outside_is_refused :
    IsSilentRefusal (handle_zero_g true (fresh_call tt (record node { parameters = too_slow })))
unfolding program
zero_gravity_period_outside_is_refused = (refl, refl)
