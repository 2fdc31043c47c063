-- ===== src/Tests/SafetyGates.antt =====
-- The expectations of litearm_driver/test/test_safety_gates.cpp, test by test, on the model of the
-- gates: what is accepted, what is refused, and the words that the refusals contain.
use litearm_ros.Prelude.{
  ◌*◌, ◌-◌, ◌^◌, pos, negsuc, Bool, true, false, List, [], ◌∷◌, map, ◌≡◌, refl, has_char,
}
use litearm_ros.Double.{
  Double, nan, pos_inf, finite, zero_d, whole, minus_one, period_min, period_max,
}
use litearm_ros.Sdk.{Vector3, Pose}
use litearm_ros.Gates.{
  GateResult, check_speed_percent, check_ff_preset, check_zero_g_period, check_joint_index,
  check_mass, check_com, check_ff_values, check_requires_disabled, check_parameter_allows,
  check_speed_fraction, first_not_finite, check_finite_values_impl, check_finite_values,
  check_finite_values_of, check_finite_pose, check_finite_vector3, check_log_filename,
  check_timeout, check_connected,
}
use litearm_ros.Tests.Find.{finds}

abbrev verdicts : List GateResult → List Bool
verdicts = map λ gate. gate.ok

abbrev vector : Double → Double → Double → Vector3
vector x y z = record { x = x; y = y; z = z }

abbrev still : Double → Pose
still yaw = record { x = zero_d; y = zero_d; z = zero_d; roll = zero_d; pitch = zero_d; yaw = yaw }

-- 0.04
abbrev period_40_ms : Double
period_40_ms = finite (pos (0x147ae147ae147b * 2 ^ 1017))

-- 0.004
abbrev period_4_ms : Double
period_4_ms = finite (pos (0x4189374bc6a7f * 2 ^ 1016))

-- 1.5
abbrev one_and_a_half : Double
one_and_a_half = finite (pos (0x3 * 2 ^ 1073))

-- 20.5
abbrev mass_too_big : Double
mass_too_big = finite (pos (0x29 * 2 ^ 1073))

-- 0.05
abbrev five_hundredths : Double
five_hundredths = finite (pos (0xccccccccccccd * 2 ^ 1018))

-- 0.5
abbrev half : Double
half = finite (pos (2 ^ 1073))

-- -0.1
abbrev minus_a_tenth : Double
minus_a_tenth = finite (negsuc (0xccccccccccccd * 2 ^ 1019 - 1))

-- -9.81
abbrev standard_gravity : Double
standard_gravity = finite (negsuc (0x139eb851eb851f * 2 ^ 1025 - 1))

speed_percent_accepts_the_whole_range :
    verdicts (
      check_speed_percent (pos 0)
      ∷ check_speed_percent (pos 1)
      ∷ check_speed_percent (pos 100)
      ∷ [])
    ≡ true ∷ true ∷ true ∷ []
unfolding check_speed_percent
speed_percent_accepts_the_whole_range = refl

speed_percent_rejects_out_of_range :
    (verdicts (check_speed_percent (pos 101) ∷ check_speed_percent (negsuc 0) ∷ [])
      ≡ false ∷ false ∷ [])
    × (finds "one percent" (check_speed_percent (pos 101)).message ≡ true)
unfolding check_speed_percent finds
speed_percent_rejects_out_of_range = (refl, refl)

feedforward_preset_accepts_only_three :
    verdicts (
      check_ff_preset (pos 0)
      ∷ check_ff_preset (pos 1)
      ∷ check_ff_preset (pos 2)
      ∷ check_ff_preset (pos 3)
      ∷ check_ff_preset (negsuc 0)
      ∷ [])
    ≡ true ∷ true ∷ true ∷ false ∷ false ∷ []
unfolding check_ff_preset
feedforward_preset_accepts_only_three = refl

zero_gravity_period_matches_the_contract :
    verdicts (
      check_zero_g_period period_min
      ∷ check_zero_g_period period_40_ms
      ∷ check_zero_g_period period_max
      ∷ check_zero_g_period period_4_ms
      ∷ check_zero_g_period zero_d
      ∷ [])
    ≡ true ∷ true ∷ false ∷ false ∷ false ∷ []
unfolding check_zero_g_period period_min period_max
zero_gravity_period_matches_the_contract = refl

zero_gravity_period_rejects_nan : verdicts (check_zero_g_period nan ∷ []) ≡ false ∷ []
unfolding check_zero_g_period
zero_gravity_period_rejects_nan = refl

joint_index_addresses_an_axis :
    verdicts (
      check_joint_index (pos 0) (pos 7)
      ∷ check_joint_index (pos 6) (pos 7)
      ∷ check_joint_index (pos 7) (pos 7)
      ∷ check_joint_index (negsuc 0) (pos 7)
      ∷ check_joint_index (pos 0) (pos 1)
      ∷ [])
    ≡ true ∷ true ∷ false ∷ false ∷ true ∷ []
unfolding check_joint_index
joint_index_addresses_an_axis = refl

joint_index_without_axes :
    (verdicts (check_joint_index (pos 0) (pos 0) ∷ []) ≡ false ∷ [])
    × (finds "connect" (check_joint_index (pos 0) (pos 0)).message ≡ true)
unfolding check_joint_index finds
joint_index_without_axes = (refl, refl)

mass_refuses_what_would_be_clamped :
    (verdicts (
        check_mass zero_d
        ∷ check_mass one_and_a_half
        ∷ check_mass (whole 20)
        ∷ check_mass mass_too_big
        ∷ check_mass minus_one
        ∷ [])
      ≡ true ∷ true ∷ true ∷ false ∷ false ∷ [])
    × (finds "clamps" (check_mass mass_too_big).message ≡ true)
unfolding check_mass whole minus_one finds
mass_refuses_what_would_be_clamped = (refl, refl)

mass_rejects_values_that_are_not_finite :
    verdicts (check_mass nan ∷ check_mass pos_inf ∷ []) ≡ false ∷ false ∷ []
unfolding check_mass
mass_rejects_values_that_are_not_finite = refl

centre_of_mass_is_finite :
    verdicts
      (check_com (vector zero_d zero_d five_hundredths) ∷ check_com (vector zero_d nan zero_d) ∷ [])
    ≡ true ∷ false ∷ []
unfolding check_com
centre_of_mass_is_finite = refl

feedforward_vectors_are_finite :
    verdicts (
      check_ff_values (whole 1 ∷ whole 2 ∷ whole 3 ∷ [])
      ∷ check_ff_values []
      ∷ check_ff_values (whole 1 ∷ pos_inf ∷ [])
      ∷ [])
    ≡ true ∷ false ∷ false ∷ []
unfolding check_ff_values whole
feedforward_vectors_are_finite = refl

flash_writes_need_disabled_motors :
    (verdicts (
        check_requires_disabled false "save_params"
        ∷ check_requires_disabled true "save_params"
        ∷ [])
      ≡ true ∷ false ∷ [])
    × (finds "save_params" (check_requires_disabled true "save_params").message ≡ true)
    × (finds "disable" (check_requires_disabled true "save_params").message ≡ true)
unfolding check_requires_disabled finds
flash_writes_need_disabled_motors = (refl, refl, refl)

opt_in_parameters_name_themselves :
    (verdicts
        (check_parameter_allows true "allow_dfu" ∷ check_parameter_allows false "allow_dfu" ∷ [])
      ≡ true ∷ false ∷ [])
    × (finds "allow_dfu" (check_parameter_allows false "allow_dfu").message ≡ true)
unfolding check_parameter_allows finds
opt_in_parameters_name_themselves = (refl, refl)

disconnected_names_the_causes :
    (verdicts (check_connected true ∷ check_connected false ∷ []) ≡ true ∷ false ∷ [])
    × (finds "USB" (check_connected false).message ≡ true)
    × (finds "ros2_control" (check_connected false).message ≡ true)
unfolding check_connected finds
disconnected_names_the_causes = (refl, refl, refl)

speed_fraction_rejects_percent :
    verdicts (
      check_speed_fraction half
      ∷ check_speed_fraction (whole 1)
      ∷ check_speed_fraction zero_d
      ∷ check_speed_fraction (whole 30)
      ∷ check_speed_fraction minus_a_tenth
      ∷ check_speed_fraction nan
      ∷ [])
    ≡ true ∷ true ∷ false ∷ false ∷ false ∷ false ∷ []
unfolding check_speed_fraction whole
speed_fraction_rejects_percent = refl

finite_values_check_length :
    verdicts (
      check_finite_values (whole 1 ∷ whole 2 ∷ []) "values"
      ∷ check_finite_values [] "values"
      ∷ check_finite_values_of (whole 1 ∷ whole 2 ∷ []) 2 "q"
      ∷ check_finite_values_of (whole 1 ∷ []) 7 "q"
      ∷ check_finite_values (whole 1 ∷ nan ∷ []) "values"
      ∷ check_finite_values (pos_inf ∷ []) "values"
      ∷ [])
    ≡ true ∷ false ∷ true ∷ false ∷ false ∷ false ∷ []
unfolding check_finite_values check_finite_values_of check_finite_values_impl first_not_finite whole
finite_values_check_length = refl

poses_and_vectors_by_shape :
    verdicts (
      check_finite_pose (still zero_d)
      ∷ check_finite_pose (still nan)
      ∷ check_finite_vector3 (vector zero_d zero_d standard_gravity)
      ∷ check_finite_vector3 (vector zero_d zero_d nan)
      ∷ [])
    ≡ true ∷ false ∷ true ∷ false ∷ []
unfolding check_finite_pose check_finite_vector3 check_finite_values_impl first_not_finite
poses_and_vectors_by_shape = refl

log_filename_is_no_path :
    verdicts (
      check_log_filename "tick_log.bin"
      ∷ check_log_filename ""
      ∷ check_log_filename "sub/dir.bin"
      ∷ check_log_filename ".."
      ∷ check_log_filename "..\\escape.bin"
      ∷ [])
    ≡ true ∷ false ∷ false ∷ false ∷ false ∷ []
unfolding check_log_filename has_char
log_filename_is_no_path = refl

timeout_is_a_deadline :
    verdicts (
      check_timeout zero_d "timeout"
      ∷ check_timeout one_and_a_half "timeout"
      ∷ check_timeout minus_one "timeout"
      ∷ check_timeout nan "timeout"
      ∷ [])
    ≡ true ∷ true ∷ false ∷ false ∷ []
unfolding check_timeout minus_one
timeout_is_a_deadline = refl
