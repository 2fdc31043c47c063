-- ===== src/Gates.antt =====
-- The argument gates (litearm_driver/src/safety_gates.cpp), one function for each; `int` arguments
-- are integers, and a vector is a list. The texts are those of the source.
mod Messages
pub mod Accept
pub mod Iff
pub mod FileName
use litearm_ros.Prelude.{
  ◌&&◌, ℕ, suc, ℤ, pos, pos_part, leb_ℤ, ltb_ℤ, Bool, true, false, ◌||◌, not, List, [], ◌∷◌, ◌==◌,
  ltb, String, ◌<>◌, is_empty, same_text, to_string, has_char, if◌then◌else◌, length,
}
use litearm_ros.Double.{Double, finite, is_finite, ltd, led, zero_d, whole, period_min, period_max}
use litearm_ros.Sdk.{Vector3, vector_values, Pose, pose_values}
use Messages

pub record GateResult : Type 0 where
  pub ok : Bool
  pub message : String

abbrev pub pass : GateResult
pass = record { ok = true; message = "" }

abbrev pub fail : String → GateResult
fail message = record { ok = false; message = message }

unfoldable pub check_speed_percent : ℤ → GateResult
check_speed_percent percent =
    if ltb_ℤ percent (pos 0) || ltb_ℤ (pos 100) percent then fail Messages.speed_percent else pass

unfoldable pub check_ff_preset : ℤ → GateResult
check_ff_preset preset =
    if ltb_ℤ preset (pos 0) || ltb_ℤ (pos 2) preset then fail Messages.ff_preset else pass

unfoldable pub check_zero_g_period : Double → GateResult
check_zero_g_period period_s =
    if not (is_finite period_s)
    then fail Messages.period_finite
    else if ltd period_s period_min || led period_max period_s
    then fail Messages.period_range
    else pass

unfoldable pub check_joint_index : ℤ → ℤ → GateResult
check_joint_index index joint_count =
    if leb_ℤ joint_count (pos 0)
    then fail Messages.no_axes
    else if ltb_ℤ index (pos 0) || leb_ℤ joint_count index
    then fail (Messages.joint_index (pos_part joint_count))
    else pass

unfoldable pub check_mass : Double → GateResult
check_mass mass =
    if not (is_finite mass)
    then fail Messages.mass_finite
    else if ltd mass zero_d || ltd (whole 20) mass
    then fail Messages.mass_range
    else pass

-- The range-for over the values that returns at the first one that is not finite.
abbrev pub all_finite : List Double → Bool
all_finite [] = true
all_finite (x ∷ xs) = let rest = all_finite xs in if is_finite x then rest else false

unfoldable pub check_com : Vector3 → GateResult
check_com centre = if all_finite (vector_values centre) then pass else fail Messages.com_finite

unfoldable pub check_ff_values : List Double → GateResult
check_ff_values [] = fail Messages.values_empty
check_ff_values (x ∷ xs) = if all_finite (x ∷ xs) then pass else fail Messages.values_finite

unfoldable pub check_requires_disabled : Bool → String → GateResult
check_requires_disabled enabled operation =
    if enabled then fail (operation <> Messages.requires_disabled) else pass

unfoldable pub check_parameter_allows : Bool → String → GateResult
check_parameter_allows allowed parameter_name =
    if not allowed
    then fail ("refused: set the parameter " <> parameter_name <> " to true to allow this service")
    else pass

unfoldable pub check_speed_fraction : Double → GateResult
check_speed_fraction speed =
    if not (is_finite speed)
    then fail "speed must be finite"
    else if led speed zero_d || ltd (whole 1) speed
    then fail Messages.speed_fraction
    else pass

-- The loop of `check_finite_values_impl` from index `i` on.
unfoldable pub first_not_finite : ℕ → List Double → String → GateResult
first_not_finite i [] what = pass
first_not_finite i (x ∷ xs) what =
    let rest = first_not_finite (suc i) xs what in
    if not (is_finite x) then fail (what <> "[" <> to_string i <> "] is not finite") else rest

-- `expected` is 0 where any length will do.
unfoldable pub check_finite_values_impl : List Double → ℕ → String → GateResult
check_finite_values_impl [] expected what = fail (what <> " must not be empty")
check_finite_values_impl (x ∷ xs) expected what =
    if ltb 0 expected && not (length (x ∷ xs) == expected)
    then fail (Messages.wrong_length what (length (x ∷ xs)) expected)
    else first_not_finite 0 (x ∷ xs) what

unfoldable pub check_finite_values : List Double → String → GateResult
check_finite_values values what = check_finite_values_impl values 0 what

unfoldable pub check_finite_values_of : List Double → ℕ → String → GateResult
check_finite_values_of values expected what = check_finite_values_impl values expected what

unfoldable pub check_finite_pose : Pose → GateResult
check_finite_pose pose = check_finite_values_impl (pose_values pose) 6 "pose"

unfoldable pub check_finite_vector3 : Vector3 → GateResult
check_finite_vector3 v = check_finite_values_impl (vector_values v) 3 "vector"

unfoldable pub check_log_filename : String → GateResult
check_log_filename filename =
    if is_empty filename
    then fail "filename must not be empty"
    else if has_char b'/' filename
        || has_char 0x5c filename
        || same_text filename "."
        || same_text filename ".."
    then fail Messages.log_filename
    else pass

unfoldable pub check_timeout : Double → String → GateResult
check_timeout timeout what =
    if not (is_finite timeout)
    then fail (what <> " must be finite")
    else if ltd timeout zero_d
    then fail (what <> Messages.timeout_negative)
    else pass

unfoldable pub check_connected : Bool → GateResult
check_connected connected = if not connected then fail Messages.not_connected else pass
