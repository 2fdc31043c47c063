-- ===== src/Gates/Messages.antt =====
-- The longer texts of litearm_driver/src/safety_gates.cpp, unchanged.
use litearm_ros.Prelude.{ℕ, ◌-◌, String, ◌<>◌, to_string}

abbrev pub speed_percent : String
speed_percent =
    "percent must be 0..100; it is an integer percentage, so 1 means one percent of full speed, "
    <> "not full speed"

abbrev pub ff_preset : String
ff_preset = "preset must be 0 (all off), 1 (factory) or 2 (all on)"

abbrev pub period_finite : String
period_finite = "zero-gravity keep-alive period must be finite"

abbrev pub period_range : String
period_range =
    "zero-gravity keep-alive period must be in [0.005, 0.10) seconds; the firmware "
    <> "command watchdog trips at 0.10 s"

abbrev pub no_axes : String
no_axes = "the firmware has not reported any axes yet; connect first"

-- Given only for a positive count, so the truncated subtraction is exact.
abbrev pub joint_index : ℕ → String
joint_index joint_count =
    "axis index must be 0.."
    <> to_string (joint_count - 1)
    <> " (the firmware reports "
    <> to_string joint_count
    <> " axes)"

abbrev pub mass_finite : String
mass_finite = "mass must be finite"

abbrev pub mass_range : String
mass_range =
    "mass must be in [0, 20] kg; the firmware clamps silently outside that range, so "
    <> "the stored value would differ from the one requested"

abbrev pub com_finite : String
com_finite = "centre of mass must be finite in all three components"

abbrev pub values_empty : String
values_empty = "values must not be empty"

abbrev pub values_finite : String
values_finite = "every feedforward value must be finite"

abbrev pub requires_disabled : String
requires_disabled =
    " requires the motors to be disabled; call disable first "
    <> "(the SDK and the firmware both refuse while enabled)"

abbrev pub speed_fraction : String
speed_fraction =
    "speed is a fraction of full speed: 0 < speed <= 1 (30 means 30x, "
    <> "not 30 percent; set_speed_scaling takes percent)"

abbrev pub wrong_length : String → ℕ → ℕ → String
wrong_length what size expected =
    what
    <> " has "
    <> to_string size
    <> " values; the firmware reports "
    <> to_string expected
    <> " axes"

abbrev pub log_filename : String
log_filename =
    "filename is a plain file name: it is written inside the node's "
    <> "log_dir, so a path is not accepted"

abbrev pub timeout_negative : String
timeout_negative =
    " must not be negative; 0 means \"use the SDK default\" where the service documents it"

abbrev pub not_connected : String
not_connected =
    "the arm is not connected: check the USB cable and the 24 V supply, and make sure "
    <> "the ros2_control stack is not holding the port"
