-- ===== src/Status/Level.antt =====
-- `publish_diagnostics` of litearm_driver/src/litearm_driver_node.cpp: the level and the problems.
use litearm_ros.Prelude.{
  Bool, true, false, not, ◌&&◌, ◌||◌, Option, none, some, List, [], ◌∷◌, String, ◌<>◌, is_empty,
  to_string, if◌then◌else◌, ◌≡◌, ◌↔◌, arith,
}
use litearm_ros.Sdk.{Sdk, Moment}
use litearm_ros.Node.{Node, connected, frame_age}
use litearm_ros.Status.{arm_flag, arm_text}

pub data Level : Type 0 where
  healthy warning error : Level

pub record DiagnosticStatus : Type 0 where
  pub name : String
  pub hardware_id : String
  pub level : Level
  pub message : String
  pub values : List (String × String)

-- The level so far, and the text `problems`.
abbrev Findings : Type 0
Findings = Level × String

abbrev pub note : String → String → String
note problems text = if is_empty problems then text else problems <> "; " <> text

abbrev raise : Level → Level
raise healthy = warning
raise level = level

abbrev find_error : Bool → String → Findings → Findings
find_error found text (level, problems) =
    if found then (error, note problems text) else (level, problems)

abbrev find_warning : Bool → String → Findings → Findings
find_warning found text (level, problems) =
    if found then (raise level, note problems text) else (level, problems)

abbrev mention : Bool → String → Findings → Findings
mention found text (level, problems) =
    if found then (level, note problems text) else (level, problems)

abbrev yes_no : Bool → String
yes_no b = if b then "true" else "false"

module _ {Arm : Type 0} ⦃sdk : Sdk Arm⦄ where
  -- The six tests in the order of the source.
  unfoldable pub assess : Node Arm → Level × String
  assess node = mention (arm_flag sdk.zero_g_active node.arm) "zero gravity active" (
      find_warning (node.license_valid && not node.license.activated)
        "licence not activated: ENABLE will be refused"
        (find_warning (node.have_state && node.last_state.drop_hold_inferred)
          "rigid-hold latch inferred (reset or clear_faults to release)"
          (find_error (node.have_state && node.last_state.faulted)
            ("faulted: " <> node.last_state.fault_detail)
            (find_error (arm_flag sdk.is_in_dfu node.arm) "in DFU"
              (find_error (not (connected node)) "link down" (healthy, ""))))))

  abbrev details : Moment → Node Arm → List (String × String)
  details at node =
      ("connected", yes_no (connected node))
      ∷ ("enabled", yes_no (node.have_state && node.last_state.enabled))
      ∷ ("mode", if node.have_state then node.last_state.mode_name else "unknown")
      ∷ ("joint_fault", to_string (if node.have_state then node.last_state.joint_fault else 0))
      ∷ ("speed_scaling_percent", to_string node.speed_scaling)
      ∷ ("zero_g_active", yes_no (arm_flag sdk.zero_g_active node.arm))
      ∷ ("feedback_age_s", at.double_to_string (frame_age at node.last_state_stamp))
      ∷ ("license_state", if node.license_valid then node.license.state_name else "unknown")
      ∷ []

  abbrev pub diagnostic_status : Moment → String → Node Arm → DiagnosticStatus
  diagnostic_status at node_name node =
      let (level, problems) = assess node in
      record {
        name = node_name <> ": litearm link";
        hardware_id = arm_text sdk.firmware node.arm;
        level = level;
        message = if is_empty problems then "ok" else problems;
        values = details at node;
      }

  -- The message that a tick of the diagnostics timer publishes.
  unfoldable pub publish_diagnostics : Moment → String → Node Arm → Option DiagnosticStatus
  unfolding assess
  publish_diagnostics at node_name node = elim node.diagnostics_publisher [
    | none ↦ none
    | some publisher ↦ some (diagnostic_status at node_name node)
  ]

  -- Something that stops the arm from being used at all.
  abbrev is_broken : Node Arm → Bool
  is_broken node =
      not (connected node)
      || arm_flag sdk.is_in_dfu node.arm
      || (node.have_state && node.last_state.faulted)

  -- Something that needs attention.
  abbrev needs_care : Node Arm → Bool
  needs_care node =
      (node.have_state && node.last_state.drop_hold_inferred)
      || (node.license_valid && not node.license.activated)

  -- The level is ERROR exactly when the link is down, the device is in DFU or the cached frame is
  -- faulted, and WARN exactly when none of these holds and the hold latch is inferred or the licence
  -- is not activated; zero gravity never changes it.
  pub assess_level :
      (node : Node Arm)
      → (((assess node).0 ≡ error) ↔ (is_broken node ≡ true))
        × (((assess node).0 ≡ warning) ↔ ((is_broken node ≡ false) × (needs_care node ≡ true)))
  unfolding assess
  assess_level node = ground arith
