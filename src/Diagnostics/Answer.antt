-- ===== src/Diagnostics/Answer.antt =====
-- What get_tcp of litearm_driver/src/litearm_driver_diagnostics.cpp answers its client.
use litearm_ros.Prelude.{true, Bool-cases, Option, none, some, ◌≡◌, refl, inl, inr, arith}
use litearm_ros.Sdk.{Sdk, Pose, Stamped, Result, get_tcp, ok, threw}
use litearm_ros.Gates.{check_connected}
use litearm_ros.Node.{Call, gated, reading, with_arm, perform, issue, connected, fill_failure}
use litearm_ros.Node.Answer.{Tells, told, silent}
use litearm_ros.Diagnostics.{handle_get_tcp, tool_answer, tool_pose}

module _ {Arm : Type 0} ⦃sdk : Sdk Arm⦄ where
  abbrev TellsTool : Call Arm (Option Pose) → Type 0
  TellsTool call = Tells get_tcp (λ _ answer. answer.value) handle_get_tcp call

  -- A frame without a pose is no answer for the client.
  tool_by_value :
      (call : Call Arm (Option Pose)) (arm : Arm) (answer : Stamped (Option Pose))
      (value : Option Pose)
      → call.node.arm ≡ some arm
      → sdk.is_connected arm ≡ true
      → (sdk.exec get_tcp arm).0 ≡ ok answer
      → answer.value ≡ value
      → TellsTool call
  unfolding handle_get_tcp reading gated check_connected connected with_arm tool_answer tool_pose
      perform issue fill_failure
  tool_by_value call arm answer none a c e v = silent (ground arith) (ground arith)
  tool_by_value call arm answer (some pose) a c e v =
      told answer (ground arith) (ground arith) (ground arith)

  tool_by_answer :
      (call : Call Arm (Option Pose)) (arm : Arm) (said : Result (Stamped (Option Pose)))
      → call.node.arm ≡ some arm
      → sdk.is_connected arm ≡ true
      → (sdk.exec get_tcp arm).0 ≡ said
      → TellsTool call
  unfolding handle_get_tcp reading gated check_connected connected with_arm tool_answer perform
      issue fill_failure
  tool_by_answer call arm (ok answer) a c e = tool_by_value call arm answer answer.value a c e refl
  tool_by_answer call arm (threw text) a c e = silent (ground arith) (ground arith)

  tool_by_session :
      (call : Call Arm (Option Pose)) (session : Option Arm)
      → call.node.arm ≡ session
      → TellsTool call
  unfolding handle_get_tcp reading gated check_connected connected with_arm fill_failure
  tool_by_session call none a = silent (ground arith) (ground arith)
  tool_by_session call (some arm) a = elim (Bool-cases (sdk.is_connected arm)) [
    | inl up ↦ tool_by_answer call arm (sdk.exec get_tcp arm).0 a up refl
    | inr down ↦ silent (ground arith) (ground arith)
  ]

  pub get_tcp-Tells :
      (call : Call Arm (Option Pose)) → Tells get_tcp (λ _ answer. answer.value) handle_get_tcp call
  get_tcp-Tells call = tool_by_session call call.node.arm refl
