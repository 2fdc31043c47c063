-- ===== src/Status/Answer.antt =====
-- What get_status of litearm_driver/src/litearm_driver_node.cpp answers its client.
use litearm_ros.Prelude.{true, false, Bool-cases, Option, none, some, ◌≡◌, refl, inl, inr, arith}
use litearm_ros.Double.{Double}
use litearm_ros.Sdk.{Sdk, Moment, RobotState, Stamped, Result, get_status_now, ok, threw}
use litearm_ros.Gates.{check_connected}
use litearm_ros.Node.{
  Call, gated, command, run_command, report, with_arm, ask, answered, perform, issue, connected,
  fill_failure,
}
use litearm_ros.Node.Answer.{answer_of, Tells, told, silent}
use litearm_ros.Status.{LitearmStatus, handle_get_status, store_status, build_status}
use litearm_ros.Status.Cache.{IsUnanswered}

module _ {Arm : Type 0} ⦃sdk : Sdk Arm⦄ where
  -- The status that the node builds from the frame that the device answered.
  abbrev pub status_told :
      Moment → Double → Call Arm (Option LitearmStatus) → Stamped RobotState → Option LitearmStatus
  status_told at timeout call answer =
      some (build_status at (handle_get_status at timeout call).node (some answer.value))

  shown :
      (at : Moment) (timeout : Double) (call : Call Arm (Option LitearmStatus)) (arm : Arm)
      (answer : Stamped RobotState)
      → call.node.arm ≡ some arm
      → sdk.is_connected arm ≡ true
      → (sdk.exec (get_status_now timeout) arm).0 ≡ ok answer
      → let after = handle_get_status at timeout call in
        (after.response.success ≡ true)
        × (answer_of (get_status_now timeout) call.node ≡ some (ok answer))
        × (after.response.body ≡ status_told at timeout call answer)
  unfolding handle_get_status command run_command report with_arm ask answered perform issue
      connected gated fill_failure check_connected store_status build_status
  shown at timeout call arm answer a c e = ground arith

  withheld :
      (at : Moment) (timeout : Double) (call : Call Arm (Option LitearmStatus))
      (session : Option Arm)
      → call.node.arm ≡ session
      → IsUnanswered timeout session
      → let after = handle_get_status at timeout call in
        (after.response.success ≡ false) × (after.response.body ≡ call.response.body)
  unfolding handle_get_status command run_command report with_arm ask answered perform issue
      connected gated fill_failure check_connected store_status build_status
  withheld at timeout call none a u = ground arith
  withheld at timeout call (some arm) a (inl down) = ground arith
  withheld at timeout call (some arm) a (inr (text, e)) = ground arith

  abbrev TellsStatus : Moment → Double → Call Arm (Option LitearmStatus) → Type 0
  TellsStatus at timeout call =
      Tells (get_status_now timeout) (λ _ answer. status_told at timeout call answer)
        (handle_get_status at timeout) call

  unanswered :
      (at : Moment) (timeout : Double) (call : Call Arm (Option LitearmStatus))
      (session : Option Arm)
      → call.node.arm ≡ session
      → IsUnanswered timeout session
      → TellsStatus at timeout call
  unanswered at timeout call session a u =
      let (f, b) = withheld at timeout call session a u in silent f b

  by_answer :
      (at : Moment) (timeout : Double) (call : Call Arm (Option LitearmStatus)) (arm : Arm)
      (said : Result (Stamped RobotState))
      → call.node.arm ≡ some arm
      → sdk.is_connected arm ≡ true
      → (sdk.exec (get_status_now timeout) arm).0 ≡ said
      → TellsStatus at timeout call
  by_answer at timeout call arm (ok answer) a c e =
      let (s, o, b) = shown at timeout call arm answer a c e in told answer s o b
  by_answer at timeout call arm (threw text) a c e =
      unanswered at timeout call (some arm) a (inr (text, e))

  by_session :
      (at : Moment) (timeout : Double) (call : Call Arm (Option LitearmStatus))
      (session : Option Arm)
      → call.node.arm ≡ session
      → TellsStatus at timeout call
  by_session at timeout call none a = unanswered at timeout call none a tt
  by_session at timeout call (some arm) a = elim (Bool-cases (sdk.is_connected arm)) [
    | inl up ↦ by_answer at timeout call arm (sdk.exec (get_status_now timeout) arm).0 a up refl
    | inr down ↦ unanswered at timeout call (some arm) a (inl down)
  ]

  pub get_status-Tells :
      (at : Moment) (timeout : Double) (call : Call Arm (Option LitearmStatus))
      → Tells
          (get_status_now timeout)
          (λ _ answer. status_told at timeout call answer)
          (handle_get_status at timeout)
          call
  get_status-Tells at timeout call = by_session at timeout call call.node.arm refl
