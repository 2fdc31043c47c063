-- ===== src/Status/Cache.antt =====
-- The cached frame of litearm_driver/src/litearm_driver_node.cpp: who writes it, and what shows it.
use litearm_ros.Prelude.{
  Bool, true, false, Bool-cases, Option, none, some, String, ◌≡◌, refl, ◌⊎◌, inl, inr, arith,
}
use litearm_ros.Double.{Double}
use litearm_ros.Sdk.{Sdk, Moment, RobotState, Stamped, Result, get_status_now, ok, threw}
use litearm_ros.Node.Answer.{answer_of}
use litearm_ros.Gates.{check_connected}
use litearm_ros.Node.{
  Node, Call, gated, command, run_command, report, with_arm, ask, answered, perform, issue,
  connected, fill_failure,
}
use litearm_ros.Status.{LitearmStatus, handle_get_status, store_status, build_status}

module _ {Arm : Type 0} ⦃sdk : Sdk Arm⦄ where
  -- What get_status leaves behind, by its success.
  abbrev AfterStatus : Bool → Moment → Double → Node Arm → Call Arm (Option LitearmStatus) → Type 0
  AfterStatus true at timeout before after =
      (answer : Stamped RobotState) × (answer_of (get_status_now timeout) before ≡ some (ok answer))
      × (after.node.last_state ≡ answer.value)
      × (after.node.last_state_stamp ≡ answer.timestamp)
      × (after.node.have_state ≡ true)
      × (after.response.body ≡ some (build_status at after.node none))
  AfterStatus false at timeout before after =
      (after.node.last_state ≡ before.last_state)
      × (after.node.have_state ≡ before.have_state)
      × (after.node.last_state_stamp ≡ before.last_state_stamp)

  status_taken :
      (at : Moment) (timeout : Double) (call : Call Arm (Option LitearmStatus)) (arm : Arm)
      (answer : Stamped RobotState)
      → call.node.arm ≡ some arm
      → sdk.is_connected arm ≡ true
      → (sdk.exec (get_status_now timeout) arm).0 ≡ ok answer
      → let after = handle_get_status at timeout call in
        (after.response.success ≡ true)
        × ((answer_of (get_status_now timeout) call.node ≡ some (ok answer))
            × (after.node.last_state ≡ answer.value)
            × (after.node.last_state_stamp ≡ answer.timestamp)
            × (after.node.have_state ≡ true)
            × (after.response.body ≡ some (build_status at after.node none)))
  unfolding handle_get_status command run_command report with_arm ask answered perform issue
      connected gated fill_failure check_connected store_status build_status
  status_taken at timeout call arm answer a c e = ground arith

  -- There is no session, or it is not linked, or the call throws.
  abbrev pub IsUnanswered : Double → Option Arm → Type 0
  IsUnanswered timeout none = Unit
  IsUnanswered timeout (some arm) =
      (sdk.is_connected arm ≡ false)
      ⊎ ((text : String) × ((sdk.exec (get_status_now timeout) arm).0 ≡ threw text))

  status_failed :
      (at : Moment) (timeout : Double) (call : Call Arm (Option LitearmStatus))
      (session : Option Arm)
      → call.node.arm ≡ session
      → IsUnanswered timeout session
      → let after = handle_get_status at timeout call in
        (after.response.success ≡ false) × AfterStatus false at timeout call.node after
  unfolding handle_get_status command run_command report with_arm ask answered perform issue
      connected gated fill_failure check_connected store_status build_status
  status_failed at timeout call none a u = ground arith
  status_failed at timeout call (some arm) a (inl down) = ground arith
  status_failed at timeout call (some arm) a (inr (text, e)) = ground arith

  left_alone :
      (at : Moment) (timeout : Double) (call : Call Arm (Option LitearmStatus))
      (session : Option Arm)
      → call.node.arm ≡ session
      → IsUnanswered timeout session
      → let after = handle_get_status at timeout call in
        AfterStatus after.response.success at timeout call.node after
  left_alone at timeout call session a u =
      let (f, kept) = status_failed at timeout call session a u in rw f kept

  by_answer :
      (at : Moment) (timeout : Double) (call : Call Arm (Option LitearmStatus)) (arm : Arm)
      (said : Result (Stamped RobotState))
      → call.node.arm ≡ some arm
      → sdk.is_connected arm ≡ true
      → (sdk.exec (get_status_now timeout) arm).0 ≡ said
      → let after = handle_get_status at timeout call in
        AfterStatus after.response.success at timeout call.node after
  by_answer at timeout call arm (ok answer) a c e =
      let (s, t) = status_taken at timeout call arm answer a c e in
      rw s (answer, t.0, t.1, t.2, t.3, t.4)
  by_answer at timeout call arm (threw text) a c e =
      left_alone at timeout call (some arm) a (inr (text, e))

  by_session :
      (at : Moment) (timeout : Double) (call : Call Arm (Option LitearmStatus))
      (session : Option Arm)
      → call.node.arm ≡ session
      → let after = handle_get_status at timeout call in
        AfterStatus after.response.success at timeout call.node after
  by_session at timeout call none a = left_alone at timeout call none a tt
  by_session at timeout call (some arm) a = elim (Bool-cases (sdk.is_connected arm)) [
    | inl up ↦ by_answer at timeout call arm (sdk.exec (get_status_now timeout) arm).0 a up refl
    | inr down ↦ left_alone at timeout call (some arm) a (inl down)
  ]

  -- A get_status that succeeds had an answer from the device: the cached frame is that answer and its
  -- arrival time the answer's, and the response holds exactly the status that the node would build from
  -- that frame alone. One that fails leaves the cached frame and its time alone.
  pub get_status_caches :
      (at : Moment) (timeout : Double) (call : Call Arm (Option LitearmStatus))
      → let after = handle_get_status at timeout call in
        AfterStatus after.response.success at timeout call.node after
  get_status_caches at timeout call = by_session at timeout call call.node.arm refl
