-- ===== src/Service/Answers.antt =====
-- What the services that read the device, or plan a motion on it, put into their responses.
use litearm_ros.Prelude.{
  ℕ, ◌%◌, ◌^◌, ℤ, pos, negsuc, ltb_ℤ, Bool, true, false, Option, none, some, List, [], ◌∷◌, map,
  ◌≡◌, refl, arith, if◌then◌else◌,
}
use litearm_ros.Double.{Double, ltd, zero_d, whole}
use litearm_ros.Sdk.{
  Sdk, Stamped, ModelStatus, Pose, CartPlan, get_ff_scalar, get_ff_vec, get_ff_mask,
  all_joint_params, get_joint_param, model_probe, get_body, get_jm, model_status, ik, poll_cart,
  kin_bench, move_l, move_c, move_path, get_status_now, get_tcp, Moment,
}
use litearm_ros.Node.{Call}
use litearm_ros.Node.Answer.{
  Tells, gated-Tells, require_motion_allowed-Tells, on_success-Tells, reading-Tells, command-Tells,
}
use litearm_ros.Config.{
  JointParamMessage, joint_message, handle_get_feedforward_scalar, handle_get_joint_params,
}
use litearm_ros.Model.{
  ModelReport, handle_get_feedforward_vector, handle_get_feedforward_mask, handle_probe_model,
  handle_get_model_body, handle_get_model_jm, handle_get_model_status,
}
use litearm_ros.Motion.{
  PlanReport, PollReport, report_of, fill_plan, poll_answer, gated_poses, read_poses, handle_move_l,
  handle_move_c, handle_move_path, handle_poll_cart, handle_inverse_kinematics,
}
use litearm_ros.Diagnostics.{BenchReport, bench_report, handle_kin_bench, handle_get_tcp}
use litearm_ros.Diagnostics.Answer.{get_tcp-Tells}
use litearm_ros.Status.{LitearmStatus, handle_get_status}
use litearm_ros.Status.Answer.{status_told, get_status-Tells}

abbrev pub model_report : Stamped ModelStatus → ModelReport
model_report answer = record {
  override_level = answer.value.override_level;
  staged_mask = answer.value.staged_mask;
  dirty = answer.value.dirty;
}

-- No plan yet, or the plan that was reported.
abbrev pub polled : PollReport → Option CartPlan → PollReport
polled before none = record { pending = true; plan = before.plan }
polled before (some plan) = record { pending = false; plan = report_of plan }

module _ {Arm : Type 0} ⦃sdk : Sdk Arm⦄ where
  joint_params_told :
      (k : ℕ) (call : Call Arm (List JointParamMessage))
      → Tells all_joint_params
          (λ _ params. map joint_message params)
          (handle_get_joint_params (negsuc k))
          call
        × Tells
            (get_joint_param (pos k))
            (λ _ answer. joint_message answer.value ∷ [])
            (handle_get_joint_params (pos k))
            call
  unfolding handle_get_joint_params
  joint_params_told k call =
      let below : ltb_ℤ (negsuc k) (pos 0) ≡ true = ground arith in
      let above : ltb_ℤ (pos k) (pos 0) ≡ false = ground arith in
      (
        rw below (
            reading-Tells _
              (gated-Tells _ _ (command-Tells _ all_joint_params _ _ call (λ r s. refl)))),
        rw above (
            reading-Tells _ (
              gated-Tells _ _ (
                gated-Tells _ _
                  (command-Tells _ (get_joint_param (pos k)) _ _ call (λ r s. refl))))),
      )

  polled_told : (call : Call Arm PollReport) → Tells poll_cart polled handle_poll_cart call
  unfolding handle_poll_cart poll_answer
  polled_told call = command-Tells _ poll_cart _ _ call λ r s. ground arith

  plans_told :
      (start via end : Pose) (flat : List Double) (speed : Double) (wait : Bool)
      (call : Call Arm PlanReport)
      → Tells
          (move_l start speed wait)
          (λ _ plan. report_of plan)
          (handle_move_l start speed wait)
          call
        × Tells
            (move_c start via end speed wait)
            (λ _ plan. report_of plan)
            (handle_move_c start via end speed wait)
            call
        × Tells
            (move_path (read_poses flat).1 speed wait)
            (λ _ plan. report_of plan)
            (handle_move_path flat speed wait)
            call
  unfolding handle_move_l handle_move_c handle_move_path gated_poses fill_plan
  plans_told start via end flat speed wait call = (
    require_motion_allowed-Tells _ (
        gated-Tells _ _
          (gated-Tells _ _ (command-Tells _ (move_l start speed wait) _ _ call (λ r s. refl)))),
    require_motion_allowed-Tells _ (
        gated-Tells _ _ (
          gated-Tells _ _ (
            gated-Tells _ _ (
              gated-Tells _ _
                (command-Tells _ (move_c start via end speed wait) _ _ call (λ r s. refl)))))),
    require_motion_allowed-Tells _ (
        gated-Tells _ _ (
          gated-Tells _ _
            (command-Tells _ (move_path (read_poses flat).1 speed wait) _ _ call (λ r s. refl)))),
  )

  bench_told :
      (timeout : Double) (call : Call Arm (Option BenchReport))
      → Tells
          (kin_bench (if ltd zero_d timeout then timeout else sdk.kin_bench_timeout))
          (λ _ answer. some (bench_report answer.value))
          (handle_kin_bench timeout)
          call
  unfolding handle_kin_bench
  bench_told timeout call = gated-Tells _ _ (
      on_success-Tells _ _ (λ s. (refl, refl))
        (command-Tells _ (kin_bench (if ltd zero_d timeout then timeout else sdk.kin_bench_timeout))
          _ _ call (λ r s. refl)))

  -- Each service that has the device answer a question over the link, or plans a motion on it, succeeds
  -- only with what the SDK call of that name answered, and its response then holds exactly that answer:
  -- the values, the mask's low 32 bits, the parameters of one axis or (for a negative index) of all, the
  -- model's state, the solution, the benchmark, the tool pose, the status that is built from the answered
  -- frame, and the report of the plan (for a poll, if there is one). If it fails, the response holds what
  -- it held before. The host's counters and the log's read-out are not among them.
  pub readings_told :
      (item sub body : ℤ) (k : ℕ) (pose via end : Pose) (flat : List Double) (speed : Double)
      (wait : Bool) (seed : List Double) (timeout : Double) (number : Call Arm Double)
      (values : Call Arm (List Double)) (mask : Call Arm ℕ) (flag : Call Arm Bool)
      (axes : Call Arm (List JointParamMessage)) (model : Call Arm ModelReport)
      (poll : Call Arm PollReport) (bench : Call Arm (Option BenchReport))
      (plan : Call Arm PlanReport) (at : Moment) (status : Call Arm (Option LitearmStatus))
      (tool : Call Arm (Option Pose))
      → Tells
          (get_ff_scalar item sub)
          (λ _ answer. answer.value)
          (handle_get_feedforward_scalar item sub)
          number
        × Tells
            (get_ff_vec item)
            (λ _ answer. answer.value)
            (handle_get_feedforward_vector item)
            values
        × Tells get_ff_mask (λ _ answer. answer % 2 ^ 32) handle_get_feedforward_mask mask
        × Tells model_probe (λ _ answer. answer) handle_probe_model flag
        × Tells (get_body body) (λ _ answer. answer.value) (handle_get_model_body body) values
        × Tells get_jm (λ _ answer. answer.value) handle_get_model_jm values
        × Tells
            (ik pose seed (if ltd zero_d timeout then timeout else whole 3))
            (λ _ answer. answer)
            (handle_inverse_kinematics pose seed timeout)
            values
        × Tells all_joint_params
            (λ _ params. map joint_message params)
            (handle_get_joint_params (negsuc k))
            axes
        × Tells
            (get_joint_param (pos k))
            (λ _ answer. joint_message answer.value ∷ [])
            (handle_get_joint_params (pos k))
            axes
        × Tells poll_cart polled handle_poll_cart poll
        × Tells model_status (λ _ answer. model_report answer) handle_get_model_status model
        × Tells
            (kin_bench (if ltd zero_d timeout then timeout else sdk.kin_bench_timeout))
            (λ _ answer. some (bench_report answer.value))
            (handle_kin_bench timeout)
            bench
        × Tells
            (move_l pose speed wait)
            (λ _ plan. report_of plan)
            (handle_move_l pose speed wait)
            plan
        × Tells
            (move_c pose via end speed wait)
            (λ _ plan. report_of plan)
            (handle_move_c pose via end speed wait)
            plan
        × Tells
            (move_path (read_poses flat).1 speed wait)
            (λ _ plan. report_of plan)
            (handle_move_path flat speed wait)
            plan
        × Tells
            (get_status_now timeout)
            (λ _ answer. status_told at timeout status answer)
            (handle_get_status at timeout)
            status
        × Tells get_tcp (λ _ answer. answer.value) handle_get_tcp tool
  unfolding handle_get_feedforward_scalar handle_get_feedforward_vector handle_get_feedforward_mask
      handle_probe_model handle_get_model_body handle_get_model_jm handle_inverse_kinematics
      handle_get_model_status
  readings_told item sub body k pose via end flat speed wait seed timeout number values mask flag
        axes model poll bench plan at status tool =
      let (all, one) = joint_params_told k axes in
      let (line, arc, path) = plans_told pose via end flat speed wait plan in
      (
        command-Tells _ (get_ff_scalar item sub) _ _ number (λ r s. refl),
        command-Tells _ (get_ff_vec item) _ _ values (λ r s. refl),
        command-Tells _ get_ff_mask _ _ mask (λ r s. refl),
        command-Tells _ model_probe _ _ flag (λ r s. refl),
        command-Tells _ (get_body body) _ _ values (λ r s. refl),
        command-Tells _ get_jm _ _ values (λ r s. refl),
        gated-Tells _ _ (
            gated-Tells _ _ (
              gated-Tells _ _ (
                command-Tells _ (ik pose seed (if ltd zero_d timeout then timeout else whole 3)) _ _
                  values (λ r s. refl)))),
        all,
        one,
        polled_told poll,
        command-Tells _ model_status _ _ model (λ r s. refl),
        bench_told timeout bench,
        line,
        arc,
        path,
        get_status-Tells at timeout status,
        get_tcp-Tells tool,
      )
