-- ===== src/Model/Commit.antt =====
-- `handle_commit_model` of litearm_driver/src/litearm_driver_model.cpp: the state of the motors in
-- which the staged model is written to flash.
use litearm_ros.Prelude.{ℕ, ◌%◌, ◌^◌, Bool, true, false, String, ◌<>◌, ◌≡◌, ◌↔◌, refl}
use litearm_ros.Sdk.{Sdk, commit}
use litearm_ros.Gates.{check_requires_disabled}
use litearm_ros.Node.{Call, motors_enabled, reading, gated, fill_failure}
use litearm_ros.Node.Outcome.{Does-success, answers}
use litearm_ros.Model.Effect.{commit_model-Does}
use litearm_ros.Model.{handle_commit_model}

abbrev disabled_refusal : String
disabled_refusal =
    "commit_model requires the motors to be disabled; call disable first "
    <> "(the SDK and the firmware both refuse while enabled)"

module _ {Arm : Type 0} ⦃sdk : Sdk Arm⦄ where
  refused :
      (mask : ℕ) (call : Call Arm (Unit {0}))
      → motors_enabled call.node ≡ false
      → ((handle_commit_model mask call).response.message ≡ disabled_refusal)
        × ((handle_commit_model mask call).response.success ≡ false)
        × ((handle_commit_model mask call).node ≡ call.node)
  unfolding handle_commit_model reading gated fill_failure check_requires_disabled
  refused mask call h = rw h (refl, refl, refl)

  -- What a request to commit leads to, by what the motors report.
  abbrev AfterCommit : Bool → ℕ → Call Arm (Unit {0}) → Call Arm (Unit {0}) → Type 0
  AfterCommit false mask call after =
      (after.response.message ≡ disabled_refusal)
      × (after.response.success ≡ false)
      × (after.node ≡ call.node)
  AfterCommit true mask call after =
      (after.response.success ≡ true) ↔ (answers (commit (mask % 2 ^ 16)) call.node ≡ true)

  accepted :
      (mask : ℕ) (call : Call Arm (Unit {0}))
      → motors_enabled call.node ≡ true
      → ((handle_commit_model mask call).response.success ≡ true)
        ↔ (answers (commit (mask % 2 ^ 16)) call.node ≡ true)
  accepted mask call h =
      let (there, back) = Does-success _ _ _ call (commit_model-Does mask call) in
      (λ e. (there e).1, λ a. back (h, a))

  by_motors :
      (mask : ℕ) (call : Call Arm (Unit {0})) (enabled : Bool)
      → motors_enabled call.node ≡ enabled
      → AfterCommit enabled mask call (handle_commit_model mask call)
  by_motors mask call true h = accepted mask call h
  by_motors mask call false h = refused mask call h

  -- The gate of commit_model works the wrong way round. While the cached frame does not say that the
  -- motors are enabled, the request is refused with the advice to disable them and the node is left
  -- alone; while it says so, the request succeeds exactly when the link is up and the SDK's commit of the
  -- mask (modulo 2^16) returns.
  pub commit_model_inverted :
      (mask : ℕ) (call : Call Arm (Unit {0}))
      → AfterCommit (motors_enabled call.node) mask call (handle_commit_model mask call)
  commit_model_inverted mask call = by_motors mask call (motors_enabled call.node) refl
