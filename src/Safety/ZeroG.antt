-- ===== src/Safety/ZeroG.antt =====
-- The helpers of zero gravity (litearm_driver/src/litearm_driver_node.cpp) behind the test of the link:
-- there the member that they call is the session.
use litearm_ros.Prelude.{true, Option, none, some, String, ◌≡◌, refl, ap, not, if◌then◌else◌}
use mathlib.Core.Path.{fun_ext}
use litearm_ros.Double.{Double}
use litearm_ros.Sdk.{Command, Sdk, zero_g_start, zero_g_stop}
use litearm_ros.Gates.{check_connected}
use litearm_ros.Node.{
  Call, fill_failure, gated, with_arm, report, ask, run_command, command, tell, connected,
}
use litearm_ros.Safety.{on_member, start_zero_g, stop_zero_g}

module _ {Arm B : Type 0} ⦃sdk : Sdk Arm⦄ where
  with_member :
      (what : String) (c : Command) (session : Option Arm) (call : Call Arm B)
      → with_arm session (λ arm. report what (on_member c session call)) call
        ≡ with_arm session (λ arm. report what (ask c (λ _ s. s) arm call)) call
  unfolding with_arm on_member
  with_member what c none call = refl
  with_member what c (some arm) call = refl

  run_member :
      (what : String) (c : Command) (call : Call Arm B)
      → run_command what (λ _ s. on_member c s.node.arm s) call ≡ tell what c call
  unfolding run_command tell command gated
  run_member what c call =
      ap
        (λ rest.
          if not (check_connected (connected call.node)).ok
          then fill_failure (check_connected (connected call.node)) call
          else rest)
        (with_member what c call.node.arm call)

module _ (Arm B : Type 0) ⦃sdk : Sdk Arm⦄ where
  pub start_zero_g_lem :
      (what : String) (period_s : Double)
      → run_command {Arm = Arm} {B = B} what (λ _. start_zero_g period_s)
        ≡ tell what (zero_g_start period_s)
  unfolding start_zero_g
  start_zero_g_lem what period_s = fun_ext (λ call. run_member what (zero_g_start period_s) call)

  pub stop_zero_g_lem :
      (what : String)
      → run_command {Arm = Arm} {B = B} what (λ _. stop_zero_g) ≡ tell what (zero_g_stop true)
  unfolding stop_zero_g
  stop_zero_g_lem what = fun_ext (λ call. run_member what (zero_g_stop true) call)
