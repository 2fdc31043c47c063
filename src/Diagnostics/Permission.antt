-- ===== src/Diagnostics/Permission.antt =====
-- Every SDK call of the handlers in litearm_driver/src/litearm_driver_diagnostics.cpp is permitted.
use litearm_ros.Prelude.{
  ℕ, ℤ, pos, ◌<ℤ◌, Bool, true, Option, none, some, String, ◌≡◌, refl, arith, inl, inr, ap, ◌∙◌,
  if◌then◌else◌,
}
use litearm_ros.Double.{Double, ltd, zero_d, whole, minus_one}
use litearm_ros.Gates.FileName.{path_join, log_file_stays}
use litearm_ros.Sdk.{
  Command, Result, ok, threw, Sdk, Pose, Stamped, reconnect, read_license, get_tcp, log_dump,
}
use litearm_ros.Gates.{check_log_filename}
use litearm_ros.Node.{Node, Call, perform, issue, fill_failure, refresh_license_record}
use litearm_ros.Node.Growth.{
  is_present, outline, Issues, Issues-eq, SendsOnce, perform-SendsOnce, once-Sends, with_arm-Sends,
  same, more, Sends, sends, gated-Sends, on_success-Sends, reading-Sends, command-Sends, tell-Sends,
}
use litearm_ros.Policy.{Permitted}
use litearm_ros.Diagnostics.{
  DiagnosticsReport, BenchReport, DumpReport, check_ticks, then_refresh, reconnected,
  reconnect_session, handle_reconnect, tool_answer, handle_get_tcp, handle_get_diagnostics,
  handle_kin_bench, handle_log_start, handle_log_stop, dumped, dump_to, handle_log_dump,
}

module _ {Arm : Type 0} ⦃sdk : Sdk Arm⦄ where
  refresh-SendsOnce :
      (node : Node Arm) → SendsOnce read_license node (refresh_license_record node).1
  unfolding refresh_license_record
  refresh-SendsOnce node = ground arith

  -- What `reconnect` and `refresh_license_record` leave behind, from the node `before` them.
  abbrev Reconnects : (Command → Type 0) → Node Arm → Node Arm → Type 0
  Reconnects P before after = Issues P before.issued after.issued × (outline after ≡ outline before)

  then_refresh-Reconnects :
      {P : Command → Type 0} (before : Node Arm) (out : Result (Unit {0}) × Node Arm)
      → P read_license
      → Reconnects P before out.1
      → Reconnects P before (then_refresh out).1
  unfolding then_refresh
  then_refresh-Reconnects before (ok _, node) p sent =
      let once = refresh-SendsOnce node in
      elim once.0 [
        | inl e ↦ (Issues-eq _ _ e sent.0, once.1 ∙ sent.1)
        | inr e ↦ (Issues-eq _ _ e (more read_license p sent.0), once.1 ∙ sent.1)
      ]
  then_refresh-Reconnects before (threw text, node) p sent = sent

  reconnected_node :
      (call : Call Arm (Unit {0})) (out : Result (Unit {0}) × Node Arm)
      → (reconnected call out).node ≡ out.1
  unfolding reconnected fill_failure
  reconnected_node call (ok _, node) = refl
  reconnected_node call (threw text, node) = refl

  reconnect_session-Sends :
      (session : Option Arm) (call : Call Arm (Unit {0}))
      → is_present session ≡ is_present call.node.arm
      → Sends (Permitted call.node) (reconnect_session session) call
  unfolding reconnect_session issue fill_failure
  reconnect_session-Sends none call e = sends same refl
  reconnect_session-Sends (some arm) call e =
      let out = then_refresh (issue reconnect arm call.node) in
      let done =
        then_refresh-Reconnects call.node (issue reconnect arm call.node) tt
          (more reconnect tt same, ground arith) in
      let node = reconnected_node call out in
      sends (Issues-eq _ _ (ap (λ n. n.issued) node) done.0) (ap outline node ∙ done.1)

  pub reconnect-Sends :
      (call : Call Arm (Unit {0})) → Sends (Permitted call.node) handle_reconnect call
  unfolding handle_reconnect
  reconnect-Sends call = reading-Sends _ (reconnect_session-Sends call.node.arm call refl)

  tool_answer_node :
      (out : Result (Stamped (Option Pose)) × Call Arm (Option Pose))
      → (tool_answer out).node ≡ out.1.node
  unfolding tool_answer fill_failure
  tool_answer_node out = ground arith

  pub get_tcp-Sends :
      (call : Call Arm (Option Pose)) → Sends (Permitted call.node) handle_get_tcp call
  unfolding handle_get_tcp
  get_tcp-Sends call = reading-Sends _ (
      gated-Sends _ _ λ link.
        with_arm-Sends (λ arm s. tool_answer (perform get_tcp arm s))
          λ arm session. once-Sends get_tcp _ tt (
            perform-SendsOnce get_tcp arm call (tool_answer (perform get_tcp arm call)) session
              (tool_answer_node (perform get_tcp arm call))))

  pub get_diagnostics-Sends :
      (call : Call Arm (Option DiagnosticsReport))
      → Sends (Permitted call.node) handle_get_diagnostics call
  unfolding handle_get_diagnostics
  get_diagnostics-Sends call =
      reading-Sends _ (gated-Sends _ _ λ link. with_arm-Sends _ λ arm session. sends same refl)

  pub kin_bench-Sends :
      (timeout : Double) (call : Call Arm (Option BenchReport))
      → Sends (Permitted call.node) (handle_kin_bench timeout) call
  unfolding handle_kin_bench
  kin_bench-Sends timeout call =
      gated-Sends _ _
        λ t. on_success-Sends _ _ (λ s. (refl, refl)) (command-Sends _ _ _ tt (λ r s. (refl, refl)))

  pub log_start-Sends :
      (ticks : ℤ) (call : Call Arm (Unit {0}))
      → Sends (Permitted call.node) (handle_log_start ticks) call
  unfolding handle_log_start
  log_start-Sends ticks call =
      gated-Sends _ _
        λ h. on_success-Sends _ _ (λ s. (refl, refl)) (tell-Sends _ _ (positive ticks h))
    where
      positive : (k : ℤ) → (check_ticks k).ok ≡ true → pos 0 <ℤ k
      positive k e = ground arith

  pub log_stop-Sends :
      (call : Call Arm (Unit {0})) → Sends (Permitted call.node) handle_log_stop call
  unfolding handle_log_stop
  log_stop-Sends call = tell-Sends _ _ tt

  dumped_node :
      (path : String) (out : Result ℕ × Call Arm DumpReport) → (dumped path out).node ≡ out.1.node
  unfolding dumped fill_failure
  dumped_node path (ok bytes, call) = refl
  dumped_node path (threw text, call) = refl

  dump_to-Sends :
      (made : Result (Unit {0})) (filename : String) (wait : Bool) (timeout : Double) (arm : Arm)
      (call : Call Arm DumpReport)
      → (check_log_filename filename).ok ≡ true
      → is_present call.node.arm ≡ true
      → Sends (Permitted call.node) (dump_to made filename wait timeout arm) call
  unfolding dump_to fill_failure
  dump_to-Sends (threw text) filename wait timeout arm call name session = sends same refl
  dump_to-Sends (ok _) filename wait timeout arm call name session =
      let path = path_join call.node.log_dir filename in
      let c =
        log_dump path wait (if ltd zero_d timeout then timeout else whole 1) (pos 3)
          (if ltd zero_d timeout then timeout else minus_one) in
      let once =
        perform-SendsOnce c arm call (dumped path (perform c arm call)) session
          (dumped_node path (perform c arm call)) in
      elim once.0 [
        | inl e ↦ sends (Issues-eq _ _ e same) once.1
        | inr e ↦
            sends
              (Issues-eq _ _ e
                (more c (filename, log_file_stays call.node.log_dir filename name) same))
              once.1
      ]

  pub log_dump-Sends :
      (create_directories : String → Result (Unit {0})) (filename : String) (wait : Bool)
      (timeout : Double) (call : Call Arm DumpReport)
      → Sends (Permitted call.node) (handle_log_dump create_directories filename wait timeout) call
  unfolding handle_log_dump
  log_dump-Sends create_directories filename wait timeout call = gated-Sends _ _ λ name.
      gated-Sends _ _ λ t. reading-Sends _ (
        gated-Sends _ _ λ link.
          with_arm-Sends (dump_to (create_directories call.node.log_dir) filename wait timeout)
            λ arm session. dump_to-Sends _ filename wait timeout arm call name session)
