-- ===== src/Diagnostics/Effect.antt =====
-- What the services of litearm_driver/src/litearm_driver_diagnostics.cpp do.
use litearm_ros.Prelude.{
  ℕ, ℤ, pos, ◌<ℤ◌, Bool, true, false, Bool-cases, Option, none, some, String, is_empty,
  same_text_iff, has_char, ◌≡◌, ◌≢◌, ◌↔◌, refl, ap, sym, ◌∙◌, inl, inr, arith, if◌then◌else◌, drop1,
  drop2,
}
use litearm_ros.Double.{Double, ltd, zero_d, whole, minus_one}
use litearm_ros.Sdk.{
  Command, Sdk, Pose, Stamped, Result, ok, threw, reconnect, read_license, LicenseInfo, get_tcp,
  kin_bench, log_start, log_stop, log_dump,
}
use litearm_ros.Gates.{check_log_filename, check_connected}
use litearm_ros.Gates.Accept.{IsTimeout, check_timeout_iff}
use litearm_ros.Gates.FileName.{path_join}
use litearm_ros.Node.{
  Node, Call, reading, issue, refresh_license_record, fill_failure, gated, connected, is_linked,
  with_arm, perform,
}
use litearm_ros.Node.Effect.{
  seen, settled, Does, does, Does-change, gated-Does, on_success-Does, reading-Does, tell-Does,
  answer-Does, plain, effect, effect_on,
}
use litearm_ros.Policy.{Permitted}
use litearm_ros.Diagnostics.{
  DiagnosticsReport, BenchReport, DumpReport, handle_reconnect, reconnect_session, reconnected,
  then_refresh, handle_get_tcp, tool_answer, tool_pose, handle_get_diagnostics, handle_kin_bench,
  handle_log_start, handle_log_stop, handle_log_dump, dump_to, dumped, check_ticks,
}

-- A name that is a file of its own directory.
abbrev pub IsPlainName : String → Type 0
IsPlainName name =
    (is_empty name ≡ false)
    × (has_char b'/' name ≡ false)
    × (has_char 0x5c name ≡ false)
    × (name ≢ ".")
    × (name ≢ "..")

pub IsPlainName-iff : (name : String) → ((check_log_filename name).ok ≡ true) ↔ IsPlainName name
unfolding check_log_filename
IsPlainName-iff name = ground (arith, same_text_iff name ".", same_text_iff name "..")

ticks_iff : (ticks : ℤ) → ((check_ticks ticks).ok ≡ true) ↔ (pos 0 <ℤ ticks)
ticks_iff ticks = ground arith

abbrev is_some : {A : Type 0} → Option A → Bool
is_some none = false
is_some (some _) = true

-- The call that reads the log into a file of the log directory.
abbrev pub dump_call : String → Bool → Double → String → Command
dump_call filename wait timeout dir =
    log_dump (path_join dir filename) wait (if ltd zero_d timeout then timeout else whole 1) (pos 3)
      (if ltd zero_d timeout then timeout else minus_one)

module _ {Arm : Type 0} ⦃sdk : Sdk Arm⦄ where
  abbrev pub keep_license : LicenseInfo → Node Arm → Node Arm
  keep_license info node = record node { license = info; license_valid = true }

  abbrev pub license_on : Option Arm → Node Arm → Bool × Node Arm
  license_on none node = (true, node)
  license_on (some arm) node = settled keep_license (issue read_license arm node)

  abbrev pub relicensed : Result (Unit {0}) × Node Arm → Bool × Node Arm
  relicensed (ok _, node) = license_on node.arm node
  relicensed (threw text, node) = (false, node)

  abbrev pub rebuilt_on : Option Arm → Node Arm → Bool × Node Arm
  rebuilt_on none node = (false, node)
  rebuilt_on (some arm) node = relicensed (issue reconnect arm node)

  -- The link is rebuilt, whether it was up or not, and then the licence is read and kept.
  unfoldable pub rebuilt : Node Arm → Bool × Node Arm
  rebuilt node = rebuilt_on node.arm node

  pub reconnect-Does :
      (call : Call Arm (Unit {0})) → Does (Unit {0}) (rebuilt call.node) handle_reconnect call
  unfolding rebuilt handle_reconnect reading reconnect_session reconnected then_refresh
      refresh_license_record issue fill_failure
  reconnect-Does call = does tt (ground arith)

  abbrev pub located : Result (Stamped (Option Pose)) × Node Arm → Bool × Node Arm
  located (ok answer, node) = (is_some answer.value, node)
  located (threw text, node) = (false, node)

  abbrev pub located_on : Option Arm → Node Arm → Bool × Node Arm
  located_on none node = (false, node)
  located_on (some arm) node =
      if sdk.is_connected arm then located (issue get_tcp arm node) else (false, node)

  -- The tool pose is asked for; it is a failure if the device has none.
  unfoldable pub tool_located : Node Arm → Bool × Node Arm
  tool_located node = located_on node.arm node

  pub get_tcp-Does :
      (call : Call Arm (Option Pose)) → Does (Unit {0}) (tool_located call.node) handle_get_tcp call
  unfolding tool_located handle_get_tcp reading gated check_connected connected with_arm tool_answer
      tool_pose perform issue fill_failure
  get_tcp-Does call = does tt (ground arith)

  -- Only the host's counters are read.
  pub get_diagnostics-Does :
      (call : Call Arm (Option DiagnosticsReport))
      → Does (Unit {0}) (connected call.node, call.node) handle_get_diagnostics call
  unfolding handle_get_diagnostics reading gated check_connected connected with_arm fill_failure
  get_diagnostics-Does call = does tt (ground arith)

  pub kin_bench-Does :
      (timeout : Double) (call : Call Arm (Option BenchReport))
      → Does
          (IsTimeout timeout)
          (plain
            (kin_bench (if ltd zero_d timeout then timeout else sdk.kin_bench_timeout))
            call.node)
          (handle_kin_bench timeout)
          call
  unfolding handle_kin_bench
  kin_bench-Does timeout call = Does-change drop1 (
      gated-Does _ _ (check_timeout_iff timeout _) (
        on_success-Does _ _ (λ s. refl)
          (answer-Does _ (kin_bench (if ltd zero_d timeout then timeout else sdk.kin_bench_timeout))
            _ (λ r s. refl))))

  pub log_start-Does :
      (ticks : ℤ) (call : Call Arm (Unit {0}))
      → Does
          (Permitted call.node (log_start ticks))
          (plain (log_start ticks) call.node)
          (handle_log_start ticks)
          call
  unfolding handle_log_start
  log_start-Does ticks call =
      Does-change drop1
        (gated-Does _ _ (ticks_iff ticks) (on_success-Does _ _ (λ s. refl) (tell-Does _ _)))

  pub log_stop-Does :
      (call : Call Arm (Unit {0})) → Does (Unit {0}) (plain log_stop call.node) handle_log_stop call
  unfolding handle_log_stop
  log_stop-Does call = tell-Does _ _

  abbrev pub dumped_into : Result (Unit {0}) → Command → Node Arm → Bool × Node Arm
  dumped_into (ok _) c node = plain c node
  dumped_into (threw text) c node = (false, node)

  -- The directory is made first, and nothing is read if it cannot be.
  unfoldable pub log_dumped : (String → Result (Unit {0})) → Command → Node Arm → Bool × Node Arm
  log_dumped create_directories c node =
      if connected node then dumped_into (create_directories node.log_dir) c node else (false, node)

  effect_linked :
      (c : Command) (arm : Arm) (node : Node Arm)
      → sdk.is_connected arm ≡ true
      → effect_on c (λ _ n. n) (some arm) node ≡ settled (λ _ n. n) (issue c arm node)
  effect_linked c arm node up = rw up refl

  seen-dumped :
      (path : String) (call : Call Arm DumpReport) (out : Result ℕ × Node Arm)
      → seen (dumped path (out.0, record call { node = out.1 })) ≡ settled (λ _ n. n) out
  unfolding dumped fill_failure
  seen-dumped path call (ok bytes, node) = refl
  seen-dumped path call (threw text, node) = refl

  seen-dump_to :
      (made : Result (Unit {0})) (filename : String) (wait : Bool) (timeout : Double)
      (session : Option Arm) (call : Call Arm DumpReport)
      → is_linked session ≡ true
      → call.node.arm ≡ session
      → seen (with_arm session (λ arm. dump_to made filename wait timeout arm call) call)
        ≡ dumped_into made (dump_call filename wait timeout call.node.log_dir) call.node
  unfolding with_arm dump_to fill_failure perform effect
  seen-dump_to (threw text) filename wait timeout none call up e = absurd cc
  seen-dump_to (threw text) filename wait timeout (some arm) call up e = refl
  seen-dump_to (ok _) filename wait timeout none call up e = absurd cc
  seen-dump_to (ok _) filename wait timeout (some arm) call up e =
      let c = dump_call filename wait timeout call.node.log_dir in
      seen-dumped (path_join call.node.log_dir filename) call (issue c arm call.node)
      ∙ sym (ap (λ s. effect_on c (λ _ n. n) s call.node) e ∙ effect_linked c arm call.node up)

  dump_linked :
      (create_directories : String → Result (Unit {0})) (filename : String) (wait : Bool)
      (timeout : Double) (call : Call Arm DumpReport)
      → Does
          (Unit {0})
          (log_dumped create_directories
            (dump_call filename wait timeout call.node.log_dir)
            call.node)
          (gated (check_connected (connected call.node)) λ s.
            with_arm s.node.arm
              (λ arm. dump_to (create_directories call.node.log_dir) filename wait timeout arm s)
              s)
          call
  unfolding log_dumped gated check_connected fill_failure connected
  dump_linked create_directories filename wait timeout call =
      elim (Bool-cases (is_linked call.node.arm)) [
        | inl up ↦ does tt (
            rw up (
              seen-dump_to (create_directories call.node.log_dir) filename wait timeout
                call.node.arm call up refl))
        | inr down ↦ does tt (rw down refl)
      ]

  pub log_dump-Does :
      (create_directories : String → Result (Unit {0})) (filename : String) (wait : Bool)
      (timeout : Double) (call : Call Arm DumpReport)
      → Does
          (IsPlainName filename × IsTimeout timeout)
          (log_dumped create_directories
            (dump_call filename wait timeout call.node.log_dir)
            call.node)
          (handle_log_dump create_directories filename wait timeout)
          call
  unfolding handle_log_dump
  log_dump-Does create_directories filename wait timeout call = Does-change drop2 (
      gated-Does _ _ (IsPlainName-iff filename) (
        gated-Does _ _ (check_timeout_iff timeout _)
          (reading-Does _ (dump_linked create_directories filename wait timeout call))))
