-- ===== src/Diagnostics.antt =====
-- The handlers of the link, the host diagnostics and the firmware's tick log
-- (litearm_driver/src/litearm_driver_diagnostics.cpp).
pub mod Permission
pub mod Effect
pub mod Footprint
pub mod Reconnect
pub mod Dump
pub mod Answer
use litearm_ros.Prelude.{
  ℕ, ◌/◌, ℤ, pos, pos_part, ltb_ℤ, leb_ℤ, to_int32, Bool, true, Option, none, some, List, [], ◌∷◌,
  map, String, ◌<>◌, int_to_string, if◌then◌else◌,
}
use litearm_ros.Double.{Double, ltd, zero_d, whole, minus_one}
use litearm_ros.Sdk.{
  reconnect, get_tcp, kin_bench, log_start, log_stop, log_dump, Sdk, Result, ok, threw, Pose,
  KinBenchResult, Stamped,
}
use litearm_ros.Gates.{GateResult, pass, fail, check_connected, check_timeout, check_log_filename}
use litearm_ros.Gates.FileName.{path_join}
use litearm_ros.Node.{
  Node, Call, Handler, gated, reading, on_success, append_message, set_body, tell, command,
  connected, with_arm, perform, issue, refresh_license_record, fill_failure,
}

-- The ends of the `try` blocks that this file writes out.
abbrev pub succeed : {Arm B : Type 0} → String → Handler Arm B
succeed text call = record call {
  response = record call.response { success = true; message = text };
}

pub record DiagnosticsReport : Type 0 where
  pub connected : Bool
  pub in_dfu : Bool
  pub cart_supported : Bool
  pub cart_probe_silent : Bool
  pub joint_count : ℤ
  pub status_seq : ℕ
  pub port : String
  pub firmware : String
  pub banner_version : String
  pub last_reset_reason : String
  pub dropped : ℕ
  pub bad_status_frames : ℕ
  pub flush_failures : ℕ
  pub cart_evicted_unclaimed : ℕ
  pub cart_extra_replies : ℕ
  pub msg_ids : List ℕ
  pub msg_hz : List Double

pub record BenchReport : Type 0 where
  pub raw : String
  pub timings : List String
  pub crc_errors : ℤ
  pub reply_dropped : ℤ
  pub can_tx_fail : ℤ
  pub loop_max_kcycle : ℤ
  pub loop_overruns : ℤ
  pub rx_fifo_lost_motor : ℤ
  pub rx_fifo_lost_bridge : ℤ
  pub gsusb_ring_drops : ℤ

pub record DumpReport : Type 0 where
  pub path : String
  pub bytes : ℤ
  pub samples : ℤ

-- The values of one timing, separated by commas.
unfoldable pub comma_list : List ℤ → String
comma_list [] = ""
comma_list (x ∷ []) = int_to_string x
comma_list (x ∷ y ∷ xs) = int_to_string x <> "," <> comma_list (y ∷ xs)

unfoldable pub timing_lines : List (String × List ℤ) → List String
unfolding comma_list
timing_lines [] = []
timing_lines ((name, values) ∷ timings) = (name <> "=" <> comma_list values) ∷ timing_lines timings

abbrev no_tool_pose : String
no_tool_pose =
    "the firmware did not answer a tool pose (this is a firmware 1.8.0 command, and the "
    <> "arm has to have a solved pose)"

abbrev pub check_ticks : ℤ → GateResult
check_ticks ticks =
    if leb_ℤ ticks (pos 0)
    then fail (
        "ticks must be positive: the firmware records that many control "
        <> "cycles and stops on its own when its buffer is full")
    else pass

-- `sample_size > 0 ? static_cast<int32_t>(bytes / sample_size) : 0`.
unfoldable pub sample_count : ℕ → ℤ → ℤ
sample_count bytes size =
    if ltb_ℤ (pos 0) size then to_int32 (pos (bytes / pos_part size)) else pos 0

-- The message ids that a rate is reported for, and their names.
unfoldable pub rate_ids : {Arm : Type 0} → Sdk Arm → List (ℕ × String)
rate_ids sdk =
    (sdk.rsp_status, "status")
    ∷ (sdk.rsp_ack, "ack")
    ∷ (sdk.rsp_err, "err")
    ∷ (sdk.rsp_firmware, "firmware")
    ∷ (sdk.rsp_detail, "detail")
    ∷ (sdk.rsp_model_status, "model_status")
    ∷ (sdk.rsp_log_data, "log_data")
    ∷ []

abbrev text_or_empty : Option String → String
text_or_empty none = ""
text_or_empty (some text) = text

abbrev id_of : ℕ × String → ℕ
id_of (id, name) = id

unfoldable pub bench_report : KinBenchResult → BenchReport
unfolding timing_lines
bench_report result = record {
  raw = result.raw;
  timings = timing_lines result.timings;
  crc_errors = result.crc_errors;
  reply_dropped = result.reply_dropped;
  can_tx_fail = result.can_tx_fail;
  loop_max_kcycle = result.loop_max_kcycle;
  loop_overruns = result.loop_overruns;
  rx_fifo_lost_motor = result.rx_fifo_lost_motor;
  rx_fifo_lost_bridge = result.rx_fifo_lost_bridge;
  gsusb_ring_drops = result.gsusb_ring_drops;
}

abbrev dump_message : ℤ → ℤ → ℤ → String
dump_message bytes samples size =
    "wrote "
    <> int_to_string bytes
    <> " bytes ("
    <> int_to_string samples
    <> " samples of "
    <> int_to_string size
    <> " bytes: u32 tick + q_ref/dq/tau per axis as f32)"

module _ {Arm : Type 0} ⦃sdk : Sdk Arm⦄ where
  -- After `arm_->reconnect()`: the licence record is read again, unless that call threw.
  unfoldable pub then_refresh : Result (Unit {0}) × Node Arm → Result (Unit {0}) × Node Arm
  then_refresh (ok _, node) = refresh_license_record node
  then_refresh (threw text, node) = (threw text, node)

  abbrev link_text : Option Arm → String
  link_text none = ""
  link_text (some arm) =
      "link re-established on " <> sdk.port_string arm <> " (firmware " <> sdk.firmware arm <> ")"

  unfoldable pub reconnected :
      Call Arm (Unit {0}) → Result (Unit {0}) × Node Arm → Call Arm (Unit {0})
  reconnected call (ok _, node) = succeed (link_text node.arm) (record call { node = node })
  reconnected call (threw text, node) =
      fill_failure (fail ("reconnect failed: " <> text)) (record call { node = node })

  unfoldable pub reconnect_session : Option Arm → Handler Arm (Unit {0})
  unfolding then_refresh reconnected
  reconnect_session none call =
      fill_failure (fail "the node is not configured: no SDK session to rebuild") call
  reconnect_session (some arm) call =
      reconnected call (then_refresh (issue reconnect arm call.node))

  unfoldable pub handle_reconnect : Handler Arm (Unit {0})
  unfolding reconnect_session
  handle_reconnect = reading λ node. reconnect_session node.arm

  unfoldable pub tool_pose : Option Pose → Handler Arm (Option Pose)
  tool_pose none call = fill_failure (fail no_tool_pose) call
  tool_pose (some pose) call =
      succeed "pose in [x, y, z, roll, pitch, yaw]" (set_body (some pose) call)

  unfoldable pub tool_answer :
      Result (Stamped (Option Pose)) × Call Arm (Option Pose) → Call Arm (Option Pose)
  unfolding tool_pose
  tool_answer (ok answer, call) = tool_pose answer.value call
  tool_answer (threw text, call) = fill_failure (fail ("get_tcp failed: " <> text)) call

  -- The response pose is `none` where the handler leaves the array as it was.
  unfoldable pub handle_get_tcp : Handler Arm (Option Pose)
  unfolding tool_answer
  handle_get_tcp = reading λ node.
      gated (check_connected (connected node))
        λ call. with_arm call.node.arm (λ arm. tool_answer (perform get_tcp arm call)) call

  unfoldable pub diagnostics_of : Arm → DiagnosticsReport
  unfolding rate_ids
  diagnostics_of arm =
      let stats = sdk.host_stats arm in
      record {
        connected = sdk.is_connected arm;
        in_dfu = sdk.is_in_dfu arm;
        cart_supported = sdk.cart_supported arm;
        cart_probe_silent = stats.cart_probe_silent;
        joint_count = sdk.axes arm;
        status_seq = sdk.status_seq arm;
        port = sdk.port_string arm;
        firmware = sdk.firmware arm;
        banner_version = text_or_empty (sdk.banner_version arm);
        last_reset_reason = sdk.last_reset_reason arm;
        dropped = stats.dropped;
        bad_status_frames = stats.bad_status_frames;
        flush_failures = stats.flush_failures;
        cart_evicted_unclaimed = stats.cart_evicted_unclaimed;
        cart_extra_replies = stats.cart_extra_replies;
        msg_ids = map id_of (rate_ids sdk);
        msg_hz = map (λ entry. sdk.msg_hz (id_of entry) arm) (rate_ids sdk);
      }

  unfoldable pub handle_get_diagnostics : Handler Arm (Option DiagnosticsReport)
  unfolding diagnostics_of
  handle_get_diagnostics = reading λ node. gated (check_connected (connected node)) λ call.
      with_arm call.node.arm
        (λ arm.
          succeed "host-side counters and the per-id message rates of this session"
            (set_body (some (diagnostics_of arm)) call))
        call

  unfoldable pub handle_kin_bench : Double → Handler Arm (Option BenchReport)
  unfolding bench_report
  handle_kin_bench timeout = gated (check_timeout timeout "timeout") (
      on_success
        (append_message
          (" (0 in a counter means \"the firmware did not report it\", " <> "not \"no errors\")"))
        (command "kin_bench"
          (kin_bench (if ltd zero_d timeout then timeout else sdk.kin_bench_timeout))
          (λ answer. set_body (some (bench_report answer.value)))))

  unfoldable pub handle_log_start : ℤ → Handler Arm (Unit {0})
  handle_log_start ticks = gated (check_ticks ticks) (
      on_success (append_message " (recording at 300 Hz; read it back with log_dump)")
        (tell "log_start" (log_start ticks)))

  unfoldable pub handle_log_stop : Handler Arm (Unit {0})
  handle_log_stop = tell "log_stop" log_stop

  abbrev pub session_sample_size : Option Arm → ℤ
  session_sample_size none = pos 0
  session_sample_size (some arm) = sdk.sample_size (sdk.axes arm)

  -- The end of the `try` block of `handle_log_dump`: `bytes` is what the SDK wrote.
  unfoldable pub dumped : String → Result ℕ × Call Arm DumpReport → Call Arm DumpReport
  unfolding sample_count
  dumped path (ok bytes, call) =
      let size = session_sample_size call.node.arm in
      let bytes' = to_int32 (pos bytes) in
      let samples' = sample_count bytes size in
      succeed (dump_message bytes' samples' size)
        (set_body (record { path = path; bytes = bytes'; samples = samples' }) call)
  dumped path (threw text, call) = fill_failure (fail ("log_dump failed: " <> text)) call

  -- What follows `create_directories(log_dir_)`.
  unfoldable pub dump_to : Result (Unit {0}) → String → Bool → Double → Arm → Handler Arm DumpReport
  unfolding dumped
  dump_to (threw text) filename wait timeout arm call =
      fill_failure (fail ("log_dump failed: " <> text)) call
  dump_to (ok _) filename wait timeout arm call =
      let path = path_join call.node.log_dir filename in
      dumped path (
        perform
          (log_dump path wait (if ltd zero_d timeout then timeout else whole 1) (pos 3)
            (if ltd zero_d timeout then timeout else minus_one))
          arm call)

  -- The first argument is the file system's `create_directories`.
  unfoldable pub handle_log_dump :
      (String → Result (Unit {0})) → String → Bool → Double → Handler Arm DumpReport
  unfolding dump_to
  handle_log_dump create_directories filename wait timeout = gated (check_log_filename filename) (
      gated (check_timeout timeout "timeout") (
        reading λ node. gated (check_connected (connected node)) λ call.
          with_arm call.node.arm
            (λ arm. dump_to (create_directories node.log_dir) filename wait timeout arm call) call))
