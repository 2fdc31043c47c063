-- ===== src/Tests/Fake.antt =====
-- The arm of litearm_driver/test/test_litearm_driver.cpp: seven axes, always linked once it is
-- connected, with registers that keep what is written to them.
use litearm_ros.Prelude.{
  ℤ, pos, eqb_ℤ, true, false, ◌&&◌, some, List, [], ◌∷◌, map, if◌then◌else◌, ◌≡◌, refl, arith,
}
use litearm_ros.Service.ReadBack.{IsRead, Registers}
use litearm_ros.Double.{ltd, Double, zero_d, whole}
use litearm_ros.Sdk.{
  Command, set_ff_scalar, get_ff_scalar, all_joint_params, get_joint_param, set_joint_param,
  set_joint_limits, Reply, ok, Sdk, Stamped, JointParam,
}
use litearm_ros.Tests.Bench.{BenchArm, bench_arm, bench_sdk, reply, stamped, run}

-- A simulated arm of the bench, with its scalar registers and its joint parameters.
pub record FakeArm : Type 0 where
  pub body : BenchArm
  pub scalars : List (ℤ × ℤ × Double)
  pub params : List JointParam

abbrev param_of : ℤ → JointParam
param_of joint = record {
  idx = joint;
  kp = whole 20;
  kd = whole 1;
  tau_max = whole 10;
  q_min = zero_d;
  q_max = whole 3;
}

abbrev seven : List JointParam
seven = map param_of (pos 0 ∷ pos 1 ∷ pos 2 ∷ pos 3 ∷ pos 4 ∷ pos 5 ∷ pos 6 ∷ [])

-- The latest value of a register, which is 0 until it is written.
abbrev read_scalar : ℤ → ℤ → List (ℤ × ℤ × Double) → Double
read_scalar item sub [] = zero_d
read_scalar item sub ((i, s, value) ∷ rest) =
    let older = read_scalar item sub rest in if eqb_ℤ item i && eqb_ℤ sub s then value else older

abbrev read_param : ℤ → List JointParam → JointParam
read_param joint [] = param_of joint
read_param joint (p ∷ rest) =
    let later = read_param joint rest in if eqb_ℤ joint p.idx then p else later

abbrev fake_reply : (c : Command) → FakeArm → Reply c
fake_reply (get_ff_scalar item sub) arm = stamped (read_scalar item sub arm.scalars)
fake_reply all_joint_params arm = arm.params
fake_reply (get_joint_param joint) arm = stamped (read_param joint arm.params)
fake_reply c arm = reply c arm.body

-- The payload mass, item 4, is clamped to 0..20 kg.
abbrev clamp : ℤ → Double → Double
clamp item value =
    if eqb_ℤ item (pos 4)
    then (if ltd value zero_d then zero_d else if ltd (whole 20) value then whole 20 else value)
    else value

abbrev set_gains : ℤ → Double → Double → Double → JointParam → JointParam
set_gains joint kp kd tau_max p =
    if eqb_ℤ joint p.idx then record p { kp = kp; kd = kd; tau_max = tau_max } else p

abbrev set_limits : ℤ → Double → Double → JointParam → JointParam
set_limits joint q_min q_max p =
    if eqb_ℤ joint p.idx then record p { q_min = q_min; q_max = q_max } else p

abbrev fake_run : Command → FakeArm → FakeArm
fake_run (set_ff_scalar item sub value) arm = record arm {
  scalars = (item, sub, clamp item value) ∷ arm.scalars;
}
fake_run (set_joint_param joint kp kd tau_max) arm = record arm {
  params = map (set_gains joint kp kd tau_max) arm.params;
}
fake_run (set_joint_limits joint q_min q_max) arm = record arm {
  params = map (set_limits joint q_min q_max) arm.params;
}
fake_run c arm = record arm { body = run c arm.body }

instance abbrev pub fake_sdk : Sdk FakeArm
fake_sdk = record {
  create_arm = λ options.
      some (record {
        body = record (bench_arm false) { linked = false };
        scalars = [];
        params = seven;
      });
  exec = λ c arm. (ok (fake_reply c arm), fake_run c arm);
  is_connected = λ arm. arm.body.linked;
  is_in_dfu = λ arm. false;
  axes = λ arm. pos 7;
  firmware = λ arm. "Litearm1.8.0-7J";
  last_reset_reason = λ arm. "power-on";
  zero_g_active = λ arm. arm.body.in_zero_g;
  zero_g_error_text = λ arm. "";
  port_string = λ arm. "fake";
  cached = λ arm. bench_sdk.cached arm.body;
  host_stats = λ arm. bench_sdk.host_stats arm.body;
  banner_version = λ arm. some "1.8.0";
  cart_supported = λ arm. true;
  status_seq = λ arm. 1;
  msg_hz = λ id arm. whole 100;
  sample_size = bench_sdk.sample_size;
  accepts_topic = bench_sdk.accepts_topic;
  default_state = bench_sdk.default_state;
  default_license = bench_sdk.default_license;
  kin_bench_timeout = whole 30;
  zero_g_keepalive = bench_sdk.zero_g_keepalive;
  rsp_status = 1;
  rsp_ack = 2;
  rsp_err = 3;
  rsp_firmware = 4;
  rsp_detail = 5;
  rsp_model_status = 6;
  rsp_log_data = 7;
  ff_vec_items = (pos 1, "gravity_scale") ∷ [];
  ff_scalar_items = (pos 4, "payload_mass") ∷ [];
  ff_scalar_ro_items = [];
}

pub eqb_ℤ_refl : (k : ℤ) → eqb_ℤ k k ≡ true
eqb_ℤ_refl k = ground arith

pub fake_read_tells :
    (item sub : ℤ) (arm : FakeArm) (answer : Stamped Double)
    → (fake_sdk.exec (get_ff_scalar item sub) arm).0 ≡ ok answer
    → answer.value ≡ read_scalar item sub arm.scalars
fake_read_tells item sub arm answer h = cc

pub fake_read_keeps :
    (c : Command) (item sub : ℤ) (arm : FakeArm)
    → IsRead c
    → read_scalar item sub (fake_run c arm).scalars ≡ read_scalar item sub arm.scalars
fake_read_keeps (set_ff_scalar i s value) item sub arm h = absurd cc
fake_read_keeps c item sub arm h = refl

abbrev pub fake_registers : Registers FakeArm fake_sdk
fake_registers = record {
  stored = λ item sub arm. read_scalar item sub arm.scalars;
  clamped = λ item sub value. clamp item value;
  write_stores = λ item sub value arm h. rw (eqb_ℤ_refl item, eqb_ℤ_refl sub) refl;
  read_tells = fake_read_tells;
  read_keeps = fake_read_keeps;
}
