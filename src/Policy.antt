-- ===== src/Policy.antt =====
-- What the driver promises about the SDK calls that it makes for its services (the comments of
-- litearm_driver/include/litearm_driver/safety_gates.hpp and of the parameters in
-- litearm_driver_node.hpp), written once for every call, apart from the handlers.
use litearm_ros.Prelude.{
  ℕ, ℤ, pos, ◌≤ℤ◌, ◌<ℤ◌, true, false, none, some, Option, List, [], ◌∷◌, ◌≡◌, ◌≢◌, ◌⊎◌, All, String,
}
use litearm_ros.Double.{Double, is_finite, ltd, zero_d, AllFinite}
use litearm_ros.Sdk.{
  Command, Sdk, Pose, pose_values, vector_values, zero_g_start, set_speed, set_payload, ff_preset,
  set_ff_vec, get_joint_param, set_joint_param, set_joint_limits, movej, movej_sync, move_p, move_l,
  move_js, send_mit, send_mit_all, home, move_c, move_path, ik, set_gravity_scale,
  set_inertia_scale, set_gravity_vector, set_body, set_jm, commit, save_params, reset_factory,
  enter_dfu, log_start, log_dump, connect, close,
}
use litearm_ros.Gates.FileName.{resolve}
use litearm_ros.Gates.Accept.{IsSpeedFraction, IsKeepAlive, IsMass, IsAxis, IsVector}
use litearm_ros.Node.{Node, joint_count, motors_enabled}

abbrev pub AllowsMotion : {Arm : Type 0} → Node Arm → Type 0
AllowsMotion node = node.parameters.allow_motion ≡ true

abbrev pub IsOptional : List Double → ℕ → Type 0
IsOptional xs expected = (xs ≡ []) ⊎ IsVector xs expected

abbrev pub FinitePose : Pose → Type 0
FinitePose pose = AllFinite (pose_values pose)

-- A wait that the SDK is given: finite and above 0.
abbrev pub IsWait : Double → Type 0
IsWait t = (is_finite t ≡ true) × (ltd zero_d t ≡ true)

module _ {Arm : Type 0} ⦃sdk : Sdk Arm⦄ where
  -- The index addresses an axis that the session's firmware reported.
  abbrev pub IsReported : Option Arm → ℤ → Type 0
  IsReported none joint = ⊥
  IsReported (some arm) joint = IsAxis joint (sdk.axes arm)

  -- What must hold of the node when a service makes the call. The clause of `commit` is the condition
  -- that its handler tests; the documents ask for the opposite.
  abbrev pub Permitted : Node Arm → Command → Type 0
  Permitted n (movej q v) = AllowsMotion n × IsVector q (joint_count n) × IsSpeedFraction v
  Permitted n (movej_sync q v) = AllowsMotion n × IsVector q (joint_count n) × IsSpeedFraction v
  Permitted n (move_p p v w) = AllowsMotion n × FinitePose p × IsSpeedFraction v
  Permitted n (move_l p v w) = AllowsMotion n × FinitePose p × IsSpeedFraction v
  Permitted n (move_js q dq tau) =
      AllowsMotion n
      × IsVector q (joint_count n)
      × IsOptional dq (joint_count n)
      × IsOptional tau (joint_count n)
  Permitted n (send_mit j q dq kp kd tau) =
      AllowsMotion n × IsAxis j (pos (joint_count n)) × AllFinite (q ∷ dq ∷ kp ∷ kd ∷ tau ∷ [])
  Permitted n (send_mit_all q dq kp kd tau) =
      AllowsMotion n
      × IsVector q (joint_count n)
      × IsVector dq (joint_count n)
      × IsVector kp (joint_count n)
      × IsVector kd (joint_count n)
      × IsVector tau (joint_count n)
  Permitted n home = AllowsMotion n
  Permitted n (move_c a b c v w) =
      AllowsMotion n × FinitePose a × FinitePose b × FinitePose c × IsSpeedFraction v
  Permitted n (move_path ps v w) =
      AllowsMotion n × (ps ≢ []) × All FinitePose ps × IsSpeedFraction v
  Permitted n (ik p seed t) = FinitePose p × IsOptional seed 7 × IsWait t
  Permitted n connect = ⊥
  Permitted n close = ⊥
  Permitted n save_params = motors_enabled n ≡ false
  Permitted n reset_factory = motors_enabled n ≡ false
  Permitted n (commit mask) = motors_enabled n ≡ true
  Permitted n enter_dfu = n.parameters.allow_dfu ≡ true
  Permitted n (zero_g_start t) = IsKeepAlive t
  Permitted n (set_speed k) = (pos 0 ≤ℤ k) × (k ≤ℤ pos 100)
  Permitted n (set_payload m c) = IsMass m × AllFinite (vector_values c)
  Permitted n (ff_preset k) = (pos 0 ≤ℤ k) × (k ≤ℤ pos 2)
  Permitted n (set_ff_vec i xs) = (xs ≢ []) × AllFinite xs
  Permitted n (get_joint_param j) = IsReported n.arm j
  Permitted n (set_joint_param j a b c) = IsReported n.arm j
  Permitted n (set_joint_limits j a b) = IsReported n.arm j
  Permitted n (set_gravity_scale xs) = IsVector xs 7
  Permitted n (set_inertia_scale xs) = IsVector xs 7
  Permitted n (set_gravity_vector g) = AllFinite (vector_values g)
  Permitted n (set_body b xs) = IsVector xs 0
  Permitted n (set_jm xs) = IsVector xs 0
  Permitted n (log_start ticks) = pos 0 <ℤ ticks
  Permitted n (log_dump path wait t r d) =
      (name : String) × (resolve path ≡ name ∷ resolve n.log_dir)
  Permitted n _ = Unit {0}
