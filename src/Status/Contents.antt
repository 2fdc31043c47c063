-- ===== src/Status/Contents.antt =====
-- What the status and joint state messages of litearm_driver/src/litearm_driver_node.cpp hold.
use litearm_ros.Prelude.{
  ℕ, zero, suc, ◌<◌, min, Option, none, some, List, [], ◌∷◌, length, take, get_elem?, length-map,
  length-take, ◌≡◌, refl, ap, ◌∙◌, arith,
}
use litearm_ros.Double.{nan}
use litearm_ros.Sdk.{Sdk, RobotState, JointState, Moment}
use litearm_ros.Node.{Node, joint_count}
use litearm_ros.Status.{per_axis, build_status, joint_states}

module _ {A : Type 0} (field : JointState → A) (missing : A) where
  length-per_axis :
      (n : ℕ) (joints : List JointState) → length (per_axis field missing n joints) ≡ n
  unfolding per_axis
  length-per_axis zero joints = refl
  length-per_axis (suc n) [] = ap suc (length-per_axis n [])
  length-per_axis (suc n) (j ∷ joints) = ap suc (length-per_axis n joints)

  -- What axis `i` shows: the frame's value, or the default where the frame has no such axis.
  abbrev pub shown : Option JointState → A
  shown none = missing
  shown (some joint) = field joint

  get_elem?-per_axis :
      (n i : ℕ) (joints : List JointState)
      → i < n
      → get_elem? (per_axis field missing n joints) i ≡ some (shown (get_elem? joints i))
  unfolding per_axis
  get_elem?-per_axis zero i joints h = absurd (omega arith)
  get_elem?-per_axis (suc n) zero [] h = refl
  get_elem?-per_axis (suc n) zero (j ∷ joints) h = refl
  get_elem?-per_axis (suc n) (suc i) [] h = get_elem?-per_axis n i [] (omega arith)
  get_elem?-per_axis (suc n) (suc i) (j ∷ joints) h = get_elem?-per_axis n i joints (omega arith)

module _ {Arm : Type 0} ⦃sdk : Sdk Arm⦄ where
  -- Every per-axis array of a status message has one entry for each configured joint name, whatever
  -- number of axes the frame has.
  pub build_status_lengths :
      (at : Moment) (node : Node Arm) (fresh : Option RobotState)
      → let status = build_status at node fresh in
        (length status.temperature_mos ≡ length status.joint_names)
        × (length status.temperature_coil ≡ length status.joint_names)
        × (length status.joint_error_code ≡ length status.joint_names)
  unfolding build_status
  build_status_lengths at node fresh = (
    length-per_axis (λ j. j.t_mos) nan _ _,
    length-per_axis (λ j. j.t_coil) nan _ _,
    length-per_axis (λ j. j.err) 0 _ _,
  )

  -- Entry `i` of a status message is that of axis `i` of the given frame, and where the frame has no
  -- such axis NaN for the temperatures and 0 for the error code.
  pub build_status_entries :
      (at : Moment) (node : Node Arm) (state : RobotState) (i : ℕ)
      → i < joint_count node
      → let status = build_status at node (some state) in
        let axis = get_elem? state.joints i in
        (get_elem? status.temperature_mos i ≡ some (shown (λ j. j.t_mos) nan axis))
        × (get_elem? status.temperature_coil i ≡ some (shown (λ j. j.t_coil) nan axis))
        × (get_elem? status.joint_error_code i ≡ some (shown (λ j. j.err) 0 axis))
  unfolding build_status
  build_status_entries at node state i h = (
    get_elem?-per_axis (λ j. j.t_mos) nan _ i _ h,
    get_elem?-per_axis (λ j. j.t_coil) nan _ i _ h,
    get_elem?-per_axis (λ j. j.err) 0 _ i _ h,
  )

  -- The three arrays of a joint state message are equally long, one entry for each axis that is both
  -- named and in the frame; so they match the names exactly when the frame has enough axes.
  pub joint_states_lengths :
      (at : Moment) (node : Node Arm) (state : RobotState)
      → let message = joint_states at node state in
        let axes = min (length message.name) (length state.joints) in
        (length message.position ≡ axes)
        × (length message.velocity ≡ axes)
        × (length message.effort ≡ axes)
  unfolding joint_states
  joint_states_lengths at node state =
      let taken = take (joint_count node) state.joints in
      let cut = length-take (joint_count node) state.joints in
      (
        length-map taken (λ j. j.q) ∙ cut,
        length-map taken (λ j. j.dq) ∙ cut,
        length-map taken (λ j. j.tau) ∙ cut,
      )
