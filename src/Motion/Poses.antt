-- ===== src/Motion/Poses.antt =====
-- `read_poses` of litearm_driver/src/litearm_driver_motion.cpp: no value is lost or reordered.
use litearm_ros.Prelude.{
  Bool, false, ◌*◌, ◌%◌, ◌≡◌, ◌≢◌, refl, true, List, [], ◌∷◌, ◌++◌, length, All, arith, ap, sym,
  ◌∙◌, ◌↔◌,
}
use litearm_ros.Double.{Double, AllFinite}
use litearm_ros.Sdk.{Pose, pose_values}
use litearm_ros.Gates.{check_finite_values}
use litearm_ros.Gates.Accept.{IsVector, check_finite_values_exact}
use litearm_ros.Policy.{FinitePose}
use litearm_ros.Motion.{waypoints, read_poses}

abbrev pub flatten : List Pose → List Double
flatten [] = []
flatten (p ∷ ps) = pose_values p ++ flatten ps

flatten-waypoints : (flat : List Double) → length flat % 6 ≡ 0 → flatten (waypoints flat) ≡ flat
unfolding waypoints
flatten-waypoints [] h = refl
flatten-waypoints (a ∷ []) h = absurd (omega arith)
flatten-waypoints (a ∷ b ∷ []) h = absurd (omega arith)
flatten-waypoints (a ∷ b ∷ c ∷ []) h = absurd (omega arith)
flatten-waypoints (a ∷ b ∷ c ∷ d ∷ []) h = absurd (omega arith)
flatten-waypoints (a ∷ b ∷ c ∷ d ∷ e ∷ []) h = absurd (omega arith)
flatten-waypoints (a ∷ b ∷ c ∷ d ∷ e ∷ f ∷ rest) h =
    ap (λ xs. a ∷ b ∷ c ∷ d ∷ e ∷ f ∷ xs) (flatten-waypoints rest (omega arith))

waypoints-finite : (flat : List Double) → AllFinite flat → All FinitePose (waypoints flat)
unfolding waypoints
waypoints-finite (a ∷ b ∷ c ∷ d ∷ e ∷ f ∷ rest) h =
    ground (arith, waypoints-finite rest h.1.1.1.1.1.1)
waypoints-finite _ h = tt

length-flatten : (ps : List Pose) → length (flatten ps) ≡ 6 * length ps
length-flatten [] = refl
length-flatten (p ∷ ps) = omega (arith, length-flatten ps)

read_poses_tests :
    (flat : List Double)
    → ((read_poses flat).0 ≡ true)
      ↔ (((check_finite_values flat "poses").ok ≡ true) × (length flat % 6 ≡ 0))
unfolding read_poses
read_poses_tests flat = ground arith

read_poses_iff :
    (flat : List Double) → ((read_poses flat).0 ≡ true) ↔ (IsVector flat 0 × (length flat % 6 ≡ 0))
unfolding check_finite_values
read_poses_iff flat = (
  λ h. let parts = (read_poses_tests flat).0 h in (accepts.0 parts.0, parts.1),
  λ h. (read_poses_tests flat).1 (accepts.1 h.0, h.1),
)
  where
    accepts : ((check_finite_values flat "poses").ok ≡ true) ↔ IsVector flat 0
    accepts = check_finite_values_exact flat 0 "poses"

read_poses_value :
    (flat : List Double) → (read_poses flat).0 ≡ true → (read_poses flat).1 ≡ waypoints flat
unfolding read_poses
read_poses_value flat h = ground arith

read_poses_refused : (flat : List Double) → (read_poses flat).0 ≡ false → (read_poses flat).1 ≡ []
unfolding read_poses
read_poses_refused flat h = ground arith

-- The poses hold the values of the flat array.
abbrev IsReadFrom : List Double → List Pose → Type 0
IsReadFrom flat poses =
    (flatten poses ≡ flat) × (6 * length poses ≡ length flat) × All FinitePose poses

pub read_poses-IsReadFrom :
    (flat : List Double) → (read_poses flat).0 ≡ true → IsReadFrom flat (read_poses flat).1
read_poses-IsReadFrom flat h =
    let facts = (read_poses_iff flat).0 h in
    let whole = flatten-waypoints flat facts.1 in
    rw (read_poses_value flat h) (
      whole,
      sym (length-flatten (waypoints flat)) ∙ ap length whole,
      waypoints-finite flat facts.0.2,
    )

-- What is read, by whether reading succeeded.
abbrev AfterRead : Bool → List Double → List Pose → Type 0
AfterRead true flat poses = IsReadFrom flat poses
AfterRead false flat poses = poses ≡ []

by_result :
    (flat : List Double) (done : Bool)
    → (read_poses flat).0 ≡ done
    → AfterRead done flat (read_poses flat).1
by_result flat true h = read_poses-IsReadFrom flat h
by_result flat false h = read_poses_refused flat h

-- A flat array is read exactly when it is not empty, finite, and a multiple of six long. If it is, the
-- poses hold its values in their order, a sixth as many poses as values, all of them finite; if not, no
-- pose is read.
pub read_poses_lossless :
    (flat : List Double)
    → (((read_poses flat).0 ≡ true) ↔ (IsVector flat 0 × (length flat % 6 ≡ 0)))
      × AfterRead (read_poses flat).0 flat (read_poses flat).1
read_poses_lossless flat = (read_poses_iff flat, by_result flat (read_poses flat).0 refl)

pub read_poses-ne-nil : (flat : List Double) → (read_poses flat).0 ≡ true → (read_poses flat).1 ≢ []
read_poses-ne-nil flat h e =
    ((read_poses_iff flat).0 h).0.0 (sym (read_poses-IsReadFrom flat h).0 ∙ ap flatten e)
