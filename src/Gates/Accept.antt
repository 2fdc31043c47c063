-- ===== src/Gates/Accept.antt =====
-- What each gate of litearm_driver/src/safety_gates.cpp lets through, told apart from its text.
use litearm_ros.Prelude.{
  ℕ, suc, ℤ, pos, ◌≤ℤ◌, ◌<ℤ◌, true, List, [], ◌∷◌, String, ◌≡◌, ◌≢◌, ◌⊎◌, refl, ◌↔◌, length, arith,
}
use litearm_ros.Double.{
  Double, is_finite, ltd, led, zero_d, whole, period_min, period_max, AllFinite, led-eq-not-ltd,
  whole-is_finite, period_bounds-is_finite,
}
use litearm_ros.Sdk.{Vector3, vector_values, Pose, pose_values}
use litearm_ros.Gates.{
  check_speed_percent, check_ff_preset, check_zero_g_period, check_joint_index, check_mass,
  all_finite, check_com, check_ff_values, check_speed_fraction, first_not_finite,
  check_finite_values_impl, check_finite_pose, check_finite_vector3, check_timeout,
}

-- A speed that the motion services may pass on: finite, above 0, at most 1.
abbrev pub IsSpeedFraction : Double → Type 0
IsSpeedFraction s = (is_finite s ≡ true) × (ltd zero_d s ≡ true) × (led s (whole 1) ≡ true)

abbrev pub IsKeepAlive : Double → Type 0
IsKeepAlive t = (is_finite t ≡ true) × (led period_min t ≡ true) × (ltd t period_max ≡ true)

abbrev pub IsMass : Double → Type 0
IsMass m = (is_finite m ≡ true) × (led zero_d m ≡ true) × (led m (whole 20) ≡ true)

abbrev pub IsTimeout : Double → Type 0
IsTimeout t = (is_finite t ≡ true) × (led zero_d t ≡ true)

abbrev pub IsAxis : ℤ → ℤ → Type 0
IsAxis index count = (pos 0 ≤ℤ index) × (index <ℤ count)

pub check_speed_fraction_iff :
    (s : Double) → ((check_speed_fraction s).ok ≡ true) ↔ IsSpeedFraction s
unfolding check_speed_fraction
check_speed_fraction_iff s =
    ground (arith, led-eq-not-ltd s zero_d, led-eq-not-ltd s (whole 1), whole-is_finite 1)

pub check_zero_g_period_iff : (t : Double) → ((check_zero_g_period t).ok ≡ true) ↔ IsKeepAlive t
unfolding check_zero_g_period
check_zero_g_period_iff t =
    ground
      (arith, led-eq-not-ltd period_min t, led-eq-not-ltd period_max t, period_bounds-is_finite)

pub check_mass_iff : (m : Double) → ((check_mass m).ok ≡ true) ↔ IsMass m
unfolding check_mass
check_mass_iff m =
    ground (arith, led-eq-not-ltd zero_d m, led-eq-not-ltd m (whole 20), whole-is_finite 20)

pub check_timeout_iff :
    (t : Double) (what : String) → ((check_timeout t what).ok ≡ true) ↔ IsTimeout t
unfolding check_timeout
check_timeout_iff t what = ground (arith, led-eq-not-ltd zero_d t)

-- The four gates on a single real number accept exactly the finite numbers of their interval:
-- a speed fraction in (0, 1], a keep-alive period in [0.005, 0.10), a mass in [0, 20] and a timeout
-- of at least 0. No infinity and no NaN passes any of them.
pub real_gates_exact :
    (d : Double) (what : String)
    → (((check_speed_fraction d).ok ≡ true) ↔ IsSpeedFraction d)
      × (((check_zero_g_period d).ok ≡ true) ↔ IsKeepAlive d)
      × (((check_mass d).ok ≡ true) ↔ IsMass d)
      × (((check_timeout d what).ok ≡ true) ↔ IsTimeout d)
real_gates_exact d what = (
  check_speed_fraction_iff d,
  check_zero_g_period_iff d,
  check_mass_iff d,
  check_timeout_iff d what,
)

pub check_joint_index_iff :
    (index count : ℤ) → ((check_joint_index index count).ok ≡ true) ↔ IsAxis index count
unfolding check_joint_index
check_joint_index_iff index count = ground arith

-- The gates on an integer accept exactly a percentage of 0 to 100, a preset of 0 to 2, and an
-- index below the number of axes, which no index is where the count is not positive.
pub integer_gates_exact :
    (k count : ℤ)
    → (((check_speed_percent k).ok ≡ true) ↔ ((pos 0 ≤ℤ k) × (k ≤ℤ pos 100)))
      × (((check_ff_preset k).ok ≡ true) ↔ ((pos 0 ≤ℤ k) × (k ≤ℤ pos 2)))
      × (((check_joint_index k count).ok ≡ true) ↔ ((pos 0 ≤ℤ k) × (k <ℤ count)))
unfolding check_speed_percent check_ff_preset
integer_gates_exact k count = (ground arith, ground arith, check_joint_index_iff k count)

pub all_finite_iff : (xs : List Double) → (all_finite xs ≡ true) ↔ AllFinite xs
all_finite_iff [] = ground arith
all_finite_iff (x ∷ xs) = ground (arith, all_finite_iff xs)

first_not_finite_iff :
    (i : ℕ) (xs : List Double) (what : String)
    → ((first_not_finite i xs what).ok ≡ true) ↔ AllFinite xs
unfolding first_not_finite
first_not_finite_iff i [] what = ground arith
first_not_finite_iff i (x ∷ xs) what = ground (arith, first_not_finite_iff (suc i) xs what)

-- A vector that the gate lets through: not empty, of the expected length unless that is 0, and
-- finite throughout.
abbrev pub IsVector : List Double → ℕ → Type 0
IsVector xs expected = (xs ≢ []) × ((expected ≡ 0) ⊎ (length xs ≡ expected)) × AllFinite xs

-- The vector gate accepts exactly the vectors that are not empty, have the expected length (any
-- length, if 0 is expected) and hold finite values only.
pub check_finite_values_exact :
    (xs : List Double) (expected : ℕ) (what : String)
    → ((check_finite_values_impl xs expected what).ok ≡ true) ↔ IsVector xs expected
unfolding check_finite_values_impl
check_finite_values_exact [] expected what = (λ h. cc, λ h. absurd (h.0 refl))
check_finite_values_exact (x ∷ xs) expected what =
    ground (arith, first_not_finite_iff 0 (x ∷ xs) what)

pub check_pose_finite : (p : Pose) → (check_finite_pose p).ok ≡ true → AllFinite (pose_values p)
unfolding check_finite_pose
check_pose_finite p h = ((check_finite_values_exact (pose_values p) 6 "pose").0 h).2

pub check_vector3_finite :
    (v : Vector3) → (check_finite_vector3 v).ok ≡ true → AllFinite (vector_values v)
unfolding check_finite_vector3
check_vector3_finite v h = ((check_finite_values_exact (vector_values v) 3 "vector").0 h).2

pub check_com_finite : (v : Vector3) → (check_com v).ok ≡ true → AllFinite (vector_values v)
unfolding check_com
check_com_finite v h = (all_finite_iff (vector_values v)).0 (ground arith)

pub check_ff_values_finite :
    (xs : List Double) → (check_ff_values xs).ok ≡ true → (xs ≢ []) × AllFinite xs
unfolding check_ff_values
check_ff_values_finite [] h = cc
check_ff_values_finite (x ∷ xs) h = (λ e. cc, (all_finite_iff (x ∷ xs)).0 (ground arith))
