-- ===== src/Gates/Iff.antt =====
-- The gates of litearm_driver/src/safety_gates.cpp on arrays and flags, as equivalences.
use litearm_ros.Prelude.{
  ℕ, Bool, true, false, not, List, [], ◌∷◌, String, ◌≡◌, ◌≢◌, ◌↔◌, refl, inl, inr, arith,
}
use litearm_ros.Double.{Double, AllFinite}
use litearm_ros.Sdk.{Pose, pose_values, Vector3, vector_values}
use litearm_ros.Gates.{
  check_finite_values_of, check_finite_values, check_finite_pose, check_finite_vector3, check_com,
  check_ff_values, check_requires_disabled,
}
use litearm_ros.Gates.Accept.{IsVector, check_finite_values_exact, all_finite_iff}

pub IsVector-iff :
    (xs : List Double) (n : ℕ) (what : String)
    → ((check_finite_values_of xs n what).ok ≡ true) ↔ IsVector xs n
unfolding check_finite_values_of
IsVector-iff xs n what = check_finite_values_exact xs n what

pub any_values_iff :
    (xs : List Double) (what : String) → ((check_finite_values xs what).ok ≡ true) ↔ IsVector xs 0
unfolding check_finite_values
any_values_iff xs what = check_finite_values_exact xs 0 what

-- An array that is not empty needs only finite values.
pub given_values_iff :
    (x : Double) (xs : List Double) (what : String)
    → ((check_finite_values (x ∷ xs) what).ok ≡ true) ↔ AllFinite (x ∷ xs)
given_values_iff x xs what =
    let (there, back) = any_values_iff (x ∷ xs) what in
    (λ h. (there h).2, λ h. back (λ e. cc, inl refl, h))

pub pose_iff : (p : Pose) → ((check_finite_pose p).ok ≡ true) ↔ AllFinite (pose_values p)
unfolding check_finite_pose
pose_iff p =
    let (there, back) = check_finite_values_exact (pose_values p) 6 "pose" in
    (λ h. (there h).2, λ h. back (λ e. cc, inr refl, h))

pub vector3_iff : (v : Vector3) → ((check_finite_vector3 v).ok ≡ true) ↔ AllFinite (vector_values v)
unfolding check_finite_vector3
vector3_iff v =
    let (there, back) = check_finite_values_exact (vector_values v) 3 "vector" in
    (λ h. (there h).2, λ h. back (λ e. cc, inr refl, h))

pub com_iff : (v : Vector3) → ((check_com v).ok ≡ true) ↔ AllFinite (vector_values v)
unfolding check_com
com_iff v = ground (arith, all_finite_iff (vector_values v))

pub ff_values_iff :
    (xs : List Double) → ((check_ff_values xs).ok ≡ true) ↔ ((xs ≢ []) × AllFinite xs)
unfolding check_ff_values
ff_values_iff [] = (λ h. cc, λ h. absurd (h.0 refl))
ff_values_iff (x ∷ xs) = ground (arith, all_finite_iff (x ∷ xs))

pub disabled_iff :
    (enabled : Bool) (name : String)
    → ((check_requires_disabled enabled name).ok ≡ true) ↔ (enabled ≡ false)
unfolding check_requires_disabled
disabled_iff enabled name = ground arith

pub inverted_iff :
    (enabled : Bool) (name : String)
    → ((check_requires_disabled (not enabled) name).ok ≡ true) ↔ (enabled ≡ true)
unfolding check_requires_disabled
inverted_iff enabled name = ground arith
