-- ===== src/Double.antt =====
-- C++ `double`, as far as the driver reads it: not a number, the infinities, and the finite values.
-- Every finite double is a whole multiple of 2 ^ -1074, so `finite k` stands for k * 2 ^ -1074 and
-- the comparisons are those of the integers, exactly. (Both zeros are `finite (pos 0)`.)
use litearm_ros.Prelude.{
  not, arith, refl, ℕ, ◌*◌, ◌^◌, ℤ, pos, negsuc, ltb_ℤ, leb_ℤ, Bool, true, false, ◌≡◌, List, All,
}

pub data Double : Type 0 where
  nan pos_inf neg_inf : Double
  finite : ℤ → Double

-- `std::isfinite`.
abbrev pub is_finite : Double → Bool
is_finite (finite k) = true
is_finite _ = false

-- `a < b`; every comparison with a NaN is false.
abbrev pub ltd : Double → Double → Bool
ltd (finite a) (finite b) = ltb_ℤ a b
ltd (finite a) pos_inf = true
ltd neg_inf (finite b) = true
ltd neg_inf pos_inf = true
ltd _ _ = false

-- `a <= b`.
abbrev pub led : Double → Double → Bool
led (finite a) (finite b) = leb_ℤ a b
led (finite a) pos_inf = true
led neg_inf (finite b) = true
led neg_inf neg_inf = true
led neg_inf pos_inf = true
led pos_inf pos_inf = true
led _ _ = false

-- The constants of the source, each the nearest double, as a multiple of 2 ^ -1074.
abbrev pub zero_d : Double
zero_d = finite (pos 0)

abbrev pub unit : ℕ
unit = 2 ^ 1074

unfoldable pub whole : ℕ → Double
whole n = finite (pos (n * unit))

-- 0.005 is 0x1.47ae147ae147bp-8.
unfoldable pub period_min : Double
period_min = finite (pos (0x147ae147ae147b * 2 ^ 1014))

-- 0.10 is 0x1.999999999999ap-4.
unfoldable pub period_max : Double
period_max = finite (pos (0x1999999999999a * 2 ^ 1018))

unfoldable pub minus_one : Double
unfolding whole
minus_one = finite (negsuc (2 ^ 1074))

abbrev pub AllFinite : List Double → Type 0
AllFinite = All λ x. is_finite x ≡ true

-- On finite values the two comparisons are each other's negation; a NaN breaks this.
pub led-eq-not-ltd :
    (a b : Double) → is_finite a ≡ true → is_finite b ≡ true → led a b ≡ not (ltd b a)
led-eq-not-ltd (finite a) (finite b) p q = ground arith
led-eq-not-ltd nan b p q = cc
led-eq-not-ltd pos_inf b p q = cc
led-eq-not-ltd neg_inf b p q = cc
led-eq-not-ltd (finite a) nan p q = cc
led-eq-not-ltd (finite a) pos_inf p q = cc
led-eq-not-ltd (finite a) neg_inf p q = cc

pub whole-is_finite : (n : ℕ) → is_finite (whole n) ≡ true
unfolding whole
whole-is_finite n = refl

pub period_bounds-is_finite : (is_finite period_min ≡ true) × (is_finite period_max ≡ true)
unfolding period_min period_max
period_bounds-is_finite = (refl, refl)
