-- ===== src/Lifecycle/Axes.antt =====
-- Naming the axes, in `on_configure` (litearm_driver/src/litearm_driver_node.cpp).
use litearm_ros.Prelude.{
  ltb, ltb_ℤ, ◌≤ℤ◌, ◌<ℤ◌, Bool-cases, eqb_ℤ, ℕ, zero, suc, ◌+◌, ℤ, pos, pos_part, eqb_ℤ-sound, not,
  none, some, List, [], ◌∷◌, get_elem?, String, ◌<>◌, to_string, if◌then◌else◌, length, ◌≡◌, inl,
  inr, refl, ap, arith,
}

-- joint1 .. jointN: the loop from `axis` on, with `count` rounds left.
unfoldable pub axis_names : ℕ → ℕ → List String
axis_names axis zero = []
axis_names axis (suc count) = ("joint" <> to_string axis) ∷ axis_names (axis + 1) count

-- What naming the axes comes to: the names, a count that does not fit the configured ones, or a
-- negative count, whose cast is more than `reserve` can hold, so that it throws.
pub data Naming : Type 0 where
  named : List String → Naming
  miscounted not_reserved : Naming

-- The names of the axes: generated, as given, or refused.
unfoldable pub name_axes : ℤ → List String → Naming
name_axes axes [] =
    if ltb_ℤ axes (pos 0) then not_reserved else named (axis_names 1 (pos_part axes))
name_axes axes (name ∷ names) =
    if not (eqb_ℤ (pos (length (name ∷ names))) axes) then miscounted else named (name ∷ names)

length-axis_names : (axis count : ℕ) → length (axis_names axis count) ≡ count
unfolding axis_names
length-axis_names axis zero = refl
length-axis_names axis (suc count) = ap suc (length-axis_names (axis + 1) count)

abbrev label : ℕ → String
label axis = "joint" <> to_string axis

label-zero : (axis : ℕ) → label axis ≡ label (axis + 0)
label-zero axis = ap label {y = axis + 0} (omega arith)

label-suc : (axis i : ℕ) → label (axis + 1 + i) ≡ label (axis + suc i)
label-suc axis i = ap label {y = axis + suc i} (omega arith)

get_elem?-axis_names :
    (axis count i : ℕ)
    → get_elem? (axis_names axis count) i ≡ (if ltb i count then some (label (axis + i)) else none)
unfolding axis_names
get_elem?-axis_names axis zero i = ground arith
get_elem?-axis_names axis (suc count) zero = ground (arith, label-zero axis)
get_elem?-axis_names axis (suc count) (suc i) =
    ground (arith, get_elem?-axis_names (axis + 1) count i, label-suc axis i)

-- What the names of the axes are to be, with axis `i` looked at.
abbrev AreNames : ℤ → List String → ℕ → Naming → Type 0
AreNames axes [] i (named generated) =
    (pos 0 ≤ℤ axes)
    × (length generated ≡ pos_part axes)
    × (get_elem? generated i ≡ (if ltb i (pos_part axes) then some (label (1 + i)) else none))
AreNames axes [] i miscounted = ⊥
AreNames axes [] i not_reserved = axes <ℤ pos 0
AreNames axes (name ∷ names) i out =
    out ≡ (if eqb_ℤ (pos (length (name ∷ names))) axes then named (name ∷ names) else miscounted)

-- Without configured names there are as many names as axes, and axis i (from 0) is called "joint"
-- followed by i + 1; a negative count is not accepted, as reserving room for the names throws.
-- Configured names are taken as they are if there are as many of them as axes, and refused if not.
pub name_axes_outcome :
    (axes : ℤ) (names : List String) (i : ℕ) → AreNames axes names i (name_axes axes names)
unfolding name_axes
name_axes_outcome axes [] i = elim (Bool-cases (ltb_ℤ axes (pos 0))) [
  | inl negative ↦ rw negative (ground (arith, negative))
  | inr counted ↦ rw counted (
    ground (arith, counted),
    length-axis_names 1 (pos_part axes),
    get_elem?-axis_names 1 (pos_part axes) i,
  )
]
name_axes_outcome axes (name ∷ names) i = ground arith

pub named_length :
    (axes : ℤ) (names result : List String)
    → name_axes axes names ≡ named result
    → length result ≡ pos_part axes
unfolding name_axes
named_length axes [] result h = ground (arith, length-axis_names 1 (pos_part axes))
named_length axes (name ∷ names) result h =
    ground (arith, eqb_ℤ-sound (pos (length (name ∷ names))) axes)
