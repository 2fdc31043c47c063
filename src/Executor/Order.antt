-- ===== src/Executor/Order.antt =====
-- The callbacks of one kind run one after another.
use litearm_ros.Prelude.{
  ℕ, Bool, true, false, Bool-cases, inl, inr, Option, none, some, List, [], ◌∷◌, ◌++◌, ◌≡◌, refl,
  sym, subst, ap, ◌∙◌, arith, if◌then◌else◌,
}
use litearm_ros.Executor.{
  Group, sdk_group, default_group, group_of, group_type, Callback, service, status_timer,
  diagnostics_timer, transition, parameter_write, same_group, count_in, HasRoom, Mark, started,
  ended, starts, ends, Runs, quiet, next,
}
use litearm_ros.Executor.Exclusion.{room_empty, same_group_sound}

-- What a callback is for, whatever group it was put in: the service handlers and the timers work with the
-- device, the transitions and the parameter writes manage the node.
pub data Kind : Type 0 where
  device_work node_management : Kind

abbrev pub kind_of : Callback → Kind
kind_of (service request) = device_work
kind_of status_timer = device_work
kind_of diagnostics_timer = device_work
kind_of (transition t) = node_management
kind_of parameter_write = node_management

abbrev same_kind : Kind → Kind → Bool
same_kind device_work device_work = true
same_kind node_management node_management = true
same_kind _ _ = false

abbrev is_of : Kind → Callback → Bool
is_of k c = same_kind k (kind_of c)

-- The callbacks of the kind.
abbrev pub those_of : Kind → List Callback → List Callback
those_of k [] = []
those_of k (c ∷ cs) = let rest = those_of k cs in if is_of k c then c ∷ rest else rest

abbrev subject : Mark → Callback
subject (started c) = c
subject (ended c) = c

-- What is seen of the kind.
abbrev pub marks_of : Kind → List Mark → List Mark
marks_of k [] = []
marks_of k (m ∷ ms) = let rest = marks_of k ms in if is_of k (subject m) then m ∷ rest else rest

abbrev pub group_for : Kind → Group
group_for device_work = sdk_group
group_for node_management = default_group

-- The groups that the node chose are the kinds.
pub group_for-same : (k : Kind) (c : Callback) → same_group (group_for k) (group_of c) ≡ is_of k c
group_for-same device_work (service request) = refl
group_for-same device_work status_timer = refl
group_for-same device_work diagnostics_timer = refl
group_for-same device_work (transition t) = refl
group_for-same device_work parameter_write = refl
group_for-same node_management (service request) = refl
group_for-same node_management status_timer = refl
group_for-same node_management diagnostics_timer = refl
group_for-same node_management (transition t) = refl
group_for-same node_management parameter_write = refl

pub group_for-own : (c : Callback) → same_group (group_for (kind_of c)) (group_of c) ≡ true
group_for-own (service request) = refl
group_for-own status_timer = refl
group_for-own diagnostics_timer = refl
group_for-own (transition t) = refl
group_for-own parameter_write = refl

-- Each callback ends before the next one starts; at the end one may be open.
pub data IsSerial : List Mark → Option Callback → Type 0 where
  none_yet : IsSerial [] none
  opens :
      {trace : List Mark} (c : Callback)
      → IsSerial trace none
      → IsSerial (started c ∷ trace) (some c)
  closes :
      {trace : List Mark} (c : Callback) → IsSerial trace (some c) → IsSerial (ended c ∷ trace) none

abbrev pub listed : Option Callback → List Callback
listed none = []
listed (some c) = c ∷ []

those_of-append :
    (k : Kind) (xs ys : List Callback) → those_of k (xs ++ ys) ≡ those_of k xs ++ those_of k ys
those_of-append k [] ys = refl
those_of-append k (x ∷ xs) ys = ground (arith, those_of-append k xs ys)

-- Nothing of the kind runs if the count of its group is 0.
pub those_of-none :
    (k : Kind) (cs : List Callback) → count_in (group_for k) cs ≡ 0 → those_of k cs ≡ []
unfolding count_in
those_of-none k [] h = refl
those_of-none k (c ∷ cs) h = ground (arith, group_for-same k c, those_of-none k cs)

-- The open callback is the one that ends.
sole :
    (before after : List Callback) (c : Callback) (o : Option Callback)
    → before ++ c ∷ after ≡ listed o
    → (o ≡ some c) × (before ++ after ≡ [])
sole [] after c none h = absurd cc
sole [] after c (some d) h = (cc, cc)
sole (x ∷ before) after c none h = absurd cc
sole (x ∷ []) after c (some d) h = absurd cc
sole (x ∷ y ∷ before) after c (some d) h = absurd cc

listed-none : (o : Option Callback) → listed o ≡ [] → o ≡ none
listed-none none h = refl
listed-none (some c) h = absurd cc

-- The kind was serial so far, and what runs of it is what is open.
abbrev pub Serially : Kind → List Mark → List Callback → Type 0
Serially k trace running =
    (o : Option Callback) × IsSerial (marks_of k trace) o × (those_of k running ≡ listed o)

starts-Serially :
    (k : Kind) (trace : List Mark) (running : List Callback) (c : Callback)
    → HasRoom (group_type (group_of c)) (count_in (group_of c) running)
    → Serially k trace running
    → Serially k (started c ∷ trace) (c ∷ running)
starts-Serially k trace running c room (o, s, e) = elim (Bool-cases (is_of k c)) [
  | inl same ↦
      let idle : those_of k running ≡ [] = those_of-none k running (
        ap (λ g. count_in g running)
          (same_group_sound (group_for k) (group_of c) (group_for-same k c ∙ same))
        ∙ room_empty (group_of c) _ room) in
      let shut : o ≡ none = listed-none o (sym e ∙ idle) in
      rw (same, idle) (some c, opens c (subst (IsSerial (marks_of k trace)) shut s), refl)
  | inr other ↦ rw other (o, s, e)
]

ends-Serially :
    (k : Kind) (trace : List Mark) (before : List Callback) (c : Callback) (after : List Callback)
    → Serially k trace (before ++ c ∷ after)
    → Serially k (ended c ∷ trace) (before ++ after)
ends-Serially k trace before c after (o, s, e) = elim (Bool-cases (is_of k c)) [
  | inl same ↦
      let split : those_of k before ++ c ∷ those_of k after ≡ listed o =
        ap (λ b. those_of k before ++ (if b then c ∷ those_of k after else those_of k after))
          (sym same)
        ∙ sym (those_of-append k before (c ∷ after))
        ∙ e in
      let (open_one, left) = sole (those_of k before) (those_of k after) c o split in
      rw same (
        none,
        closes c (subst (IsSerial (marks_of k trace)) open_one s),
        those_of-append k before after ∙ left,
      )
  | inr other ↦
      let kept : those_of k before ++ those_of k after ≡ listed o =
        ap (λ b. those_of k before ++ (if b then c ∷ those_of k after else those_of k after))
          (sym other)
        ∙ sym (those_of-append k before (c ∷ after))
        ∙ e in
      rw other (o, s, those_of-append k before after ∙ kept)
]

-- However many threads the executor has, the service handlers and both timers run one after another,
-- whatever their order: each ends before the next one starts, and the one that has not ended, if any, is
-- the only one of them that runs. The same holds of the transitions and parameter writes among themselves.
pub callbacks_are_serial :
    (threads : ℕ) (trace : List Mark) (running : List Callback) (k : Kind)
    → Runs threads trace running
    → Serially k trace running
callbacks_are_serial threads _ _ k quiet = (none, none_yet, refl)
callbacks_are_serial threads _ _ k (next {trace} _ r (starts c running free room)) =
    starts-Serially k trace running c room (callbacks_are_serial threads trace running k r)
callbacks_are_serial threads _ _ k (next {trace} _ r (ends before c after)) =
    ends-Serially k trace before c after
      (callbacks_are_serial threads trace (before ++ c ∷ after) k r)
