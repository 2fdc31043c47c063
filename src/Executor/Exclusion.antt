-- ===== src/Executor/Exclusion.antt =====
-- Which callbacks never run at the same time, and which can.
use litearm_ros.Prelude.{
  ℕ, ◌+◌, ◌≤◌, true, Bool-cases, inl, inr, List, [], ◌∷◌, ◌++◌, ◌≡◌, refl, ap, ◌∙◌, arith,
}
use litearm_ros.Service.{Request}
use litearm_ros.Executor.{
  Group, sdk_group, default_group, group_type, Callback, service, transition, Transition, group_of,
  same_group, Mark, started, count_in, HasRoom, Step, starts, ends, Runs, quiet, next,
}

count_in-append :
    (g : Group) (xs ys : List Callback) → count_in g (xs ++ ys) ≡ count_in g xs + count_in g ys
unfolding count_in
count_in-append g [] ys = omega arith
count_in-append g (x ∷ xs) ys = ground (arith, count_in-append g xs ys)

pub same_group_sound : (g h : Group) → same_group g h ≡ true → g ≡ h
same_group_sound sdk_group sdk_group e = refl
same_group_sound default_group default_group e = refl
same_group_sound sdk_group default_group e = absurd cc
same_group_sound default_group sdk_group e = absurd cc

-- Both groups are mutually exclusive.
pub room_empty : (g : Group) (busy : ℕ) → HasRoom (group_type g) busy → busy ≡ 0
room_empty sdk_group busy room = room
room_empty default_group busy room = room

Step-count_in :
    {threads : ℕ} {mark : Mark} {running later : List Callback} (g : Group)
    → Step threads mark running later
    → count_in g running ≤ 1
    → count_in g later ≤ 1
unfolding count_in
Step-count_in g (starts c running free room) h = elim (Bool-cases (same_group g (group_of c))) [
  | inl same ↦
      let e : g ≡ group_of c = same_group_sound g (group_of c) same in
      let none_busy : count_in g running ≡ 0 =
        ap (λ k. count_in k running) e ∙ room_empty (group_of c) _ room in
      rw (same, none_busy) (omega arith)
  | inr other ↦ rw other (omega (arith, h))
]
Step-count_in g (ends before c after) h =
    omega (arith, h, count_in-append g before (c ∷ after), count_in-append g before after)

-- However many threads the executor has, at most one callback of each group runs at any time. So no
-- two service handlers and timers, which share the group of the SDK calls, ever overlap; nor do two
-- transitions.
pub one_callback_per_group :
    (threads : ℕ) (trace : List Mark) (running : List Callback) (g : Group)
    → Runs threads trace running
    → count_in g running ≤ 1
unfolding count_in
one_callback_per_group threads _ _ g quiet = omega arith
one_callback_per_group threads _ _ g (next {trace} {running} mark r s) =
    Step-count_in g s (one_callback_per_group threads trace running g r)

-- With at least two threads, any transition of the lifecycle can start while any service's handler
-- runs: they are in different groups.
pub transition_overlaps :
    (threads : ℕ) (request : Request) (t : Transition)
    → 2 ≤ threads
    → Runs threads
        (started (transition t) ∷ started (service request) ∷ [])
        (transition t ∷ service request ∷ [])
unfolding count_in
transition_overlaps threads request t h =
    next (started (transition t))
      (next (started (service request)) quiet (starts (service request) [] (omega arith) refl))
      (starts (transition t) (service request ∷ []) (omega arith) refl)
