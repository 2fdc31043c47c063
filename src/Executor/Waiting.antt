-- ===== src/Executor/Waiting.antt =====
-- How long a callback of litearm_driver/src/litearm_driver_node.cpp has to wait for the others.
use litearm_ros.Prelude.{ℕ, ◌+◌, ◌≤◌, List, [], ◌∷◌, ◌≡◌, ◌↔◌, refl, ap, sym, ◌∙◌, arith, length}
use litearm_ros.Executor.{
  Group, sdk_group, default_group, group_type, Callback, group_of, Mark, started, count_in, HasRoom,
  Step, starts, ends, Runs,
}
use litearm_ros.Executor.Exclusion.{one_callback_per_group, room_empty, same_group_sound}
use litearm_ros.Executor.Order.{
  Kind, kind_of, those_of, those_of-none, group_for, group_for-same, group_for-own,
}

length-by_group :
    (running : List Callback)
    → length running ≡ count_in sdk_group running + count_in default_group running
unfolding count_in
length-by_group [] = omega arith
length-by_group (c ∷ running) = ground (arith, length-by_group running)

-- With nothing of the one group, at most one callback of the other runs.
one_left :
    (threads : ℕ) (trace : List Mark) (running : List Callback) (g : Group)
    → Runs threads trace running
    → count_in g running ≡ 0
    → length running ≤ 1
one_left threads trace running sdk_group r idle = omega (
  arith,
  idle,
  length-by_group running,
  one_callback_per_group threads trace running default_group r,
)
one_left threads trace running default_group r idle =
    omega (
      arith,
      idle,
      length-by_group running,
      one_callback_per_group threads trace running sdk_group r,
    )

idle_room : (g : Group) (busy : ℕ) → busy ≡ 0 → HasRoom (group_type g) busy
idle_room sdk_group busy idle = idle
idle_room default_group busy idle = idle

started_idle :
    {threads : ℕ} {mark : Mark} {running later : List Callback} (c : Callback)
    → Step threads mark running later
    → mark ≡ started c
    → count_in (group_of c) running ≡ 0
started_idle c (starts d running free room) same =
    let e : c ≡ d = cc in ap (λ x. count_in (group_of x) running) e ∙ room_empty (group_of d) _ room
started_idle c (ends before d after) same = absurd cc

-- A kind of which nothing runs leaves its group's count at 0.
those_of-count :
    (k : Kind) (running : List Callback)
    → those_of k running ≡ []
    → count_in (group_for k) running ≡ 0
unfolding count_in
those_of-count k [] none_runs = refl
those_of-count k (c ∷ running) none_runs =
    ground (arith, group_for-same k c, those_of-count k running)

-- With at least two threads, a callback can start, in whatever state the executor reaches, exactly when
-- no callback of its kind runs. So a service's handler, that of a stop as well, waits for every other
-- handler and for both timers, but for no transition and no parameter write; and these for no handler.
pub starts_when_idle :
    (threads : ℕ) (trace : List Mark) (running : List Callback) (c : Callback)
    → 2 ≤ threads
    → Runs threads trace running
    → ((later : List Callback) × Step threads (started c) running later)
      ↔ (those_of (kind_of c) running ≡ [])
starts_when_idle threads trace running c two r =
    let placed : group_for (kind_of c) ≡ group_of c =
      same_group_sound (group_for (kind_of c)) (group_of c) (group_for-own c) in
    (
      λ step.
          those_of-none (kind_of c) running
            (ap (λ g. count_in g running) placed ∙ started_idle c step.1 refl),
      λ none_runs.
          let idle : count_in (group_of c) running ≡ 0 =
            ap (λ g. count_in g running) (sym placed)
            ∙ those_of-count (kind_of c) running none_runs in
          (
            c ∷ running,
            starts c running (omega (arith, one_left threads trace running (group_of c) r idle))
                (idle_room (group_of c) _ idle),
          ),
    )
