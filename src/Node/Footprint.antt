-- ===== src/Node/Footprint.antt =====
-- What one SDK call of litearm_driver/include/litearm_driver/service_helpers.hpp may touch in a node.
use litearm_ros.Prelude.{
  ℕ, ◌≤◌, Bool, true, false, Option, none, some, List, [], ◌∷◌, ◌++◌, length, ◌≡◌, refl, ◌⊎◌, inl,
  inr, Bool-cases, arith, ap, sym, ◌∙◌,
}
use litearm_ros.Sdk.{Command, Reply, Result, ok, threw, Sdk}
use litearm_ros.Node.{Node, issue}
use litearm_ros.Node.Growth.{is_present}
use litearm_ros.Node.Effect.{settled, effect_on, effect, plain}

-- The members other than the session and the trace of its calls.
abbrev pub members : {Arm : Type 0} → Node Arm → Node Arm
members node = record node { arm = none; issued = [] }

-- The speed scaling is a percentage, and what is cached is of a session that there is.
abbrev pub IsCurrent : {Arm : Type 0} → Node Arm → Type 0
IsCurrent node =
    (node.speed_scaling ≤ 100)
    × ((is_present node.arm ≡ true) ⊎ ((node.have_state ≡ false) × (node.license_valid ≡ false)))

-- A failure leaves the members alone.
abbrev pub FailsClean : {Arm : Type 0} → Node Arm → Bool × Node Arm → Type 0
FailsClean before out = (out.0 ≡ true) ⊎ (members out.1 ≡ members before)

-- What is kept of an answer touches neither the session nor the trace, and keeps a percentage.
abbrev pub IsMild : {Arm R : Type 0} → (R → Node Arm → Node Arm) → Type 0
IsMild {Arm} {R} keep =
    (r : R) (node : Node Arm)
    → ((keep r node).issued ≡ node.issued)
      × ((keep r node).arm ≡ node.arm)
      × (node.speed_scaling ≤ 100 → (keep r node).speed_scaling ≤ 100)

module _ {Arm : Type 0} ⦃sdk : Sdk Arm⦄ where
  -- A session after one more call.
  abbrev pub after_call : Command → Option Arm → Option Arm
  after_call c none = none
  after_call c (some arm) = some (sdk.exec c arm).1

  -- A session after calls, the latest first.
  abbrev pub replay : List Command → Option Arm → Option Arm
  replay [] session = session
  replay (c ∷ older) session = after_call c (replay older session)

  pub replay-append :
      (later older : List Command) (session : Option Arm)
      → replay (later ++ older) session ≡ replay later (replay older session)
  replay-append [] older session = refl
  replay-append (c ∷ later) older session = ap (after_call c) (replay-append later older session)

  -- At most `limit` calls were made, and they account for what became of the session.
  abbrev pub Within : ℕ → Node Arm → Node Arm → Type 0
  Within limit before after =
      (calls : List Command) × (after.issued ≡ calls ++ before.issued)
      × (after.arm ≡ replay calls before.arm)
      × (length calls ≤ limit)

  abbrev pub Tidy : ℕ → Node Arm → Bool × Node Arm → Type 0
  Tidy limit before out =
      Within limit before out.1 × FailsClean before out × (IsCurrent before → IsCurrent out.1)

  pub idle-Tidy : (limit : ℕ) (b : Bool) (node : Node Arm) → Tidy limit node (b, node)
  idle-Tidy limit b node = (([], refl, refl, ground arith), inr refl, λ h. h)

  settled-Tidy :
      (c : Command) (keep : Reply c → Node Arm → Node Arm) (limit : ℕ) (node : Node Arm) (arm : Arm)
      (answer : Result (Reply c))
      → 1 ≤ limit
      → some arm ≡ after_call c node.arm
      → IsMild keep
      → Tidy limit node
          (settled keep (answer, record node { arm = some arm; issued = c ∷ node.issued }))
  settled-Tidy c keep limit node arm (ok value) l a mild =
      let after : Node Arm = record node { arm = some arm; issued = c ∷ node.issued } in
      let (i, kept, s) = mild value after in
      ((c ∷ [], i, kept ∙ a, l), inl refl, λ h. (s h.0, inl (rw kept refl)))
  settled-Tidy c keep limit node arm (threw text) l a mild =
      ((c ∷ [], refl, a, l), inr refl, λ h. (h.0, inl refl))

  effect_on-Tidy :
      (c : Command) (keep : Reply c → Node Arm → Node Arm) (limit : ℕ) (session : Option Arm)
      (node : Node Arm)
      → node.arm ≡ session
      → 1 ≤ limit
      → IsMild keep
      → Tidy limit node (effect_on c keep session node)
  unfolding issue
  effect_on-Tidy c keep limit none node e l mild = idle-Tidy limit false node
  effect_on-Tidy c keep limit (some arm) node e l mild = elim (Bool-cases (sdk.is_connected arm)) [
    | inl up ↦ rw up (
        settled-Tidy c keep limit node (sdk.exec c arm).1 (sdk.exec c arm).0 l
          (ap (after_call c) (sym e)) mild)
    | inr down ↦ rw down (idle-Tidy limit false node)
  ]

  pub effect-Tidy :
      (c : Command) (keep : Reply c → Node Arm → Node Arm) (node : Node Arm)
      → IsMild keep
      → Tidy 1 node (effect c keep node)
  unfolding effect
  effect-Tidy c keep node mild = effect_on-Tidy c keep 1 node.arm node refl (ground arith) mild

  pub plain-Tidy : (c : Command) (node : Node Arm) → Tidy 1 node (plain c node)
  plain-Tidy c node = effect-Tidy c (λ _ n. n) node λ r n. (refl, refl, λ h. h)
