-- ===== src/Node/Effect.antt =====
-- What a handler built from the helpers of litearm_driver/include/litearm_driver/service_helpers.hpp
-- does, as a specification: it meets its intent when its condition holds, and does nothing when not.
use litearm_ros.Prelude.{
  Bool, true, false, Bool-cases, Option, none, some, String, ◌≡◌, refl, ap, ◌∙◌, ◌↔◌, inl, inr,
  arith, if◌then◌else◌,
}
use litearm_ros.Sdk.{Command, Reply, Result, ok, threw, Sdk}
use litearm_ros.Gates.{GateResult, check_parameter_allows, check_connected}
use litearm_ros.Node.{
  Node, Call, Handler, fill_failure, gated, on_success, report, with_arm, perform, issue, ask,
  answered, run_command, reading, command, tell, require_motion_allowed, is_linked, connected,
}

-- What is left of a call: whether the response says success, and the node.
abbrev pub seen : {Arm B : Type 0} → Call Arm B → Bool × Node Arm
seen call = (call.response.success, call.node)

-- An SDK call's answer is kept in the node, or its throw is the failure.
abbrev pub settled :
    {Arm R : Type 0} → (R → Node Arm → Node Arm) → Result R × Node Arm → Bool × Node Arm
settled keep (ok value, node) = (true, keep value node)
settled keep (threw text, node) = (false, node)

-- The handler has the intent where `Q` holds, and where not it fails and leaves the node alone.
pub data Does {Arm B : Type 0} (Q : Type 0) (intent : Bool × Node Arm) (handler : Handler Arm B)
    (call : Call Arm B) : Type 0 where
  does : Q → seen (handler call) ≡ intent → Does Q intent handler call
  declines : ¬ Q → seen (handler call) ≡ (false, call.node) → Does Q intent handler call

pub allows_iff :
    (b : Bool) (name : String) → ((check_parameter_allows b name).ok ≡ true) ↔ (b ≡ true)
unfolding check_parameter_allows
allows_iff b name = ground arith

module _ {Arm B : Type 0} {intent : Bool × Node Arm} {call : Call Arm B} where
  pub gated-Does :
      {G Q : Type 0} (gate : GateResult) (rest : Handler Arm B)
      → (gate.ok ≡ true) ↔ G
      → Does Q intent rest call
      → Does (G × Q) intent (gated gate rest) call
  unfolding gated fill_failure
  gated-Does gate rest g rested = elim (Bool-cases gate.ok) [
    | inl passed ↦ elim rested [
      | does q e ↦ does (g.0 passed, q) (rw passed e)
      | declines n e ↦ declines (λ h. n h.1) (rw passed e)
    ]
    | inr refused ↦ declines (λ h. absurd (ground (arith, g.1 h.0))) (rw refused refl)
  ]

  pub on_success-Does :
      {Q : Type 0} (change : Call Arm B → Call Arm B) (handler : Handler Arm B)
      → ((s : Call Arm B) → seen (change s) ≡ seen s)
      → Does Q intent handler call
      → Does Q intent (on_success change handler) call
  unfolding on_success
  on_success-Does change handler keeps handled =
      let e : seen (on_success change handler call) ≡ seen (handler call) =
        ground (arith, keeps (handler call)) in
      elim handled [ does q h ↦ does q (e ∙ h) | declines n h ↦ declines n (e ∙ h) ]

  pub reading-Does :
      {Q : Type 0} (handler : Node Arm → Handler Arm B)
      → Does Q intent (handler call.node) call
      → Does Q intent (reading handler) call
  unfolding reading
  reading-Does handler (does q e) = does q e
  reading-Does handler (declines n e) = declines n e

  pub Does-change :
      {Q R : Type 0} {handler : Handler Arm B}
      → Q ↔ R
      → Does Q intent handler call
      → Does R intent handler call
  Does-change e (does q h) = does (e.0 q) h
  Does-change e (declines n h) = declines (λ r. n (e.1 r)) h

module _ {Arm : Type 0} ⦃sdk : Sdk Arm⦄ where
  abbrev pub effect_on :
      (c : Command) → (Reply c → Node Arm → Node Arm) → Option Arm → Node Arm → Bool × Node Arm
  effect_on c keep none node = (false, node)
  effect_on c keep (some arm) node =
      if sdk.is_connected arm then settled keep (issue c arm node) else (false, node)

  -- One SDK call over an open link, and what is kept of its answer; nothing over a closed one.
  unfoldable pub effect :
      (c : Command) → (Reply c → Node Arm → Node Arm) → Node Arm → Bool × Node Arm
  effect c keep node = effect_on c keep node.arm node

  -- Nothing is kept but the session itself.
  abbrev pub plain : Command → Node Arm → Bool × Node Arm
  plain c node = effect c (λ _ n. n) node

  effect_unlinked_on :
      (c : Command) (keep : Reply c → Node Arm → Node Arm) (session : Option Arm) (node : Node Arm)
      → is_linked session ≡ false
      → effect_on c keep session node ≡ (false, node)
  effect_unlinked_on c keep none node h = refl
  effect_unlinked_on c keep (some arm) node h = rw h refl

  -- A closed link makes no call.
  pub effect_unlinked :
      (c : Command) (keep : Reply c → Node Arm → Node Arm) (node : Node Arm)
      → connected node ≡ false
      → effect c keep node ≡ (false, node)
  unfolding effect connected
  effect_unlinked c keep node h = effect_unlinked_on c keep node.arm node h

module _ {Arm B : Type 0} ⦃sdk : Sdk Arm⦄ where
  reported_seen :
      (what : String) (c : Command) (store : Reply c → Call Arm B → Call Arm B)
      (keep : Reply c → Node Arm → Node Arm) (call : Call Arm B) (out : Result (Reply c) × Node Arm)
      → ((r : Reply c) (s : Call Arm B) → (store r s).node ≡ keep r s.node)
      → seen (report what (answered store (out.0, record call { node = out.1 }))) ≡ settled keep out
  unfolding report answered
  reported_seen what c store keep call (ok value, node) kept =
      ap (λ n. (true, n)) (kept value (record call { node = node }))
  reported_seen what c store keep call (threw text, node) kept = refl

  linked_seen :
      (what : String) (c : Command) (store : Reply c → Call Arm B → Call Arm B)
      (keep : Reply c → Node Arm → Node Arm) (session : Option Arm) (call : Call Arm B)
      → ((r : Reply c) (s : Call Arm B) → (store r s).node ≡ keep r s.node)
      → seen (
          gated
            (check_connected (is_linked session))
            (λ s. with_arm session (λ arm. report what (ask c store arm s)) s)
            call)
        ≡ effect_on c keep session call.node
  unfolding gated fill_failure check_connected with_arm ask perform
  linked_seen what c store keep none call kept = refl
  linked_seen what c store keep (some arm) call kept = elim (Bool-cases (sdk.is_connected arm)) [
    | inl up ↦ rw up (reported_seen what c store keep call (issue c arm call.node) kept)
    | inr down ↦ rw down refl
  ]

module _ {Arm B : Type 0} ⦃sdk : Sdk Arm⦄ {call : Call Arm B} where
  pub command-Does :
      (what : String) (c : Command) (store : Reply c → Call Arm B → Call Arm B)
      (keep : Reply c → Node Arm → Node Arm)
      → ((r : Reply c) (s : Call Arm B) → (store r s).node ≡ keep r s.node)
      → Does (Unit {0}) (effect c keep call.node) (command what c store) call
  unfolding command run_command connected effect
  command-Does what c store keep kept =
      does tt (linked_seen what c store keep call.node.arm call kept)

  -- An SDK call whose answer is written into the response only.
  pub answer-Does :
      (what : String) (c : Command) (store : Reply c → Call Arm B → Call Arm B)
      → ((r : Reply c) (s : Call Arm B) → (store r s).node ≡ s.node)
      → Does (Unit {0}) (plain c call.node) (command what c store) call
  answer-Does what c store kept = command-Does what c store (λ _ n. n) kept

  pub tell-Does :
      (what : String) (c : Command) → Does (Unit {0}) (plain c call.node) (tell what c) call
  unfolding tell
  tell-Does what c = answer-Does what c (λ _ s. s) (λ r s. refl)

  pub require_motion_allowed-Does :
      {Q : Type 0} {intent : Bool × Node Arm} (rest : Handler Arm B)
      → Does Q intent rest call
      → Does
          ((call.node.parameters.allow_motion ≡ true) × Q)
          intent
          (require_motion_allowed rest)
          call
  unfolding require_motion_allowed
  require_motion_allowed-Does rest h =
      elim (gated-Does (check_parameter_allows call.node.parameters.allow_motion "allow_motion")
        rest (allows_iff call.node.parameters.allow_motion "allow_motion") h) [
          | does q e ↦ does q e
          | declines n e ↦ declines n e
        ]

  -- The test of the link in front of a handler that would do nothing over a closed one.
  pub link-Does :
      {Q : Type 0} {intent : Bool × Node Arm} (rest : Handler Arm B)
      → (connected call.node ≡ false → intent ≡ (false, call.node))
      → Does Q intent rest call
      → Does Q intent (gated (check_connected (connected call.node)) rest) call
  unfolding gated fill_failure check_connected
  link-Does rest closed rested = elim (Bool-cases (connected call.node)) [
    | inl up ↦ elim rested [ does q e ↦ does q (rw up e) | declines n e ↦ declines n (rw up e) ]
    | inr down ↦ elim rested [
      | does q e ↦ does q (rw (down, closed down) refl)
      | declines n e ↦ declines n (rw down refl)
    ]
  ]
