-- ===== src/Node/Outcome.antt =====
-- When a handler built from the helpers of litearm_driver/include/litearm_driver/service_helpers.hpp
-- reports success.
use litearm_ros.Prelude.{
  Bool, true, false, ◌&&◌, Option, none, some, ◌≡◌, refl, ap, ◌∙◌, ◌↔◌, arith,
}
use litearm_ros.Sdk.{Command, Reply, Result, ok, threw, Sdk}
use litearm_ros.Node.{Node, Call, Handler, issue}
use litearm_ros.Node.Effect.{settled, Does, does, declines, effect, effect_on}

abbrev pub is_ok : {A : Type 0} → Result A → Bool
is_ok (ok _) = true
is_ok (threw _) = false

settled_success :
    {Arm R : Type 0} (keep : R → Node Arm → Node Arm) (out : Result R × Node Arm)
    → (settled keep out).0 ≡ is_ok out.0
settled_success keep (ok value, node) = refl
settled_success keep (threw text, node) = refl

module _ {Arm : Type 0} ⦃sdk : Sdk Arm⦄ where
  abbrev answers_on : Command → Option Arm → Bool
  answers_on c none = false
  answers_on c (some arm) = sdk.is_connected arm && is_ok (sdk.exec c arm).0

  -- The link is up and the SDK call returns.
  abbrev pub answers : Command → Node Arm → Bool
  answers c node = answers_on c node.arm

  effect_on_success :
      (c : Command) (keep : Reply c → Node Arm → Node Arm) (session : Option Arm) (node : Node Arm)
      → (effect_on c keep session node).0 ≡ answers_on c session
  unfolding issue
  effect_on_success c keep none node = refl
  effect_on_success c keep (some arm) node = ground (arith, settled_success keep (issue c arm node))

  effect_success :
      (c : Command) (keep : Reply c → Node Arm → Node Arm) (node : Node Arm)
      → (effect c keep node).0 ≡ answers c node
  unfolding effect
  effect_success c keep node = effect_on_success c keep node.arm node

  -- A handler with an intent of one SDK call succeeds exactly when its condition holds and the call
  -- is answered.
  pub Does-success :
      {B Q : Type 0} (c : Command) (keep : Reply c → Node Arm → Node Arm) (handler : Handler Arm B)
      (call : Call Arm B)
      → Does Q (effect c keep call.node) handler call
      → ((handler call).response.success ≡ true) ↔ (Q × (answers c call.node ≡ true))
  Does-success c keep handler call (does q e) =
      let same : (handler call).response.success ≡ answers c call.node =
        ap (λ p. p.0) e ∙ effect_success c keep call.node in
      (λ h. (q, ground (arith, same)), λ h. ground (arith, same, h.1))
  Does-success c keep handler call (declines n e) =
      let failed : (handler call).response.success ≡ false = ap (λ p. p.0) e in
      (λ h. absurd (ground (arith, failed)), λ h. absurd (n h.0))
