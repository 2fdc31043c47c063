-- ===== src/Status/Problems.antt =====
-- `publish_diagnostics` of litearm_driver/src/litearm_driver_node.cpp: the text of its message.
use litearm_ros.Prelude.{
  Bool, true, false, not, ◌&&◌, Option, none, some, List, [], ◌∷◌, ◌++◌, String, ◌<>◌, is_empty,
  if◌then◌else◌, ◌≡◌, refl, sym, ap, ◌∙◌, All, arith,
}
use text.Mathlib.TextLemmas.{append_assoc, cons-append}
use mathlib.Core.List.{append-nil}
use litearm_ros.Sdk.{Sdk, Moment}
use litearm_ros.Node.{Node, Publisher, connected}
use litearm_ros.Node.Growth.{is_present}
use litearm_ros.Status.{arm_flag}
use litearm_ros.Status.Level.{
  DiagnosticStatus, assess, note, diagnostic_status, publish_diagnostics,
}

-- The texts, with semicolons between them.
abbrev pub joined : List String → String
joined [] = ""
joined (x ∷ []) = x
joined (x ∷ y ∷ xs) = x <> ("; " <> joined (y ∷ xs))

abbrev IsText : String → Type 0
IsText text = is_empty text ≡ false

-- The texts whose condition holds, in their order.
abbrev pub noted : List (Bool × String) → List String
noted [] = []
noted ((true, text) ∷ rest) = text ∷ noted rest
noted ((false, text) ∷ rest) = noted rest

append-IsText : (x y : String) → IsText x → IsText (x <> y)
append-IsText String.[] y h = absurd cc
append-IsText (String.◌∷◌ c s) y h = ap is_empty (cons-append c s y)

joined-IsText : (x : String) (xs : List String) → IsText x → IsText (joined (x ∷ xs))
joined-IsText x [] h = h
joined-IsText x (y ∷ xs) h = append-IsText x ("; " <> joined (y ∷ xs)) h

joined-append :
    (x t : String) (xs : List String) → joined (x ∷ xs) <> "; " <> t ≡ joined (x ∷ xs ++ t ∷ [])
joined-append x t [] = refl
joined-append x t (y ∷ xs) =
    append_assoc x ("; " <> joined (y ∷ xs)) ("; " <> t)
    ∙ ap (λ s. x <> s)
        (append_assoc "; " (joined (y ∷ xs)) ("; " <> t)
          ∙ ap (λ s. "; " <> s) (joined-append y t xs))

note-joined :
    (t : String) (xs : List String) → All IsText xs → note (joined xs) t ≡ joined (xs ++ t ∷ [])
note-joined t [] h = refl
note-joined t (x ∷ xs) h = rw (joined-IsText x xs h.0) (joined-append x t xs)

-- The texts are noted one after another.
abbrev grown : List (Bool × String) → String → String
grown [] problems = problems
grown ((found, text) ∷ rest) problems = grown rest (if found then note problems text else problems)

abbrev AllTexts : List (Bool × String) → Type 0
AllTexts found = All (λ p. IsText p.1) found

snoc-IsText : (xs : List String) (t : String) → All IsText xs → IsText t → All IsText (xs ++ t ∷ [])
snoc-IsText [] t h i = (i, tt)
snoc-IsText (x ∷ xs) t h i = (h.0, snoc-IsText xs t h.1 i)

append_step : (xs ys : List String) (t : String) → (xs ++ t ∷ []) ++ ys ≡ xs ++ t ∷ ys
append_step [] ys t = refl
append_step (x ∷ xs) ys t = ap (λ l. x ∷ l) (append_step xs ys t)

grown-joined :
    (found : List (Bool × String)) (xs : List String)
    → All IsText xs
    → AllTexts found
    → grown found (joined xs) ≡ joined (xs ++ noted found)
grown-joined [] xs h f = ap joined (sym (append-nil xs))
grown-joined ((true, text) ∷ rest) xs h f =
    ap (grown rest) (note-joined text xs h)
    ∙ grown-joined rest (xs ++ text ∷ []) (snoc-IsText xs text h f.0) f.1
    ∙ ap joined (append_step xs (noted rest) text)
grown-joined ((false, text) ∷ rest) xs h f = grown-joined rest xs h f.1

noted-IsText : (found : List (Bool × String)) → AllTexts found → All IsText (noted found)
noted-IsText [] f = tt
noted-IsText ((true, text) ∷ rest) f = (f.0, noted-IsText rest f.1)
noted-IsText ((false, text) ∷ rest) f = noted-IsText rest f.1

-- All the problems, or "ok".
abbrev pub summary : List String → String
summary [] = "ok"
summary (x ∷ xs) = joined (x ∷ xs)

summary-joined :
    (xs : List String)
    → All IsText xs
    → (if is_empty (joined xs) then "ok" else joined xs) ≡ summary xs
summary-joined [] h = refl
summary-joined (x ∷ xs) h = rw (joined-IsText x xs h.0) refl

abbrev pub message_of : Option DiagnosticStatus → Option String
message_of none = none
message_of (some status) = some status.message

published_on :
    (publisher : Option Publisher) (status : DiagnosticStatus) (text : String)
    → status.message ≡ text
    → message_of (elim publisher [ none ↦ none | some _ ↦ some status ])
      ≡ (if is_present publisher then some text else none)
published_on none status text e = refl
published_on (some publisher) status text e = ap some e

module _ {Arm : Type 0} ⦃sdk : Sdk Arm⦄ where
  -- What can be wrong, and how it is said.
  abbrev pub concerns : Node Arm → List (Bool × String)
  concerns node =
      (not (connected node), "link down")
      ∷ (arm_flag sdk.is_in_dfu node.arm, "in DFU")
      ∷ (node.have_state && node.last_state.faulted, "faulted: " <> node.last_state.fault_detail)
      ∷ (
        node.have_state && node.last_state.drop_hold_inferred,
        "rigid-hold latch inferred (reset or clear_faults to release)",
      )
      ∷ (
        node.license_valid && not node.license.activated,
        "licence not activated: ENABLE will be refused",
      )
      ∷ (arm_flag sdk.zero_g_active node.arm, "zero gravity active")
      ∷ []

  assessed : (node : Node Arm) → (assess node).1 ≡ grown (concerns node) ""
  unfolding assess
  assessed node = ground arith

  concerns-AllTexts : (node : Node Arm) → AllTexts (concerns node)
  concerns-AllTexts node = (
    refl,
    (
      refl,
      (append-IsText "faulted: " node.last_state.fault_detail refl, (refl, (refl, (refl, tt)))),
    ),
  )

  assess-joined : (node : Node Arm) → (assess node).1 ≡ joined (noted (concerns node))
  assess-joined node = assessed node ∙ grown-joined (concerns node) [] tt (concerns-AllTexts node)

  status_message :
      (at : Moment) (node_name : String) (node : Node Arm)
      → (diagnostic_status at node_name node).message ≡ summary (noted (concerns node))
  status_message at node_name node =
      ap (λ p. if is_empty p then "ok" else p) (assess-joined node)
      ∙ summary-joined (noted (concerns node))
          (noted-IsText (concerns node) (concerns-AllTexts node))

  -- A tick of the diagnostics timer publishes a status exactly when there is a publisher. Its message is
  -- the list of all the problems that there are, in the order link, DFU, fault (with its detail), hold
  -- latch, licence and zero gravity, separated by semicolons, and "ok" if there is none.
  pub published_problems :
      (at : Moment) (node_name : String) (node : Node Arm)
      → message_of (publish_diagnostics at node_name node) ≡ (
          if is_present node.diagnostics_publisher
          then some (summary (noted (concerns node)))
          else none)
  unfolding publish_diagnostics
  published_problems at node_name node =
      published_on node.diagnostics_publisher (diagnostic_status at node_name node)
        (summary (noted (concerns node))) (status_message at node_name node)
