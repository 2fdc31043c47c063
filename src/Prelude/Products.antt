-- ===== src/Prelude/Products.antt =====
-- Nested pairs that end in the unit type, as products.
use mathlib.Core.Logic.{◌↔◌}

pub drop1 : {A : Type 0} → (A × Unit {0}) ↔ A
drop1 = (λ (a, u). a, λ a. (a, tt))

pub drop2 : {A B : Type 0} → (A × (B × Unit {0})) ↔ (A × B)
drop2 = (λ (a, (b, u)). (a, b), λ (a, b). (a, (b, tt)))

pub drop3 : {A B C : Type 0} → (A × (B × (C × Unit {0}))) ↔ (A × B × C)
drop3 = (λ (a, (b, (c, u))). (a, b, c), λ (a, b, c). (a, (b, (c, tt))))

pub drop4 : {A B C D : Type 0} → (A × (B × (C × (D × Unit {0})))) ↔ (A × B × C × D)
drop4 = (λ (a, (b, (c, (d, u)))). (a, b, c, d), λ (a, b, c, d). (a, (b, (c, (d, tt)))))
