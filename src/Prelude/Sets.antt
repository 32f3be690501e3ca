-- ===== src/Prelude/Sets.antt =====
-- Predicates on optional values and storage, and lists with no repetition.
use mathlib.Core.Path.{◌≡◌, refl}
use mathlib.Core.Bool.{false}
use mathlib.Core.Option.{Option, none, some}
use mathlib.Core.List.{List, [], ◌∷◌, ◌++◌}
use mathlib.Core.Logic.{inl, inr}
use Prim.Native.Nat.{ℕ}
use native.Mathlib.Omega.{arith}
use stellar_invoice_finance.Prelude.Tests.{◌==◌, Bool-cases}
use stellar_invoice_finance.Prelude.Maps.{update, contains, contains-append_last}

module _ {ℓ κ} {A : Type ℓ} (P : A → Type κ) where
  abbrev pub Every : Option A → Type κ
  Every none = Unit
  Every (some a) = P a

  pub Every-some : (o : Option A) (a : A) → Every o → o ≡ some a → P a
  Every-some none a h e = absurd (cc)
  Every-some (some b) a h e = rw (← some_inj e) h
    where
      some_inj : some b ≡ some a → b ≡ a
      some_inj q = cc

  pub Every-update :
      (f : ℕ → Option A) (k : ℕ) (a : A)
      → ((n : ℕ) → Every (f n))
      → P a
      → (n : ℕ) → Every (update f k (some a) n)
  Every-update f k a h p n = elim (Bool-cases (n == k)) [ inl e ↦ rw e p | inr e ↦ rw e (h n) ]

abbrev pub Distinct : List ℕ → Type 0
Distinct [] = Unit
Distinct (x ∷ xs) = (contains x xs ≡ false) × Distinct xs

pub Distinct-append_last :
    (a : ℕ) (xs : List ℕ) → Distinct xs → contains a xs ≡ false → Distinct (xs ++ a ∷ [])
Distinct-append_last a [] h e = (refl, tt)
Distinct-append_last a (x ∷ xs) h e =
    (ground (arith, contains-append_last x a xs, h.0), Distinct-append_last a xs h.1 (ground arith))
