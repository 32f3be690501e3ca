-- ===== src/Prelude/Ordered.antt =====
-- The host's `Map` is kept in the order of its keys, and what its values add up to.
use Prim.Native.Nat.{ℕ, ◌+◌, ◌<◌, ◌≤◌}
use mathlib.Core.Path.{◌≡◌, refl}
use mathlib.Core.Logic.{inl, inr}
use mathlib.Core.Bool.{true}
use mathlib.Core.Option.{Option, none, some}
use mathlib.Core.List.{[], ◌∷◌}
use native.Mathlib.Omega.{arith}
use stellar_invoice_finance.Prelude.Tests.{ltb, ◌==◌, Bool-cases}
use stellar_invoice_finance.Prelude.Maps.{Map, lookup, insert, erase}

==→eq : (a b : ℕ) → (a == b) ≡ true → a ≡ b
==→eq a b h = ground arith

ltb→lt : (a b : ℕ) → ltb a b ≡ true → a < b
ltb→lt a b h = ground arith

module _ {V : Type 0} where
  -- Every key is above `k`.
  abbrev pub IsAbove : ℕ → Map V → Type 0
  IsAbove k [] = Unit {0}
  IsAbove k ((j, v) ∷ m) = (k < j) × IsAbove k m

  abbrev pub IsOrdered : Map V → Type 0
  IsOrdered [] = Unit {0}
  IsOrdered ((j, v) ∷ m) = IsAbove j m × IsOrdered m

  IsAbove-trans : (i j : ℕ) (m : Map V) → i < j → IsAbove j m → IsAbove i m
  IsAbove-trans i j [] h a = tt
  IsAbove-trans i j ((k, v) ∷ m) h (a, b) = (omega arith, IsAbove-trans i j m h b)

  lookup-above : (k j : ℕ) (m : Map V) → k ≤ j → IsAbove j m → lookup k m ≡ none
  lookup-above k j [] h a = refl
  lookup-above k j ((i, v) ∷ m) h (a, b) = ground (arith, a, lookup-above k j m h b)

  erase-above : (k : ℕ) (m : Map V) → IsAbove k m → erase k m ≡ m
  erase-above k [] a = refl
  erase-above k ((i, v) ∷ m) (a, b) = ground (arith, a, erase-above k m b)

  insert-IsAbove : (i k : ℕ) (v : V) (m : Map V) → i < k → IsAbove i m → IsAbove i (insert k v m)
  insert-IsAbove i k v [] h a = (h, tt)
  insert-IsAbove i k v ((j, w) ∷ m) h (a, b) = elim (Bool-cases (k == j)) [
    | inl e ↦ rw e (h, b)
    | inr e ↦ elim (Bool-cases (ltb k j)) [
      | inl f ↦ rw (e, f) (h, (a, b))
      | inr f ↦ rw (e, f) (a, insert-IsAbove i k v m h b)
    ]
  ]

  pub insert-IsOrdered : (k : ℕ) (v : V) (m : Map V) → IsOrdered m → IsOrdered (insert k v m)
  insert-IsOrdered k v [] o = (tt, tt)
  insert-IsOrdered k v ((j, w) ∷ m) (a, o) = elim (Bool-cases (k == j)) [
    | inl e ↦ rw e ((rw (==→eq k j e) a), o)
    | inr e ↦ elim (Bool-cases (ltb k j)) [
      | inl f ↦ rw (e, f) ((ltb→lt k j f, IsAbove-trans k j m (ltb→lt k j f) a), (a, o))
      | inr f ↦
          rw (e, f) (insert-IsAbove j k v m (ground (arith, e, f)) a, insert-IsOrdered k v m o)
    ]
  ]

  erase-IsAbove : (i k : ℕ) (m : Map V) → IsAbove i m → IsAbove i (erase k m)
  erase-IsAbove i k [] a = tt
  erase-IsAbove i k ((j, w) ∷ m) (a, b) = elim (Bool-cases (k == j)) [
    | inl e ↦ rw e (erase-IsAbove i k m b)
    | inr e ↦ rw e (a, erase-IsAbove i k m b)
  ]

  pub erase-IsOrdered : (k : ℕ) (m : Map V) → IsOrdered m → IsOrdered (erase k m)
  erase-IsOrdered k [] o = tt
  erase-IsOrdered k ((j, w) ∷ m) (a, o) = elim (Bool-cases (k == j)) [
    | inl e ↦ rw e (erase-IsOrdered k m o)
    | inr e ↦ rw e (erase-IsAbove j k m a, erase-IsOrdered k m o)
  ]

  module _ (weight : V → ℕ) where
    abbrev pub total : Map V → ℕ
    total [] = 0
    total ((j, v) ∷ m) = weight v + total m

    abbrev pub weight_at : Option V → ℕ
    weight_at none = 0
    weight_at (some v) = weight v

    pub total-insert :
        (k : ℕ) (v : V) (m : Map V)
        → IsOrdered m
        → total (insert k v m) + weight_at (lookup k m) ≡ total m + weight v
    total-insert k v [] o = ground arith
    total-insert k v ((j, w) ∷ m) (a, o) =
        let ih = total-insert k v m o in ground (arith, ih, lookup-above k j m)

    pub total-erase :
        (k : ℕ) (m : Map V) → IsOrdered m → total (erase k m) + weight_at (lookup k m) ≡ total m
    total-erase k [] o = ground arith
    total-erase k ((j, w) ∷ m) (a, o) =
        let ih = total-erase k m o in ground (arith, ih, erase-above j m a)
