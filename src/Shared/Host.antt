-- ===== src/Shared/Host.antt =====
-- What the Soroban host gives a contract: an invocation's environment, authorisation, results, and
-- the rollback of storage when an invocation does not return `Ok`.
use stellar_invoice_finance.Prelude.{
  ℕ, ◌+◌, ◌^◌, Bool, true, false, Option, none, some, ltb, ◌==◌, if◌then◌else◌, ◌≡◌, ◌≢◌, ◌⊎◌, inl,
  inr, refl, arith, ap, sym, ◌∙◌,
}
use stellar_invoice_finance.Shared.Errors.{KoraError}

-- Addresses, symbols and 32-byte hashes are only compared.
abbrev pub Address : Type 0
Address = ℕ

abbrev pub Symbol : Type 0
Symbol = ℕ

abbrev pub Hash : Type 0
Hash = ℕ

-- The ledger's timestamp, the running contract, and who has authorised the call.
pub record Env : Type 0 where
  pub now : ℕ
  pub self : Address
  pub auth : Address → Bool

-- A call of another contract runs with that contract as `self`; the caller's own address counts as
-- authorised there.
abbrev pub enter : Env → Address → Env
enter env callee = record {
  now = env.now;
  self = callee;
  auth = λ a. if a == env.self then true else env.auth a;
}

-- `panic` is a trap: a failed `require_auth`, an overflow, or a failed call of another contract.
pub data Outcome {ℓ} (A : Type ℓ) : Type ℓ where
  ok : A → Outcome A
  err : KoraError → Outcome A
  panic : Outcome A

pub Outcome-cases {ℓ} :
    {A : Type ℓ} (m : Outcome A)
    → ((a : A) × (m ≡ ok a)) ⊎ (((e : KoraError) × (m ≡ err e)) ⊎ (m ≡ panic))
Outcome-cases (ok a) = inl (a, refl)
Outcome-cases (err e) = inr (inl (e, refl))
Outcome-cases panic = inr (inr refl)

pub Outcome-ok {ℓ} :
    {A : Type ℓ} (m : Outcome A) → ((e : KoraError) → m ≢ err e) → m ≢ panic → (a : A) × (m ≡ ok a)
Outcome-ok (ok a) h k = (a, refl)
Outcome-ok (err e) h k = absurd (h e refl)
Outcome-ok panic h k = absurd (k refl)

-- An invocation that does not return `ok` has no new state.
abbrev pub Action {ℓ} : Type ℓ → Type ℓ → Type ℓ
Action S A = S → Outcome (A × S)

infixl 5 ◌>>=◌ ◌>>◌
abbrev pub ◌>>=◌ : {S A B : Type 0} → Action S A → (A → Action S B) → Action S B
◌>>=◌ m f s = elim (m s) [ ok (a, s') ↦ f a s' | err e ↦ err e | panic ↦ panic ]

abbrev pub ◌>>◌ : {S A B : Type 0} → Action S A → Action S B → Action S B
m >> k = m >>= λ _. k

-- A sequence that succeeds succeeds in its first part.
pub bind-eq_ok :
    {S A B : Type 0} (m : Action S A) (f : A → Action S B) (s : S) (r : B × S)
    → (m >>= f) s ≡ ok r
    → (a : A) × (t : S) × (m s ≡ ok (a, t)) × (f a t ≡ ok r)
bind-eq_ok m f s r h = elim (Outcome-cases (m s)) [
  | inl ((a, t), e) ↦ (a, t, e, ground (arith, h, e))
  | inr (inl (x, e)) ↦ ground (arith, h, e)
  | inr (inr e) ↦ ground (arith, h, e)
]

-- A sequence that begins with an action that leaves the state.
pub read-eq_ok :
    {S A B : Type 0} (m : Action S A) (f : A → Action S B) (s : S) (r : B × S)
    → ((a : A) (t : S) → m s ≡ ok (a, t) → t ≡ s)
    → (m >>= f) s ≡ ok r
    → (a : A) × (m s ≡ ok (a, s)) × (f a s ≡ ok r)
read-eq_ok m f s r keeps h =
    let (a, t, e, k) = bind-eq_ok m f s r h in
    let same = keeps a t e in (a, e ∙ ap (λ t. ok (a, t)) same, ap (f a) (sym same) ∙ k)

module _ {S A : Type 0} where
  abbrev pub pure : A → Action S A
  pure a s = ok (a, s)

  abbrev pub fail : KoraError → Action S A
  fail e s = err e

  abbrev pub gets : (S → A) → Action S A
  gets f s = ok (f s, s)

  -- `.ok_or(e)?`
  abbrev pub ok_or : Option A → KoraError → Action S A
  ok_or none e s = err e
  ok_or (some a) e s = ok (a, s)

  -- A value computed without the state, `?`.
  abbrev pub lift : Outcome A → Action S A
  lift (ok a) s = ok (a, s)
  lift (err e) s = err e
  lift panic s = panic

  -- `.unwrap()`, and a call of another contract through its client: a failure there is a trap here.
  abbrev pub unwrap : Outcome A → Action S A
  unwrap (ok a) s = ok (a, s)
  unwrap (err e) s = panic
  unwrap panic s = panic

module _ {S : Type 0} where
  -- `if c { return Err(e); }`
  abbrev pub reject_if : Bool → KoraError → Action S (Unit {0})
  reject_if c e s = elim c [ true ↦ err e | false ↦ ok (tt, s) ]

  pub reject_if-eq_ok :
      {A : Type 0} (c : Bool) (e : KoraError) (m : Action S A) (s : S) (r : A × S)
      → (reject_if c e >> m) s ≡ ok r
      → (c ≡ false) × (m s ≡ ok r)
  reject_if-eq_ok true e m s r h = absurd (ground (arith, h))
  reject_if-eq_ok false e m s r h = (refl, h)

  abbrev pub modify : (S → S) → Action S (Unit {0})
  modify f s = ok (tt, f s)

  -- `address.require_auth()`
  abbrev pub require_auth : Env → Address → Action S (Unit {0})
  require_auth env a s = elim (env.auth a) [ true ↦ ok (tt, s) | false ↦ panic ]

  -- `a + b` on `u64`: release builds keep overflow checks.
  abbrev pub add_u64 : ℕ → ℕ → Action S ℕ
  add_u64 a b s = elim (ltb (a + b) (2 ^ 64)) [ true ↦ ok (a + b, s) | false ↦ panic ]

-- Runs an action on a part of the state.
abbrev pub zoom : {S T A : Type 0} → (S → T) → (T → S → S) → Action T A → Action S A
zoom part put m s = elim (m (part s)) [
  | ok (a, t) ↦ ok (a, put t s)
  | err e ↦ err e
  | panic ↦ panic
]

abbrev pub checked_add_u64 : ℕ → ℕ → Option ℕ
checked_add_u64 a b = if ltb (a + b) (2 ^ 64) then some (a + b) else none

abbrev pub checked_add_u32 : ℕ → ℕ → Option ℕ
checked_add_u32 a b = if ltb (a + b) (2 ^ 32) then some (a + b) else none

pub same_state :
    {S A : Type 0} (x y : A) (s t : S) → ◌≡◌ {A = Outcome (A × S)} (ok (x, s)) (ok (y, t)) → s ≡ t
same_state x y s t h = ground (arith, h)

pub require_auth-eq_ok :
    {S A : Type 0} (env : Env) (a : Address) (m : Action S A) (s : S) (r : A × S)
    → (require_auth env a >> m) s ≡ ok r
    → (env.auth a ≡ true) × (m s ≡ ok r)
require_auth-eq_ok env a m s r h = (ground (arith, h), ground (arith, h))

pub lift-eq_ok :
    {S A B : Type 0} (o : Outcome A) (f : A → Action S B) (s : S) (r : B × S)
    → (lift o >>= f) s ≡ ok r
    → (a : A) × (o ≡ ok a) × (f a s ≡ ok r)
lift-eq_ok (ok a) f s r h = (a, refl, h)
lift-eq_ok (err e) f s r h = absurd (ground (arith, h))
lift-eq_ok panic f s r h = absurd (ground (arith, h))

pub ok_or-eq_ok :
    {S A B : Type 0} (o : Option A) (e : KoraError) (f : A → Action S B) (s : S) (r : B × S)
    → (ok_or o e >>= f) s ≡ ok r
    → (a : A) × (o ≡ some a) × (f a s ≡ ok r)
ok_or-eq_ok none e f s r h = absurd (ground (arith, h))
ok_or-eq_ok (some a) e f s r h = (a, refl, h)
