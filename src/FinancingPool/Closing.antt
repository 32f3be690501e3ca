-- ===== src/FinancingPool/Closing.antt =====
-- The closing of a pool by `repay` of contracts/financing_pool/src/lib.rs: what is owed, what has
-- been repaid, the payouts and the invoice's status.
use stellar_invoice_finance.Prelude.{
  ℕ, ◌+◌, ◌*◌, ◌/◌, ◌≡◌, refl, arith, true, false, Bool, some, pos, leb, ltb, leb_ℤ, if◌then◌else◌,
  Option-some, Bool-cases, ap, sym, ◌∙◌, not, ◌&&◌, inl, inr, ◌⊎◌,
}
use stellar_invoice_finance.Shared.{
  Env, Address, Pool, Invoice, InvoiceStatus, ok, Outcome-ok, enter,
}
use stellar_invoice_finance.Shared.Token.{Tokens}
use stellar_invoice_finance.AccessControl.State.{AccessControl}
use stellar_invoice_finance.InvoiceNft.State.{InvoiceNft, current}
use stellar_invoice_finance.InvoiceNft.Lifecycle.{set_repaid}
use stellar_invoice_finance.InvoiceNft.Effects.{set_repaid-eq_ok}
use stellar_invoice_finance.FinancingPool.State.{FinancingPool, World}
use stellar_invoice_finance.FinancingPool.Yield.{distribute_yield}
use stellar_invoice_finance.FinancingPool.Payouts.{distribute_yield-eq_ok}
use stellar_invoice_finance.FinancingPool.Repayment.{settle, with_penalty, credit}
use stellar_invoice_finance.FinancingPool.Owed.{
  IsPool, penalty_of, with_penalty-eq_ok, credit-eq_ok,
}

-- What payouts and offers leave: the pools, the positions, the buyouts and the penalty.
abbrev pub SamePools : FinancingPool → FinancingPool → Type 0
SamePools s s' =
    (s'.pool ≡ s.pool)
    × (s'.positions ≡ s.positions)
    × (s'.early_settlement ≡ s.early_settlement)
    × (s'.late_penalty_bps ≡ s.late_penalty_bps)

pub distribute_yield-SamePools :
    (env : Env) (tokens : Tokens) (id : ℕ) (token : Address) (n : ℕ) (s s' : FinancingPool)
    → distribute_yield env tokens id token (pos n) s ≡ ok (tt, s')
    → SamePools s s'
distribute_yield-SamePools env tokens id token n s s' h =
    let (c, e) = distribute_yield-eq_ok env tokens id token n s s' h in
    (
      ap (λ s. s.pool) e,
      ap (λ s. s.positions) e,
      ap (λ s. s.early_settlement) e,
      ap (λ s. s.late_penalty_bps) e,
    )

-- Either the pool is repaid in full and the invoice with it, or nothing happens.
abbrev pub Settled : ℕ → Pool → World → World → Type 0
Settled id q w v =
    ((leb_ℤ q.total_owed q.repaid_amount ≡ true)
      × SamePools w.financing v.financing
      × ((j : Invoice) × (v.nft.invoice id ≡ some (current j)) × (j.status ≡ InvoiceStatus.repaid)))
    ⊎ ((leb_ℤ q.total_owed q.repaid_amount ≡ false) × (v ≡ w))

settle-eq_ok :
    (env : Env) (ac : AccessControl) (tokens : Tokens) (id : ℕ) (token : Address) (q : Pool)
    (w v : World)
    → settle env ac tokens id token q w ≡ ok (tt, v)
    → leb_ℤ q.total_owed q.repaid_amount ≡ true
    → (u : FinancingPool) × (addr : Address) × (n : InvoiceNft) × (distribute_yield env tokens id
          token q.repaid_amount w.financing
        ≡ ok (tt, u))
      × (set_repaid (enter env addr) ac env.self id w.nft ≡ ok (tt, n))
      × (v ≡ record w { financing = u; nft = n })
unfolding settle
settle-eq_ok env ac tokens id token q w v h f =
    let ((u0, u), g) =
      Outcome-ok (distribute_yield env tokens id token q.repaid_amount w.financing)
        (λ x k. ground (arith, h, f, k)) (λ k. ground (arith, h, f, k)) in
    let (addr, g1) = Option-some u.invoice_nft (λ k. ground (arith, h, f, g, k)) in
    let ((n0, n), g2) =
      Outcome-ok (set_repaid (enter env addr) ac env.self id w.nft)
        (λ x k. ground (arith, h, f, g, g1, k)) (λ k. ground (arith, h, f, g, g1, k)) in
    (u, addr, n, g, g2, ground (arith, h, f, g, g1, g2))

pub settle-Settled :
    (env : Env) (ac : AccessControl) (tokens : Tokens) (id : ℕ) (token : Address) (q : Pool) (r : ℕ)
    (w v : World)
    → settle env ac tokens id token q w ≡ ok (tt, v)
    → q.repaid_amount ≡ pos r
    → Settled id q w v
unfolding settle
settle-Settled env ac tokens id token q r w v h e =
    elim (Bool-cases (leb_ℤ q.total_owed q.repaid_amount)) [
      | inr f ↦ inr (f, ground (arith, h, f))
      | inl f ↦
          let (u, addr, n, g, g2, v') = settle-eq_ok env ac tokens id token q w v h f in
          let (i, stored, auth, caller, running, funded, n') =
            set_repaid-eq_ok (enter env addr) ac env.self id w.nft n g2 in
          let same =
            distribute_yield-SamePools env tokens id token r w.financing u
              (ap (λ x. distribute_yield env tokens id token x w.financing) (sym e) ∙ g) in
          inl (
            f,
            (
              ap (λ v. v.financing.pool) v' ∙ same.0,
              ap (λ v. v.financing.positions) v' ∙ same.1,
              ap (λ v. v.financing.early_settlement) v' ∙ same.2,
              ap (λ v. v.financing.late_penalty_bps) v' ∙ same.3,
            ),
            (
              record i { status = InvoiceStatus.repaid; repaid_at = some env.now },
              ap (λ v. v.nft.invoice id) v' ∙ ap (λ n. n.invoice id) n' ∙ ground arith,
              refl,
            ),
          )
    ]

-- The pool after a payment of `b` at the present time.
abbrev pub is_late : Env → ℕ → Pool → Bool
is_late env due p = not p.penalty_applied && (ltb 0 p.late_penalty_bps && ltb due env.now)

unfoldable pub credited : Env → ℕ → ℕ → ℕ → ℕ → ℕ → Pool → Pool
credited env due face owed repaid b p =
    let total = if is_late env due p then owed + face * p.late_penalty_bps / 10000 else owed in
    record p {
      total_owed = pos total;
      penalty_applied = if is_late env due p then true else p.penalty_applied;
      repaid_amount = pos (repaid + b);
      is_closed = if leb total (repaid + b) then true else p.is_closed;
    }

pub credited-eq :
    (env : Env) (due : ℕ) (p owed q : Pool) (n b : ℕ) (o : IsPool n p)
    → with_penalty env due p ≡ ok owed
    → credit (pos b) owed ≡ ok q
    → q
      ≡ credited env due o.face
          (o.face + penalty_of o.face p.late_penalty_bps p.penalty_applied)
          o.repaid
          b
          p
unfolding credited
credited-eq env due p owed q n b o h k =
    let owed' =
      with_penalty-eq_ok env due p owed o.face
        (o.face + penalty_of o.face p.late_penalty_bps p.penalty_applied) h o.face_is o.owed_is in
    let kept : owed.repaid_amount ≡ pos o.repaid = elim (Bool-cases (is_late env due p)) [
      | inl l ↦ ground (arith, owed', l, o.repaid_is)
      | inr l ↦ ground (arith, owed', l, o.repaid_is)
    ] in
    let q' = credit-eq_ok b o.repaid owed q k kept in
    elim (Bool-cases (is_late env due p)) [
      | inl l ↦ ground (arith, q', owed', l)
      | inr l ↦ ground (arith, q', owed', l, o.owed_is)
    ]

pub credited-IsPool :
    (env : Env) (due : ℕ) (p : Pool) (n b : ℕ) (o : IsPool n p)
    → p.is_closed ≡ false
    → IsPool n (
        credited env due o.face
          (o.face + penalty_of o.face p.late_penalty_bps p.penalty_applied)
          o.repaid
          b
          p)
unfolding credited
credited-IsPool env due p n b o e = record {
  face = o.face;
  repaid = o.repaid + b;
  id_is = o.id_is;
  face_is = o.face_is;
  positive = o.positive;
  penalty_bps = o.penalty_bps;
  nothing_funded = o.nothing_funded;
  owed_is = ground arith;
  repaid_is = refl;
  open_owes = λ x. ground (arith, x, e, o.open_owes e);
}
