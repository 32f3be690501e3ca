-- ===== src/FinancingPool/Payouts.antt =====
-- What `distribute_yield` of contracts/financing_pool/src/lib.rs pays, as a list of transfers that
-- is computed from the positions alone.
use stellar_invoice_finance.Prelude.{
  ℕ, suc, ◌+◌, ◌*◌, ◌/◌, ◌≤◌, ◌≡◌, refl, arith, ℤ, pos, pos_part, List, [], ◌∷◌, ◌++◌, Map, inl,
  inr, ap, sym, ◌∙◌, get_or, update, saturating_sub, some, length, total,
}
use mathlib.Core.List.{append-nil, append_assoc}
use native.Mathlib.Nat.{mul-le-mul_left}
use stellar_invoice_finance.Shared.{Env, Address, Position, Outcome-cases, bind-eq_ok, ok}
use stellar_invoice_finance.Shared.Token.{Transfer, Tokens}
use stellar_invoice_finance.Shared.Validation.{bps_of_normalized}
use stellar_invoice_finance.Shared.Validation.Bounds.{
  share, share-le, share-eq, bps_of_normalized-eq_ok,
}
use stellar_invoice_finance.FinancingPool.State.{FinancingPool, load_positions, get_positions_count}
use stellar_invoice_finance.FinancingPool.Yield.{pay_position, pay_positions, distribute_yield}

-- The transfer to an investor and to all of them, when `share_of` gives the amount for a share.
abbrev pub payout_to : Address → Address → (ℕ → ℕ) → Address → Position → Transfer
payout_to token self share_of investor p = record {
  token = token;
  from = self;
  to = investor;
  amount = pos (share_of p.share_bps);
}

abbrev pub payouts : Address → Address → (ℕ → ℕ) → Map Position → List Transfer
payouts token self share_of [] = []
payouts token self share_of ((investor, p) ∷ rest) =
    payout_to token self share_of investor p ∷ payouts token self share_of rest

-- The share of `n` as the code computes it, by way of standard units.
abbrev pub rounded : Tokens → Address → ℕ → ℕ → ℕ
rounded tokens token n bps = share n bps (tokens.decimals token)

abbrev pub with_transfers : List Transfer → FinancingPool → FinancingPool
with_transfers ts s = record s { transfers = ts }

abbrev pub total_amount : List Transfer → ℕ
total_amount [] = 0
total_amount (t ∷ ts) = pos_part t.amount + total_amount ts

abbrev pub total_bps : Map Position → ℕ
total_bps = total (λ (p : Position). p.share_bps)

payouts-le :
    (tokens : Tokens) (token self : Address) (n : ℕ) (m : Map Position)
    → total_amount (payouts token self (rounded tokens token n) m) * 10000 ≤ n * total_bps m
payouts-le tokens token self n [] = omega arith
payouts-le tokens token self n ((investor, p) ∷ rest) =
    omega
      (arith, share-le n p.share_bps (tokens.decimals token), payouts-le tokens token self n rest)

length-payouts :
    (token self : Address) (f : ℕ → ℕ) (m : Map Position)
    → length (payouts token self f m) ≡ length m
length-payouts token self f [] = refl
length-payouts token self f ((investor, p) ∷ rest) = ap suc (length-payouts token self f rest)

payouts-exact :
    (tokens : Tokens) (token self : Address) (n : ℕ) (m : Map Position)
    → tokens.decimals token ≤ 7
    → payouts token self (rounded tokens token n) m ≡ payouts token self (λ bps. n * bps / 10000) m
payouts-exact tokens token self n [] h = refl
payouts-exact tokens token self n ((investor, p) ∷ rest) h = ground (
  arith,
  share-eq n p.share_bps (tokens.decimals token) h,
  payouts-exact tokens token self n rest h,
)

pay_position-eq_ok :
    (env : Env) (tokens : Tokens) (token : Address) (n : ℕ) (investor : Address) (p : Position)
    (acc acc' : ℤ) (s s' : FinancingPool)
    → pay_position env tokens token (pos n) investor p acc s ≡ ok (acc', s')
    → s' ≡ record s {
      transfers = s.transfers ++ payout_to token env.self (rounded tokens token n) investor p ∷ [];
    }
unfolding pay_position
pay_position-eq_ok env tokens token n investor p acc acc' s s' h =
    elim (Outcome-cases (bps_of_normalized (pos n) p.share_bps (tokens.decimals token))) [
      | inl (r, e) ↦
          let r' = bps_of_normalized-eq_ok n p.share_bps (tokens.decimals token) r e in
          ground (arith, e, r')
      | inr (inl (x, e)) ↦ ground (arith, e)
      | inr (inr e) ↦ ground (arith, e)
    ]

pay_positions-eq_ok :
    (env : Env) (tokens : Tokens) (token : Address) (n : ℕ) (m : Map Position) (acc acc' : ℤ)
    (s s' : FinancingPool)
    → pay_positions env tokens token (pos n) m acc s ≡ ok (acc', s')
    → s' ≡ with_transfers (s.transfers ++ payouts token env.self (rounded tokens token n) m) s
unfolding pay_positions
pay_positions-eq_ok env tokens token n [] acc acc' s s' h =
    let e : s' ≡ s = ground (arith, h) in
    e ∙ ap (λ ts. with_transfers ts s) (sym (append-nil s.transfers))
pay_positions-eq_ok env tokens token n ((investor, p) ∷ rest) acc acc' s s' h =
    let x = payout_to token env.self (rounded tokens token n) investor p in
    let ps = payouts token env.self (rounded tokens token n) rest in
    let (next, t, e, h') =
      bind-eq_ok (pay_position env tokens token (pos n) investor p acc)
        (λ next. pay_positions env tokens token (pos n) rest next) s (acc', s') h in
    let e' = pay_position-eq_ok env tokens token n investor p acc next s t e in
    pay_positions-eq_ok env tokens token n rest next acc' t s' h'
    ∙ ap (λ t. with_transfers (t.transfers ++ ps) t) e'
    ∙ ap (λ ts. with_transfers ts s) (append_assoc s.transfers (x ∷ []) ps)

abbrev pub reduce_aggregate : Address → ℤ → FinancingPool → FinancingPool
reduce_aggregate token c s = record s {
  aggregate_funded =
      update s.aggregate_funded token
        (some (saturating_sub (get_or (s.aggregate_funded token) (pos 0)) c));
}

-- What a distribution leaves: the payouts are made, and the aggregate of the token is reduced.
pub distribute_yield-eq_ok :
    (env : Env) (tokens : Tokens) (id : ℕ) (token : Address) (n : ℕ) (s s' : FinancingPool)
    → distribute_yield env tokens id token (pos n) s ≡ ok (tt, s')
    → (c : ℤ) × (s'
        ≡ reduce_aggregate token c (
            with_transfers
              (s.transfers ++ payouts token env.self (rounded tokens token n) (load_positions s id))
              s))
unfolding distribute_yield
distribute_yield-eq_ok env tokens id token n s s' h =
    let (c, t, e, h') =
      bind-eq_ok (pay_positions env tokens token (pos n) (load_positions s id) (pos 0))
        (λ c s. ok (tt, reduce_aggregate token c s)) s (tt, s') h in
    let last : s' ≡ reduce_aggregate token c t = ground (arith, h') in
    (
      c,
      last
          ∙ ap (reduce_aggregate token c)
              (pay_positions-eq_ok env tokens token n (load_positions s id) (pos 0) c s t e),
    )

-- A distribution to positions whose shares come to at most 10000 basis points pays in all at most
-- what was repaid, whatever the decimals of the token: it adds one transfer for each position, and
-- their amounts come to at most the amount repaid.
pub distribute_yield-le :
    (env : Env) (tokens : Tokens) (id : ℕ) (token : Address) (n : ℕ) (s s' : FinancingPool)
    → distribute_yield env tokens id token (pos n) s ≡ ok (tt, s')
    → total_bps (load_positions s id) ≤ 10000
    → (paid : List Transfer) × (s'.transfers ≡ s.transfers ++ paid)
      × (length paid ≡ get_positions_count s id)
      × (total_amount paid ≤ n)
distribute_yield-le env tokens id token n s s' h le =
    let (c, e) = distribute_yield-eq_ok env tokens id token n s s' h in
    let m = load_positions s id in
    let most = mul-le-mul_left n le in
    (
      payouts token env.self (rounded tokens token n) m,
      ap (λ s. s.transfers) e,
      length-payouts token env.self (rounded tokens token n) m,
      omega (arith, payouts-le tokens token env.self n m, most),
    )

-- A distribution in a token of at most 7 decimals pays every investor, in the order of the
-- positions, the share of the amount repaid, `n * share_bps / 10000` rounded down, and leaves the
-- positions and the pools.
pub distribute_yield_pays :
    (env : Env) (tokens : Tokens) (id : ℕ) (token : Address) (n : ℕ) (s s' : FinancingPool)
    → distribute_yield env tokens id token (pos n) s ≡ ok (tt, s')
    → tokens.decimals token ≤ 7
    → (s'.transfers
        ≡ s.transfers ++ payouts token env.self (λ bps. n * bps / 10000) (load_positions s id))
      × (s'.positions ≡ s.positions)
      × (s'.pool ≡ s.pool)
distribute_yield_pays env tokens id token n s s' h small =
    let (c, e) = distribute_yield-eq_ok env tokens id token n s s' h in
    (
      ap (λ s. s.transfers) e
          ∙ ap (λ ts. s.transfers ++ ts)
              (payouts-exact tokens token env.self n (load_positions s id) small),
      ap (λ s. s.positions) e,
      ap (λ s. s.pool) e,
    )
