-- ===== src/Treasury/Epoch.antt =====
-- The cap on the withdrawals of 24 hours, in contracts/treasury/src/lib.rs.
use stellar_invoice_finance.Prelude.{
  ℕ, ◌+◌, ◌-◌, ◌≤◌, ◌≡◌, arith, true, false, some, ℤ, pos, leb, ◌≤ℤ◌, checked_add, saturating_add,
  saturate, Option-some, Bool-cases, inl, inr, ap, ◌∙◌, if◌then◌else◌, [], ◌∷◌, ◌++◌, i128_max,
  checked_add-eq_some, +ℤ_pos,
}
use stellar_invoice_finance.Shared.{Env, Address, ok, Outcome-ok, bind-eq_ok}
use stellar_invoice_finance.Shared.Reentrancy
use stellar_invoice_finance.Shared.Validation.{max_amount}
use stellar_invoice_finance.Shared.Token.{Tokens}
use stellar_invoice_finance.Shared.Audit.{AdminActionType, AuditSource}
use stellar_invoice_finance.Shared.Audit.Ring.{append_entry_lem}
use stellar_invoice_finance.Treasury.State.{Treasury, with_guard, append_audit_entry}
use stellar_invoice_finance.Treasury.Withdrawal

pub pay_out-eq_ok :
    (env : Env) (tokens : Tokens) (a token recipient : Address) (amount : ℤ) (s s' : Treasury)
    → Withdrawal.pay_out env tokens a token recipient amount s ≡ ok (tt, s')
    → (t : Treasury) × (Withdrawal.record_withdrawal amount
          (Withdrawal.reduce_collected token amount s)
        ≡ ok (tt, t))
      × (s' ≡ record t {
        transfers =
            t.transfers
            ++ record { token = token; from = env.self; to = recipient; amount = amount } ∷ [];
        audit = s'.audit;
      })
unfolding Withdrawal.pay_out append_audit_entry
pay_out-eq_ok env tokens a token recipient amount s s' h =
    let ((u, t), e) =
      Outcome-ok (Withdrawal.record_withdrawal amount (Withdrawal.reduce_collected token amount s))
        (λ x z. ground (arith, h, z)) (λ z. ground (arith, h, z)) in
    let logged = append_entry_lem AuditSource.treasury env a AdminActionType.withdraw t.audit in
    (t, e, ground (arith, h, e, logged))

-- The total of the running epoch before a withdrawal now, and the start of that epoch.
abbrev pub running : Env → ℕ → ℕ → ℕ
running env start taken = if leb 86400 (env.now - start) then 0 else taken

abbrev pub started : Env → ℕ → ℕ
started env start = if leb 86400 (env.now - start) then env.now else start

enforce_rate_limit-eq_ok :
    (env : Env) (a limit start taken : ℕ) (s t : Treasury)
    → Withdrawal.enforce_rate_limit env (pos a) s ≡ ok (tt, t)
    → s.withdrawal_cap ≡ some (pos limit)
    → 1 ≤ limit
    → s.epoch_start ≡ some start
    → s.epoch_withdrawn ≡ some (pos taken)
    → (running env start taken + a ≤ limit)
      × (t ≡ record s {
        epoch_start = some (started env start);
        epoch_withdrawn = some (pos (running env start taken));
      })
unfolding Withdrawal.enforce_rate_limit Withdrawal.advance_epoch
enforce_rate_limit-eq_ok env a limit start taken s t h e k f g =
    elim (Bool-cases (leb 86400 (env.now - start))) [
      | inl b ↦
          let (r, i) =
            Option-some (checked_add (pos 0) (pos a)) (λ z. ground (arith, h, e, k, f, g, b, z)) in
          let r' = checked_add-eq_some 0 a r i in
          (ground (arith, h, e, k, f, g, b, i, r'), ground (arith, h, e, k, f, g, b, i, r'))
      | inr b ↦
          let (r, i) =
            Option-some (checked_add (pos taken) (pos a))
              (λ z. ground (arith, h, e, k, f, g, b, z)) in
          let r' = checked_add-eq_some taken a r i in
          (ground (arith, h, e, k, f, g, b, i, r'), ground (arith, h, e, k, f, g, b, i, r'))
    ]

pub saturating_add-eq_pos :
    (a b : ℕ) → pos (a + b) ≤ℤ i128_max → saturating_add (pos a) (pos b) ≡ pos (a + b)
unfolding saturate
saturating_add-eq_pos a b h = ground (arith, +ℤ_pos a b, h)

record_withdrawal-eq_ok :
    (a limit taken : ℕ) (s t : Treasury)
    → Withdrawal.record_withdrawal (pos a) s ≡ ok (tt, t)
    → s.withdrawal_cap ≡ some (pos limit)
    → 1 ≤ limit
    → s.epoch_withdrawn ≡ some (pos taken)
    → t ≡ record s { epoch_withdrawn = some (saturating_add (pos taken) (pos a)) }
unfolding Withdrawal.record_withdrawal
record_withdrawal-eq_ok a limit taken s t h e k f = ground (arith, h, e, k, f)

pub withdraw-parts :
    (env : Env) (tokens : Tokens) (a token recipient : Address) (amount : ℤ) (s s' : Treasury)
    → Withdrawal.withdraw env tokens a token recipient amount s ≡ ok (tt, s')
    → (pos 1 ≤ℤ amount)
      × (amount ≤ℤ max_amount)
      × (Withdrawal.withdraw_within_cap env tokens a token recipient amount s ≡ ok (tt, s'))
unfolding Withdrawal.withdraw
withdraw-parts env tokens a token recipient amount s s' h =
    (ground (arith, h), ground (arith, h), ground (arith, h))

withdraw_within_cap-parts :
    (env : Env) (tokens : Tokens) (a token recipient : Address) (amount : ℤ) (s s' : Treasury)
    → Withdrawal.withdraw_within_cap env tokens a token recipient amount s ≡ ok (tt, s')
    → (t u : Treasury) × (Withdrawal.enforce_rate_limit env amount s ≡ ok (tt, t))
      × (Withdrawal.pay_out env tokens a token recipient amount (record t { lock = true })
          ≡ ok (tt, u))
      × (s' ≡ record u { lock = false })
unfolding Withdrawal.withdraw_within_cap
withdraw_within_cap-parts env tokens a token recipient amount s s' h =
    let (x, t, e, f) =
      bind-eq_ok (Withdrawal.enforce_rate_limit env amount)
        (λ x. with_guard (Withdrawal.pay_out env tokens a token recipient amount)) s (tt, s') h in
    let (u, unlocked, paid, left) =
      Reentrancy.with_guard-eq_ok (λ (s : Treasury). s.lock) (λ b s. record s { lock = b })
        (Withdrawal.pay_out env tokens a token recipient amount) tt t s' f in
    (t, u, e, paid, left)

-- What a withdrawal leaves of the limits, where there is a cap.
pub withdraw-limits :
    (env : Env) (tokens : Tokens) (a token recipient : Address) (n limit start taken : ℕ)
    (s s' : Treasury)
    → Withdrawal.withdraw env tokens a token recipient (pos n) s ≡ ok (tt, s')
    → s.withdrawal_cap ≡ some (pos limit)
    → 1 ≤ limit
    → s.epoch_start ≡ some start
    → s.epoch_withdrawn ≡ some (pos taken)
    → (running env start taken + n ≤ limit)
      × (s'.withdrawal_cap ≡ some (pos limit))
      × (s'.epoch_start ≡ some (started env start))
      × (s'.epoch_withdrawn ≡ some (saturating_add (pos (running env start taken)) (pos n)))
withdraw-limits env tokens a token recipient n limit start taken s s' h e k f g =
    let (least, most, h0) = withdraw-parts env tokens a token recipient (pos n) s s' h in
    let (t, u, h1, h2, e') =
      withdraw_within_cap-parts env tokens a token recipient (pos n) s s' h0 in
    let (below, t') = enforce_rate_limit-eq_ok env n limit start taken s t h1 e k f g in
    let locked : Treasury = record t { lock = true } in
    let (v, h3, u') = pay_out-eq_ok env tokens a token recipient (pos n) locked u h2 in
    let w = running env start taken in
    let v' =
      record_withdrawal-eq_ok n limit w (Withdrawal.reduce_collected token (pos n) locked) v h3
        (ap (λ t. t.withdrawal_cap) t' ∙ e) k (ap (λ t. t.epoch_withdrawn) t') in
    (
      below,
      ap (λ s. s.withdrawal_cap) e'
          ∙ ap (λ s. s.withdrawal_cap) u'
          ∙ ap (λ s. s.withdrawal_cap) v'
          ∙ ap (λ s. s.withdrawal_cap) t'
          ∙ e,
      ap (λ s. s.epoch_start) e'
          ∙ ap (λ s. s.epoch_start) u'
          ∙ ap (λ s. s.epoch_start) v'
          ∙ ap (λ s. s.epoch_start) t',
      ap (λ s. s.epoch_withdrawn) e'
          ∙ ap (λ s. s.epoch_withdrawn) u'
          ∙ ap (λ s. s.epoch_withdrawn) v',
    )

enforce_rate_limit-cap :
    (env : Env) (amount : ℤ) (s t : Treasury)
    → Withdrawal.enforce_rate_limit env amount s ≡ ok (tt, t)
    → t.withdrawal_cap ≡ s.withdrawal_cap
unfolding Withdrawal.enforce_rate_limit Withdrawal.advance_epoch
enforce_rate_limit-cap env amount s t h = ground (arith, h)

record_withdrawal-cap :
    (amount : ℤ) (s t : Treasury)
    → Withdrawal.record_withdrawal amount s ≡ ok (tt, t)
    → t.withdrawal_cap ≡ s.withdrawal_cap
unfolding Withdrawal.record_withdrawal
record_withdrawal-cap amount s t h = ground (arith, h)

pub withdraw-keeps_cap :
    (env : Env) (tokens : Tokens) (a token recipient : Address) (amount : ℤ) (s s' : Treasury)
    → Withdrawal.withdraw env tokens a token recipient amount s ≡ ok (tt, s')
    → s'.withdrawal_cap ≡ s.withdrawal_cap
withdraw-keeps_cap env tokens a token recipient amount s s' h =
    let (least, most, h0) = withdraw-parts env tokens a token recipient amount s s' h in
    let (t, u, h1, h2, e') =
      withdraw_within_cap-parts env tokens a token recipient amount s s' h0 in
    let locked : Treasury = record t { lock = true } in
    let (v, h3, u') = pay_out-eq_ok env tokens a token recipient amount locked u h2 in
    ap (λ s. s.withdrawal_cap) e'
    ∙ ap (λ s. s.withdrawal_cap) u'
    ∙ record_withdrawal-cap amount (Withdrawal.reduce_collected token amount locked) v h3
    ∙ enforce_rate_limit-cap env amount s t h1
