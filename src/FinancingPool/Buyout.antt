-- ===== src/FinancingPool/Buyout.antt =====
-- The buyout of an invoice in contracts/financing_pool/src/lib.rs: an offer and its withdrawal.
use stellar_invoice_finance.Prelude.{
  ℕ, ◌≡◌, arith, true, false, none, some, ℤ, ltb_ℤ, [], ◌∷◌, ◌++◌, Option-some, ap, ◌∙◌, update,
}
use stellar_invoice_finance.Shared.{Env, Address, Pool, Invoice, EarlySettlementOffer, ok}
use stellar_invoice_finance.Shared.Token.{Transfer, Tokens}
use stellar_invoice_finance.AccessControl.State.{AccessControl}
use stellar_invoice_finance.InvoiceNft.State.{InvoiceNft, current}
use stellar_invoice_finance.InvoiceNft.Effects.{Slot, slot}
use stellar_invoice_finance.FinancingPool.State.{FinancingPool}
use stellar_invoice_finance.FinancingPool.Settlement.{
  propose_early_settlement, cancel_early_settlement,
}

abbrev pub escrow : Address → Address → Address → ℤ → Transfer
escrow token from to amount = record { token = token; from = from; to = to; amount = amount }

-- What an offer leaves, and what its withdrawal does.
abbrev after_offer : ℕ → ℤ → Transfer → FinancingPool → FinancingPool
after_offer id amount t s = record s {
  early_settlement =
      update s.early_settlement id
        (some (record { invoice_id = id; amount = amount; accepted_bps = 0; accepted = [] }));
  transfers = s.transfers ++ t ∷ [];
}

abbrev after_cancel : ℕ → Transfer → FinancingPool → FinancingPool
after_cancel id t s = record s {
  early_settlement = update s.early_settlement id none;
  transfers = s.transfers ++ t ∷ [];
}

propose_early_settlement-eq_ok :
    (env : Env) (ac : AccessControl) (nft : InvoiceNft) (tokens : Tokens) (sme : Address) (id : ℕ)
    (amount : ℤ) (s s' : FinancingPool)
    → propose_early_settlement env ac nft tokens sme id amount s ≡ ok (tt, s')
    → (p : Pool) × (i : Invoice) × (s.pool id ≡ some p)
      × (nft.invoice id ≡ some (current i))
      × (i.sme ≡ sme)
      × (p.is_closed ≡ false)
      × (ltb_ℤ amount p.total_owed ≡ true)
      × (s.early_settlement id ≡ none)
      × (s' ≡ after_offer id amount (escrow p.token sme env.self amount) s)
unfolding propose_early_settlement
propose_early_settlement-eq_ok env ac nft tokens sme id amount s s' h =
    let (addr, e0) = Option-some s.invoice_nft (λ e. ground (arith, h, e)) in
    let (p, e1) = Option-some (s.pool id) (λ e. ground (arith, h, e)) in
    elim (slot (nft.invoice id)) [
      | Slot.empty e ↦ absurd (ground (arith, h, e0, e1, e))
      | Slot.stale i e ↦ absurd (ground (arith, h, e0, e1, e))
      | Slot.holds i e ↦ (
        p,
        i,
        e1,
        e,
        ground (arith, h, e0, e1, e),
        ground (arith, h, e1),
        ground (arith, h, e1),
        ground (arith, h, e1),
        ground (arith, h, e0, e1, e),
      )
    ]

cancel_early_settlement-eq_ok :
    (env : Env) (nft : InvoiceNft) (tokens : Tokens) (sme : Address) (id : ℕ)
    (o : EarlySettlementOffer) (p : Pool) (s s' : FinancingPool)
    → cancel_early_settlement env nft tokens sme id s ≡ ok (tt, s')
    → s.early_settlement id ≡ some o
    → s.pool id ≡ some p
    → s' ≡ after_cancel id (escrow p.token env.self sme o.amount) s
unfolding cancel_early_settlement
cancel_early_settlement-eq_ok env nft tokens sme id o p s s' h e1 e2 =
    let (addr, e0) = Option-some s.invoice_nft (λ e. ground (arith, h, e1, e2, e)) in
    elim (slot (nft.invoice id)) [
      | Slot.empty e ↦ absurd (ground (arith, h, e0, e1, e2, e))
      | Slot.stale i e ↦ absurd (ground (arith, h, e0, e1, e2, e))
      | Slot.holds i e ↦ ground (arith, h, e0, e1, e2, e)
    ]

-- A buyout offer is for an open pool, by the invoice's SME, and for less than is owed; when the SME
-- withdraws it, exactly the escrowed amount goes back, in the pool's token, no offer is left, and the
-- pools and the positions are as before the offer.
pub propose-cancel_early_settlement :
    (env env' : Env) (ac : AccessControl) (nft nft' : InvoiceNft) (tokens : Tokens) (sme : Address)
    (id : ℕ) (amount : ℤ) (s s1 s2 : FinancingPool)
    → propose_early_settlement env ac nft tokens sme id amount s ≡ ok (tt, s1)
    → cancel_early_settlement env' nft' tokens sme id s1 ≡ ok (tt, s2)
    → (p : Pool) × (i : Invoice) × (s.pool id ≡ some p)
      × (p.is_closed ≡ false)
      × (nft.invoice id ≡ some (current i))
      × (i.sme ≡ sme)
      × (ltb_ℤ amount p.total_owed ≡ true)
      × (s2.transfers
          ≡ (s.transfers ++ escrow p.token sme env.self amount ∷ [])
            ++ escrow p.token env'.self sme amount ∷ [])
      × (s2.early_settlement id ≡ none)
      × (s2.pool ≡ s.pool)
      × (s2.positions ≡ s.positions)
propose-cancel_early_settlement env env' ac nft nft' tokens sme id amount s s1 s2 h h' =
    let (p, i, there, stored, its, is_open, below, free, e) =
      propose_early_settlement-eq_ok env ac nft tokens sme id amount s s1 h in
    let o : EarlySettlementOffer = record {
      invoice_id = id;
      amount = amount;
      accepted_bps = 0;
      accepted = [];
    } in
    let offered : s1.early_settlement id ≡ some o =
      ap (λ s. s.early_settlement id) e ∙ ground arith in
    let there1 : s1.pool id ≡ some p = ap (λ s. s.pool id) e ∙ there in
    let e' = cancel_early_settlement-eq_ok env' nft' tokens sme id o p s1 s2 h' offered there1 in
    (
      p,
      i,
      there,
      is_open,
      stored,
      its,
      below,
      ap (λ s. s.transfers) e'
          ∙ ap (λ ts. ts ++ escrow p.token env'.self sme amount ∷ []) (ap (λ s. s.transfers) e),
      ap (λ s. s.early_settlement id) e' ∙ ground arith,
      ap (λ s. s.pool) e' ∙ ap (λ s. s.pool) e,
      ap (λ s. s.positions) e' ∙ ap (λ s. s.positions) e,
    )
