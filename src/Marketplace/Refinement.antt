-- ===== src/Marketplace/Refinement.antt =====
-- Every call of contracts/marketplace/src/lib.rs is one change of the book.
use stellar_invoice_finance.Prelude.{ℕ, ◌≡◌, arith, ℤ, pos, ◌≤ℤ◌, ◌-ℤ◌, -ℤ_parts, ap, sym, ◌∙◌}
use stellar_invoice_finance.Shared.{Env, Address, ok}
use stellar_invoice_finance.Shared.Token.{Tokens}
use stellar_invoice_finance.Shared.Validation.{bps_of_normalized}
use stellar_invoice_finance.Shared.Validation.Bounds.{bps_of_normalized-eq_ok}
use stellar_invoice_finance.AccessControl.State.{AccessControl}
use stellar_invoice_finance.FinancingPool.Owed.{positive-eq_pos}
use stellar_invoice_finance.Marketplace.State.{Marketplace, World}
use stellar_invoice_finance.Marketplace.Funding
use stellar_invoice_finance.Marketplace.Steps.{Call, Step}
use stellar_invoice_finance.Marketplace.Book.{Change, book}
use stellar_invoice_finance.Marketplace.Guards.{load_config-eq_ok}
use stellar_invoice_finance.Marketplace.Kept
use stellar_invoice_finance.Marketplace.Ended
use stellar_invoice_finance.Marketplace.Enlisted.{list_invoice-Change}
use stellar_invoice_finance.Marketplace.Contribution.{fund_invoice-IsFunding}

net-le : (n fee : ℤ) (bps d : ℕ) → pos 1 ≤ℤ n → bps_of_normalized n bps d ≡ ok fee → n -ℤ fee ≤ℤ n
net-le n fee bps d h k =
    let (m, positive, e) = positive-eq_pos n h in
    let fee' =
      bps_of_normalized-eq_ok m bps d fee (ap (λ n. bps_of_normalized n bps d) (sym e) ∙ k) in
    let q = -ℤ_parts n fee in ground (arith, q, fee', e)

fund_invoice-Change :
    (env : Env) (ac : AccessControl) (tokens : Tokens) (investor : Address) (id : ℕ) (amount : ℤ)
    (w w' : World)
    → Funding.fund_invoice env ac tokens investor id amount w ≡ ok (tt, w')
    → Change env.now (book w.market) (book w'.market)
fund_invoice-Change env ac tokens investor id amount w w' h =
    let f = fund_invoice-IsFunding env ac tokens investor id amount w w' h in
    Change.funds id f.listing investor amount (amount -ℤ f.fee) f.listed f.active f.in_time
      f.positive
      (net-le amount f.fee (Funding.effective_fee_bps f.config f.invoice w.market)
        (tokens.decimals f.listing.token) f.positive f.fee_is)
      f.room (ap book f.market_is)

-- The time of a call, 0 for `initialize` and the reads, which do not depend on it.
abbrev pub call_time : {s s' : Marketplace} → Call s s' → ℕ
call_time (Call.initialize a n f t ac rr bps h) = 0
call_time (Call.get_config c h) = 0
call_time (Call.set_referrer_split_bps env a bps h) = env.now
call_time (Call.set_fee_bps env a bps h) = env.now
call_time (Call.set_tier_fee_bps env a tier bps h) = env.now
call_time (Call.whitelist_token env a token h) = env.now
call_time (Call.remove_token_whitelist env a token h) = env.now
call_time (Call.propose_upgrade env a x h) = env.now
call_time (Call.execute_upgrade env a h) = env.now
call_time (Call.cancel_listing env caller id h) = env.now
call_time (Call.request_cancellation env caller id h) = env.now
call_time (Call.admin_confirm_cancellation env a id h) = env.now
call_time (Call.claim_refund env tokens investor id h) = env.now

abbrev pub step_time : {w w' : World} → Step w w' → ℕ
step_time (Step.call c) = call_time c
step_time (Step.list_invoice env ac seller id asking face token deadline r h) = env.now
step_time (Step.fund_invoice env ac tokens investor id amount h) = env.now
step_time (Step.others e) = 0

Call-Change : (s s' : Marketplace) (c : Call s s') → Change (call_time c) (book s) (book s')
Call-Change s s' (Call.initialize a n f t ac rr bps h) =
    Change.idles (Kept.initialize-book a n f t ac rr bps s s' h)
Call-Change s s' (Call.get_config c h) = Change.idles (ap book (load_config-eq_ok c s s' h))
Call-Change s s' (Call.set_referrer_split_bps env a bps h) =
    Change.idles (Kept.set_referrer_split_bps-book env a bps s s' h)
Call-Change s s' (Call.set_fee_bps env a bps h) =
    Change.idles (Kept.set_fee_bps-book env a bps s s' h)
Call-Change s s' (Call.set_tier_fee_bps env a tier bps h) =
    Change.idles (Kept.set_tier_fee_bps-book env a tier bps s s' h)
Call-Change s s' (Call.whitelist_token env a t h) =
    Change.idles (Kept.whitelist_token-book env a t s s' h)
Call-Change s s' (Call.remove_token_whitelist env a t h) =
    Change.idles (Kept.remove_token_whitelist-book env a t s s' h)
Call-Change s s' (Call.propose_upgrade env a x h) =
    Change.idles (Kept.propose_upgrade-book env a x s s' h)
Call-Change s s' (Call.execute_upgrade env a h) =
    Change.idles (Kept.execute_upgrade-book env a s s' h)
Call-Change s s' (Call.cancel_listing env a id h) = Ended.cancel_listing-Change env a id s s' h
Call-Change s s' (Call.request_cancellation env a id h) =
    Ended.request_cancellation-Change env a id s s' h
Call-Change s s' (Call.admin_confirm_cancellation env a id h) =
    Ended.admin_confirm_cancellation-Change env a id s s' h
Call-Change s s' (Call.claim_refund env tokens a id h) =
    Ended.claim_refund-Change env tokens a id s s' h

-- Every call of the marketplace that succeeds is one change of the book of listings, contributions
-- and refunds, at the time of the call: it enters a new listing that asks for less than its face
-- value, adds a contribution to an active listing at a time up to its deadline and up to its asking
-- price, closes an active listing with or without refunds before the deadline, marks a refund not
-- yet claimed, of a positive contribution to a listing that is not fully funded, after a confirmed
-- cancellation or at a time after the deadline, or leaves the book as it is.
pub Step-Change :
    (w w' : World) (st : Step w w') → Change (step_time st) (book w.market) (book w'.market)
Step-Change w w' (Step.call c) = Call-Change w.market w'.market c
Step-Change w w' (Step.list_invoice env ac seller id asking face token deadline r h) =
    list_invoice-Change env ac seller id asking face token deadline r w w' h
Step-Change w w' (Step.fund_invoice env ac tokens investor id amount h) =
    fund_invoice-Change env ac tokens investor id amount w w' h
Step-Change w w' (Step.others e) = Change.idles (ap book e)
