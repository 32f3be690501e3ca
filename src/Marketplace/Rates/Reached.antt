-- ===== src/Marketplace/Rates/Reached.antt =====
-- Every state that the calls of contracts/marketplace/src/lib.rs lead to stores fee rates of at
-- most 100 %.
use stellar_invoice_finance.Prelude.{ℕ, ◌≡◌, some, ℤ}
use stellar_invoice_finance.Shared.{Env, Address, ok}
use stellar_invoice_finance.Shared.Token.{Tokens}
use stellar_invoice_finance.AccessControl.State.{AccessControl}
use stellar_invoice_finance.Marketplace.State.{Marketplace, World}
use stellar_invoice_finance.Marketplace.Funding
use stellar_invoice_finance.Marketplace.Enlisted.{list_invoice-HasFees}
use stellar_invoice_finance.Marketplace.Contribution.{fund_invoice-IsFunding}
use stellar_invoice_finance.Marketplace.Steps.{Call, Step, Reach}
use stellar_invoice_finance.Marketplace.Rates.{HasFees, load_config-HasFees}
use stellar_invoice_finance.Marketplace.Rates.Kept
use stellar_invoice_finance.Marketplace.Rates.Closing

Call-HasFees : (s s' : Marketplace) → Call s s' → HasFees s → HasFees s'
Call-HasFees s s' (Call.initialize a n f t ac rr bps h) =
    Kept.initialize-HasFees a n f t ac rr bps s s' h
Call-HasFees s s' (Call.get_config c h) = load_config-HasFees c s s' h
Call-HasFees s s' (Call.set_referrer_split_bps env a bps h) =
    Kept.set_referrer_split_bps-HasFees env a bps s s' h
Call-HasFees s s' (Call.set_fee_bps env a bps h) = Kept.set_fee_bps-HasFees env a bps s s' h
Call-HasFees s s' (Call.set_tier_fee_bps env a tier bps h) =
    Kept.set_tier_fee_bps-HasFees env a tier bps s s' h
Call-HasFees s s' (Call.whitelist_token env a token h) =
    Kept.whitelist_token-HasFees env a token s s' h
Call-HasFees s s' (Call.remove_token_whitelist env a token h) =
    Kept.remove_token_whitelist-HasFees env a token s s' h
Call-HasFees s s' (Call.propose_upgrade env a x h) = Kept.propose_upgrade-HasFees env a x s s' h
Call-HasFees s s' (Call.execute_upgrade env a h) = Kept.execute_upgrade-HasFees env a s s' h
Call-HasFees s s' (Call.cancel_listing env caller id h) =
    Closing.cancel_listing-HasFees env caller id s s' h
Call-HasFees s s' (Call.request_cancellation env caller id h) =
    Closing.request_cancellation-HasFees env caller id s s' h
Call-HasFees s s' (Call.admin_confirm_cancellation env a id h) =
    Closing.admin_confirm_cancellation-HasFees env a id s s' h
Call-HasFees s s' (Call.claim_refund env tokens investor id h) =
    Closing.claim_refund-HasFees env tokens investor id s s' h

fund_invoice-HasFees :
    (env : Env) (ac : AccessControl) (tokens : Tokens) (investor : Address) (id : ℕ) (amount : ℤ)
    (w w' : World)
    → Funding.fund_invoice env ac tokens investor id amount w ≡ ok (tt, w')
    → HasFees w.market
    → HasFees w'.market
fund_invoice-HasFees env ac tokens investor id amount w w' h v =
    let p = fund_invoice-IsFunding env ac tokens investor id amount w w' h in
    let k =
      load_config-HasFees p.config w.market (record w.market { config = some p.config }) p.loads
        v in
    rw p.market_is (record { flat = k.flat; legacy = k.legacy; tiers = k.tiers })

Step-HasFees : (w w' : World) → Step w w' → HasFees w.market → HasFees w'.market
Step-HasFees w w' (Step.call c) = Call-HasFees w.market w'.market c
Step-HasFees w w' (Step.list_invoice env ac seller id asking face token deadline r h) =
    list_invoice-HasFees env ac seller id asking face token deadline r w w' h
Step-HasFees w w' (Step.fund_invoice env ac tokens investor id amount h) =
    fund_invoice-HasFees env ac tokens investor id amount w w' h
Step-HasFees w w' (Step.others e) = λ v. rw e v

pub Reach-HasFees : (w : World) → Reach w → HasFees w.market
Reach-HasFees w (Reach.deployed _ e) = rw e (record { flat = tt; legacy = tt; tiers = λ n. tt })
Reach-HasFees w (Reach.next u _ r s) = Step-HasFees u w s (Reach-HasFees u r)
