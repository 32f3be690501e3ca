-- ===== src/InvoiceNft/Frames.antt =====
-- What the admin's calls of contracts/invoice_nft/src/lib.rs leave alone.
use stellar_invoice_finance.Prelude.{ℕ, ◌≡◌, none, some, arith}
use stellar_invoice_finance.Shared.{Env, Address, Symbol, Hash, ok}
use stellar_invoice_finance.InvoiceNft.State.{InvoiceNft, next_id}
use stellar_invoice_finance.InvoiceNft.Admin

-- The invoices, the next id and the exposures are as they were.
abbrev pub Keeps : InvoiceNft → InvoiceNft → Type 0
Keeps s s' =
    (s'.invoice ≡ s.invoice)
    × (next_id s' ≡ next_id s)
    × (s'.outstanding_exposure ≡ s.outstanding_exposure)

pub set_risk_registry-Keeps :
    (env : Env) (a rr : Address) (s s' : InvoiceNft)
    → Admin.set_risk_registry env a rr s ≡ ok (tt, s')
    → Keeps s s'
unfolding Admin.set_risk_registry
set_risk_registry-Keeps env a rr s s' h = ground arith

pub set_authorized_callers-Keeps :
    (env : Env) (a market pool : Address) (s s' : InvoiceNft)
    → Admin.set_authorized_callers env a market pool s ≡ ok (tt, s')
    → Keeps s s'
unfolding Admin.set_authorized_callers
set_authorized_callers-Keeps env a market pool s s' h = ground arith

pub freeze_invoice-Keeps :
    (env : Env) (a : Address) (id : ℕ) (s s' : InvoiceNft)
    → Admin.freeze_invoice env a id s ≡ ok (tt, s')
    → Keeps s s'
unfolding Admin.freeze_invoice
freeze_invoice-Keeps env a id s s' h = ground arith

pub unfreeze_invoice-Keeps :
    (env : Env) (a : Address) (id : ℕ) (s s' : InvoiceNft)
    → Admin.unfreeze_invoice env a id s ≡ ok (tt, s')
    → Keeps s s'
unfolding Admin.unfreeze_invoice
unfreeze_invoice-Keeps env a id s s' h = ground arith

pub propose_upgrade-Keeps :
    (env : Env) (a : Address) (hash : Hash) (s s' : InvoiceNft)
    → Admin.propose_upgrade env a hash s ≡ ok (tt, s')
    → Keeps s s'
unfolding Admin.propose_upgrade
propose_upgrade-Keeps env a hash s s' h = ground arith

pub execute_upgrade-Keeps :
    (env : Env) (a : Address) (s s' : InvoiceNft)
    → Admin.execute_upgrade env a s ≡ ok (tt, s')
    → Keeps s s'
unfolding Admin.execute_upgrade
execute_upgrade-Keeps env a s s' h = ground arith

pub add_allowed_currency-Keeps :
    (env : Env) (a : Address) (c : Symbol) (s s' : InvoiceNft)
    → Admin.add_allowed_currency env a c s ≡ ok (tt, s')
    → Keeps s s'
unfolding Admin.add_allowed_currency
add_allowed_currency-Keeps env a c s s' h = ground arith

pub remove_allowed_currency-Keeps :
    (env : Env) (a : Address) (c : Symbol) (s s' : InvoiceNft)
    → Admin.remove_allowed_currency env a c s ≡ ok (tt, s')
    → Keeps s s'
unfolding Admin.remove_allowed_currency
remove_allowed_currency-Keeps env a c s s' h = ground arith

pub initialize_lem :
    (env : Env) (a ac : Address) (s s' : InvoiceNft)
    → Admin.initialize env a ac s ≡ ok (tt, s')
    → (s.admin ≡ none)
      × (s'.invoice ≡ s.invoice)
      × (next_id s' ≡ 1)
      × (s'.outstanding_exposure ≡ s.outstanding_exposure)
      × (s'.admin ≡ some a)
unfolding Admin.initialize
initialize_lem env a ac s s' h = ground arith
