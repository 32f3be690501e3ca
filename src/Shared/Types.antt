-- ===== src/Shared/Types.antt =====
-- contracts/shared/src/types.rs: the records that the contracts store and exchange.
-- `Bytes` and `String` values are lists of bytes.
use stellar_invoice_finance.Prelude.{
  ℕ, Bool, true, false, Option, List, [], ◌∷◌, ◌==◌, ◌&&◌, ℤ, leb, if◌then◌else◌,
}
use stellar_invoice_finance.Shared.Host.{Address, Symbol}

abbrev pub Bytes : Type 0
Bytes = List ℕ

pub data InvoiceStatus : Type 0 where
  created listed funded repaid defaulted : InvoiceStatus

abbrev pub status_eq : InvoiceStatus → InvoiceStatus → Bool
status_eq created created = true
status_eq listed listed = true
status_eq funded funded = true
status_eq repaid repaid = true
status_eq defaulted defaulted = true
status_eq _ _ = false

pub data RiskTier : Type 0 where
  aaa aa a b c : RiskTier

-- `RiskTier::from_score`
unfoldable pub from_score : ℕ → RiskTier
from_score score =
    if leb score 20
    then aaa
    else if leb score 40
    then aa
    else if leb score 60
    then a
    else if leb score 80
    then b
    else c

pub record Invoice : Type 0 where
  pub id : ℕ
  pub sme : Address
  pub debtor_hash : Bytes
  pub amount : ℤ
  pub currency : Symbol
  pub due_date : ℕ
  pub ipfs_cid : Bytes
  pub metadata_hash : Bytes
  pub risk_score : ℕ
  pub risk_tier : RiskTier
  pub status : InvoiceStatus
  pub created_at : ℕ
  pub funded_at : Option ℕ
  pub repaid_at : Option ℕ
  pub notes : Option Bytes

pub record Listing : Type 0 where
  pub invoice_id : ℕ
  pub seller : Address
  pub asking_price : ℤ
  pub face_value : ℤ
  pub token : Address
  pub funded_amount : ℤ
  pub funding_deadline : ℕ
  pub is_active : Bool

pub record Position : Type 0 where
  pub investor : Address
  pub invoice_id : ℕ
  pub contributed : ℤ
  pub share_bps : ℕ
  pub yield_claimed : ℤ

pub record Pool : Type 0 where
  pub invoice_id : ℕ
  pub token : Address
  pub total_funded : ℤ
  pub face_value : ℤ
  pub repaid_amount : ℤ
  pub is_closed : Bool
  pub late_penalty_bps : ℕ
  pub total_owed : ℤ
  pub penalty_applied : Bool

pub record PositionSaleOffer : Type 0 where
  pub seller : Address
  pub invoice_id : ℕ
  pub token : Address
  pub price : ℤ

pub record EarlySettlementOffer : Type 0 where
  pub invoice_id : ℕ
  pub amount : ℤ
  pub accepted_bps : ℕ
  pub accepted : List Address

pub record SmeProfile : Type 0 where
  pub address : Address
  pub verified : Bool
  pub verifier : Address
  pub risk_score : ℕ
  pub total_invoices : ℕ
  pub defaults : ℕ
  pub registered_at : ℕ
  pub compliance_attested : Bool
  pub credit_limit : ℤ

pub data AdminAction : Type 0 where
  pause : AdminAction
  unpause : AdminAction
  grant_role : Address → ℕ → AdminAction
  revoke_role : Address → AdminAction
  transfer_admin : Address → AdminAction

pub record Proposal : Type 0 where
  pub id : ℕ
  pub action : AdminAction
  pub proposer : Address
  pub approvals : List Address
  pub executed : Bool
  pub created_at : ℕ
  pub expires_at : ℕ

pub record MultisigConfig : Type 0 where
  pub threshold : ℕ
  pub signers : List Address

pub data ParameterKey : Type 0 where
  fee_bps late_penalty_bps max_risk_score : ParameterKey

pub record ParameterProposal : Type 0 where
  pub id : ℕ
  pub key : ParameterKey
  pub new_value : ℕ
  pub proposer : Address
  pub approvals : List Address
  pub created_at : ℕ
  pub executed : Bool

abbrev pub bytes_eq : Bytes → Bytes → Bool
bytes_eq [] [] = true
bytes_eq [] (y ∷ ys) = false
bytes_eq (x ∷ xs) [] = false
bytes_eq (x ∷ xs) (y ∷ ys) = x == y && bytes_eq xs ys
