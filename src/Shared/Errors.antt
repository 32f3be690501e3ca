-- ===== src/Shared/Errors.antt =====
-- contracts/shared/src/errors.rs: the error enum of all contracts, with its `repr(u32)` codes.
use stellar_invoice_finance.Prelude.{ℕ}

pub data KoraError : Type 0 where
  unauthorized not_admin not_verifier protocol_paused : KoraError
  already_paused not_paused role_not_assigned invoice_not_found : KoraError
  invoice_already_exists invalid_invoice_status invoice_expired invalid_amount : KoraError
  invalid_due_date invalid_risk_score invalid_cid invoice_frozen : KoraError
  listing_not_found listing_already_cancelled listing_expired funding_deadline_passed : KoraError
  insufficient_funds exceeds_funding_target already_fully_funded listing_fully_funded : KoraError
  funding_not_expired refund_already_claimed no_contribution pool_not_found : KoraError
  pool_already_closed repayment_already_made insufficient_pool_balance position_not_found :
      KoraError
  sale_already_listed sale_not_found invalid_fee_rate withdrawal_failed : KoraError
  token_not_whitelisted withdrawal_rate_limit_exceeded withdrawal_cap_timelock_not_elapsed
        no_cap_change_proposed :
      KoraError
  sme_not_registered debtor_not_registered risk_score_out_of_range compliance_not_attested :
      KoraError
  arithmetic_overflow arithmetic_underflow invalid_address empty_string : KoraError
  already_initialized not_initialized empty_bytes field_too_long : KoraError
  reentrancy invalid_length no_upgrade_proposed upgrade_timelock_not_elapsed : KoraError
  parameter_proposal_not_found parameter_proposal_executed not_multisig_signer already_voted :
      KoraError
  governance_threshold_not_met governance_timelock_not_elapsed invalid_parameter_value
        score_update_cooldown_not_elapsed :
      KoraError
  cancellation_pending no_cancellation_pending invalid_threshold proposal_not_found : KoraError
  proposal_already_executed proposal_expired already_approved threshold_not_met : KoraError
  multisig_not_configured signer_not_found credit_limit_exceeded not_invoice_owner : KoraError
  currency_not_allowed : KoraError

unfoldable pub error_code : KoraError → ℕ
error_code unauthorized = 1
error_code not_admin = 2
error_code not_verifier = 3
error_code protocol_paused = 4
error_code already_paused = 5
error_code not_paused = 6
error_code role_not_assigned = 7
error_code invoice_not_found = 10
error_code invoice_already_exists = 11
error_code invalid_invoice_status = 12
error_code invoice_expired = 13
error_code invalid_amount = 14
error_code invalid_due_date = 15
error_code invalid_risk_score = 16
error_code invalid_cid = 17
error_code invoice_frozen = 18
error_code listing_not_found = 20
error_code listing_already_cancelled = 21
error_code listing_expired = 22
error_code funding_deadline_passed = 23
error_code insufficient_funds = 24
error_code exceeds_funding_target = 25
error_code already_fully_funded = 26
error_code listing_fully_funded = 27
error_code funding_not_expired = 28
error_code refund_already_claimed = 29
error_code no_contribution = 95
error_code pool_not_found = 30
error_code pool_already_closed = 31
error_code repayment_already_made = 32
error_code insufficient_pool_balance = 33
error_code position_not_found = 34
error_code sale_already_listed = 35
error_code sale_not_found = 36
error_code invalid_fee_rate = 40
error_code withdrawal_failed = 41
error_code token_not_whitelisted = 42
error_code withdrawal_rate_limit_exceeded = 43
error_code withdrawal_cap_timelock_not_elapsed = 44
error_code no_cap_change_proposed = 45
error_code sme_not_registered = 50
error_code debtor_not_registered = 51
error_code risk_score_out_of_range = 52
error_code compliance_not_attested = 53
error_code arithmetic_overflow = 90
error_code arithmetic_underflow = 91
error_code invalid_address = 92
error_code empty_string = 93
error_code already_initialized = 94
error_code not_initialized = 96
error_code empty_bytes = 97
error_code field_too_long = 103
error_code reentrancy = 98
error_code invalid_length = 99
error_code no_upgrade_proposed = 100
error_code upgrade_timelock_not_elapsed = 101
error_code parameter_proposal_not_found = 110
error_code parameter_proposal_executed = 111
error_code not_multisig_signer = 112
error_code already_voted = 113
error_code governance_threshold_not_met = 114
error_code governance_timelock_not_elapsed = 115
error_code invalid_parameter_value = 116
error_code score_update_cooldown_not_elapsed = 117
error_code cancellation_pending = 118
error_code no_cancellation_pending = 119
error_code invalid_threshold = 120
error_code proposal_not_found = 121
error_code proposal_already_executed = 122
error_code proposal_expired = 123
error_code already_approved = 124
error_code threshold_not_met = 125
error_code multisig_not_configured = 126
error_code signer_not_found = 127
error_code credit_limit_exceeded = 128
error_code not_invoice_owner = 129
error_code currency_not_allowed = 130
