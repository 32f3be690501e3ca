-- ===== src/AccessControl/Parameters.antt =====
-- contracts/access_control/src/lib.rs: over all its calls, what changes a governed parameter.
use stellar_invoice_finance.Prelude.{ℕ, ◌≡◌, ◌≤◌, ◌+◌, Option, none, some, length, Distinct}
use stellar_invoice_finance.Shared.{Env, Address, MultisigConfig, ParameterKey, ParameterProposal}
use stellar_invoice_finance.AccessControl.State.{AccessControl, key_index, get_parameter}
use stellar_invoice_finance.AccessControl.Governance.{execute_parameter_change}
use stellar_invoice_finance.AccessControl.Effects
use stellar_invoice_finance.AccessControl.Quorum
use stellar_invoice_finance.AccessControl.Quorum.{BySigner}
use stellar_invoice_finance.AccessControl.Steps.{Step}

-- The environment, the caller and the proposal of a step that executes a parameter change.
abbrev pub execution_of : {s s' : AccessControl} → Step s s' → Option (Env × Address × ℕ)
execution_of (Step.execute_parameter_change env a n h) = some (env, a, n)
execution_of st = none

-- The change of the parameter `key` by the execution of a proposal.
abbrev pub ByVotes :
    Option (Env × Address × ℕ) → ParameterKey → AccessControl → AccessControl → Type 0
ByVotes executed key s s' =
    (env : Env) × (a : Address) × (n : ℕ) × (config : MultisigConfig) × (p : ParameterProposal)
    × (executed ≡ some (env, a, n))
    × BySigner env a config s
    × (s.parameter_proposal n ≡ some p)
    × (config.threshold ≤ length p.approvals)
    × Distinct p.approvals
    × (p.created_at + 86400 ≤ env.now)
    × (key_index key ≡ key_index p.key)
    × (get_parameter s' key ≡ some p.new_value)
