-- ===== src/Shared/Token.antt =====
-- The token contracts that contracts/ call through `token::Client`, which are not part of the
-- repository: what a contract asks of them is recorded in order, and their answers are parameters.
use stellar_invoice_finance.Prelude.{ℕ, Bool, true, false, List, [], ◌∷◌, ◌++◌, ℤ}
use stellar_invoice_finance.Shared.Host.{Address, Action, ok, panic}

pub record Transfer : Type 0 where
  pub token : Address
  pub from : Address
  pub to : Address
  pub amount : ℤ

-- `decimals` of each token; and, after the transfers asked for so far, the balance of a holder in a
-- token, and whether a further transfer of this call succeeds. A token may refuse for any reason, so
-- also because `from` has not authorised the transfer.
pub record Tokens : Type 0 where
  pub decimals : Address → ℕ
  pub balance : List Transfer → Address → Address → ℤ
  pub accepts : List Transfer → Transfer → Bool

-- A transfer that fails traps the caller.
abbrev pub transfer : Tokens → Address → Address → Address → ℤ → Action (List Transfer) (Unit {0})
transfer tokens token from to amount done =
    let t : Transfer = record { token = token; from = from; to = to; amount = amount } in
    elim (tokens.accepts done t) [ true ↦ ok (tt, done ++ t ∷ []) | false ↦ panic ]
