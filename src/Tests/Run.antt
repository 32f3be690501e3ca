-- ===== src/Tests/Run.antt =====
-- The state that a call leaves, for the runs.
use stellar_invoice_finance.Shared.{Outcome, ok, err, panic}

abbrev pub after_call : {A S : Type 0} → S → Outcome (A × S) → S
after_call s (ok (a, s')) = s'
after_call s (err e) = s
after_call s panic = s
