-- ===== src/Shared/Audit/Ring.antt =====
-- The ring buffer of the audit logs: what an append keeps, and what a page shows.
use stellar_invoice_finance.Prelude.{
  ◌∙◌, lt→ltb, ℕ, ◌+◌, ◌%◌, ◌≤◌, ◌<◌, ◌≡◌, refl, List, [], ◌∷◌, ◌-◌, ltb, leb, ◌&&◌, ◌^◌, zero, suc,
  if◌then◌else◌, inl, inr, ◌*◌, Bool, Bool-cases, Option, none, some, arith, update,
}
use native.Mathlib.Nat.{mul-le-mul, le-pred_of_lt}
use stellar_invoice_finance.Shared.Host.{Env, Address, ok, panic}
use stellar_invoice_finance.Shared.Audit.{
  AuditLog, AuditSource, AdminAuditEntry, AdminActionType, append_entry, audit_entries_from,
  page_of, clamp_page_size, head_of, count,
}

abbrev pub HasSequence : Option AdminAuditEntry → ℕ → Type 0
HasSequence none k = ⊥
HasSequence (some e) k = e.sequence ≡ k

-- The head follows the total round the ring, and each of the last 500 actions is where it belongs.
pub record IsRing (head count : ℕ) (entry : ℕ → Option AdminAuditEntry) : Type 0 where
  pub at_head : head ≡ count % 500
  pub kept : (k : ℕ) → k < count → count ≤ k + 500 → HasSequence (entry (k % 500)) k

abbrev pub IsAuditLog : AuditLog → Type 0
IsAuditLog s = IsRing (head_of s) (count s) s.audit_entry

-- The state after an entry is written.
abbrev pub appended : AuditSource → Env → Address → AdminActionType → AuditLog → AuditLog
appended source env actor a s = record s {
  audit_entry = update s.audit_entry (head_of s) (
      some (record {
        sequence = count s;
        timestamp = env.now;
        actor = actor;
        action = a;
        source = source;
      }));
  audit_log_head = some ((head_of s + 1) % 500);
  audit_log_total = some (count s + 1);
}

-- It panics where a counter does not fit 64 bits.
abbrev pub has_room : AuditLog → Bool
has_room s = ltb (head_of s + 1) (2 ^ 64) && ltb (count s + 1) (2 ^ 64)

pub append_entry_lem :
    (source : AuditSource) (env : Env) (actor : Address) (a : AdminActionType) (s : AuditLog)
    → append_entry source env actor a s
      ≡ (if has_room s then ok (tt, appended source env actor a s) else panic)
unfolding append_entry
append_entry_lem source env actor a s = ground arith

append_slot :
    (s : AuditLog) (v : IsAuditLog s) (e : AdminAuditEntry) (k : ℕ)
    → e.sequence ≡ count s
    → k < count s + 1
    → count s + 1 ≤ k + 500
    → HasSequence (update s.audit_entry (head_of s) (some e) (k % 500)) k
append_slot s v e k q h l = ground (arith, v.at_head, v.kept k)

pub appended-IsAuditLog :
    (source : AuditSource) (env : Env) (actor : Address) (a : AdminActionType) (s : AuditLog)
    → IsAuditLog s
    → IsAuditLog (appended source env actor a s)
appended-IsAuditLog source env actor a s v = record {
  at_head = omega (arith, v.at_head);
  kept = λ k h l. append_slot s v _ k refl h l;
}

abbrev pub sequence_at : List AdminAuditEntry → ℕ → Option ℕ
sequence_at [] i = none
sequence_at (e ∷ es) zero = some e.sequence
sequence_at (e ∷ es) (suc i) = sequence_at es i

slot_index :
    (s : AuditLog)
    → IsAuditLog s
    → (offset : ℕ) → offset < count s
    → offset < 500
    → (head_of s + 500 - 1 - offset) % 500 ≡ (count s - 1 - offset) % 500
slot_index s v offset h l = omega (arith, v.at_head)

HasSequence-some :
    (o : Option AdminAuditEntry) (k : ℕ)
    → HasSequence o k
    → (e : AdminAuditEntry) × (o ≡ some e) × (e.sequence ≡ k)
HasSequence-some none k h = absurd h
HasSequence-some (some e) k h = (e, refl, h)

slot_found :
    (s : AuditLog)
    → IsAuditLog s
    → (offset : ℕ) → offset < count s
    → offset < 500
    → (e : AdminAuditEntry) × (s.audit_entry ((head_of s + 500 - 1 - offset) % 500) ≡ some e)
      × (e.sequence ≡ count s - 1 - offset)
slot_found s v offset h l =
    rw (slot_index s v offset h l)
      (HasSequence-some _ _ (v.kept (count s - 1 - offset) (omega arith) (omega arith)))

-- With all slots filled the loop lists the entries from `offset` on, newest first.
audit_entries_from-sequence_at :
    (s : AuditLog) (v : IsAuditLog s) (stored offset rounds i : ℕ)
    → stored ≤ count s
    → stored ≤ 500
    → sequence_at (audit_entries_from s.audit_entry (head_of s) stored offset rounds) i ≡ (
        if ltb i rounds && ltb (offset + i) stored then some (count s - 1 - (offset + i)) else none)
unfolding audit_entries_from
audit_entries_from-sequence_at s v stored offset zero i h l = ground arith
audit_entries_from-sequence_at s v stored offset (suc rounds) zero h l =
    elim (Bool-cases (leb stored offset)) [
      | inl past ↦ rw past (ground arith)
      | inr inside ↦
          let found = slot_found s v offset (ground arith) (ground arith) in
          rw (inside, found.1) (ground (arith, found.2))
    ]
audit_entries_from-sequence_at s v stored offset (suc rounds) (suc i) h l =
    elim (Bool-cases (leb stored offset)) [
      | inl past ↦ rw past (ground arith)
      | inr inside ↦
          let found = slot_found s v offset (ground arith) (ground arith) in
          rw (inside, found.1)
            (ground (arith, audit_entries_from-sequence_at s v stored (offset + 1) rounds i h l))
    ]

product_fits : (page size : ℕ) → page < 2 ^ 32 → size ≤ 50 → page * size < 2 ^ 64
product_fits page size h l = omega (arith, mul-le-mul (le-pred_of_lt h) l)

clamp_page_size_bounds : (n : ℕ) → clamp_page_size n ≤ 50
clamp_page_size_bounds n = ground arith

-- The bound `stored` of the loop, as the two bounds that it is the smaller of.
stored_test :
    (t skip size i : ℕ)
    → (if ltb i size && ltb (skip + i) (if leb t 500 then t else 500)
        then some (t - 1 - (skip + i))
        else none)
      ≡ (if ltb i size && (ltb (skip + i) t && ltb (skip + i) 500)
          then some (t - 1 - (skip + i))
          else none)
stored_test t skip size i = ground arith

-- A page lists the entries from its first one on, newest first, and no others.
pub page_of-sequence_at :
    (s : AuditLog)
    → IsAuditLog s
    → (page page_size i : ℕ) → page < 2 ^ 32
    → page_size < 2 ^ 32
    → sequence_at (page_of s page page_size) i ≡ (
        let size = clamp_page_size page_size in
        let k = page * size + i in
        if ltb i size && (ltb k (count s) && ltb k 500) then some (count s - 1 - k) else none)
unfolding page_of
page_of-sequence_at s v page page_size i hp hs =
    let size = clamp_page_size page_size in
    let fits = product_fits page size hp (clamp_page_size_bounds page_size) in
    rw (lt→ltb _ _ fits) (
      audit_entries_from-sequence_at s v _ (page * size) size i (ground arith) (ground arith)
      ∙ stored_test (count s) (page * size) size i)
