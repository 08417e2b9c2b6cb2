-- ===== src/Ledger/Posting/Sound.antt =====
-- `PostingService.post` (posting.py) on both of its outcomes.
use engage_os.Base.{ℕ, ◌+◌, ◌≡◌, refl, inl, inr, [], ◌∷◌, ◌++◌, sym, ◌∙◌}
use engage_os.Core.Exceptions.{Error}
use engage_os.Core.Action.{Result, ok, err, Result-cases}
use engage_os.Ledger.Models.{FiscalPeriod, EntryNo, JournalEntry, Ledger}
use engage_os.Ledger.Gates.{gates}
use engage_os.Ledger.Gates.Passes.{Passes, gates_iff}
use engage_os.Ledger.Posting.{Posting, prefix_of, next_value, bump, new_entry, audit_row, post}

-- The number that is allocated to a posting.
abbrev pub number_for : (ℕ → ℕ) → Posting → Ledger → EntryNo
number_for year p s = record {
  prefix = prefix_of p.request.voucher_type;
  fiscal_year = year p.request.posting_date;
  number = next_value p.request.voucher_type (year p.request.posting_date) s.sequences;
}

abbrev pub entry_for : (ℕ → ℕ) → Posting → FiscalPeriod → Ledger → JournalEntry
entry_for year p period s = new_entry p period (number_for year p s) s.next_id

-- The tables behind a successful posting: one entry, one audit row, one number more.
abbrev pub with_entry : (ℕ → ℕ) → Posting → FiscalPeriod → Ledger → Ledger
with_entry year p period s = record s {
  entries = s.entries ++ entry_for year p period s ∷ [];
  audit = s.audit ++ audit_row p (entry_for year p period s) ∷ [];
  next_id = s.next_id + 1;
  sequences = bump p.request.voucher_type (year p.request.posting_date) s.sequences;
}

err≢ok : {A : Type 0} {e : Error} {a : A} → err e ≡ ok a → ⊥
err≢ok h = cc

-- What a call of `post` has done, by how it ended.
abbrev pub Outcome : (ℕ → ℕ) → Posting → Ledger → Result JournalEntry × Ledger → Type 0
Outcome year p s (ok e, s') =
    (period : FiscalPeriod) × Passes s p.request p.is_system_generated period
    × (e ≡ entry_for year p period s)
    × (s' ≡ with_entry year p period s)
Outcome year p s (err x, s') =
    (s' ≡ s) × ((period : FiscalPeriod) → ¬ Passes s p.request p.is_system_generated period)

-- A posting either meets every rule of the ledger and is written with the next number of its
-- sequence and one audit row, or breaks a rule, raises, and writes nothing.
pub post-Outcome : (year : ℕ → ℕ) (p : Posting) (s : Ledger) → Outcome year p s (post year p s)
unfolding post
post-Outcome year p s = elim (Result-cases (gates s p.request p.is_system_generated)) [
  | inl (period, e) ↦
      rw e (period, (gates_iff s p.request p.is_system_generated period).0 e, refl, refl)
  | inr (x, e) ↦
      rw e (
        refl,
        λ period h. err≢ok (sym e ∙ (gates_iff s p.request p.is_system_generated period).1 h),
      )
]
