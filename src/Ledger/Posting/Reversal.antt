-- ===== src/Ledger/Posting/Reversal.antt =====
-- `PostingService.reverse` (posting.py) on all of its outcomes.
use engage_os.Base.{
  ℕ, ◌≡◌, ◌≢◌, refl, ap, ◌⊎◌, List, [], ◌∷◌, map, true, false, Option, none, some, arith, inl, inr,
  Option-cases, Bool-cases,
}
use engage_os.Core.Action.{Result, ok, err, Action, ◌>>=◌, ◌>>◌, modify, pure}
use engage_os.Core.Money.{money_one}
use engage_os.Core.Table.{get, update, get_pk, get-append, get-update_self}
use engage_os.Ledger.Models.{
  JournalLine, JournalEntry, entry_model, FiscalPeriod, Ledger, JournalStatus,
}
use engage_os.Ledger.Gates.Passes.{Passes}
use engage_os.Ledger.Posting.{
  is_posted, is_some, stored, mirror, mark_reversed, reversal_posting, post, reverse,
}
use engage_os.Ledger.Posting.Sound.{entry_for, with_entry, Outcome, post-Outcome}

-- Lines with the two sides changed over, on the same accounts.
abbrev pub IsSwapped : JournalLine → JournalLine → Type 0
IsSwapped l m =
    (m.account_id ≡ l.account_id)
    × (m.dr ≡ l.cr)
    × (m.cr ≡ l.dr)
    × (m.dr_base ≡ l.cr_base)
    × (m.cr_base ≡ l.dr_base)

abbrev pub AreSwapped : List JournalLine → List JournalLine → Type 0
AreSwapped [] [] = Unit
AreSwapped [] (m ∷ ms) = ⊥
AreSwapped (l ∷ ls) [] = ⊥
AreSwapped (l ∷ ls) (m ∷ ms) = IsSwapped l m × AreSwapped ls ms

mirror-AreSwapped : (ls : List JournalLine) → AreSwapped ls (map (stored 1) (map mirror ls))
mirror-AreSwapped [] = tt
mirror-AreSwapped (l ∷ ls) = (
  (refl, money_one l.cr, money_one l.dr, money_one l.cr_base, money_one l.dr_base),
  mirror-AreSwapped ls,
)

-- The original behind its reversal.
abbrev pub IsReversedBy : ℕ → JournalEntry → Ledger → ℕ → Type 0
IsReversedBy entry_id entry s' by =
    get entry_id s'.entries
    ≡ some (record entry { status = JournalStatus.reversed; reversed_by_id = some by })

-- The posted reversal beside its original.
pub record IsMirrorOf (entry_id : ℕ) (entry : JournalEntry) (date : Option ℕ) (s' : Ledger)
    (r : JournalEntry) : Type 0 where
  pub lines : AreSwapped entry.lines r.lines
  pub posting_date : r.posting_date ≡ elim date [ none ↦ entry.posting_date | some d ↦ d ]
  pub source_id : r.source_id ≡ some entry_id
  pub original : IsReversedBy entry_id entry s' r.id

-- Why an entry is not reversed: it is not there, not posted, already reversed, or its mirror meets no
-- open period under the rules.
abbrev pub IsRefused : ℕ → ℕ → Option ℕ → Ledger → Type 0
IsRefused entry_id actor_id date s =
    (get entry_id s.entries ≡ none)
    ⊎ ((entry : JournalEntry) × (get entry_id s.entries ≡ some entry)
        × ((entry.status ≢ JournalStatus.posted)
            ⊎ ((entry.reversed_by_id ≢ none)
                ⊎ ((period : FiscalPeriod)
                    → ¬ Passes s (reversal_posting entry actor_id date).request false period))))

-- What a call of `reverse` has done, by how it ended.
abbrev pub ReverseOutcome :
    (ℕ → ℕ) → ℕ → ℕ → Option ℕ → Ledger → Result JournalEntry × Ledger → Type 0
ReverseOutcome year entry_id actor_id date s (ok r, s') =
    (entry : JournalEntry) × (get entry_id s.entries ≡ some entry)
    × (entry.status ≡ JournalStatus.posted)
    × (entry.reversed_by_id ≡ none)
    × (period : FiscalPeriod) × Passes s (reversal_posting entry actor_id date).request false period
    × (r ≡ entry_for year (reversal_posting entry actor_id date) period s)
    × (s'
        ≡ let t = with_entry year (reversal_posting entry actor_id date) period s in
          record t { entries = update entry_id (mark_reversed r.id) t.entries })
    × IsMirrorOf entry_id entry date s' r
ReverseOutcome year entry_id actor_id date s (err x, s') =
    (s' ≡ s) × IsRefused entry_id actor_id date s

abbrev finish : ℕ → Action Ledger JournalEntry → Action Ledger JournalEntry
finish entry_id m = m >>= λ reversal.
    modify (λ s. record s { entries = update entry_id (mark_reversed reversal.id) s.entries })
    >> pure reversal

finish_lem :
    (year : ℕ → ℕ) (entry_id actor_id : ℕ) (date : Option ℕ) (s : Ledger) (entry : JournalEntry)
    (r : Result JournalEntry) (s' : Ledger)
    → get entry_id s.entries ≡ some entry
    → entry.status ≡ JournalStatus.posted
    → entry.reversed_by_id ≡ none
    → Outcome year (reversal_posting entry actor_id date) s (r, s')
    → ReverseOutcome year entry_id actor_id date s (finish entry_id (λ _. (r, s')) s)
finish_lem year entry_id actor_id date s entry (ok r) s' found posted fresh
      (period, passes, same, state) =
    let p = reversal_posting entry actor_id date in
    (
      entry,
      found,
      posted,
      fresh,
      period,
      passes,
      same,
      rw state refl,
      record {
        lines = rw same (mirror-AreSwapped entry.lines);
        posting_date = rw same refl;
        source_id = rw same (ap some (get_pk entry_id s.entries found));
        original = rw state (
            get-update_self entry_id (mark_reversed r.id) (with_entry year p period s).entries
              (λ e. refl) (get-append entry_id s.entries (entry_for year p period s ∷ []) found));
      },
    )
finish_lem year entry_id actor_id date s entry (err x) s' found posted fresh (state, broken) =
    (state, inr (entry, found, inr (inr broken)))

status_posted : (st : JournalStatus) → is_posted st ≡ true → st ≡ JournalStatus.posted
status_posted st h = ground arith

status_not : (st : JournalStatus) → is_posted st ≡ false → st ≢ JournalStatus.posted
status_not JournalStatus.posted h e = cc
status_not JournalStatus.draft h e = cc
status_not JournalStatus.reversed h e = cc

some_not : {A : Type 0} (o : Option A) → is_some o ≡ true → o ≢ none
some_not none h e = cc
some_not (some a) h e = cc

not_some : {A : Type 0} (o : Option A) → is_some o ≡ false → o ≡ none
not_some o h = ground arith

-- A reversal finds a posted entry that has not been reversed, posts, as a manual entry that passes
-- every gate, lines on the same accounts with debit and credit changed over, on the given date or else
-- that of the entry, and marks the original as reversed by it; or it raises and changes nothing, which
-- it does only where the entry is not there, is not posted, has been reversed, or its mirror breaks a
-- rule.
pub reverse-Outcome :
    (year : ℕ → ℕ) (entry_id actor_id : ℕ) (date : Option ℕ) (s : Ledger)
    → ReverseOutcome year entry_id actor_id date s (reverse year entry_id actor_id date s)
unfolding reverse
reverse-Outcome year entry_id actor_id date s = elim (Option-cases (get entry_id s.entries)) [
  | inl missing ↦ rw missing (refl, inl missing)
  | inr (entry, found) ↦ elim (Bool-cases (is_posted entry.status)) [
    | inl p ↦ elim (Bool-cases (is_some entry.reversed_by_id)) [
      | inl old ↦ rw (found, p, old) (refl, inr (entry, found, inr (inl (some_not _ old))))
      | inr fresh ↦
          let (r, s') = post year (reversal_posting entry actor_id date) s in
          rw (found, p, fresh)
            (finish_lem year entry_id actor_id date s entry r s' found (status_posted _ p)
              (not_some _ fresh) (post-Outcome year (reversal_posting entry actor_id date) s))
    ]
    | inr draft ↦ rw (found, draft) (refl, inr (entry, found, inl (status_not _ draft)))
  ]
]
