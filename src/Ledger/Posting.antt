-- ===== src/Ledger/Posting.antt =====
-- backend/app/modules/ledger/posting.py: `PostingService.post`, `PostingService.reverse` and the
-- number sequences. The emitted events have no subscriber that writes, and are left out.
pub mod Sound
pub mod Numbers
pub mod Invariant
pub mod Reversal
pub mod Effects
use Prim.Native.String.{String}
use engage_os.Base.{
  ℕ, suc, ◌+◌, ◌≡◌, Bool, true, false, not, ◌&&◌, Option, none, some, List, [], ◌∷◌, ◌++◌, map,
  ◌==◌, if◌then◌else◌,
}
use engage_os.Base.Int.{pos}
use engage_os.Core.Exceptions.{
  posting_error, entry_not_found, cannot_reverse_unposted, already_reversed,
}
use engage_os.Core.Action.{⊤, Action, ok, pure, raise_if, or_raise, gets, modify, lift, ◌>>=◌, ◌>>◌}
use engage_os.Core.Money.{Money, money, money_sum}
use engage_os.Core.Table.{get, update}
use engage_os.Ledger.Models.{
  VoucherType, journal_entry, bank_entry, cash_entry, contra_entry, credit_note, debit_note,
  write_off, opening_entry, exchange_gain_loss, JournalStatus, FiscalPeriod, JournalLine,
  JournalLineRequest, EntryNo, JournalEntry, entry_model, NumberSequence, ActorType, AuditRow,
  Ledger, JournalEntryCreateRequest,
}
use engage_os.Ledger.Gates.{gates}

-- The `prefix` dict of `_next_entry_no`.
abbrev pub prefix_of : VoucherType → String
prefix_of journal_entry = "JV"
prefix_of bank_entry = "BP"
prefix_of cash_entry = "CP"
prefix_of contra_entry = "CNT"
prefix_of credit_note = "CRN"
prefix_of debit_note = "DBN"
prefix_of write_off = "WO"
prefix_of opening_entry = "OP"
prefix_of exchange_gain_loss = "FX"

-- Voucher types as numbers, to compare them.
unfoldable pub code_of : VoucherType → ℕ
code_of journal_entry = 0
code_of bank_entry = 1
code_of cash_entry = 2
code_of contra_entry = 3
code_of credit_note = 4
code_of debit_note = 5
code_of write_off = 6
code_of opening_entry = 7
code_of exchange_gain_loss = 8

-- `WHERE doc_type = :doc_type AND fiscal_year = :fy`
abbrev pub is_sequence : VoucherType → ℕ → NumberSequence → Bool
is_sequence v fy q = code_of q.doc_type == code_of v && q.fiscal_year == fy

-- `_next_entry_no`: the value of the row and the row moved on, or 1 and a new row at 2.
unfoldable pub next_value : VoucherType → ℕ → List NumberSequence → ℕ
next_value v fy [] = 1
next_value v fy (q ∷ qs) = if is_sequence v fy q then q.next_value else next_value v fy qs

unfoldable pub bump : VoucherType → ℕ → List NumberSequence → List NumberSequence
bump v fy [] = record { doc_type = v; fiscal_year = fy; next_value = 2 } ∷ []
bump v fy (q ∷ qs) =
    if is_sequence v fy q then record q { next_value = q.next_value + 1 } ∷ qs else q ∷ bump v fy qs

abbrev pub next_entry_no : (ℕ → ℕ) → VoucherType → ℕ → Action Ledger EntryNo
next_entry_no year v posting_date s =
    let fy = year posting_date in
    (
      ok (record { prefix = prefix_of v; fiscal_year = fy; number = next_value v fy s.sequences }),
      record s { sequences = bump v fy s.sequences },
    )

-- A request with the other arguments of `post`.
pub record Posting : Type 0 where
  pub request : JournalEntryCreateRequest
  pub actor_id : Option ℕ
  pub source_type : Option String
  pub source_id : Option ℕ
  pub is_system_generated : Bool

abbrev pub actor_type : Option ℕ → ActorType
actor_type none = ActorType.system
actor_type (some a) = ActorType.agent

-- A requested line as the NUMERIC(19,4) columns keep it, which round a tie away from zero.
abbrev pub stored : ℕ → JournalLineRequest → JournalLine
stored grain l = record {
  account_id = l.account_id;
  dr = money grain l.dr;
  cr = money grain l.cr;
  dr_base = money grain l.dr_base;
  cr_base = money grain l.cr_base;
  currency_code = l.currency_code;
  fx_rate = l.fx_rate;
  party_type = l.party_type;
  party_id = l.party_id;
}

-- The rows that `post` writes once the gates have passed.
abbrev pub new_entry : Posting → FiscalPeriod → EntryNo → ℕ → JournalEntry
new_entry p period entry_no id = record {
  id = id;
  entry_no = entry_no;
  posting_date = p.request.posting_date;
  period_id = period.id;
  voucher_type = p.request.voucher_type;
  source_type = p.source_type;
  source_id = p.source_id;
  status = JournalStatus.posted;
  reversed_by_id = none;
  is_opening = p.request.is_opening;
  is_system_generated = p.is_system_generated;
  lines = map (stored p.request.grain) p.request.lines;
}

abbrev pub audit_row : Posting → JournalEntry → AuditRow
audit_row p entry = record {
  actor_type = actor_type p.actor_id;
  actor_id = p.actor_id;
  action = "ledger.entry_posted";
  entity_id = entry.id;
  total_dr = money_sum p.request.grain (map (λ l. l.dr_base) p.request.lines);
  total_cr = money_sum p.request.grain (map (λ l. l.cr_base) p.request.lines);
}

abbrev pub add_entry : Posting → FiscalPeriod → EntryNo → Action Ledger JournalEntry
add_entry p period entry_no s =
    let entry = new_entry p period entry_no s.next_id in
    (
      ok entry,
      record s {
        entries = s.entries ++ entry ∷ [];
        audit = s.audit ++ audit_row p entry ∷ [];
        next_id = s.next_id + 1;
      },
    )

-- `PostingService.post`; `year` is `date.year`.
unfoldable pub post : (ℕ → ℕ) → Posting → Action Ledger JournalEntry
post year p = do
  s ← gets (λ (s : Ledger). s)
  period ← lift (gates s p.request p.is_system_generated)
  entry_no ← next_entry_no year p.request.voucher_type p.request.posting_date
  add_entry p period entry_no

abbrev pub is_posted : JournalStatus → Bool
is_posted JournalStatus.draft = false
is_posted JournalStatus.posted = true
is_posted JournalStatus.reversed = false

abbrev pub is_some : {A : Type 0} → Option A → Bool
is_some none = false
is_some (some a) = true

-- The mirror of a line, and of an entry; stored amounts are on the grid.
abbrev pub mirror : JournalLine → JournalLineRequest
mirror l = record {
  account_id = l.account_id;
  dr = l.cr;
  cr = l.dr;
  dr_base = l.cr_base;
  cr_base = l.dr_base;
  currency_code = l.currency_code;
  fx_rate = l.fx_rate;
  party_type = l.party_type;
  party_id = l.party_id;
}

abbrev pub reversal_posting : JournalEntry → ℕ → Option ℕ → Posting
reversal_posting entry actor_id reversal_date = record {
  request = record {
    grain = 1;
    posting_date = elim reversal_date [ none ↦ entry.posting_date | some d ↦ d ];
    voucher_type = entry.voucher_type;
    lines = map mirror entry.lines;
    is_opening = false;
  };
  actor_id = some actor_id;
  source_type = some "journal_entry";
  source_id = some entry.id;
  is_system_generated = false;
}

abbrev pub mark_reversed : ℕ → JournalEntry → JournalEntry
mark_reversed by e = record e { status = JournalStatus.reversed; reversed_by_id = some by }

-- `PostingService.reverse`
unfoldable pub reverse : (ℕ → ℕ) → ℕ → ℕ → Option ℕ → Action Ledger JournalEntry
reverse year entry_id actor_id reversal_date = do
  found ← gets (λ (s : Ledger). get entry_id s.entries)
  entry ← or_raise found (posting_error entry_not_found)
  raise_if (not (is_posted entry.status)) (posting_error cannot_reverse_unposted)
  raise_if (is_some entry.reversed_by_id) (posting_error already_reversed)
  reversal ← post year (reversal_posting entry actor_id reversal_date)
  modify (λ s. record s { entries = update entry_id (mark_reversed reversal.id) s.entries })
  pure reversal
