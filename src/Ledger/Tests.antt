-- ===== src/Ledger/Tests.antt =====
-- A small ledger: tests of the code of backend/app/modules/ledger, and the theorems at it.
use Prim.Native.String.{String}
use engage_os.Base.{
  ℕ, ◌+◌, ◌-◌, ◌*◌, ◌/◌, ◌≤◌, ◌<◌, ◌≡◌, refl, Bool, true, false, none, some, [], ◌∷◌, arith,
}
use mathlib.Core.List.{Memᴰ}
use engage_os.Base.Int.{pos, negsuc, ◌+ℤ◌, ◌-ℤ◌, pos_part, neg_part}
use engage_os.Core.Exceptions.{Error, posting_error, period_not_open}
use engage_os.Core.Action.{ok, err}
use engage_os.Core.Money.{round_half_up, money, money_sum, IsRounded, magnitude, money-IsRounded}
use engage_os.Ledger.Models.{
  AccountType, AccountNormalSide, Account, entry_model, FiscalPeriod, PeriodStatus, JournalEntry,
  VoucherType, Ledger,
}
use engage_os.Ledger.Gates.{
  gates, check_period, check_accounts, check_account, check_amounts, check_amounts_line,
  check_balance,
}
use engage_os.Ledger.Posting.{
  stored, Posting, reversal_posting, mark_reversed, post, reverse, next_value, bump, code_of,
}
use engage_os.Ledger.Posting.Sound.{entry_for, with_entry, Outcome, post-Outcome}
use engage_os.Ledger.Posting.Invariant.{IsValid, post-IsValid, reverse-IsValid}
use engage_os.Ledger.Posting.Reversal.{ReverseOutcome, reverse-Outcome}
use engage_os.Ledger.Posting.Effects.{sum_column-post, net, net_lines, net-reverse, reverse_control}
use engage_os.Ledger.Periods.{set_status, close_period, reopen_period}
use engage_os.Ledger.Periods.Closing.{post-close_period, reopen_period-close_period}
use engage_os.Ledger.Balance.{sum_column, Calendar, build}
use engage_os.Ledger.Balance.Trial.{build-IsBalanced}
use engage_os.Ledger.Bridge.{
  Payload, debit_line, credit_line, invoice_created, run_handler, register_bridge_handlers,
  no_subscribers,
}
use engage_os.Ledger.Bridge.Valid.{IsAtomic, run_handler-IsAtomic, emit-handler}
use engage_os.Core.Events.{emit_event_async}
use engage_os.Core.Table.{update}

abbrev account : ℕ → String → AccountType → Bool → Account
account id code type is_control = record {
  id = id;
  code = code;
  type = type;
  normal_side = AccountNormalSide.debit;
  parent_id = none;
  is_control = is_control;
  is_postable = true;
  is_active = true;
}

-- Days are numbered so that a year has 400 of them.
abbrev year : ℕ → ℕ
year d = d / 400

abbrev january : FiscalPeriod
january = record {
  id = 7;
  fiscal_year = 2;
  month = 1;
  start_date = 832;
  end_date = 862;
  status = PeriodStatus.open_period;
}

abbrev book : Ledger
book = record {
  accounts =
      account 1 "1020" AccountType.asset false
      ∷ account 2 "4100" AccountType.revenue false
      ∷ account 3 "1100" AccountType.asset true
      ∷ [];
  periods = january ∷ [];
  entries = [];
  sequences = [];
  audit = [];
  next_id = 10;
}

abbrev cash_sale : Posting
cash_sale = record {
  request = record {
    grain = 1;
    posting_date = 840;
    voucher_type = VoucherType.cash_entry;
    lines = debit_line 1 (pos 250) ∷ credit_line 2 (pos 250) ∷ [];
    is_opening = false;
  };
  actor_id = some 5;
  source_type = none;
  source_id = none;
  is_system_generated = false;
}

abbrev sale_entry : JournalEntry
sale_entry = entry_for year cash_sale january book

abbrev posted_book : Ledger
posted_book = with_entry year cash_sale january book

-- The first cash voucher of year 2 is CP-2-00001.
sale_number : (sale_entry.entry_no.prefix ≡ "CP") × (sale_entry.entry_no.number ≡ 1)
unfolding next_value code_of
sale_number = (refl, refl)

post-cash_sale : post year cash_sale book ≡ (ok sale_entry, posted_book)
unfolding post gates check_period check_accounts check_account check_amounts check_amounts_line
    check_balance money_sum money round_half_up next_value bump ◌+ℤ◌ code_of
post-cash_sale = refl

-- Three debits of 33.33333 against a credit of 100 pass the gates, and are stored as 99.9999.
abbrev thirds : Posting
thirds = record cash_sale {
  request = record cash_sale.request {
    grain = 10;
    lines =
        debit_line 1 (pos 3333333)
        ∷ debit_line 1 (pos 3333333)
        ∷ debit_line 1 (pos 3333333)
        ∷ credit_line 2 (pos 10000000)
        ∷ [];
  };
}

thirds_posted : (post year thirds book).0 ≡ ok (entry_for year thirds january book)
unfolding post gates check_period check_accounts check_account check_amounts check_amounts_line
    check_balance money_sum money round_half_up next_value bump ◌+ℤ◌ code_of
thirds_posted = refl

thirds_stored :
    net 1 (post year thirds book).1.entries +ℤ net 2 (post year thirds book).1.entries
    ≡ pos 0 -ℤ pos 1
unfolding post gates check_period check_accounts check_account check_amounts check_amounts_line
    check_balance money_sum money round_half_up next_value bump ◌+ℤ◌ ◌-ℤ◌ code_of sum_column
thirds_stored = refl

-- The reversal of that sale, on the same day.
abbrev reversal_entry : JournalEntry
reversal_entry = entry_for year (reversal_posting sale_entry 5 none) january posted_book

abbrev reversed_book : Ledger
reversed_book =
    let t = with_entry year (reversal_posting sale_entry 5 none) january posted_book in
    record t { entries = update 10 (mark_reversed reversal_entry.id) t.entries }

reverse-cash_sale : reverse year 10 5 none posted_book ≡ (ok reversal_entry, reversed_book)
unfolding reverse post gates check_period check_accounts check_account check_amounts
    check_amounts_line check_balance money_sum money round_half_up next_value bump ◌+ℤ◌ code_of
reverse-cash_sale = refl

-- After sale and reversal the cash account stands at -250, and not at 0.
cash_after_reversal : net 1 reversed_book.entries ≡ pos 0 -ℤ pos 250
unfolding sum_column ◌+ℤ◌ ◌-ℤ◌ money round_half_up
cash_after_reversal = refl

book-IsValid : IsValid book
unfolding next_value
book-IsValid = record {
  balanced = tt;
  below = tt;
  numbered = record { below = tt; prefixes = tt; distinct = tt; gapless = λ v fy. refl };
}

post-Outcome_example : Outcome year cash_sale book (post year cash_sale book)
post-Outcome_example = post-Outcome year cash_sale book

post-IsValid_example : IsValid (post year cash_sale book).1
post-IsValid_example = post-IsValid year cash_sale book refl book-IsValid

posted_book-IsValid : IsValid posted_book
posted_book-IsValid = rw post-cash_sale at post-IsValid_example

reverse-Outcome_example :
    ReverseOutcome year 10 5 none posted_book (reverse year 10 5 none posted_book)
reverse-Outcome_example = reverse-Outcome year 10 5 none posted_book

reverse-IsValid_example : IsValid (reverse year 10 5 none posted_book).1
reverse-IsValid_example = reverse-IsValid year 10 5 none posted_book posted_book-IsValid

sum_column-post_example :
    sum_column (λ l. l.dr_base) 1 (some 832) none posted_book.entries
    ≡ sum_column (λ l. l.dr_base) 1 (some 832) none book.entries +ℤ (pos 250 +ℤ pos 0)
unfolding money round_half_up
sum_column-post_example =
    sum_column-post year cash_sale book posted_book sale_entry (λ l. l.dr_base) 1 (some 832) none
      post-cash_sale

net-reverse_example :
    net 1 reversed_book.entries
    ≡ net 1 posted_book.entries -ℤ net_lines 1 sale_entry.lines -ℤ net_lines 1 sale_entry.lines
net-reverse_example =
    net-reverse year 10 5 none posted_book reversed_book reversal_entry sale_entry 1
      reverse-cash_sale refl

-- An invoice, posted by the system into accounts receivable.
abbrev invoice_posting : Posting
invoice_posting = record {
  request = record {
    grain = 1;
    posting_date = 840;
    voucher_type = VoucherType.journal_entry;
    lines = debit_line 3 (pos 90) ∷ credit_line 2 (pos 90) ∷ [];
    is_opening = false;
  };
  actor_id = none;
  source_type = some "sales_invoice";
  source_id = some 44;
  is_system_generated = true;
}

abbrev invoiced_book : Ledger
invoiced_book = with_entry year invoice_posting january book

reverse_control_example :
    (x : Error) × (reverse year 10 5 none invoiced_book ≡ (err x, invoiced_book))
reverse_control_example =
    reverse_control year 10 5 none invoiced_book (entry_for year invoice_posting january book)
      (stored 1 (debit_line 3 (pos 90))) (account 3 "1100" AccountType.asset true) refl
      (Memᴰ.head refl) refl refl

post-close_period_example :
    let (r, s') = close_period 7 book in
    (r ≡ ok (set_status PeriodStatus.closed january))
    × (post year cash_sale s' ≡ (err (posting_error period_not_open), s'))
post-close_period_example = post-close_period year cash_sale january book refl refl

reopen_period-close_period_example :
    reopen_period 7 (close_period 7 book).1
    ≡ (ok (set_status PeriodStatus.open_period january), book)
reopen_period-close_period_example = reopen_period-close_period 7 january book refl refl

date_of : ℕ → ℕ → ℕ → ℕ
date_of y m d = y * 400 + m * 31 + d + 1

date_of_pos : (y m d : ℕ) → 0 < date_of y m d
unfolding date_of
date_of_pos y m d = omega arith

date_of_previous : (m d : ℕ) → 1 ≤ year d → m ≤ 12 → date_of (year d - 1) m 1 ≤ d
unfolding date_of
date_of_previous m d h k = omega arith

abbrev calendar : Calendar
calendar = record {
  year = year;
  date = date_of;
  date_pos = date_of_pos;
  previous_year = date_of_previous;
}

build-IsBalanced_example :
    ((build calendar (some 4) 845 posted_book).total_dr
      ≡ (build calendar (some 4) 845 posted_book).total_cr)
    × ((build calendar (some 4) 845 posted_book).difference ≡ pos 0)
build-IsBalanced_example =
    build-IsBalanced calendar (some 4) 845 posted_book (omega arith) (omega arith)
      posted_book-IsValid.balanced ((refl, (refl, tt)), tt)

abbrev invoice_payload : Payload
invoice_payload = record {
  session = true;
  posting_date = some 840;
  actor_id = some 5;
  total_value = none;
  cogs_total = none;
  total = some (pos 90);
  amount = none;
  grn_id = none;
  dispatch_id = none;
  invoice_id = some 44;
  adjustment_id = none;
  customer_id = some 9;
}

run_handler-IsAtomic_example : IsAtomic (run_handler year 840 invoice_created invoice_payload)
run_handler-IsAtomic_example = run_handler-IsAtomic year 840 invoice_created invoice_payload

emit-handler_example :
    emit_event_async
      (run_handler year 840)
      (register_bridge_handlers no_subscribers)
      "finance.invoice_created"
      invoice_payload
      book
    ≡ (ok tt, (run_handler year 840 invoice_created invoice_payload book).1)
emit-handler_example = emit-handler year 840 invoice_created invoice_payload book

-- 0.00005 rounds up to 0.0001, and -0.00005 to -0.0001.
money_tie : (money 10 (pos 5) ≡ pos 1) × (money 10 (negsuc 4) ≡ negsuc 0)
unfolding money round_half_up
money_tie = (refl, refl)

money-IsRounded_example :
    IsRounded 100 1250 (magnitude (money 100 (negsuc 1249)))
    × (◌≡◌ {A = ℕ} 1250 0 → neg_part (money 100 (negsuc 1249)) ≡ 0)
    × (◌≡◌ {A = ℕ} 0 0 → pos_part (money 100 (negsuc 1249)) ≡ 0)
money-IsRounded_example = money-IsRounded 100 (negsuc 1249) (omega arith)
