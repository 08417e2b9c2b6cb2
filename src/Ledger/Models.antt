-- ===== src/Ledger/Models.antt =====
-- backend/app/modules/ledger/constants.py and models.py: the ledger's enumerations and tables.
-- Ids are numbers, drawn from one counter; a date is its day number. Names, descriptions, remarks,
-- cheque data and timestamps are left out: nothing branches on them. The lines of an entry are kept
-- in the entry (the `lines` relationship) and not in a table of their own.
use Prim.Native.String.{String}
use engage_os.Base.{ℕ, Bool, Option, List}
use engage_os.Base.Int.{ℤ}
use engage_os.Core.Money.{Money}
use engage_os.Core.Table.{Model}

pub data AccountType : Type 0 where
  asset liability equity revenue cogs opex : AccountType

pub data AccountNormalSide : Type 0 where
  debit credit : AccountNormalSide

pub data JournalStatus : Type 0 where
  draft posted reversed : JournalStatus

pub data VoucherType : Type 0 where
  journal_entry bank_entry cash_entry contra_entry credit_note debit_note : VoucherType
  write_off opening_entry exchange_gain_loss : VoucherType

pub data PeriodStatus : Type 0 where
  open_period closed locked : PeriodStatus

pub data PartyType : Type 0 where
  customer supplier : PartyType

-- `NORMAL_SIDE_MAP`
abbrev pub normal_side_of : AccountType → AccountNormalSide
normal_side_of AccountType.asset = AccountNormalSide.debit
normal_side_of AccountType.liability = AccountNormalSide.credit
normal_side_of AccountType.equity = AccountNormalSide.credit
normal_side_of AccountType.revenue = AccountNormalSide.credit
normal_side_of AccountType.cogs = AccountNormalSide.debit
normal_side_of AccountType.opex = AccountNormalSide.debit

pub record Account : Type 0 where
  pub id : ℕ
  pub code : String
  pub type : AccountType
  pub normal_side : AccountNormalSide
  pub parent_id : Option ℕ
  pub is_control : Bool
  pub is_postable : Bool
  pub is_active : Bool

pub record FiscalPeriod : Type 0 where
  pub id : ℕ
  pub fiscal_year : ℕ
  pub month : ℕ
  pub start_date : ℕ
  pub end_date : ℕ
  pub status : PeriodStatus

-- A stored line; its amounts are NUMERIC(19,4).
pub record JournalLine : Type 0 where
  pub account_id : ℕ
  pub dr : Money
  pub cr : Money
  pub dr_base : Money
  pub cr_base : Money
  pub currency_code : Option String
  pub fx_rate : Option ℤ  -- in units of 10^-8
  pub party_type : Option PartyType
  pub party_id : Option ℕ

-- The text `{prefix}-{fiscal_year}-{number:05d}`, by its parts.
pub record EntryNo : Type 0 where
  pub prefix : String
  pub fiscal_year : ℕ
  pub number : ℕ

pub record JournalEntry : Type 0 where
  pub id : ℕ
  pub entry_no : EntryNo
  pub posting_date : ℕ
  pub period_id : ℕ
  pub voucher_type : VoucherType
  pub source_type : Option String
  pub source_id : Option ℕ
  pub status : JournalStatus
  pub reversed_by_id : Option ℕ
  pub is_opening : Bool
  pub is_system_generated : Bool
  pub lines : List JournalLine

pub record NumberSequence : Type 0 where
  pub doc_type : VoucherType
  pub fiscal_year : ℕ
  pub next_value : ℕ

-- backend/app/modules/audit: the row that posting appends.
pub data ActorType : Type 0 where
  agent system : ActorType

pub record AuditRow : Type 0 where
  pub actor_type : ActorType
  pub actor_id : Option ℕ
  pub action : String
  pub entity_id : ℕ
  pub total_dr : Money
  pub total_cr : Money

-- The tables that a session sees.
pub record Ledger : Type 0 where
  pub accounts : List Account
  pub periods : List FiscalPeriod
  pub entries : List JournalEntry
  pub sequences : List NumberSequence
  pub audit : List AuditRow
  pub next_id : ℕ

instance abbrev pub account_model : Model Account
account_model = record { pk = λ a. a.id }

instance abbrev pub period_model : Model FiscalPeriod
period_model = record { pk = λ p. p.id }

instance abbrev pub entry_model : Model JournalEntry
entry_model = record { pk = λ e. e.id }

-- `JournalLineRequest`: its amounts are Decimals of any precision, in the unit of the request.
pub record JournalLineRequest : Type 0 where
  pub account_id : ℕ
  pub dr : ℤ
  pub cr : ℤ
  pub dr_base : ℤ
  pub cr_base : ℤ
  pub currency_code : Option String
  pub fx_rate : Option ℤ
  pub party_type : Option PartyType
  pub party_id : Option ℕ

-- `JournalEntryCreateRequest`; `grain` units of its amounts make one ten-thousandth.
pub record JournalEntryCreateRequest : Type 0 where
  pub grain : ℕ
  pub posting_date : ℕ
  pub voucher_type : VoucherType
  pub lines : List JournalLineRequest
  pub is_opening : Bool
