-- ===== src/Ledger/Periods.antt =====
-- backend/app/modules/ledger/service.py, `PeriodService`: closing and reopening a fiscal period.
-- The emitted events have no subscriber that writes, and are left out.
pub mod Closing
use engage_os.Base.{ℕ, ◌≡◌, Bool, true, false, not}
use engage_os.Core.Exceptions.{not_found, validation_error}
use engage_os.Core.Action.{⊤, Action, gets, or_raise, raise_if, modify, pure, ◌>>=◌, ◌>>◌}
use engage_os.Core.Table.{get, update}
use engage_os.Ledger.Models.{FiscalPeriod, period_model, PeriodStatus, Ledger}

abbrev pub is_closed : PeriodStatus → Bool
is_closed PeriodStatus.open_period = false
is_closed PeriodStatus.closed = true
is_closed PeriodStatus.locked = false

abbrev pub is_locked : PeriodStatus → Bool
is_locked PeriodStatus.open_period = false
is_locked PeriodStatus.closed = false
is_locked PeriodStatus.locked = true

abbrev pub set_status : PeriodStatus → FiscalPeriod → FiscalPeriod
set_status st p = record p { status = st }

abbrev pub put_status : ℕ → PeriodStatus → Action Ledger ⊤
put_status period_id st =
    modify (λ s. record s { periods = update period_id (set_status st) s.periods })

-- `PeriodService.close_period`
unfoldable pub close_period : ℕ → Action Ledger FiscalPeriod
close_period period_id = do
  found ← gets (λ (s : Ledger). get period_id s.periods)
  period ← or_raise found not_found
  raise_if (is_closed period.status) validation_error
  raise_if (is_locked period.status) validation_error
  put_status period_id PeriodStatus.closed
  pure (set_status PeriodStatus.closed period)

-- `PeriodService.reopen_period`
unfoldable pub reopen_period : ℕ → Action Ledger FiscalPeriod
reopen_period period_id = do
  found ← gets (λ (s : Ledger). get period_id s.periods)
  period ← or_raise found not_found
  raise_if (not (is_closed period.status)) validation_error
  put_status period_id PeriodStatus.open_period
  pure (set_status PeriodStatus.open_period period)
