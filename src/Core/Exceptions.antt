-- ===== src/Core/Exceptions.antt =====
-- backend/app/core/exceptions.py: what a service can raise. Messages are left out. `multiple_rows`
-- is SQLAlchemy's MultipleResultsFound, raised by `scalar_one_or_none`; `value_error` is Python's;
-- `integrity_error` is the database's, which aborts the transaction.

-- The `code` in the details of a PostingError (backend/app/modules/ledger/posting.py).
pub data PostingCode : Type 0 where
  period_not_open account_not_found account_inactive account_not_postable : PostingCode
  control_account_violation zero_amount_line both_dr_and_cr unbalanced : PostingCode
  entry_not_found cannot_reverse_unposted already_reversed : PostingCode

pub data Error : Type 0 where
  not_found conflict permission_error validation_error : Error
  state_transition_error concurrent_modification : Error
  value_error multiple_rows integrity_error conversation_locked : Error
  posting_error : PostingCode → Error
