-- ===== src/Ledger/Periods/Closing.antt =====
-- Closing and reopening a fiscal period (service.py, `PeriodService`), and posting.
use engage_os.Base.{
  ℕ, ◌≡◌, refl, sym, ap, ◌∙◌, true, false, some, List, [], ◌∷◌, arith, inl, inr, ◌==◌, Bool-cases,
  some-eq_some, cons-eq_cons, ==_refl, where_rows,
}
use engage_os.Core.Exceptions.{posting_error, period_not_open}
use engage_os.Core.Action.{ok, err}
use engage_os.Core.Table.{get, update, get-update_self}
use engage_os.Ledger.Models.{FiscalPeriod, period_model, PeriodStatus, Ledger}
use engage_os.Ledger.Gates.{covers}
use engage_os.Ledger.Posting.{Posting, post}
use engage_os.Ledger.Gates.Passes.{gates_closed}
use engage_os.Ledger.Periods.{is_closed, is_locked, set_status, close_period, reopen_period}

covers_of_rows :
    (d : ℕ) (p : FiscalPeriod) (ps : List FiscalPeriod)
    → where_rows (covers d) ps ≡ p ∷ []
    → covers d p ≡ true
covers_of_rows d p [] h = cc
covers_of_rows d p (x ∷ ps) h = elim (Bool-cases (covers d x)) [
  | inl c ↦ rw (← (cons-eq_cons (rw c at h)).0) c
  | inr c ↦ covers_of_rows d p ps (rw c at h)
]

covers-closed : (d : ℕ) (p : FiscalPeriod) → covers d (set_status PeriodStatus.closed p) ≡ false
covers-closed d p = ground arith

status_open : (d : ℕ) (p : FiscalPeriod) → covers d p ≡ true → p.status ≡ PeriodStatus.open_period
status_open d p h = ground arith

not_closed : (st : PeriodStatus) → st ≡ PeriodStatus.open_period → is_closed st ≡ false
not_closed st h = rw h refl

not_locked : (st : PeriodStatus) → st ≡ PeriodStatus.open_period → is_locked st ≡ false
not_locked st h = rw h refl

impossible : {A : Type 0} → false ≡ true → A
impossible h = cc

-- No period covers the date once the only one that does is closed.
rows-close :
    (d : ℕ) (p : FiscalPeriod) (ps : List FiscalPeriod)
    → get p.id ps ≡ some p
    → where_rows (covers d) ps ≡ p ∷ []
    → where_rows (covers d) (update p.id (set_status PeriodStatus.closed) ps) ≡ []
rows-close d p [] found h = refl
rows-close d p (x ∷ ps) found h = elim (Bool-cases (covers d x)) [
  | inl c ↦
      let (same, rest) = cons-eq_cons (rw c at h) in
      let same_id : (x.id == p.id) ≡ true = rw same (==_refl p.id) in
      rw (same_id, covers-closed d x) rest
  | inr c ↦ elim (Bool-cases (x.id == p.id)) [
    | inl same_id ↦
        let same : x ≡ p = some-eq_some (rw same_id at found) in
        impossible (sym c ∙ (ap (covers d) same ∙ covers_of_rows d p (x ∷ ps) h))
    | inr other ↦ rw (other, c) (rows-close d p ps (rw other at found) (rw c at h))
  ]
]

with_status : ℕ → PeriodStatus → Ledger → Ledger
with_status i st s = record s { periods = update i (set_status st) s.periods }

close_period-open :
    (i : ℕ) (p : FiscalPeriod) (s : Ledger)
    → get i s.periods ≡ some p
    → p.status ≡ PeriodStatus.open_period
    → close_period i s
      ≡ (ok (set_status PeriodStatus.closed p), with_status i PeriodStatus.closed s)
unfolding close_period with_status
close_period-open i p s found h = rw (found, not_closed p.status h, not_locked p.status h) refl

reopen_period-closed :
    (i : ℕ) (p : FiscalPeriod) (s : Ledger)
    → get i s.periods ≡ some p
    → is_closed p.status ≡ true
    → reopen_period i s
      ≡ (ok (set_status PeriodStatus.open_period p), with_status i PeriodStatus.open_period s)
unfolding reopen_period with_status
reopen_period-closed i p s found h = rw (found, h) refl

post_closed :
    (year : ℕ → ℕ) (p : Posting) (s : Ledger)
    → where_rows (covers p.request.posting_date) s.periods ≡ []
    → post year p s ≡ (err (posting_error period_not_open), s)
unfolding post
post_closed year p s h = rw (gates_closed s p.request p.is_system_generated h) refl

-- Closing the open period of a date succeeds, and afterwards nothing can be posted on that date, by
-- hand or by the system: the posting raises `period_not_open` and writes nothing.
pub post-close_period :
    (year : ℕ → ℕ) (p : Posting) (period : FiscalPeriod) (s : Ledger)
    → get period.id s.periods ≡ some period
    → where_rows (covers p.request.posting_date) s.periods ≡ period ∷ []
    → let (r, s') = close_period period.id s in
      (r ≡ ok (set_status PeriodStatus.closed period))
      × (post year p s' ≡ (err (posting_error period_not_open), s'))
post-close_period year p period s found h =
    let date = p.request.posting_date in
    let open_status = status_open date period (covers_of_rows date period s.periods h) in
    rw (close_period-open period.id period s found open_status) (
      refl,
      post_closed year p (with_status period.id PeriodStatus.closed s)
          (unfold with_status in rows-close date period s.periods found h),
    )

update-update :
    (i : ℕ) (p : FiscalPeriod) (ps : List FiscalPeriod)
    → get i ps ≡ some p
    → p.status ≡ PeriodStatus.open_period
    → update i (set_status PeriodStatus.open_period) (update i (set_status PeriodStatus.closed) ps)
      ≡ ps
update-update i p [] found h = refl
update-update i p (x ∷ ps) found h = elim (Bool-cases (x.id == i)) [
  | inl here ↦
      let same : x ≡ p = some-eq_some (rw here at found) in
      rw (here, here)
        (ap (λ st. set_status st x ∷ ps) (sym (ap (λ (q : FiscalPeriod). q.status) same ∙ h)))
  | inr there ↦ rw (there, there) (ap (λ t. x ∷ t) (update-update i p ps (rw there at found) h))
]

restored :
    (i : ℕ) (p : FiscalPeriod) (s : Ledger)
    → get i s.periods ≡ some p
    → p.status ≡ PeriodStatus.open_period
    → with_status i PeriodStatus.open_period (with_status i PeriodStatus.closed s) ≡ s
unfolding with_status
restored i p s found h = ap (λ ps. record s { periods = ps }) (update-update i p s.periods found h)

-- Reopening a period that was just closed succeeds and restores every table.
pub reopen_period-close_period :
    (i : ℕ) (p : FiscalPeriod) (s : Ledger)
    → get i s.periods ≡ some p
    → p.status ≡ PeriodStatus.open_period
    → reopen_period i (close_period i s).1 ≡ (ok (set_status PeriodStatus.open_period p), s)
reopen_period-close_period i p s found h = rw (close_period-open i p s found h) (
    reopen_period-closed i (set_status PeriodStatus.closed p) (with_status i PeriodStatus.closed s)
      (unfold with_status in
        get-update_self i (set_status PeriodStatus.closed) s.periods (λ y. refl) found)
      refl
    ∙ ap (λ t. (ok (set_status PeriodStatus.open_period p), t)) (restored i p s found h))
