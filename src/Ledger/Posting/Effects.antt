-- ===== src/Ledger/Posting/Effects.antt =====
-- What posting and reversing (posting.py) do to account balances (`sum_by_account`), and which
-- entries can be reversed.
use engage_os.Base.{
  ℕ, ◌≡◌, refl, sym, ap, ◌∙◌, true, false, ◌&&◌, Option, none, some, List, [], ◌∷◌, ◌++◌, map,
  arith, some-eq_some, All, if◌then◌else◌,
}
use mathlib.Core.List.{Memᴰ}
use mathlib.Core.Path.{subst}
use engage_os.Base.Int.{ℤ, pos, ◌+ℤ◌, ◌-ℤ◌, int_laws}
use engage_os.Core.Exceptions.{Error, posting_error, cannot_reverse_unposted}
use engage_os.Core.Action.{Result, ok, err}
use engage_os.Core.Money.{Money}
use engage_os.Core.Table.{get, update, get-append, get-update_self}
use engage_os.Ledger.Models.{
  Account, account_model, JournalLine, JournalEntry, entry_model, Ledger, JournalStatus,
}
use engage_os.Ledger.Gates.Passes.{IsPostable}
use engage_os.Ledger.Posting.{
  Posting, stored, mirror, mark_reversed, reversal_posting, post, reverse,
}
use engage_os.Ledger.Posting.Sound.{entry_for, post-Outcome}
use engage_os.Ledger.Posting.Reversal.{ReverseOutcome, reverse-Outcome}
use engage_os.Ledger.Balance.{from_ok, to_ok, sum_lines, sum_column}
use engage_os.Ledger.Balance.Sums.{
  contribution, sum_column-append_one, sum_column-mark_reversed, sum_lines-mirror_dr,
  sum_lines-mirror_cr,
}

-- A successful posting moves each column of each account by exactly its stored lines, in every range
-- of dates that holds the posting date, and no column in any other range.
pub sum_column-post :
    (year : ℕ → ℕ) (p : Posting) (s s' : Ledger) (e : JournalEntry) (g : JournalLine → Money)
    (a : ℕ) (from to : Option ℕ)
    → post year p s ≡ (ok e, s')
    → sum_column g a from to s'.entries
      ≡ sum_column g a from to s.entries
        +ℤ (if from_ok from p.request.posting_date && to_ok to p.request.posting_date
            then sum_lines g a (map (stored p.request.grain) p.request.lines)
            else pos 0)
sum_column-post year p s s' e g a from to h =
    let (period, passes, same, state) = (rw h at (post-Outcome year p s)) in
    rw state (sum_column-append_one g a from to s.entries (entry_for year p period s))

-- Debit less credit of an account over all dates.
abbrev pub net : ℕ → List JournalEntry → Money
net a es = sum_column (λ l. l.dr_base) a none none es -ℤ sum_column (λ l. l.cr_base) a none none es

abbrev pub net_lines : ℕ → List JournalLine → Money
net_lines a ls = sum_lines (λ l. l.dr_base) a ls -ℤ sum_lines (λ l. l.cr_base) a ls

contribution_posted :
    (g : JournalLine → Money) (a : ℕ) (e : JournalEntry)
    → e.status ≡ JournalStatus.posted
    → contribution g a none none e ≡ sum_lines g a e.lines
contribution_posted g a e h = rw h refl

reversed_column :
    (g : JournalLine → Money) (a i by : ℕ) (es : List JournalEntry) (e new : JournalEntry)
    → get i es ≡ some e
    → e.status ≡ JournalStatus.posted
    → new.status ≡ JournalStatus.posted
    → sum_column g a none none (update i (mark_reversed by) (es ++ new ∷ []))
        +ℤ sum_lines g a e.lines
      ≡ sum_column g a none none es +ℤ sum_lines g a new.lines
reversed_column g a i by es e new found posted fresh =
    rw (← contribution_posted g a e posted, ← contribution_posted g a new fresh)
      (sum_column-mark_reversed g a none none i by (es ++ new ∷ []) e
          (get-append i es (new ∷ []) found)
        ∙ sum_column-append_one g a none none es new)

sum_column-reverse :
    (year : ℕ → ℕ) (i actor : ℕ) (date : Option ℕ) (s s' : Ledger) (r entry : JournalEntry)
    (g : JournalLine → Money) (a : ℕ)
    → reverse year i actor date s ≡ (ok r, s')
    → get i s.entries ≡ some entry
    → sum_column g a none none s'.entries +ℤ sum_lines g a entry.lines
      ≡ sum_column g a none none s.entries
        +ℤ sum_lines g a (map (stored 1) (map mirror entry.lines))
sum_column-reverse year i actor date s s' r entry g a done found =
    let (e, found', posted, fresh, period, passes, same, state, more) =
      (rw done at (reverse-Outcome year i actor date s)) in
    let this : e ≡ entry = some-eq_some (sym found' ∙ found) in
    rw (state, ← this)
      (reversed_column g a i r.id s.entries e
        (entry_for year (reversal_posting e actor date) period s) found' posted refl)

twice :
    (d c d' c' ld lc : ℤ)
    → d' +ℤ ld ≡ d +ℤ lc
    → c' +ℤ lc ≡ c +ℤ ld
    → d' -ℤ c' ≡ d -ℤ c -ℤ (ld -ℤ lc) -ℤ (ld -ℤ lc)
twice d c d' c' ld lc p q = grind (int_laws, p, q)

-- A successful reversal moves the net balance of every account by twice the net amount of the
-- reversed entry, against it: the entry leaves the sums, which read posted entries only, and its
-- mirror, which is posted, is counted in them too.
pub net-reverse :
    (year : ℕ → ℕ) (i actor : ℕ) (date : Option ℕ) (s s' : Ledger) (r entry : JournalEntry) (a : ℕ)
    → reverse year i actor date s ≡ (ok r, s')
    → get i s.entries ≡ some entry
    → net a s'.entries ≡ net a s.entries -ℤ net_lines a entry.lines -ℤ net_lines a entry.lines
net-reverse year i actor date s s' r entry a done found =
    twice _ _ _ _ _ _
      (rw (sum_lines-mirror_dr a entry.lines) at
        (sum_column-reverse year i actor date s s' r entry (λ l. l.dr_base) a done found))
      (rw (sum_lines-mirror_cr a entry.lines) at
        (sum_column-reverse year i actor date s s' r entry (λ l. l.cr_base) a done found))

-- A reversed entry stays reversed: a second reversal, by anyone and for any date, raises
-- `cannot_reverse_unposted` and changes nothing.
pub reverse-reverse :
    (year : ℕ → ℕ) (i actor actor' : ℕ) (date date' : Option ℕ) (s s' : Ledger) (r : JournalEntry)
    → reverse year i actor date s ≡ (ok r, s')
    → reverse year i actor' date' s' ≡ (err (posting_error cannot_reverse_unposted), s')
unfolding reverse
reverse-reverse year i actor actor' date date' s s' r done =
    let (e, found, posted, fresh, period, passes, same, state, more) =
      (rw done at (reverse-Outcome year i actor date s)) in
    let p = reversal_posting e actor date in
    let marked : get i s'.entries ≡ some (mark_reversed r.id e) = rw state (
      get-update_self i (mark_reversed r.id) (s.entries ++ entry_for year p period s ∷ [])
        (λ y. refl) (get-append i s.entries (entry_for year p period s ∷ []) found)) in
    rw marked refl

mirror_postable :
    (accounts : List Account) (l : JournalLine) (ls : List JournalLine) (account : Account)
    → Memᴰ l ls
    → get l.account_id accounts ≡ some account
    → account.is_control ≡ true
    → All (IsPostable accounts false) (map mirror ls)
    → ⊥
mirror_postable accounts l [] account m found control h = elim m [ ]
mirror_postable accounts l (x ∷ ls) account (Memᴰ.head e) found control h =
    let (b, found', active, postable, free) = h.0 in
    let same : account ≡ b =
      some-eq_some (sym found ∙ (ap (λ (k : JournalLine). get k.account_id accounts) e ∙ found')) in
    ground arith
mirror_postable accounts l (x ∷ ls) account (Memᴰ.tail m) found control h =
    mirror_postable accounts l ls account m found control h.1

refused :
    (year : ℕ → ℕ) (i actor : ℕ) (date : Option ℕ) (s : Ledger) (o : Result JournalEntry × Ledger)
    → ReverseOutcome year i actor date s o
    → ((e : JournalEntry)
        → get i s.entries ≡ some e
        → All (IsPostable s.accounts false) (map mirror e.lines)
        → ⊥)
    → (x : Error) × (o ≡ (err x, s))
refused year i actor date s (ok r, s') (e, found, posted, fresh, period, passes, same, state, more)
      never =
    absurd (never e found passes.accounts)
refused year i actor date s (err x, s') (state, why) never = (x, ap (λ t. (err x, t)) state)

-- An entry with a line in a control account cannot be reversed, not even one that the system
-- posted: the call raises and changes nothing.
pub reverse_control :
    (year : ℕ → ℕ) (i actor : ℕ) (date : Option ℕ) (s : Ledger) (entry : JournalEntry)
    (l : JournalLine) (account : Account)
    → get i s.entries ≡ some entry
    → Memᴰ l entry.lines
    → get l.account_id s.accounts ≡ some account
    → account.is_control ≡ true
    → (x : Error) × (reverse year i actor date s ≡ (err x, s))
reverse_control year i actor date s entry l account found mem acct control =
    refused year i actor date s (reverse year i actor date s) (reverse-Outcome year i actor date s)
      (λ e found' h.
        mirror_postable s.accounts l e.lines account
          (subst (λ (k : JournalEntry). Memᴰ l k.lines) (some-eq_some (sym found ∙ found')) mem)
          acct control h)
