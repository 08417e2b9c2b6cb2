-- ===== src/Ledger/Posting/Invariant.antt =====
-- What holds of the ledger between two calls of the posting service (posting.py).
use engage_os.Base.Int.{ℤ, sum}
use engage_os.Core.Money.{money, money_one}
use engage_os.Base.{ℕ, ◌≡◌, sym, ◌∙◌, refl, Option, List, [], ◌∷◌, map, All, All-append}
use mathlib.Core.List.{map-append}
use engage_os.Core.Action.{Result, ok, err}
use engage_os.Core.Table.{update, IsBelow, IsBelow-update, IsBelow-append_next, map-update}
use engage_os.Ledger.Models.{
  JournalLine, JournalLineRequest, JournalEntryCreateRequest, JournalEntry, entry_model, Ledger,
  FiscalPeriod,
}
use engage_os.Ledger.Gates.Passes.{IsBalanced, AgreesRounded}
use engage_os.Ledger.Posting.{Posting, stored, mark_reversed, reversal_posting, post, reverse}
use engage_os.Ledger.Posting.Sound.{entry_for, with_entry, Outcome, post-Outcome}
use engage_os.Ledger.Posting.Reversal.{ReverseOutcome, reverse-Outcome}
use engage_os.Ledger.Posting.Numbers.{tag, IsNumbered, IsNumbered-next}

abbrev pub AllBalanced : List (List JournalLine) → Type 0
AllBalanced = All IsBalanced

-- Each entry is balanced, ids lie below the counter, and numbering is gapless with no repetition.
pub record IsValid (s : Ledger) : Type 0 where
  pub balanced : AllBalanced (map (λ e. e.lines) s.entries)
  pub below : IsBelow s.next_id s.entries
  pub numbered : IsNumbered (map tag s.entries) s.sequences

-- A request in ten-thousandths, with no more than the four places of the columns.
abbrev pub IsOnGrid : JournalEntryCreateRequest → Type 0
IsOnGrid r = r.grain ≡ 1

sum-stored :
    (f : JournalLineRequest → ℤ) (g : JournalLine → ℤ) (ls : List JournalLineRequest)
    → ((l : JournalLineRequest) → g (stored 1 l) ≡ money 1 (f l))
    → sum (map g (map (stored 1) ls)) ≡ sum (map f ls)
sum-stored f g [] h = refl
sum-stored f g (l ∷ ls) h = rw (h l, money_one (f l), sum-stored f g ls h) refl

stored-IsBalanced :
    (r : JournalEntryCreateRequest)
    → IsOnGrid r
    → AgreesRounded r.grain r.lines
    → IsBalanced (map (stored r.grain) r.lines)
stored-IsBalanced r g a =
    let exact : sum (map (λ l. l.dr_base) r.lines) ≡ sum (map (λ l. l.cr_base) r.lines) =
      sym (money_one (sum (map (λ l. l.dr_base) r.lines)))
      ∙ ((rw g at a) ∙ money_one (sum (map (λ l. l.cr_base) r.lines))) in
    rw
      (
        g,
        sum-stored (λ l. l.dr_base) (λ l. l.dr_base) r.lines (λ l. refl),
        sum-stored (λ l. l.cr_base) (λ l. l.cr_base) r.lines (λ l. refl),
      )
      exact

with_entry-IsValid :
    (year : ℕ → ℕ) (p : Posting) (period : FiscalPeriod) (s : Ledger)
    → IsOnGrid p.request
    → AgreesRounded p.request.grain p.request.lines
    → IsValid s
    → IsValid (with_entry year p period s)
with_entry-IsValid year p period s g a h = record {
  balanced =
      rw (map-append (λ (e : JournalEntry). e.lines) s.entries (entry_for year p period s ∷ [])) (
        All-append IsBalanced (map (λ e. e.lines) s.entries) _ h.balanced
          (stored-IsBalanced p.request g a, tt));
  below = IsBelow-append_next (entry_for year p period s) s.entries h.below;
  numbered = rw (map-append tag s.entries (entry_for year p period s ∷ [])) (
      IsNumbered-next p.request.voucher_type (year p.request.posting_date) (map tag s.entries)
        s.sequences h.numbered);
}

Outcome-IsValid :
    (year : ℕ → ℕ) (p : Posting) (s : Ledger) (r : Result JournalEntry) (s' : Ledger)
    → Outcome year p s (r, s')
    → IsOnGrid p.request
    → IsValid s
    → IsValid s'
Outcome-IsValid year p s (ok e) s' (period, passes, same, state) g h =
    rw state (with_entry-IsValid year p period s g passes.balance h)
Outcome-IsValid year p s (err x) s' (state, broken) g h = rw state h

-- Posting a request whose amounts have at most four places keeps the ledger valid, whether it succeeds
-- or raises: entries balanced, ids below the counter, numbers gapless with no repetition. (Of amounts
-- with more places, only the sums are compared once they are rounded, and the stored lines may differ.)
pub post-IsValid :
    (year : ℕ → ℕ) (p : Posting) (s : Ledger)
    → IsOnGrid p.request
    → IsValid s
    → IsValid (post year p s).1
post-IsValid year p s g h =
    let (r, s') = post year p s in Outcome-IsValid year p s r s' (post-Outcome year p s) g h

marked_IsValid :
    (i by : ℕ) (s : Ledger)
    → IsValid s
    → IsValid (record s { entries = update i (mark_reversed by) s.entries })
marked_IsValid i by s h = record {
  balanced = rw (map-update i (mark_reversed by) (λ e. e.lines) s.entries (λ e. refl)) h.balanced;
  below = IsBelow-update s.next_id i (mark_reversed by) s.entries (λ e. refl) h.below;
  numbered = rw (map-update i (mark_reversed by) tag s.entries (λ e. refl)) h.numbered;
}

ReverseOutcome-IsValid :
    (year : ℕ → ℕ) (entry_id actor_id : ℕ) (date : Option ℕ) (s : Ledger) (r : Result JournalEntry)
    (s' : Ledger)
    → ReverseOutcome year entry_id actor_id date s (r, s')
    → IsValid s
    → IsValid s'
ReverseOutcome-IsValid year entry_id actor_id date s (ok r) s'
      (entry, found, open_status, fresh, period, passes, same, state, more) h =
    let p = reversal_posting entry actor_id date in
    rw state (
      marked_IsValid entry_id r.id (with_entry year p period s)
        (with_entry-IsValid year p period s refl passes.balance h))
ReverseOutcome-IsValid year entry_id actor_id date s (err x) s' (state, refused) h = rw state h

-- Reversing keeps the ledger valid, whether it succeeds or raises.
pub reverse-IsValid :
    (year : ℕ → ℕ) (entry_id actor_id : ℕ) (date : Option ℕ) (s : Ledger)
    → IsValid s
    → IsValid (reverse year entry_id actor_id date s).1
reverse-IsValid year entry_id actor_id date s h =
    let (r, s') = reverse year entry_id actor_id date s in
    ReverseOutcome-IsValid year entry_id actor_id date s r s'
      (reverse-Outcome year entry_id actor_id date s) h
