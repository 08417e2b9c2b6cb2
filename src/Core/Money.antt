-- ===== src/Core/Money.antt =====
-- backend/app/core/money.py: Decimal helpers. A monetary amount is an integer of ten-thousandths,
-- the unit of a NUMERIC(19,4) column; a quantity is an integer of hundredths; a Decimal with more
-- places is an integer of a finer unit, `grain` of which make one ten-thousandth.
use engage_os.Base.{
  ℕ, zero, suc, ap, sym, ◌∙◌, ◌+◌, ◌*◌, ◌/◌, ◌≤◌, ◌<◌, ◌≡◌, refl, List, foldl, arith,
}
use engage_os.Base.Int.{ℤ, pos, negsuc, ◌+ℤ◌, sub_ℕ, pos_part, neg_part}

abbrev pub Money : Type 0
Money = ℤ

abbrev pub money_zero : Money
money_zero = pos 0

-- Half up on a magnitude.
unfoldable pub round_half_up : ℕ → ℕ → ℕ
round_half_up grain n = (2 * n + grain) / (2 * grain)

-- `money`: ROUND_HALF_UP rounds the magnitude, away from zero on a tie.
unfoldable pub money : ℕ → ℤ → Money
money grain (pos n) = pos (round_half_up grain n)
money grain (negsuc n) = sub_ℕ 0 (round_half_up grain (suc n))

-- `money_sum`: the exact sum, rounded once.
unfoldable pub money_sum : ℕ → List ℤ → Money
money_sum grain xs = money grain (foldl ◌+ℤ◌ (pos 0) xs)

abbrev pub magnitude : ℤ → ℕ
magnitude x = pos_part x + neg_part x

-- Rounding half up, without division: the one `m` with m - 1/2 <= n / grain < m + 1/2, upward on a
-- tie.
abbrev pub IsRounded : ℕ → ℕ → ℕ → Type 0
IsRounded grain n m =
    (2 * (m * grain) ≤ 2 * n + grain) × (2 * n + grain < 2 * (m * grain) + 2 * grain)

round_half_up-IsRounded : (grain n : ℕ) → 0 < grain → IsRounded grain n (round_half_up grain n)
unfolding round_half_up
round_half_up-IsRounded grain n h = grind arith

round_half_up_grid : (grain n : ℕ) → 0 < grain → round_half_up grain (n * grain) ≡ n
unfolding round_half_up
round_half_up_grid grain n h = grind arith

-- An amount on the grid, in a finer unit.
abbrev pub refine : ℕ → Money → ℤ
refine grain (pos n) = pos (n * grain)
refine grain (negsuc n) = sub_ℕ 0 (suc n * grain)

-- `money` rounds the magnitude to the nearest unit, away from zero on a tie, and never turns the
-- sign around.
pub money-IsRounded :
    (grain : ℕ) (x : ℤ)
    → 0 < grain
    → IsRounded grain (magnitude x) (magnitude (money grain x))
      × (neg_part x ≡ 0 → neg_part (money grain x) ≡ 0)
      × (pos_part x ≡ 0 → pos_part (money grain x) ≡ 0)
unfolding money
money-IsRounded grain (pos n) h =
    ground (arith, round_half_up-IsRounded grain n h, round_half_up_grid grain 0 h)
money-IsRounded grain (negsuc n) h = ground (arith, round_half_up-IsRounded grain (suc n) h)

sub_ℕ-suc : (m : ℕ) → sub_ℕ 0 (suc m) ≡ negsuc m
sub_ℕ-suc m = ground arith

money_neg : (grain m : ℕ) → 0 < m → money grain (sub_ℕ 0 m) ≡ sub_ℕ 0 (round_half_up grain m)
unfolding money
money_neg grain zero h = absurd (omega arith)
money_neg grain (suc m) h = rw (sub_ℕ-suc m) refl

-- `money` leaves an amount that is on the grid as it is.
pub money-refine : (grain : ℕ) (x : Money) → 0 < grain → money grain (refine grain x) ≡ x
unfolding money
money-refine grain (pos n) h = ap pos (round_half_up_grid grain n h)
money-refine grain (negsuc n) h =
    money_neg grain (suc n * grain) (grind arith)
    ∙ (ap (sub_ℕ 0) (round_half_up_grid grain (suc n) h) ∙ sub_ℕ-suc n)

refine_one : (x : Money) → refine 1 x ≡ x
refine_one (pos n) = ap pos (omega arith)
refine_one (negsuc n) = ap (sub_ℕ 0) (times_one (suc n)) ∙ sub_ℕ-suc n
  where
    times_one : (m : ℕ) → m * 1 ≡ m
    times_one m = omega arith

-- Ten-thousandths are kept as they are.
pub money_one : (x : Money) → money 1 x ≡ x
money_one x = ap (money 1) (sym (refine_one x)) ∙ money-refine 1 x (omega arith)
