-- ===== src/Core/Table.antt =====
-- backend/app/db/repository.py: the generic repository over one table. A table is the list of its
-- rows in the order of their creation; `pk` is the primary key. `Result.scalar_one_or_none` of
-- SQLAlchemy returns the single row, none for no row, and raises for several.
pub mod Count
use engage_os.Base.{
  ℕ, suc, ◌+◌, ◌≤◌, ◌≡◌, refl, ◌≢◌, Option, none, some, List, [], ◌∷◌, ◌++◌, map, arith, ◌==◌,
  if◌then◌else◌,
}
use engage_os.Core.Exceptions.{multiple_rows}
use engage_os.Core.Action.{Result, ok, err}

-- The mapped class of a table.
pub record Model (R : Type 0) : Type 0 where
  pub pk : R → ℕ

abbrev pub pk : {R : Type 0} ⦃m : Model R⦄ → R → ℕ
pk ⦃m⦄ = m.pk

module _ {R : Type 0} ⦃m : Model R⦄ where
  -- `BaseRepository.get`
  abbrev pub get : ℕ → List R → Option R
  get i [] = none
  get i (x ∷ xs) = if pk x == i then some x else get i xs

  -- `BaseRepository.update`: the row with this key gets new columns, if there is one.
  abbrev pub update : ℕ → (R → R) → List R → List R
  update i f [] = []
  update i f (x ∷ xs) = if pk x == i then f x ∷ xs else x ∷ update i f xs

  -- Row numbers come from a counter: a table keeps below it.
  abbrev pub IsBelow : ℕ → List R → Type 0
  IsBelow n [] = Unit
  IsBelow n (x ∷ xs) = (suc (pk x) ≤ n) × IsBelow n xs

  pub get-update_self :
      (i : ℕ) (f : R → R) (xs : List R) {x : R}
      → ((y : R) → pk (f y) ≡ pk y)
      → get i xs ≡ some x
      → get i (update i f xs) ≡ some (f x)
  get-update_self i f [] keep h = ground arith
  get-update_self i f (y ∷ xs) {x} keep h =
      ground (arith, keep y, get-update_self i f xs {x = x} keep)

  pub get-update_ne :
      (i j : ℕ) (f : R → R) (xs : List R)
      → ((y : R) → pk (f y) ≡ pk y)
      → i ≢ j
      → get j (update i f xs) ≡ get j xs
  get-update_ne i j f [] keep h = refl
  get-update_ne i j f (y ∷ xs) keep h = ground (arith, keep y, get-update_ne i j f xs keep h)

  -- A row that is found is not hidden by one that is added behind it.
  pub get-append : (i : ℕ) (xs ys : List R) {x : R} → get i xs ≡ some x → get i (xs ++ ys) ≡ some x
  get-append i [] ys h = ground arith
  get-append i (y ∷ xs) ys {x} h = ground (arith, get-append i xs ys {x = x})

  pub get-append_new :
      (x : R) (xs : List R) → get (pk x) xs ≡ none → get (pk x) (xs ++ x ∷ []) ≡ some x
  get-append_new x [] h = ground arith
  get-append_new x (y ∷ xs) h = ground (arith, get-append_new x xs)

  pub get_pk : (i : ℕ) (xs : List R) {x : R} → get i xs ≡ some x → pk x ≡ i
  get_pk i [] h = ground arith
  get_pk i (y ∷ xs) {x} h = ground (arith, get_pk i xs {x = x})

  pub IsBelow-update :
      (n i : ℕ) (f : R → R) (xs : List R)
      → ((y : R) → pk (f y) ≡ pk y)
      → IsBelow n xs
      → IsBelow n (update i f xs)
  IsBelow-update n i f [] keep h = tt
  IsBelow-update n i f (x ∷ xs) keep h = ground (arith, keep x, IsBelow-update n i f xs keep)

  pub IsBelow-append_next :
      (x : R) (xs : List R) → IsBelow (pk x) xs → IsBelow (pk x + 1) (xs ++ x ∷ [])
  IsBelow-append_next x [] h = omega arith
  IsBelow-append_next x (y ∷ xs) h = (omega arith, IsBelow-append_next x xs h.1)

  pub get_fresh : (n : ℕ) (xs : List R) → IsBelow n xs → get n xs ≡ none
  get_fresh n [] h = refl
  get_fresh n (x ∷ xs) h = ground (arith, get_fresh n xs h.1)

-- A column that an update leaves alone.
pub map-update :
    {R K : Type 0} ⦃m : Model R⦄ (i : ℕ) (f : R → R) (g : R → K) (xs : List R)
    → ((x : R) → g (f x) ≡ g x)
    → map g (update i f xs) ≡ map g xs
map-update i f g [] keep = refl
map-update i f g (x ∷ xs) keep = ground (arith, keep x, map-update i f g xs keep)

-- `scalar_one_or_none` of the rows that a query returned.
abbrev pub one_or_none : {R : Type 0} → List R → Result (Option R)
one_or_none [] = ok none
one_or_none (x ∷ []) = ok (some x)
one_or_none (x ∷ y ∷ xs) = err multiple_rows
