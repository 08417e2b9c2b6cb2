-- ===== src/Core/Table/Count.antt =====
-- How many rows of a table pass a test.
use engage_os.Base.{
  ℕ, ◌+◌, ◌≡◌, refl, ◌≢◌, Bool, some, List, [], ◌∷◌, ◌++◌, ◌==◌, if◌then◌else◌, arith, inl, inr,
  Bool-cases, some-eq_some, All, All-map, ==-eq_false, ==_refl,
}
use engage_os.Core.Table.{Model, pk, get, update}

abbrev pub bit : Bool → ℕ
bit b = if b then 1 else 0

module _ {R : Type 0} where
  abbrev pub count : (R → Bool) → List R → ℕ
  count p [] = 0
  count p (x ∷ xs) = bit (p x) + count p xs

  pub count-append :
      (p : R → Bool) (xs : List R) (y : R) → count p (xs ++ y ∷ []) ≡ count p xs + bit (p y)
  count-append p [] y = omega arith
  count-append p (x ∷ xs) y = omega (arith, count-append p xs y)

module _ {R : Type 0} ⦃m : Model R⦄ where
  pub count-update :
      (p : R → Bool) (i : ℕ) (f : R → R) (xs : List R) (x : R)
      → get i xs ≡ some x
      → count p (update i f xs) + bit (p x) ≡ count p xs + bit (p (f x))
  count-update p i f [] x h = cc
  count-update p i f (y ∷ xs) x h = elim (Bool-cases (pk y == i)) [
    | inl e ↦ let same : y ≡ x = some-eq_some (rw e at h) in rw (e, same) (omega arith)
    | inr e ↦ rw e (omega (arith, count-update p i f xs x (rw e at h)))
  ]

  -- The primary key: no two rows share it.
  abbrev pub DistinctKeys : List R → Type 0
  DistinctKeys [] = Unit
  DistinctKeys (x ∷ xs) = All (λ y. pk x ≢ pk y) xs × DistinctKeys xs

  -- With distinct keys, each row is the one that its key finds.
  pub get-every : (xs : List R) → DistinctKeys xs → All (λ x. get (pk x) xs ≡ some x) xs
  get-every [] d = tt
  get-every (x ∷ xs) d = (rw (==_refl (pk x)) refl, behind xs d.0 (get-every xs d.1))
    where
      behind :
          (ys : List R)
          → All (λ y. pk x ≢ pk y) ys
          → All (λ y. get (pk y) xs ≡ some y) ys
          → All (λ y. get (pk y) (x ∷ xs) ≡ some y) ys
      behind [] h k = tt
      behind (y ∷ ys) h k = (rw (==-eq_false (pk x) (pk y) h.0) k.0, behind ys h.1 k.1)

  All-update :
      (Q : R → Type 0) (i : ℕ) (f : R → R) (xs : List R)
      → ((y : R) → Q y → Q (f y))
      → All Q xs
      → All Q (update i f xs)
  All-update Q i f [] keep h = tt
  All-update Q i f (x ∷ xs) keep h = elim (Bool-cases (pk x == i)) [
    | inl e ↦ rw e (keep x h.0, h.1)
    | inr e ↦ rw e (h.0, All-update Q i f xs keep h.1)
  ]

  pub DistinctKeys-update :
      (i : ℕ) (f : R → R) (xs : List R)
      → ((y : R) → pk (f y) ≡ pk y)
      → DistinctKeys xs
      → DistinctKeys (update i f xs)
  DistinctKeys-update i f [] keep d = tt
  DistinctKeys-update i f (x ∷ xs) keep d = elim (Bool-cases (pk x == i)) [
    | inl e ↦
        rw e (All-map (λ y. pk x ≢ pk y) (λ y. pk (f x) ≢ pk y) xs (λ y h. rw (keep x) h) d.0, d.1)
    | inr e ↦ rw e (
      All-update (λ y. pk x ≢ pk y) i f xs (λ y h. rw (keep y) h) d.0,
      DistinctKeys-update i f xs keep d.1,
    )
  ]
