-- ===== src/Core/Action.antt =====
-- A service method, as a function of the session: it returns or raises, and hands the session on.
-- What was written before a raise is still in the session: whether it is rolled back is up to the
-- caller (the routers roll back, the event bus does not).
use engage_os.Base.{Bool, Option, none, some, ◌≡◌, refl, ap, ◌∙◌, ◌⊎◌, inl, inr, if◌then◌else◌}
use engage_os.Core.Exceptions.{Error}

abbrev pub ⊤ : Type 0
⊤ = Unit

pub data Result (A : Type 0) : Type 0 where
  ok : A → Result A
  err : Error → Result A

abbrev pub Action : Type 0 → Type 0 → Type 0
Action S A = S → Result A × S

module _ {S : Type 0} where
  abbrev pub pure : {A : Type 0} → A → Action S A
  pure a s = (ok a, s)

  abbrev pub raise : {A : Type 0} → Error → Action S A
  raise e s = (err e, s)

  abbrev pub raise_if : Bool → Error → Action S ⊤
  raise_if c e s = (if c then err e else ok tt, s)

  abbrev pub or_raise : {A : Type 0} → Option A → Error → Action S A
  or_raise none e s = (err e, s)
  or_raise (some a) e s = (ok a, s)

  abbrev pub gets : {A : Type 0} → (S → A) → Action S A
  gets f s = (ok (f s), s)

  abbrev pub modify : (S → S) → Action S ⊤
  modify f s = (ok tt, f s)

  -- A check that reads no state.
  abbrev pub lift : {A : Type 0} → Result A → Action S A
  lift r s = (r, s)

infixl 5 ◌>>=◌ ◌>>◌
abbrev pub ◌>>=◌ : {S A B : Type 0} → Action S A → (A → Action S B) → Action S B
◌>>=◌ m f s = let (r, s') = m s in elim r [ ok a ↦ f a s' | err e ↦ (err e, s') ]

abbrev pub ◌>>◌ : {S A B : Type 0} → Action S A → Action S B → Action S B
m >> k = m >>= λ _. k

-- A bind by the outcome of its first part.
module _ {S A B : Type 0} (m : Action S A) (f : A → Action S B) (s : S) where
  pub bind_ok : {a : A} → (m s).0 ≡ ok a → (m >>= f) s ≡ f a (m s).1
  bind_ok e = rw (e, ◌>>=◌) refl

  pub bind_err : {x : Error} → (m s).0 ≡ err x → (m >>= f) s ≡ (err x, (m s).1)
  bind_err e = rw (e, ◌>>=◌) refl

-- A bind by the result and the session of its first part.
module _ {S A B : Type 0} (m : Action S A) (f : A → Action S B) (s : S) where
  pub bind_to : {a : A} {s' : S} → m s ≡ (ok a, s') → (m >>= f) s ≡ f a s'
  bind_to {a} {s'} h = bind_ok m f s (ap (λ r. r.0) h) ∙ ap (λ r. f a r.1) h

  pub bind_stop : {x : Error} {s' : S} → m s ≡ (err x, s') → (m >>= f) s ≡ (err x, s')
  bind_stop {x} h = bind_err m f s (ap (λ r. r.0) h) ∙ ap (λ r. (err x, r.1)) h

-- A call has raised or returned.
pub Result-cases :
    {V : Type 0} (result : Result V)
    → ((v : V) × (result ≡ ok v)) ⊎ ((x : Error) × (result ≡ err x))
Result-cases (err x) = inr (x, refl)
Result-cases (ok v) = inl (v, refl)
