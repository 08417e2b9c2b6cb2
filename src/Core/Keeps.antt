-- ===== src/Core/Keeps.antt =====
-- Service methods (Core.Action) that keep an invariant of the session, whether they return or raise,
-- and the rules by which a method is put together from such parts.
use engage_os.Base.{Bool, true, false, Option, none, some, if◌then◌else◌}
use engage_os.Core.Exceptions.{Error}
use engage_os.Core.Action.{
  Result, ok, err, Action, pure, raise, raise_if, or_raise, gets, ◌>>=◌, ◌>>◌,
}

module _ {S : Type 0} (I : S → Type 0) where
  unfoldable pub Keeps : {A : Type 0} → Action S A → Type 0
  Keeps m = (s : S) → I s → I (m s).1

  after :
      {A B : Type 0} (f : A → Action S B)
      → ((a : A) → Keeps (f a))
      → (r : Result A) (s : S) → I s
      → I (((λ t. (r, t)) >>= f) s).1
  unfolding Keeps
  after f h (ok a) s v = h a s v
  after f h (err e) s v = v

  pub bind-Keeps :
      {A B : Type 0} (m : Action S A) (f : A → Action S B)
      → Keeps m
      → ((a : A) → Keeps (f a))
      → Keeps (m >>= f)
  unfolding Keeps
  bind-Keeps m f hm hf s v = after f hf (m s).0 (m s).1 (hm s v)

  pub then-Keeps :
      {A B : Type 0} (m : Action S A) (k : Action S B) → Keeps m → Keeps k → Keeps (m >> k)
  then-Keeps m k hm hk = bind-Keeps m (λ a. k) hm (λ a. hk)

  -- The actions that only read.
  pub read-Keeps : {A : Type 0} (r : S → Result A) → Keeps (λ s. (r s, s))
  unfolding Keeps
  read-Keeps r s v = v

  pub gets-Keeps : {A : Type 0} (f : S → A) → Keeps (gets f)
  unfolding Keeps
  gets-Keeps f s v = v

  pub pure-Keeps : {A : Type 0} (a : A) → Keeps (pure a)
  unfolding Keeps
  pure-Keeps a s v = v

  pub raise-Keeps : (A : Type 0) (e : Error) → Keeps (raise {A = A} e)
  unfolding Keeps
  raise-Keeps A e s v = v

  pub raise_if-Keeps : (c : Bool) (e : Error) → Keeps (raise_if c e)
  unfolding Keeps
  raise_if-Keeps c e s v = v

  pub or_raise-Keeps : {A : Type 0} (found : Option A) (e : Error) → Keeps (or_raise found e)
  unfolding Keeps
  or_raise-Keeps none e s v = v
  or_raise-Keeps (some a) e s v = v

  pub if-Keeps :
      {A : Type 0} (b : Bool) (m k : Action S A) → Keeps m → Keeps k → Keeps (if b then m else k)
  if-Keeps true m k hm hk = hm
  if-Keeps false m k hm hk = hk

pub ruleset keeps = (
  bind-Keeps, then-Keeps, read-Keeps, gets-Keeps, pure-Keeps, raise-Keeps, raise_if-Keeps,
  or_raise-Keeps, if-Keeps,
)
