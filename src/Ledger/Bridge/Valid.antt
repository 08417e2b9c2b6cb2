-- ===== src/Ledger/Bridge/Valid.antt =====
-- The bridge handlers (bridge.py) one by one, and as the bus (core/events.py) calls them.
use Prim.Native.String.{String}
use engage_os.Base.{
  ℕ, ◌≡◌, refl, sym, ◌∙◌, inl, inr, Bool, true, false, Option, none, some, List, if◌then◌else◌,
}
use engage_os.Core.Exceptions.{Error}
use engage_os.Core.Action.{Result-cases, ⊤, Result, ok, err, Action, pure, ◌>>=◌, bind_ok, bind_err}
use engage_os.Core.Events.{emit_event_async}
use engage_os.Base.Int.{pos, ltb_ℤ}
use engage_os.Core.Money.{Money, money_zero}
use engage_os.Ledger.Models.{JournalLineRequest, JournalEntry, Ledger}
use engage_os.Ledger.Posting.{Posting, post}
use engage_os.Ledger.Posting.Sound.{Outcome, post-Outcome}
use engage_os.Ledger.Posting.Invariant.{IsValid, IsOnGrid, post-IsValid}
use engage_os.Ledger.Accounts.{get_by_code}
use engage_os.Ledger.Bridge.{
  Payload, get_or, Handler, grn_confirmed, unit_dispatched, invoice_created, adjustment_confirmed,
  resolve_account_id, post_system, system_posting, on_grn_confirmed, on_unit_dispatched,
  on_invoice_created, adjustment_lines, on_adjustment_confirmed, dispatch, run_handler,
  register_bridge_handlers, no_subscribers,
}

-- The event that each handler is registered for.
abbrev pub event_of : Handler → String
event_of grn_confirmed = "inventory.grn_confirmed"
event_of unit_dispatched = "inventory.unit_dispatched"
event_of invoice_created = "finance.invoice_created"
event_of adjustment_confirmed = "inventory.adjustment_confirmed"

-- An action that keeps the ledger valid, and changes nothing if it raises.
pub record IsAtomic {A : Type 0} (m : Action Ledger A) : Type 0 where
  pub keeps : (s : Ledger) → IsValid s → IsValid (m s).1
  pub undone : (s : Ledger) (x : Error) → (m s).0 ≡ err x → (m s).1 ≡ s

-- A read: it leaves the session alone.
abbrev IsRead : {A : Type 0} → Action Ledger A → Type 0
IsRead m = (s : Ledger) → (m s).1 ≡ s

after_read :
    {A B : Type 0} (m : Action Ledger A) (f : A → Action Ledger B)
    → IsRead m
    → ((a : A) → IsAtomic (f a))
    → IsAtomic (m >>= f)
after_read m f r k = record {
  keeps = λ s v. elim (Result-cases (m s).0) [
    | inl (a, e) ↦ rw (bind_ok m f s e, r s) ((k a).keeps s v)
    | inr (x, e) ↦ rw (bind_err m f s e, r s) v
  ];
  undone = λ s x h. elim (Result-cases (m s).0) [
    | inl (a, e) ↦ rw (bind_ok m f s e, r s) ((k a).undone s x (rw (bind_ok m f s e, r s) at h))
    | inr (y, e) ↦ rw (bind_err m f s e, r s) refl
  ];
}

resolve_account_id-IsRead : (code : String) → IsRead (resolve_account_id code)
unfolding resolve_account_id
resolve_account_id-IsRead code s = elim (Result-cases (get_by_code code s.accounts)) [
  | inl (none, e) ↦ rw e refl
  | inl (some a, e) ↦ rw e refl
  | inr (x, e) ↦ rw e refl
]

ok-ne_err : {A : Type 0} {a : A} {x : Error} {B : Type 0} → ok a ≡ err x → B
ok-ne_err h = cc

post-IsAtomic : (year : ℕ → ℕ) (p : Posting) → IsOnGrid p.request → IsAtomic (post year p)
post-IsAtomic year p g = record {
  keeps = λ s v. post-IsValid year p s g v;
  undone = λ s x h. elim (Result-cases (post year p s).0) [
    | inl (a, e) ↦ ok-ne_err (sym e ∙ h)
    | inr (y, e) ↦ undone_by (post year p s) y e (post-Outcome year p s)
  ];
}
  where
    undone_by :
        {s : Ledger} (o : Result JournalEntry × Ledger) (y : Error)
        → o.0 ≡ err y
        → Outcome year p s o
        → o.1 ≡ s
    undone_by (ok a, s') y e out = ok-ne_err e
    undone_by (err x, s') y e out = out.0

before_pure :
    {A B : Type 0} (b : B) (m : Action Ledger A) → IsAtomic m → IsAtomic (m >>= λ _. pure b)
before_pure b m h = record {
  keeps = λ s v. elim (Result-cases (m s).0) [
    | inl (a, e) ↦ rw (bind_ok m (λ _. pure b) s e) (h.keeps s v)
    | inr (x, e) ↦ rw (bind_err m (λ _. pure b) s e) (h.keeps s v)
  ];
  undone = λ s x q. elim (Result-cases (m s).0) [
    | inl (a, e) ↦ ok-ne_err (rw (bind_ok m (λ _. pure b) s e) at q)
    | inr (y, e) ↦ rw (bind_err m (λ _. pure b) s e) (h.undone s y e)
  ];
}

IsAtomic-if :
    {A : Type 0} (b : Bool) {m n : Action Ledger A}
    → IsAtomic m
    → IsAtomic n
    → IsAtomic (if b then m else n)
IsAtomic-if true h k = h
IsAtomic-if false h k = k

IsRead-if :
    {A : Type 0} (b : Bool) (m n : Action Ledger A)
    → IsRead m
    → IsRead n
    → IsRead (if b then m else n)
IsRead-if true m n h k = h
IsRead-if false m n h k = k

IsRead-pure :
    {A B : Type 0} (m : Action Ledger A) (f : A → B) → IsRead m → IsRead (m >>= λ a. pure (f a))
IsRead-pure m f h s = elim (Result-cases (m s).0) [
  | inl (a, e) ↦ rw (bind_ok m (λ a. pure (f a)) s e) (h s)
  | inr (x, e) ↦ rw (bind_err m (λ a. pure (f a)) s e) (h s)
]

module _ (year : ℕ → ℕ) (today : ℕ) where
  post_system-IsAtomic :
      (p : Payload) (source : String) (id : Option ℕ) (ls : List JournalLineRequest)
      → IsAtomic (post_system year today p source id ls)
  post_system-IsAtomic p source id ls =
      before_pure tt (post year (system_posting today p source id ls))
        (post-IsAtomic year (system_posting today p source id ls) refl)

  two_accounts :
      (a b : String) (f : ℕ → ℕ → Action Ledger ⊤)
      → ((i j : ℕ) → IsAtomic (f i j))
      → IsAtomic (resolve_account_id a >>= λ i. resolve_account_id b >>= λ j. f i j)
  two_accounts a b f h =
      after_read (resolve_account_id a) _ (resolve_account_id-IsRead a)
        λ i. after_read (resolve_account_id b) _ (resolve_account_id-IsRead b) (h i)

  adjustment_lines-IsRead : (inv : ℕ) (amt : Money) → IsRead (adjustment_lines year today inv amt)
  unfolding adjustment_lines
  adjustment_lines-IsRead inv amt =
      IsRead-if (ltb_ℤ amt (pos 0)) _ _
        (IsRead-pure (resolve_account_id "4200") _ (resolve_account_id-IsRead "4200"))
        (IsRead-pure (resolve_account_id "5200") _ (resolve_account_id-IsRead "5200"))

  dispatch-IsAtomic : (h : Handler) (p : Payload) → IsAtomic (dispatch year today h p)
  unfolding dispatch on_grn_confirmed on_unit_dispatched on_invoice_created on_adjustment_confirmed
  dispatch-IsAtomic grn_confirmed p =
      two_accounts "1200" "2200" _ (λ i j. post_system-IsAtomic p _ _ _)
  dispatch-IsAtomic unit_dispatched p =
      two_accounts "5100" "1200" _ (λ i j. post_system-IsAtomic p _ _ _)
  dispatch-IsAtomic invoice_created p =
      two_accounts "1100" "4100" _ (λ i j. post_system-IsAtomic p _ _ _)
  dispatch-IsAtomic adjustment_confirmed p =
      after_read (resolve_account_id "1200") _ (resolve_account_id-IsRead "1200") λ inv.
        after_read (adjustment_lines year today inv (get_or p.amount money_zero)) _
          (adjustment_lines-IsRead inv _) (λ ls. post_system-IsAtomic p _ _ ls)

  -- Every handler keeps the ledger valid, and one that raises has written nothing.
  pub run_handler-IsAtomic : (h : Handler) (p : Payload) → IsAtomic (run_handler year today h p)
  unfolding run_handler
  run_handler-IsAtomic h p =
      IsAtomic-if p.session (dispatch-IsAtomic h p)
        (record { keeps = λ s v. v; undone = λ s x e. refl })

  -- On the bus with the bridge's registrations, each bridged event runs its one handler and keeps
  -- what that wrote; an exception of the handler is dropped, so the emitter returns in any case.
  pub emit-handler :
      (h : Handler) (p : Payload) (s : Ledger)
      → emit_event_async
          (run_handler year today)
          (register_bridge_handlers no_subscribers)
          (event_of h)
          p
          s
        ≡ (ok tt, (run_handler year today h p s).1)
  unfolding emit_event_async register_bridge_handlers
  emit-handler grn_confirmed p s = refl
  emit-handler unit_dispatched p s = refl
  emit-handler invoice_created p s = refl
  emit-handler adjustment_confirmed p s = refl
