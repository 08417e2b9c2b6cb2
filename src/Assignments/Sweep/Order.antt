-- ===== src/Assignments/Sweep/Order.antt =====
-- The rows that the sweep of backend/app/modules/assignments/tasks.py selects, and their order.
use engage_os.Base.{
  ℕ, zero, suc, ◌+◌, ◌-◌, ◌≤◌, ◌≡◌, refl, sym, ◌≢◌, Bool, true, false, not, ◌&&◌, Option, none,
  some, List, [], ◌∷◌, leb, leb→le, where_rows, arith, inl, inr, Bool-cases, All, All-map,
}
use engage_os.Core.Table.{pk}
use engage_os.Core.Table.Count.{bit, count, DistinctKeys}
use engage_os.Conversations.Store.{Conversation, conversation_model, is_none, is_before}
use engage_os.Assignments.Sweep.{
  batch_limit, is_expired, expiry, insert_by_expiry, order_by_expiry, limit, expired_rows,
}

-- A property of every row of a table is one of the selected rows.
module _ (Q : Conversation → Type 0) where
  All-where_rows :
      (p : Conversation → Bool) (cs : List Conversation) → All Q cs → All Q (where_rows p cs)
  All-where_rows p [] h = tt
  All-where_rows p (c ∷ cs) h = elim (Bool-cases (p c)) [
    | inl e ↦ rw e (h.0, All-where_rows p cs h.1)
    | inr e ↦ rw e (All-where_rows p cs h.1)
  ]

  All-insert_by_expiry :
      (c : Conversation) (cs : List Conversation) → Q c → All Q cs → All Q (insert_by_expiry c cs)
  unfolding insert_by_expiry
  All-insert_by_expiry c [] q h = (q, tt)
  All-insert_by_expiry c (d ∷ ds) q h = elim (Bool-cases (leb (expiry c) (expiry d))) [
    | inl e ↦ rw e (q, h)
    | inr e ↦ rw e (h.0, All-insert_by_expiry c ds q h.1)
  ]

  All-order_by_expiry : (cs : List Conversation) → All Q cs → All Q (order_by_expiry cs)
  unfolding order_by_expiry
  All-order_by_expiry [] h = tt
  All-order_by_expiry (c ∷ cs) h =
      All-insert_by_expiry c (order_by_expiry cs) h.0 (All-order_by_expiry cs h.1)

  All-limit : (n : ℕ) (cs : List Conversation) → All Q cs → All Q (limit n cs)
  unfolding limit
  All-limit zero cs h = tt
  All-limit (suc n) [] h = tt
  All-limit (suc n) (c ∷ cs) h = (h.0, All-limit n cs h.1)

  pub All-expired_rows : (now : ℕ) (cs : List Conversation) → All Q cs → All Q (expired_rows now cs)
  unfolding expired_rows
  All-expired_rows now cs h =
      All-limit batch_limit (order_by_expiry (where_rows (is_expired now) cs)) (
        All-order_by_expiry (where_rows (is_expired now) cs) (All-where_rows (is_expired now) cs h))

-- The selected rows keep their distinct keys.
DistinctKeys-where_rows :
    (p : Conversation → Bool) (cs : List Conversation)
    → DistinctKeys cs
    → DistinctKeys (where_rows p cs)
DistinctKeys-where_rows p [] d = tt
DistinctKeys-where_rows p (c ∷ cs) d = elim (Bool-cases (p c)) [
  | inl e ↦ rw e (All-where_rows (λ y. pk c ≢ pk y) p cs d.0, DistinctKeys-where_rows p cs d.1)
  | inr e ↦ rw e (DistinctKeys-where_rows p cs d.1)
]

DistinctKeys-insert :
    (c : Conversation) (cs : List Conversation)
    → All (λ y. pk c ≢ pk y) cs
    → DistinctKeys cs
    → DistinctKeys (insert_by_expiry c cs)
unfolding insert_by_expiry
DistinctKeys-insert c [] h d = (tt, tt)
DistinctKeys-insert c (x ∷ cs) h d = elim (Bool-cases (leb (expiry c) (expiry x))) [
  | inl e ↦ rw e (h, d)
  | inr e ↦ rw e (
    All-insert_by_expiry (λ y. pk x ≢ pk y) c cs (λ same. h.0 (sym same)) d.0,
    DistinctKeys-insert c cs h.1 d.1,
  )
]

DistinctKeys-order : (cs : List Conversation) → DistinctKeys cs → DistinctKeys (order_by_expiry cs)
unfolding order_by_expiry
DistinctKeys-order [] d = tt
DistinctKeys-order (c ∷ cs) d =
    DistinctKeys-insert c (order_by_expiry cs) (All-order_by_expiry (λ y. pk c ≢ pk y) cs d.0)
      (DistinctKeys-order cs d.1)

DistinctKeys-limit : (n : ℕ) (cs : List Conversation) → DistinctKeys cs → DistinctKeys (limit n cs)
unfolding limit
DistinctKeys-limit zero cs d = tt
DistinctKeys-limit (suc n) [] d = tt
DistinctKeys-limit (suc n) (c ∷ cs) d =
    (All-limit (λ y. pk c ≢ pk y) n cs d.0, DistinctKeys-limit n cs d.1)

pub DistinctKeys-expired_rows :
    (now : ℕ) (cs : List Conversation) → DistinctKeys cs → DistinctKeys (expired_rows now cs)
unfolding expired_rows
DistinctKeys-expired_rows now cs d =
    DistinctKeys-limit batch_limit (order_by_expiry (where_rows (is_expired now) cs)) (
      DistinctKeys-order (where_rows (is_expired now) cs)
        (DistinctKeys-where_rows (is_expired now) cs d))

-- The order.
abbrev IsOrdered : List Conversation → Type 0
IsOrdered [] = Unit
IsOrdered (c ∷ cs) = All (λ d. expiry c ≤ expiry d) cs × IsOrdered cs

later_than : (a b : ℕ) → leb a b ≡ false → b ≤ a
later_than a b h = ground arith

IsOrdered-insert :
    (c : Conversation) (cs : List Conversation) → IsOrdered cs → IsOrdered (insert_by_expiry c cs)
unfolding insert_by_expiry
IsOrdered-insert c [] o = (tt, tt)
IsOrdered-insert c (d ∷ ds) o = elim (Bool-cases (leb (expiry c) (expiry d))) [
  | inl e ↦
      let first : expiry c ≤ expiry d = leb→le (expiry c) (expiry d) e in
      rw e (
        (
          first,
          All-map (λ y. expiry d ≤ expiry y) (λ y. expiry c ≤ expiry y) ds (λ y h. omega arith) o.0,
        ),
        o,
      )
  | inr e ↦ rw e (
    All-insert_by_expiry (λ y. expiry d ≤ expiry y) c ds (later_than (expiry c) (expiry d) e) o.0,
    IsOrdered-insert c ds o.1,
  )
]

IsOrdered-order : (cs : List Conversation) → IsOrdered (order_by_expiry cs)
unfolding order_by_expiry
IsOrdered-order [] = tt
IsOrdered-order (c ∷ cs) = IsOrdered-insert c (order_by_expiry cs) (IsOrdered-order cs)

-- Ordering and selecting lose no lock that expired before an earlier moment.
module _ (t : ℕ) where
  count-insert :
      (c : Conversation) (cs : List Conversation)
      → count (is_expired t) (insert_by_expiry c cs)
        ≡ bit (is_expired t c) + count (is_expired t) cs
  unfolding insert_by_expiry
  count-insert c [] = refl
  count-insert c (d ∷ ds) = elim (Bool-cases (leb (expiry c) (expiry d))) [
    | inl e ↦ rw e refl
    | inr e ↦ rw e (omega (arith, count-insert c ds))
  ]

  count-order :
      (cs : List Conversation) → count (is_expired t) (order_by_expiry cs) ≡ count (is_expired t) cs
  unfolding order_by_expiry
  count-order [] = refl
  count-order (c ∷ cs) = omega (arith, count-insert c (order_by_expiry cs), count-order cs)

  still_expired :
      (now : ℕ) (c : Conversation) → t ≤ now → is_expired now c ≡ false → is_expired t c ≡ false
  still_expired now c h e = ground arith

  count-where_rows :
      (now : ℕ) (cs : List Conversation)
      → t ≤ now
      → count (is_expired t) (where_rows (is_expired now) cs) ≡ count (is_expired t) cs
  count-where_rows now [] h = refl
  count-where_rows now (c ∷ cs) h = elim (Bool-cases (is_expired now c)) [
    | inl e ↦ rw e (omega (arith, count-where_rows now cs h))
    | inr e ↦ rw (e, still_expired now c h e) (omega (arith, count-where_rows now cs h))
  ]

-- Of two rows in this order that have both expired, the later one is no staler than the first.
no_staler :
    (t now : ℕ) (held held' e f : Option ℕ)
    → (not (is_none held) && is_before e t) ≡ false
    → (not (is_none held) && is_before e now) ≡ true
    → (not (is_none held') && is_before f now) ≡ true
    → (elim e [ none ↦ 0 | some x ↦ x ]) ≤ (elim f [ none ↦ 0 | some x ↦ x ])
    → (not (is_none held') && is_before f t) ≡ false
no_staler t now none held' e f a b c o = cc
no_staler t now (some x) none e f a b c o = refl
no_staler t now (some x) (some y) none f a b c o = cc
no_staler t now (some x) (some y) (some e) none a b c o = cc
no_staler t now (some x) (some y) (some e) (some f) a b c o = ground arith

module _ (t now : ℕ) where
  none_staler :
      (c : Conversation) (cs : List Conversation)
      → is_expired t c ≡ false
      → is_expired now c ≡ true
      → All (λ d. is_expired now d ≡ true) cs
      → All (λ d. expiry c ≤ expiry d) cs
      → count (is_expired t) cs ≡ 0
  none_staler c [] a b h o = refl
  none_staler c (d ∷ ds) a b h o =
      rw (no_staler t now c.locked_by d.locked_by c.lock_expires_at d.lock_expires_at a b h.0 o.0)
        (omega (arith, none_staler c ds a b h.1 o.1))

  count-limit_le :
      (n : ℕ) (cs : List Conversation) → count (is_expired t) (limit n cs) ≤ count (is_expired t) cs
  unfolding limit
  count-limit_le zero cs = omega arith
  count-limit_le (suc n) [] = omega arith
  count-limit_le (suc n) (c ∷ cs) = omega (arith, count-limit_le n cs)

  count-limit :
      (n : ℕ) (cs : List Conversation)
      → IsOrdered cs
      → All (λ d. is_expired now d ≡ true) cs
      → count (is_expired t) (limit n cs) + (count (is_expired t) cs - n) ≡ count (is_expired t) cs
  unfolding limit
  count-limit zero cs o h = omega arith
  count-limit (suc n) [] o h = omega arith
  count-limit (suc n) (c ∷ cs) o h = elim (Bool-cases (is_expired t c)) [
    | inl e ↦ rw e (omega (arith, count-limit n cs o.1 h.1))
    | inr e ↦ rw e (omega (arith, none_staler c cs e h.0 h.1 o.0, count-limit_le n cs))
  ]

every_expired :
    (now : ℕ) (cs : List Conversation)
    → All (λ d. is_expired now d ≡ true) (where_rows (is_expired now) cs)
every_expired now [] = tt
every_expired now (c ∷ cs) = elim (Bool-cases (is_expired now c)) [
  | inl e ↦ rw e (e, every_expired now cs)
  | inr e ↦ rw e (every_expired now cs)
]

pub expired_rows-is_expired :
    (now : ℕ) (cs : List Conversation) → All (λ d. is_expired now d ≡ true) (expired_rows now cs)
unfolding expired_rows
expired_rows-is_expired now cs =
    let found = where_rows (is_expired now) cs in
    All-limit (λ d. is_expired now d ≡ true) batch_limit (order_by_expiry found)
      (All-order_by_expiry (λ d. is_expired now d ≡ true) found (every_expired now cs))

-- The stalest locks come first: of those that had expired before `t`, a batch holds as many as fit.
pub count-expired_rows :
    (t now : ℕ) (cs : List Conversation)
    → t ≤ now
    → count (is_expired t) (expired_rows now cs) + (count (is_expired t) cs - batch_limit)
      ≡ count (is_expired t) cs
unfolding expired_rows
count-expired_rows t now cs h =
    let found = where_rows (is_expired now) cs in
    rw (sym (count-where_rows t now cs h), sym (count-order t found))
      (count-limit t now batch_limit (order_by_expiry found) (IsOrdered-order found)
        (All-order_by_expiry (λ d. is_expired now d ≡ true) found (every_expired now cs)))
