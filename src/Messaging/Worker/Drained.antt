-- ===== src/Messaging/Worker/Drained.antt =====
-- A worker that empties the queue of a message (backend/app/modules/messaging/tasks.py).
use engage_os.Base.{
  ℕ, ◌+◌, ◌-◌, ◌≤◌, ◌≡◌, refl, Bool, true, false, Option, none, some, List, [], ◌∷◌, ◌++◌, length,
  ltb, arith, inl, inr, Bool-cases,
}
use engage_os.Messaging.Delivery.{Task, send, reset, Delivery, is_failed_status}
use engage_os.Messaging.Worker.{
  MetaResult, accepted, refused, max_retries, redis_down_max_retries, is_queued, retry_task,
  handle_send_failure, after_call, Weather, run_task, take_out, run, run_taken, happen,
}

-- The runs that a task can lead to: itself, and each time that it may be put back.
abbrev pub weight_of : Task → ℕ
weight_of (send attempt) = 1 + (redis_down_max_retries - attempt)
weight_of reset = 2 + redis_down_max_retries

abbrev pub weight : List Task → ℕ
weight [] = 0
weight (t ∷ ts) = weight_of t + weight ts

weight-append : (ts : List Task) (t : Task) → weight (ts ++ t ∷ []) ≡ weight ts + weight_of t
weight-append [] t = omega arith
weight-append (u ∷ ts) t = omega (arith, weight-append ts t)

abbrev IsLess : ℕ → Delivery → Type 0
IsLess n d = weight d.tasks + 1 ≤ n

module _ (is_retried : ℕ → ℕ → Bool) where
  -- A worker that always runs the task that has waited longest.
  unfoldable pub work : List Weather → Delivery → Delivery
  work [] d = d
  work (w ∷ ws) d = work ws (happen is_retried (run 0 w) d)

module _ (is_retried : ℕ → ℕ → Bool)
    (within_max : (n max : ℕ) → is_retried n max ≡ true → n + 1 ≤ max) where
  retry_task-IsLess :
      (attempt max : ℕ) (d : Delivery)
      → max ≤ redis_down_max_retries
      → IsLess (weight_of (send attempt) + weight d.tasks) (retry_task is_retried attempt max d)
  retry_task-IsLess attempt max d small = elim (Bool-cases (is_retried attempt max)) [
    | inr e ↦ rw e (omega arith)
    | inl e ↦
        let left = within_max attempt max e in
        rw (e, weight-append d.tasks (send (attempt + 1))) (omega arith)
  ]

  failure-IsLess :
      (attempt : ℕ) (retryable : Bool) (code : Option ℕ) (d : Delivery)
      → IsLess
          (weight_of (send attempt) + weight d.tasks)
          (handle_send_failure is_retried attempt retryable code d)
  failure-IsLess attempt false code d = omega arith
  failure-IsLess attempt true code d = elim (Bool-cases (ltb max_retries (attempt + 1))) [
    | inl e ↦ rw e (omega arith)
    | inr e ↦ rw e (
        retry_task-IsLess attempt max_retries (record d { retry_count = d.retry_count + 1 })
          (omega arith))
  ]

  after_call-IsLess :
      (result : MetaResult) (attempt : ℕ) (d : Delivery)
      → IsLess (weight_of (send attempt) + weight d.tasks) (after_call is_retried result attempt d)
  after_call-IsLess (accepted none) attempt d = omega arith
  after_call-IsLess (accepted (some wamid)) attempt d = omega arith
  after_call-IsLess (refused retryable code) attempt d = failure-IsLess attempt retryable code d

  run_task-IsLess :
      (w : Weather) (t : Task) (d : Delivery)
      → IsLess (weight_of t + weight d.tasks) (run_task is_retried w t d)
  run_task-IsLess w (send attempt) d = elim (Bool-cases w.redis_healthy) [
    | inr e ↦ rw e (retry_task-IsLess attempt redis_down_max_retries d (omega arith))
    | inl e ↦ elim (Bool-cases (is_queued d.status)) [
      | inr q ↦ rw (e, q) (omega arith)
      | inl q ↦ rw (e, q) (after_call-IsLess w.result attempt (record d { calls = d.calls + 1 }))
    ]
  ]
  run_task-IsLess w reset d = elim (Bool-cases w.retry_enabled) [
    | inr e ↦ rw e (omega arith)
    | inl e ↦ elim (Bool-cases (is_failed_status d.status)) [
      | inr f ↦ rw (e, f) (omega arith)
      | inl f ↦ rw (e, f, weight-append d.tasks (send 0)) (omega arith)
    ]
  ]

  first-IsLess :
      (w : Weather) (d : Delivery) (ts : List Task)
      → weight (run_taken is_retried w (take_out 0 ts) (record d { tasks = ts })).tasks
        ≤ weight ts - 1
  first-IsLess w d [] = omega arith
  first-IsLess w d (t ∷ ts) =
      let less = run_task-IsLess w t (record d { tasks = ts }) in omega arith

  weight-zero : (ts : List Task) → weight ts ≤ 0 → ts ≡ []
  weight-zero [] h = refl
  weight-zero (send a ∷ ts) h = absurd (omega arith)
  weight-zero (reset ∷ ts) h = absurd (omega arith)

  -- The tasks of a message come to an end between callbacks: a worker with as many runs as the tasks
  -- that are pending weigh leaves none of them, whatever each run meets.
  pub work-ends :
      (ws : List Weather) (d : Delivery)
      → weight d.tasks ≤ length ws
      → (work is_retried ws d).tasks ≡ []
  unfolding work happen
  work-ends [] d h = weight-zero d.tasks h
  work-ends (w ∷ ws) d h =
      let less = first-IsLess w d d.tasks in
      work-ends ws (run_taken is_retried w (take_out 0 d.tasks) d) (omega arith)
