-- ===== src/Modbus/Scheduler/Abandoned.antt =====
-- The request that xedge/drivers/modbus/scheduler.py works on when `stop` is called: nobody ever sets
-- its future.
use xedge.Prelude.{
  ℕ, ◌<◌, ◌≡◌, ◌≢◌, refl, sym, ◌∙◌, inl, inr, false, Bool-cases, List-cases, List, [], ◌∷◌, All,
  All-imp, arith, subst,
}
use xedge.Prelude.Sort.{insert_sorted, insert_sorted-All, IsSorted}
use xedge.Modbus.Scheduler.{
  QueuedRequest, Consumer, not_started, waiting, executing, died, Scheduler, Outcome, stopped,
  Action, starts, takes, stops, breaks, break_off, submits, finishes, cancels, request_lt,
  outcome_of, is_cancelled, is_done, settle, fail_all, take_next, new_scheduler, start, submit,
  finish, cancel, stop, act, act_all,
}
use xedge.Modbus.Scheduler.Order.{
  Consumer-cases, IsIssued, IsOrdered, act-IsOrdered, new-IsOrdered, take_next-first,
  take_next-idle, finish-executing, finish-idle, break_off-executing, break_off-idle, start-new,
  start-again,
}
use xedge.Modbus.Scheduler.Futures.{is_done-settle}

module _ {J : Type 0} where
  abbrev Differs : ℕ → QueuedRequest J → Type 0
  Differs n r = r.sequence ≢ n

  -- The request at work is not in the queue.
  abbrev NotQueued : Consumer J → List (QueuedRequest J) → Type 0
  NotQueued (executing item) queue = All (Differs item.sequence) queue
  NotQueued _ queue = Unit

  abbrev Distinct : QueuedRequest J → QueuedRequest J → Type 0
  Distinct a b = Differs a.sequence b

  insert-Distinct :
      (x : QueuedRequest J) (xs : List (QueuedRequest J))
      → All (Differs x.sequence) xs
      → IsSorted Distinct xs
      → IsSorted Distinct (insert_sorted request_lt x xs)
  unfolding insert_sorted
  insert-Distinct x [] h l = (tt, tt)
  insert-Distinct x (y ∷ ys) h l = elim (Bool-cases (request_lt x y)) [
    | inl e ↦ rw e (h, l)
    | inr e ↦ rw e (
      insert_sorted-All request_lt (Distinct y) x ys (λ same. h.0 (sym same)) l.0,
      insert-Distinct x ys h.1 l.1,
    )
  ]

  abbrev NotRunning : ℕ → Consumer J → Type 0
  NotRunning n (executing item) = item.sequence ≢ n
  NotRunning n _ = Unit

module _ {J R : Type 0} where
  record IsUnique (s : Scheduler J R) : Type 0 where
    ordered : IsOrdered s
    distinct : IsSorted Distinct s.queue
    apart : NotQueued s.consumer s.queue

  submit-IsUnique :
      (p : ℕ) (job : J) (s : Scheduler J R)
      → IsUnique s
      → IsOrdered (submit p job s)
      → IsUnique (submit p job s)
  unfolding submit
  submit-IsUnique p job s h o =
      let r : QueuedRequest J = record { priority = p; sequence = s.counter; job = job } in
      record {
        ordered = o;
        distinct =
            insert-Distinct r s.queue
              (All-imp _ _ s.queue (λ x l e. absurd (omega (arith, l, e))) h.ordered.issued)
              h.distinct;
        apart = still s.consumer h.apart h.ordered.running;
      }
    where
      still :
          (c : Consumer J)
          → NotQueued c s.queue
          → IsIssued s.counter c
          → NotQueued c (
              insert_sorted request_lt
                (record { priority = p; sequence = s.counter; job = job })
                s.queue)
      still (executing item) a i =
          insert_sorted-All request_lt (Differs item.sequence) _ s.queue
            (λ e. absurd (omega (arith, e, i))) a
      still not_started a i = tt
      still waiting a i = tt
      still died a i = tt

  take-IsUnique :
      (s : Scheduler J R) → IsUnique s → IsOrdered (take_next s) → IsUnique (take_next s)
  take-IsUnique s h o = elim (List-cases s.queue) [
    | inl empty ↦ rw (take_next-idle s (inr empty)) h
    | inr (item, rest, q) ↦ elim (Consumer-cases s.consumer) [
      | inl e ↦ rw (take_next-idle s (inl (λ w. cc))) h
      | inr (inr (inl (running, e))) ↦ rw (take_next-idle s (inl (λ w. cc))) h
      | inr (inr (inr e)) ↦ rw (take_next-idle s (inl (λ w. cc))) h
      | inr (inl e) ↦
          let d : IsSorted Distinct (item ∷ rest) = subst (IsSorted Distinct) q h.distinct in
          let t = take_next-first s item rest e q in
          elim (Bool-cases (is_cancelled (outcome_of item.sequence s.futures))) [
            | inl skip ↦
                let t' : take_next s ≡ record s { queue = rest } = t ∙ rw skip refl in
                let o' : IsOrdered (record s { queue = rest }) = subst IsOrdered t' o in
                rw t' (record { ordered = o'; distinct = d.1; apart = rw e tt })
            | inr go ↦
                let t' : take_next s ≡ record s { queue = rest; consumer = executing item } =
                  t ∙ rw go refl in
                let o' : IsOrdered (record s { queue = rest; consumer = executing item }) =
                  subst IsOrdered t' o in
                rw t' (record { ordered = o'; distinct = d.1; apart = d.0 })
          ]
    ]
  ]

  finish-IsUnique :
      (o : Outcome R) (s : Scheduler J R)
      → IsUnique s
      → IsOrdered (finish o s)
      → IsUnique (finish o s)
  finish-IsUnique o s h k = elim (Consumer-cases s.consumer) [
    | inl e ↦ rw (finish-idle o s (inl e)) h
    | inr (inl e) ↦ rw (finish-idle o s (inr (inl e))) h
    | inr (inr (inl (item, e))) ↦
        let t = finish-executing o s item e in
        let k' = subst IsOrdered t k in
        rw t (record { ordered = k'; distinct = h.distinct; apart = tt })
    | inr (inr (inr e)) ↦ rw (finish-idle o s (inr (inr e))) h
  ]

  break_off-IsUnique :
      (s : Scheduler J R) → IsUnique s → IsOrdered (break_off s) → IsUnique (break_off s)
  break_off-IsUnique s h k = elim (Consumer-cases s.consumer) [
    | inl e ↦ rw (break_off-idle s (inl e)) h
    | inr (inl e) ↦ rw (break_off-idle s (inr (inl e))) h
    | inr (inr (inl (item, e))) ↦
        let t = break_off-executing s item e in
        let k' = subst IsOrdered t k in
        rw t (record { ordered = k'; distinct = h.distinct; apart = tt })
    | inr (inr (inr e)) ↦ rw (break_off-idle s (inr (inr e))) h
  ]

  start-IsUnique : (s : Scheduler J R) → IsUnique s → IsOrdered (start s) → IsUnique (start s)
  start-IsUnique s h k = elim (Consumer-cases s.consumer) [
    | inl e ↦
        let t = start-new s e in
        let k' = subst IsOrdered t k in
        rw t (record { ordered = k'; distinct = h.distinct; apart = tt })
    | inr (inl e) ↦ rw (start-again s (λ n. cc)) h
    | inr (inr (inl (item, e))) ↦ rw (start-again s (λ n. cc)) h
    | inr (inr (inr e)) ↦ rw (start-again s (λ n. cc)) h
  ]

  act-IsUnique : (a : Action J R) (s : Scheduler J R) → IsUnique s → IsUnique (act a s)
  unfolding act stop cancel
  act-IsUnique starts s h = start-IsUnique s h (act-IsOrdered starts s h.ordered)
  act-IsUnique takes s h = take-IsUnique s h (act-IsOrdered takes s h.ordered)
  act-IsUnique stops s h = record {
    ordered = act-IsOrdered stops s h.ordered;
    distinct = tt;
    apart = tt;
  }
  act-IsUnique (submits p job) s h =
      submit-IsUnique p job s h (act-IsOrdered (submits p job) s h.ordered)
  act-IsUnique (finishes o) s h = finish-IsUnique o s h (act-IsOrdered (finishes o) s h.ordered)
  act-IsUnique breaks s h = break_off-IsUnique s h (act-IsOrdered breaks s h.ordered)
  act-IsUnique (cancels n) s h = record {
    ordered = act-IsOrdered (cancels n) s h.ordered;
    distinct = h.distinct;
    apart = h.apart;
  }

  act_all-IsUnique :
      (as' : List (Action J R)) (s : Scheduler J R) → IsUnique s → IsUnique (act_all as' s)
  unfolding act_all
  act_all-IsUnique [] s h = h
  act_all-IsUnique (a ∷ rest) s h = act_all-IsUnique rest (act a s) (act-IsUnique a s h)

  new-IsUnique : IsUnique new_scheduler
  unfolding new_scheduler
  new-IsUnique = record { ordered = new-IsOrdered; distinct = tt; apart = tt }

  -- A future that is open and that no queued or running request carries.
  record IsAbandoned (n : ℕ) (s : Scheduler J R) : Type 0 where
    issued : n < s.counter
    unqueued : All (Differs n) s.queue
    idle : NotRunning n s.consumer
    open_future : is_done n s.futures ≡ false

  fail_all-open :
      (n : ℕ) (queue : List (QueuedRequest J)) (futures : List (ℕ × Outcome R))
      → All (Differs n) queue
      → is_done n futures ≡ false
      → is_done n (fail_all queue futures) ≡ false
  unfolding fail_all
  fail_all-open n [] futures h o = o
  fail_all-open n (item ∷ rest) futures h o =
      fail_all-open n rest (settle item.sequence stopped futures) h.1
        (is_done-settle item.sequence n stopped futures ∙ ground (arith, h.0))

  take-IsAbandoned : (n : ℕ) (s : Scheduler J R) → IsAbandoned n s → IsAbandoned n (take_next s)
  take-IsAbandoned n s h = elim (List-cases s.queue) [
    | inl empty ↦ rw (take_next-idle s (inr empty)) h
    | inr (item, rest, q) ↦ elim (Consumer-cases s.consumer) [
      | inl e ↦ rw (take_next-idle s (inl (λ w. cc))) h
      | inr (inr (inl (running, e))) ↦ rw (take_next-idle s (inl (λ w. cc))) h
      | inr (inr (inr e)) ↦ rw (take_next-idle s (inl (λ w. cc))) h
      | inr (inl e) ↦
          let u : All (Differs n) (item ∷ rest) = subst (All (Differs n)) q h.unqueued in
          rw (take_next-first s item rest e q)
            (elim (Bool-cases (is_cancelled (outcome_of item.sequence s.futures))) [
              | inl skip ↦ rw skip (record {
                issued = h.issued;
                unqueued = u.1;
                idle = h.idle;
                open_future = h.open_future;
              })
              | inr go ↦ rw go (record {
                issued = h.issued;
                unqueued = u.1;
                idle = u.0;
                open_future = h.open_future;
              })
            ])
    ]
  ]

  finish-IsAbandoned :
      (n : ℕ) (o : Outcome R) (s : Scheduler J R) → IsAbandoned n s → IsAbandoned n (finish o s)
  finish-IsAbandoned n o s h = elim (Consumer-cases s.consumer) [
    | inl e ↦ rw (finish-idle o s (inl e)) h
    | inr (inl e) ↦ rw (finish-idle o s (inr (inl e))) h
    | inr (inr (inl (item, e))) ↦
        let other : item.sequence ≢ n = subst (NotRunning n) e h.idle in
        rw (finish-executing o s item e) (record {
          issued = h.issued;
          unqueued = h.unqueued;
          idle = tt;
          open_future =
              is_done-settle item.sequence n o s.futures ∙ ground (arith, h.open_future, other);
        })
    | inr (inr (inr e)) ↦ rw (finish-idle o s (inr (inr e))) h
  ]

  break_off-IsAbandoned :
      (n : ℕ) (s : Scheduler J R) → IsAbandoned n s → IsAbandoned n (break_off s)
  break_off-IsAbandoned n s h = elim (Consumer-cases s.consumer) [
    | inl e ↦ rw (break_off-idle s (inl e)) h
    | inr (inl e) ↦ rw (break_off-idle s (inr (inl e))) h
    | inr (inr (inl (item, e))) ↦ rw (break_off-executing s item e) (record {
      issued = h.issued;
      unqueued = h.unqueued;
      idle = tt;
      open_future = h.open_future;
    })
    | inr (inr (inr e)) ↦ rw (break_off-idle s (inr (inr e))) h
  ]

  start-IsAbandoned : (n : ℕ) (s : Scheduler J R) → IsAbandoned n s → IsAbandoned n (start s)
  start-IsAbandoned n s h = elim (Consumer-cases s.consumer) [
    | inl e ↦ rw (start-new s e) (record {
      issued = h.issued;
      unqueued = h.unqueued;
      idle = tt;
      open_future = h.open_future;
    })
    | inr (inl e) ↦ rw (start-again s (λ k. cc)) h
    | inr (inr (inl (item, e))) ↦ rw (start-again s (λ k. cc)) h
    | inr (inr (inr e)) ↦ rw (start-again s (λ k. cc)) h
  ]

  submit-IsAbandoned :
      (n p : ℕ) (job : J) (s : Scheduler J R) → IsAbandoned n s → IsAbandoned n (submit p job s)
  unfolding submit
  submit-IsAbandoned n p job s h = record {
    issued = omega (arith, h.issued);
    unqueued =
        insert_sorted-All request_lt (Differs n) _ s.queue
          (λ e. absurd (omega (arith, e, h.issued))) h.unqueued;
    idle = h.idle;
    open_future = h.open_future;
  }

  -- The caller of request `n` does not give up.
  abbrev pub Waits : ℕ → List (Action J R) → Type 0
  Waits n [] = Unit
  Waits n (cancels k ∷ rest) = (k ≢ n) × Waits n rest
  Waits n (a ∷ rest) = Waits n rest

  act_all-open :
      (n : ℕ) (as' : List (Action J R)) (s : Scheduler J R)
      → IsAbandoned n s
      → Waits n as'
      → is_done n (act_all as' s).futures ≡ false
  unfolding act_all act stop cancel
  act_all-open n [] s h w = h.open_future
  act_all-open n (starts ∷ rest) s h w = act_all-open n rest (start s) (start-IsAbandoned n s h) w
  act_all-open n (takes ∷ rest) s h w = act_all-open n rest (take_next s) (take-IsAbandoned n s h) w
  act_all-open n (submits p job ∷ rest) s h w =
      act_all-open n rest (submit p job s) (submit-IsAbandoned n p job s h) w
  act_all-open n (breaks ∷ rest) s h w =
      act_all-open n rest (break_off s) (break_off-IsAbandoned n s h) w
  act_all-open n (finishes o ∷ rest) s h w =
      act_all-open n rest (finish o s) (finish-IsAbandoned n o s h) w
  act_all-open n (stops ∷ rest) s h w =
      act_all-open n rest (stop s)
        (record {
          issued = h.issued;
          unqueued = tt;
          idle = tt;
          open_future = fail_all-open n s.queue s.futures h.unqueued h.open_future;
        })
        w
  act_all-open n (cancels k ∷ rest) s h w =
      act_all-open n rest (cancel k s)
        (record {
          issued = h.issued;
          unqueued = h.unqueued;
          idle = h.idle;
          open_future =
              is_done-settle k n Outcome.cancelled s.futures ∙ ground (arith, h.open_future, w.0);
        })
        w.1

  stop-IsAbandoned :
      (s : Scheduler J R) (item : QueuedRequest J)
      → IsUnique s
      → s.consumer ≡ executing item
      → is_done item.sequence s.futures ≡ false
      → IsAbandoned item.sequence (stop s)
  unfolding stop
  stop-IsAbandoned s item h e o =
      let issued : item.sequence < s.counter = subst (IsIssued s.counter) e h.ordered.running in
      let apart : All (Differs item.sequence) s.queue =
        subst (λ c. NotQueued c s.queue) e h.apart in
      record {
        issued = issued;
        unqueued = tt;
        idle = tt;
        open_future = fail_all-open item.sequence s.queue s.futures apart o;
      }

  -- When `stop` is called while a request is at work whose caller still waits, the caller waits for
  -- ever: whatever happens later, restarts included, its future gets neither a result nor an
  -- exception, unless the caller itself gives up.
  pub stop-abandons :
      (before after : List (Action J R)) (item : QueuedRequest J)
      → (act_all before new_scheduler).consumer ≡ executing item
      → is_done item.sequence (act_all before new_scheduler).futures ≡ false
      → Waits item.sequence after
      → is_done item.sequence (act_all after (stop (act_all before new_scheduler))).futures ≡ false
  stop-abandons before after item e o w =
      act_all-open item.sequence after (stop (act_all before new_scheduler))
        (stop-IsAbandoned (act_all before new_scheduler) item
          (act_all-IsUnique before new_scheduler new-IsUnique) e o)
        w
