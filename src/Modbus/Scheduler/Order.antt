-- ===== src/Modbus/Scheduler/Order.antt =====
-- The queue of xedge/drivers/modbus/scheduler.py stays in the order of priorities and, within one,
-- of submission.
use xedge.Prelude.{
  ℕ, ◌+◌, ◌≤◌, ◌<◌, ◌≡◌, refl, sym, ap, ◌∙◌, ◌≢◌, ◌⊎◌, inl, inr, true, false, Bool-cases,
  List-cases, List, [], ◌∷◌, All, All-imp, arith, subst, if◌then◌else◌,
}
use xedge.Prelude.Sort.{insert_sorted-All, IsSorted, insert_sorted-IsSorted}
use xedge.Modbus.Scheduler.{
  QueuedRequest, Consumer, not_started, waiting, executing, died, Scheduler, Outcome, Action,
  starts, takes, stops, breaks, submits, finishes, cancels, request_lt, outcome_of, is_cancelled,
  settle, take_next, break_off, new_scheduler, start, submit, finish, cancel, stop, act, act_all,
}

-- `a` is served no later than `b`: a higher priority, or the same and submitted no later.
abbrev pub Before : {J : Type 0} → QueuedRequest J → QueuedRequest J → Type 0
Before a b = (a.priority < b.priority) ⊎ ((a.priority ≡ b.priority) × (a.sequence ≤ b.sequence))

module _ {J : Type 0} where
  lt-Before : (a b : QueuedRequest J) → request_lt a b ≡ true → Before a b
  lt-Before a b h = ground arith

  not_lt-Before : (a b : QueuedRequest J) → request_lt a b ≡ false → Before b a
  not_lt-Before a b h = ground arith

  Before-trans : (a b c : QueuedRequest J) → Before a b → Before b c → Before a c
  Before-trans a b c h l = ground arith

  abbrev pub IsIssued : ℕ → Consumer J → Type 0
  IsIssued n (executing item) = item.sequence < n
  IsIssued n _ = Unit

  later_IsIssued : (n : ℕ) (c : Consumer J) → IsIssued n c → IsIssued (n + 1) c
  later_IsIssued n (executing item) h = omega arith
  later_IsIssued n not_started h = tt
  later_IsIssued n waiting h = tt
  later_IsIssued n died h = tt

  pub Consumer-cases :
      (c : Consumer J)
      → (c ≡ not_started)
        ⊎ ((c ≡ waiting) ⊎ (((item : QueuedRequest J) × (c ≡ executing item)) ⊎ (c ≡ died)))
  Consumer-cases not_started = inl refl
  Consumer-cases waiting = inr (inl refl)
  Consumer-cases (executing item) = inr (inr (inl (item, refl)))
  Consumer-cases died = inr (inr (inr refl))

module _ {J R : Type 0} where
  -- The queue is in order, and every sequence number in use was given out.
  pub record IsOrdered (s : Scheduler J R) : Type 0 where
    pub sorted : IsSorted Before s.queue
    pub issued : All (λ r. r.sequence < s.counter) s.queue
    pub running : IsIssued s.counter s.consumer

  submit-IsOrdered :
      (p : ℕ) (job : J) (s : Scheduler J R) → IsOrdered s → IsOrdered (submit p job s)
  unfolding submit
  submit-IsOrdered p job s h =
      let r : QueuedRequest J = record { priority = p; sequence = s.counter; job = job } in
      record {
        sorted =
            insert_sorted-IsSorted request_lt Before lt-Before not_lt-Before Before-trans r s.queue
              h.sorted;
        issued =
            insert_sorted-All request_lt (λ x. x.sequence < s.counter + 1) r s.queue (omega arith)
              (All-imp _ _ s.queue (λ x l. omega arith) h.issued);
        running = later_IsIssued s.counter s.consumer h.running;
      }

  -- The consumer takes the first item, unless the future of the item is cancelled.
  pub take_next-first :
      (s : Scheduler J R) (item : QueuedRequest J) (rest : List (QueuedRequest J))
      → s.consumer ≡ waiting
      → s.queue ≡ item ∷ rest
      → take_next s ≡ (
          if is_cancelled (outcome_of item.sequence s.futures)
          then record s { queue = rest }
          else record s { queue = rest; consumer = executing item })
  unfolding take_next
  take_next-first s item rest w q = rw (w, q) refl

  pub take_next-idle :
      (s : Scheduler J R) → (s.consumer ≢ waiting) ⊎ (s.queue ≡ []) → take_next s ≡ s
  unfolding take_next
  take_next-idle s (inl h) = elim (Consumer-cases s.consumer) [
    | inl e ↦ rw e refl
    | inr (inl e) ↦ absurd (h e)
    | inr (inr (inl (item, e))) ↦ rw e refl
    | inr (inr (inr e)) ↦ rw e refl
  ]
  take_next-idle s (inr q) = elim (Consumer-cases s.consumer) [
    | inl e ↦ rw e refl
    | inr (inl e) ↦ rw (e, q) refl
    | inr (inr (inl (item, e))) ↦ rw e refl
    | inr (inr (inr e)) ↦ rw e refl
  ]

  take_next-IsOrdered : (s : Scheduler J R) → IsOrdered s → IsOrdered (take_next s)
  take_next-IsOrdered s h = elim (List-cases s.queue) [
    | inl empty ↦ rw (take_next-idle s (inr empty)) h
    | inr (item, rest, q) ↦ elim (Consumer-cases s.consumer) [
      | inl e ↦ rw (take_next-idle s (inl (λ w. cc))) h
      | inr (inr (inl (running, e))) ↦ rw (take_next-idle s (inl (λ w. cc))) h
      | inr (inr (inr e)) ↦ rw (take_next-idle s (inl (λ w. cc))) h
      | inr (inl e) ↦
          let sorted : IsSorted Before (item ∷ rest) = subst (IsSorted Before) q h.sorted in
          let issued : All (λ r. r.sequence < s.counter) (item ∷ rest) =
            subst (All (λ r. r.sequence < s.counter)) q h.issued in
          rw (take_next-first s item rest e q)
            (elim (Bool-cases (is_cancelled (outcome_of item.sequence s.futures))) [
              | inl skip ↦
                  rw skip (record { sorted = sorted.1; issued = issued.1; running = h.running })
              | inr go ↦ rw go (record { sorted = sorted.1; issued = issued.1; running = issued.0 })
            ])
    ]
  ]

  pub finish-executing :
      (o : Outcome R) (s : Scheduler J R) (item : QueuedRequest J)
      → s.consumer ≡ executing item
      → finish o s ≡ record s { consumer = waiting; futures = settle item.sequence o s.futures }
  unfolding finish
  finish-executing o s item e = rw e refl

  pub finish-idle :
      (o : Outcome R) (s : Scheduler J R)
      → (s.consumer ≡ not_started) ⊎ ((s.consumer ≡ waiting) ⊎ (s.consumer ≡ died))
      → finish o s ≡ s
  unfolding finish
  finish-idle o s (inl e) = rw e refl
  finish-idle o s (inr (inl e)) = rw e refl
  finish-idle o s (inr (inr e)) = rw e refl

  pub break_off-executing :
      (s : Scheduler J R) (item : QueuedRequest J)
      → s.consumer ≡ executing item
      → break_off s ≡ record s { consumer = died }
  unfolding break_off
  break_off-executing s item e = rw e refl

  pub break_off-idle :
      (s : Scheduler J R)
      → (s.consumer ≡ not_started) ⊎ ((s.consumer ≡ waiting) ⊎ (s.consumer ≡ died))
      → break_off s ≡ s
  unfolding break_off
  break_off-idle s (inl e) = rw e refl
  break_off-idle s (inr (inl e)) = rw e refl
  break_off-idle s (inr (inr e)) = rw e refl

  pub start-new :
      (s : Scheduler J R) → s.consumer ≡ not_started → start s ≡ record s { consumer = waiting }
  unfolding start
  start-new s e = rw e refl

  pub start-again : (s : Scheduler J R) → s.consumer ≢ not_started → start s ≡ s
  unfolding start
  start-again s h = elim (Consumer-cases s.consumer) [
    | inl e ↦ absurd (h e)
    | inr (inl e) ↦ rw e refl
    | inr (inr (inl (item, e))) ↦ rw e refl
    | inr (inr (inr e)) ↦ rw e refl
  ]

  finish-IsOrdered : (o : Outcome R) (s : Scheduler J R) → IsOrdered s → IsOrdered (finish o s)
  finish-IsOrdered o s h = elim (Consumer-cases s.consumer) [
    | inl e ↦ rw (finish-idle o s (inl e)) h
    | inr (inl e) ↦ rw (finish-idle o s (inr (inl e))) h
    | inr (inr (inl (item, e))) ↦
        rw (finish-executing o s item e)
          (record { sorted = h.sorted; issued = h.issued; running = tt })
    | inr (inr (inr e)) ↦ rw (finish-idle o s (inr (inr e))) h
  ]

  break_off-IsOrdered : (s : Scheduler J R) → IsOrdered s → IsOrdered (break_off s)
  break_off-IsOrdered s h = elim (Consumer-cases s.consumer) [
    | inl e ↦ rw (break_off-idle s (inl e)) h
    | inr (inl e) ↦ rw (break_off-idle s (inr (inl e))) h
    | inr (inr (inl (item, e))) ↦
        rw (break_off-executing s item e)
          (record { sorted = h.sorted; issued = h.issued; running = tt })
    | inr (inr (inr e)) ↦ rw (break_off-idle s (inr (inr e))) h
  ]

  start-IsOrdered : (s : Scheduler J R) → IsOrdered s → IsOrdered (start s)
  start-IsOrdered s h = elim (Consumer-cases s.consumer) [
    | inl e ↦ rw (start-new s e) (record { sorted = h.sorted; issued = h.issued; running = tt })
    | inr (inl e) ↦ rw (start-again s (λ n. cc)) h
    | inr (inr (inl (item, e))) ↦ rw (start-again s (λ n. cc)) h
    | inr (inr (inr e)) ↦ rw (start-again s (λ n. cc)) h
  ]

  pub act-IsOrdered : (a : Action J R) (s : Scheduler J R) → IsOrdered s → IsOrdered (act a s)
  unfolding act stop cancel
  act-IsOrdered starts s h = start-IsOrdered s h
  act-IsOrdered takes s h = take_next-IsOrdered s h
  act-IsOrdered stops s h = record { sorted = tt; issued = tt; running = tt }
  act-IsOrdered (submits p job) s h = submit-IsOrdered p job s h
  act-IsOrdered (finishes o) s h = finish-IsOrdered o s h
  act-IsOrdered breaks s h = break_off-IsOrdered s h
  act-IsOrdered (cancels n) s h = record {
    sorted = h.sorted;
    issued = h.issued;
    running = h.running;
  }

  pub act_all-IsOrdered :
      (as' : List (Action J R)) (s : Scheduler J R) → IsOrdered s → IsOrdered (act_all as' s)
  unfolding act_all
  act_all-IsOrdered [] s h = h
  act_all-IsOrdered (a ∷ rest) s h = act_all-IsOrdered rest (act a s) (act-IsOrdered a s h)

  pub new-IsOrdered : IsOrdered new_scheduler
  unfolding new_scheduler
  new-IsOrdered = record { sorted = tt; issued = tt; running = tt }

  taken-first :
      (s : Scheduler J R) (item : QueuedRequest J)
      → IsOrdered s
      → s.consumer ≡ waiting
      → (take_next s).consumer ≡ executing item
      → (rest : List (QueuedRequest J)) × (s.queue ≡ item ∷ rest)
        × ((take_next s).queue ≡ rest)
        × All (λ r. Before item r) rest
  taken-first s item h w e = elim (List-cases s.queue) [
    | inl empty ↦ absurd (cc (take_next-idle s (inr empty)))
    | inr (first, rest, q) ↦
        let sorted : IsSorted Before (first ∷ rest) = subst (IsSorted Before) q h.sorted in
        elim (Bool-cases (is_cancelled (outcome_of first.sequence s.futures))) [
          | inl skip ↦
              let t : take_next s ≡ record s { queue = rest } =
                take_next-first s first rest w q ∙ rw skip refl in
              absurd (cc (ap (λ (x : Scheduler J R). x.consumer) t))
          | inr go ↦
              let t : take_next s ≡ record s { queue = rest; consumer = executing first } =
                take_next-first s first rest w q ∙ rw go refl in
              let same : first ≡ item = cc (ap (λ (x : Scheduler J R). x.consumer) t) in
              (
                rest,
                q ∙ ap (λ r. r ∷ rest) same,
                ap (λ (x : Scheduler J R). x.queue) t,
                subst (λ r. All (Before r) rest) same sorted.0,
              )
        ]
  ]

  -- Whatever happened to a scheduler since it was made - submissions, rounds of the consumer, callers
  -- that gave up, stops and starts in any order - when the consumer gets to work on a request, no
  -- request that waits has a higher priority, and none of its own priority was submitted before it:
  -- every write goes ahead of every read, and equal requests go in the order of their submission.
  pub served_first :
      (as' : List (Action J R)) (item : QueuedRequest J)
      → (act_all as' new_scheduler).consumer ≡ waiting
      → (take_next (act_all as' new_scheduler)).consumer ≡ executing item
      → All (λ r. Before item r) (take_next (act_all as' new_scheduler)).queue
  served_first as' item w e =
      let h = act_all-IsOrdered as' new_scheduler new-IsOrdered in
      let (rest, q, q', first) = taken-first (act_all as' new_scheduler) item h w e in
      subst (All (Before item)) (sym q') first
