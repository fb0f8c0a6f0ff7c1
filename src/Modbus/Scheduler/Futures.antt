-- ===== src/Modbus/Scheduler/Futures.antt =====
-- Where a request given to xedge/drivers/modbus/scheduler.py is after each step: in the queue, at work,
-- with its outcome, or left open.
use xedge.Prelude.{
  ℕ, ◌≡◌, refl, ◌∙◌, ◌⊎◌, inl, inr, Bool, true, ◌||◌, Bool-cases, List-cases, Option, none, some,
  List, [], ◌∷◌, Any, All, arith, subst, ◌==◌,
}
use xedge.Prelude.Sort.{insert_sorted}
use xedge.Modbus.Scheduler.{
  QueuedRequest, Consumer, not_started, waiting, executing, died, Scheduler, Outcome, stopped,
  cancelled, Action, stops, breaks, break_off, request_lt, outcome_of, is_cancelled, is_some,
  is_done, settle, fail_all, take_next, start, submit, finish, cancel, stop, act,
}
use xedge.Modbus.Scheduler.Order.{
  Consumer-cases, take_next-first, take_next-idle, finish-executing, finish-idle,
  break_off-executing, break_off-idle, start-new, start-again,
}

insert_sorted-Any :
    {A : Type 0} (le : A → A → Bool) (P : A → Type 0) (x : A) (xs : List A)
    → P x ⊎ Any P xs
    → Any P (insert_sorted le x xs)
unfolding insert_sorted
insert_sorted-Any le P x [] (inl h) = inl h
insert_sorted-Any le P x [] (inr h) = absurd h
insert_sorted-Any le P x (y ∷ ys) h = elim (Bool-cases (le x y)) [
  | inl e ↦ rw e h
  | inr e ↦ rw e (later (λ k. insert_sorted-Any le P x ys k) h)
]
  where
    later :
        (P x ⊎ Any P ys → Any P (insert_sorted le x ys))
        → P x ⊎ (P y ⊎ Any P ys)
        → P y ⊎ Any P (insert_sorted le x ys)
    later go (inl h) = inr (go (inl h))
    later go (inr (inl h)) = inl h
    later go (inr (inr h)) = inr (go (inr h))

module _ {R : Type 0} where
  pub is_done-settle :
      (n m : ℕ) (o : Outcome R) (futures : List (ℕ × Outcome R))
      → is_done m (settle n o futures) ≡ (n == m || is_done m futures)
  unfolding settle outcome_of
  is_done-settle n m o futures = ground arith

  done_later :
      (n m : ℕ) (o : Outcome R) (futures : List (ℕ × Outcome R))
      → is_done m futures ≡ true
      → is_done m (settle n o futures) ≡ true
  done_later n m o futures h = is_done-settle n m o futures ∙ ground arith

  settled :
      (n : ℕ) (o : Outcome R) (futures : List (ℕ × Outcome R))
      → is_done n (settle n o futures) ≡ true
  settled n o futures = is_done-settle n n o futures ∙ ground arith

  cancelled_done :
      (n : ℕ) (futures : List (ℕ × Outcome R))
      → is_cancelled (outcome_of n futures) ≡ true
      → is_done n futures ≡ true
  cancelled_done n futures h = cases (outcome_of n futures) h
    where
      cases : (o : Option (Outcome R)) → is_cancelled o ≡ true → is_some o ≡ true
      cases none h = cc
      cases (some o) h = refl

module _ {J : Type 0} where
  abbrev pub IsQueued : ℕ → List (QueuedRequest J) → Type 0
  IsQueued n queue = Any (λ r. r.sequence ≡ n) queue

  abbrev pub IsRunning : ℕ → Consumer J → Type 0
  IsRunning n (executing item) = item.sequence ≡ n
  IsRunning n _ = ⊥

  pub IsRunning-cases : (n : ℕ) (c : Consumer J) → IsRunning n c ⊎ (¬ IsRunning n c)
  IsRunning-cases n not_started = inr (λ r. r)
  IsRunning-cases n waiting = inr (λ r. r)
  IsRunning-cases n died = inr (λ r. r)
  IsRunning-cases n (executing item) = elim (Bool-cases (item.sequence == n)) [
    | inl e ↦ inl (ground arith)
    | inr e ↦ inr (λ r. absurd (ground (arith, r)))
  ]

module _ {J R : Type 0} where
  -- Where the request with number `n` is.
  abbrev pub Located : ℕ → List (QueuedRequest J) → Consumer J → List (ℕ × Outcome R) → Type 0
  Located n queue consumer futures =
      IsQueued n queue ⊎ (IsRunning n consumer ⊎ (is_done n futures ≡ true))

  abbrev pub IsLocated : ℕ → Scheduler J R → Type 0
  IsLocated n s = Located n s.queue s.consumer s.futures

  pub fail_all-done :
      (queue : List (QueuedRequest J)) (futures : List (ℕ × Outcome R)) (n : ℕ)
      → IsQueued n queue ⊎ (is_done n futures ≡ true)
      → is_done n (fail_all queue futures) ≡ true
  unfolding fail_all
  fail_all-done [] futures n (inl h) = absurd h
  fail_all-done [] futures n (inr h) = h
  fail_all-done (item ∷ rest) futures n (inl (inl e)) =
      fail_all-done rest (settle item.sequence stopped futures) n (
        inr (
          subst (λ k. is_done k (settle item.sequence stopped futures) ≡ true) e
            (settled item.sequence stopped futures)))
  fail_all-done (item ∷ rest) futures n (inl (inr q)) =
      fail_all-done rest (settle item.sequence stopped futures) n (inl q)
  fail_all-done (item ∷ rest) futures n (inr h) =
      fail_all-done rest (settle item.sequence stopped futures) n
        (inr (done_later item.sequence n stopped futures h))

  pub take-IsLocated : (n : ℕ) (s : Scheduler J R) → IsLocated n s → IsLocated n (take_next s)
  take-IsLocated n s h = elim (Consumer-cases s.consumer) [
    | inl e ↦ rw (take_next-idle s (inl (λ w. cc))) h
    | inr (inr (inl (running, e))) ↦ rw (take_next-idle s (inl (λ w. cc))) h
    | inr (inr (inr e)) ↦ rw (take_next-idle s (inl (λ w. cc))) h
    | inr (inl e) ↦ elim (List-cases s.queue) [
      | inl empty ↦ rw (take_next-idle s (inr empty)) h
      | inr (item, rest, q) ↦
          let h' : Located n (item ∷ rest) waiting s.futures =
            subst (λ c. Located n (item ∷ rest) c s.futures) e
              (subst (λ l. Located n l s.consumer s.futures) q h) in
          rw (take_next-first s item rest e q)
            (elim (Bool-cases (is_cancelled (outcome_of item.sequence s.futures))) [
              | inl skip ↦
                  rw skip (skipped item rest h' (cancelled_done item.sequence s.futures skip))
              | inr go ↦ rw go (taken item rest h')
            ])
    ]
  ]
    where
      skipped :
          (item : QueuedRequest J) (rest : List (QueuedRequest J))
          → Located n (item ∷ rest) waiting s.futures
          → is_done item.sequence s.futures ≡ true
          → Located n rest s.consumer s.futures
      skipped item rest (inl (inl e)) d = inr (inr (subst (λ k. is_done k s.futures ≡ true) e d))
      skipped item rest (inl (inr q)) d = inl q
      skipped item rest (inr (inl r)) d = absurd r
      skipped item rest (inr (inr h)) d = inr (inr h)

      taken :
          (item : QueuedRequest J) (rest : List (QueuedRequest J))
          → Located n (item ∷ rest) waiting s.futures
          → Located n rest (executing item) s.futures
      taken item rest (inl (inl e)) = inr (inl e)
      taken item rest (inl (inr q)) = inl q
      taken item rest (inr (inl r)) = absurd r
      taken item rest (inr (inr h)) = inr (inr h)

  pub finish-IsLocated :
      (n : ℕ) (o : Outcome R) (s : Scheduler J R) → IsLocated n s → IsLocated n (finish o s)
  finish-IsLocated n o s h = elim (Consumer-cases s.consumer) [
    | inl e ↦ rw (finish-idle o s (inl e)) h
    | inr (inl e) ↦ rw (finish-idle o s (inr (inl e))) h
    | inr (inr (inl (item, e))) ↦
        rw (finish-executing o s item e)
          (ended item (subst (λ c. Located n s.queue c s.futures) e h))
    | inr (inr (inr e)) ↦ rw (finish-idle o s (inr (inr e))) h
  ]
    where
      ended :
          (item : QueuedRequest J)
          → Located n s.queue (executing item) s.futures
          → Located n s.queue waiting (settle item.sequence o s.futures)
      ended item (inl q) = inl q
      ended item (inr (inl e)) = inr (
          inr (
            subst (λ k. is_done k (settle item.sequence o s.futures) ≡ true) e
              (settled item.sequence o s.futures)))
      ended item (inr (inr d)) = inr (inr (done_later item.sequence n o s.futures d))

  pub start-IsLocated : (n : ℕ) (s : Scheduler J R) → IsLocated n s → IsLocated n (start s)
  start-IsLocated n s h = elim (Consumer-cases s.consumer) [
    | inl e ↦ rw (start-new s e) (fresh (subst (λ c. Located n s.queue c s.futures) e h))
    | inr (inl e) ↦ rw (start-again s (λ k. cc)) h
    | inr (inr (inl (item, e))) ↦ rw (start-again s (λ k. cc)) h
    | inr (inr (inr e)) ↦ rw (start-again s (λ k. cc)) h
  ]
    where
      fresh : Located n s.queue not_started s.futures → Located n s.queue waiting s.futures
      fresh (inl q) = inl q
      fresh (inr (inl r)) = absurd r
      fresh (inr (inr d)) = inr (inr d)

  pub submit-IsLocated :
      (n p : ℕ) (job : J) (s : Scheduler J R)
      → (s.counter ≡ n) ⊎ IsLocated n s
      → IsLocated n (submit p job s)
  unfolding submit
  submit-IsLocated n p job s (inl e) = inl (insert_sorted-Any request_lt _ _ s.queue (inl e))
  submit-IsLocated n p job s (inr (inl q)) = inl (insert_sorted-Any request_lt _ _ s.queue (inr q))
  submit-IsLocated n p job s (inr (inr h)) = inr h

  pub cancel-IsLocated : (n k : ℕ) (s : Scheduler J R) → IsLocated n s → IsLocated n (cancel k s)
  unfolding cancel
  cancel-IsLocated n k s (inl q) = inl q
  cancel-IsLocated n k s (inr (inl r)) = inr (inl r)
  cancel-IsLocated n k s (inr (inr d)) = inr (inr (done_later k n cancelled s.futures d))

  -- The request is not at work: `stop` fails it if it waits, and with that it has its outcome.
  pub stop-done :
      (n : ℕ) (s : Scheduler J R)
      → ¬ IsRunning n s.consumer
      → IsLocated n s
      → is_done n (stop s).futures ≡ true
  unfolding stop
  stop-done n s i (inl q) = fail_all-done s.queue s.futures n (inl q)
  stop-done n s i (inr (inl r)) = absurd (i r)
  stop-done n s i (inr (inr d)) = fail_all-done s.queue s.futures n (inr d)

  pub break_off-IsLocated :
      (n : ℕ) (s : Scheduler J R)
      → ¬ IsRunning n s.consumer
      → IsLocated n s
      → IsLocated n (break_off s)
  break_off-IsLocated n s i h = elim (Consumer-cases s.consumer) [
    | inl e ↦ rw (break_off-idle s (inl e)) h
    | inr (inl e) ↦ rw (break_off-idle s (inr (inl e))) h
    | inr (inr (inl (item, e))) ↦ rw (break_off-executing s item e) (elsewhere h)
    | inr (inr (inr e)) ↦ rw (break_off-idle s (inr (inr e))) h
  ]
    where
      elsewhere : IsLocated n s → Located n s.queue died s.futures
      elsewhere (inl q) = inl q
      elsewhere (inr (inl r)) = absurd (i r)
      elsewhere (inr (inr d)) = inr (inr d)

  -- What ends the work on a request without setting its future.
  abbrev pub GivesUp : Action J R → Type 0
  GivesUp stops = Unit {0}
  GivesUp breaks = Unit {0}
  GivesUp _ = ⊥

  -- Request `n` was at work when `stop` was called or its job ended with CancelledError.
  abbrev pub LeftOpen : ℕ → List (Action J R) → Scheduler J R → Type 0
  LeftOpen n [] s = ⊥
  LeftOpen n (a ∷ rest) s = (GivesUp a × IsRunning n s.consumer) ⊎ LeftOpen n rest (act a s)

  pub goes_on :
      (n : ℕ) (as' : List (Action J R)) (s : Scheduler J R)
      → All (λ a. ¬ GivesUp a) as'
      → ¬ LeftOpen n as' s
  goes_on n [] s h l = l
  goes_on n (a ∷ rest) s h (inl g) = h.0 g.0
  goes_on n (a ∷ rest) s h (inr l) = goes_on n rest (act a s) h.1 l
