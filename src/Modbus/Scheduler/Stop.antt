-- ===== src/Modbus/Scheduler/Stop.antt =====
-- Whole runs of xedge/drivers/modbus/scheduler.py: what becomes of a request, up to rounds of the
-- consumer or a `stop`.
use xedge.Prelude.{
  ◌⊎◌, ℕ, ◌-◌, ◌≤◌, ◌<◌, ◌≡◌, refl, ap, ◌∙◌, inl, inr, true, Bool-cases, List-cases, List, [], ◌∷◌,
  arith, subst, length, ◌==◌,
}
use xedge.Modbus.Scheduler.{
  QueuedRequest, waiting, executing, Scheduler, Outcome, Action, starts, takes, stops, breaks,
  break_off, submits, finishes, cancels, outcome_of, is_cancelled, is_done, take_next,
  new_scheduler, start, submit, finish, cancel, stop, act, act_all,
}
use xedge.Modbus.Scheduler.Order.{
  Consumer-cases, take_next-first, take_next-idle, finish-executing, finish-idle,
  break_off-executing, break_off-idle, start-new, start-again,
}
use xedge.Modbus.Scheduler.Futures.{
  Located, IsLocated, IsRunning, LeftOpen, IsRunning-cases, break_off-IsLocated, take-IsLocated,
  finish-IsLocated, start-IsLocated, submit-IsLocated, cancel-IsLocated, stop-done,
}

kept : {A B C : Type 0} → A ⊎ B → A ⊎ (C ⊎ B)
kept (inl x) = inl x
kept (inr y) = inr (inr y)

module _ {J R : Type 0} where
  counter-take : (s : Scheduler J R) → (take_next s).counter ≡ s.counter
  counter-take s = elim (Consumer-cases s.consumer) [
    | inl e ↦ ap (λ (x : Scheduler J R). x.counter) (take_next-idle s (inl (λ w. cc)))
    | inr (inr (inl (running, e))) ↦
        ap (λ (x : Scheduler J R). x.counter) (take_next-idle s (inl (λ w. cc)))
    | inr (inr (inr e)) ↦ ap (λ (x : Scheduler J R). x.counter) (take_next-idle s (inl (λ w. cc)))
    | inr (inl e) ↦ elim (List-cases s.queue) [
      | inl empty ↦ ap (λ (x : Scheduler J R). x.counter) (take_next-idle s (inr empty))
      | inr (item, rest, q) ↦ rw (take_next-first s item rest e q) (ground arith)
    ]
  ]

  counter-finish : (o : Outcome R) (s : Scheduler J R) → (finish o s).counter ≡ s.counter
  counter-finish o s = elim (Consumer-cases s.consumer) [
    | inl e ↦ ap (λ (x : Scheduler J R). x.counter) (finish-idle o s (inl e))
    | inr (inl e) ↦ ap (λ (x : Scheduler J R). x.counter) (finish-idle o s (inr (inl e)))
    | inr (inr (inl (item, e))) ↦
        ap (λ (x : Scheduler J R). x.counter) (finish-executing o s item e)
    | inr (inr (inr e)) ↦ ap (λ (x : Scheduler J R). x.counter) (finish-idle o s (inr (inr e)))
  ]

  counter-start : (s : Scheduler J R) → (start s).counter ≡ s.counter
  counter-start s = elim (Consumer-cases s.consumer) [
    | inl e ↦ ap (λ (x : Scheduler J R). x.counter) (start-new s e)
    | inr (inl e) ↦ ap (λ (x : Scheduler J R). x.counter) (start-again s (λ n. cc))
    | inr (inr (inl (item, e))) ↦ ap (λ (x : Scheduler J R). x.counter) (start-again s (λ n. cc))
    | inr (inr (inr e)) ↦ ap (λ (x : Scheduler J R). x.counter) (start-again s (λ n. cc))
  ]

  counter-break_off : (s : Scheduler J R) → (break_off s).counter ≡ s.counter
  counter-break_off s = elim (Consumer-cases s.consumer) [
    | inl e ↦ ap (λ (x : Scheduler J R). x.counter) (break_off-idle s (inl e))
    | inr (inl e) ↦ ap (λ (x : Scheduler J R). x.counter) (break_off-idle s (inr (inl e)))
    | inr (inr (inl (item, e))) ↦
        ap (λ (x : Scheduler J R). x.counter) (break_off-executing s item e)
    | inr (inr (inr e)) ↦ ap (λ (x : Scheduler J R). x.counter) (break_off-idle s (inr (inr e)))
  ]

  -- If number `n` was given out, it is somewhere.
  abbrev pub Placed : ℕ → Scheduler J R → Type 0
  Placed n s = n < s.counter → IsLocated n s

  submit-Placed : (n p : ℕ) (job : J) (s : Scheduler J R) → Placed n s → Placed n (submit p job s)
  submit-Placed n p job s h l = elim (Bool-cases (s.counter == n)) [
    | inl same ↦ submit-IsLocated n p job s (inl (ground arith))
    | inr other ↦ submit-IsLocated n p job s (inr (h (unfold submit in ground arith)))
  ]

  act_all-Placed :
      (n : ℕ) (as' : List (Action J R)) (s : Scheduler J R)
      → Placed n s
      → Placed n (act_all as' s) ⊎ LeftOpen n as' s
  unfolding act_all act
  act_all-Placed n [] s h = inl h
  act_all-Placed n (starts ∷ rest) s h = kept (
      act_all-Placed n rest (start s)
        (λ l. start-IsLocated n s (h (omega (arith, l, counter-start s)))))
  act_all-Placed n (takes ∷ rest) s h = kept (
      act_all-Placed n rest (take_next s)
        (λ l. take-IsLocated n s (h (omega (arith, l, counter-take s)))))
  act_all-Placed n (submits p job ∷ rest) s h =
      kept (act_all-Placed n rest (submit p job s) (submit-Placed n p job s h))
  act_all-Placed n (finishes o ∷ rest) s h = kept (
      act_all-Placed n rest (finish o s)
        (λ l. finish-IsLocated n o s (h (omega (arith, l, counter-finish o s)))))
  act_all-Placed n (cancels k ∷ rest) s h =
      kept (act_all-Placed n rest (cancel k s) (λ l. cancel-IsLocated n k s (h l)))
  act_all-Placed n (stops ∷ rest) s h = elim (IsRunning-cases n s.consumer) [
    | inl r ↦ inr (inl (tt, r))
    | inr i ↦ kept (act_all-Placed n rest (stop s) (λ l. inr (inr (stop-done n s i (h l)))))
  ]
  act_all-Placed n (breaks ∷ rest) s h = elim (IsRunning-cases n s.consumer) [
    | inl r ↦ inr (inl (tt, r))
    | inr i ↦ kept (
        act_all-Placed n rest (break_off s)
          (λ l. break_off-IsLocated n s i (h (omega (arith, l, counter-break_off s)))))
  ]

  -- After any run, a submitted request waits in the queue, or is at work, or has its outcome, or was
  -- left open.
  pub none_lost :
      (as' : List (Action J R)) (n : ℕ)
      → Placed n (act_all as' new_scheduler) ⊎ LeftOpen n as' new_scheduler
  none_lost as' n =
      act_all-Placed n as' new_scheduler (λ l. absurd (unfold new_scheduler in omega arith))

  -- Rounds of the consumer, with what the jobs come to.
  abbrev pub rounds : List (Outcome R) → List (Action J R)
  rounds [] = []
  rounds (o ∷ os) = takes ∷ finishes o ∷ rounds os

  round-queue :
      (o : Outcome R) (s : Scheduler J R)
      → s.consumer ≡ waiting
      → ((finish o (take_next s)).consumer ≡ waiting)
        × (length (finish o (take_next s)).queue ≡ length s.queue - 1)
  round-queue o s w = elim (List-cases s.queue) [
    | inl empty ↦
        let same : finish o (take_next s) ≡ s =
          ap (finish o) (take_next-idle s (inr empty)) ∙ finish-idle o s (inr (inl w)) in
        rw same (w, omega (arith, ap (λ (l : List (QueuedRequest J)). length l) empty))
    | inr (item, rest, q) ↦
        let size = ap (λ (l : List (QueuedRequest J)). length l) q in
        elim (Bool-cases (is_cancelled (outcome_of item.sequence s.futures))) [
          | inl skip ↦
              let t : Scheduler J R = record s { queue = rest } in
              let same : finish o (take_next s) ≡ t =
                ap (finish o) (take_next-first s item rest w q ∙ rw skip refl)
                ∙ finish-idle o t (inr (inl w)) in
              rw same (w, omega (arith, size))
          | inr go ↦
              let t : Scheduler J R = record s { queue = rest; consumer = executing item } in
              let same =
                ap (finish o) (take_next-first s item rest w q ∙ rw go refl)
                ∙ finish-executing o t item refl in
              rw same (refl, omega (arith, size))
        ]
  ]

  rounds-queue :
      (os : List (Outcome R)) (s : Scheduler J R)
      → s.consumer ≡ waiting
      → ((act_all (rounds os) s).consumer ≡ waiting)
        × (length (act_all (rounds os) s).queue ≡ length s.queue - length os)
        × ((act_all (rounds os) s).counter ≡ s.counter)
  unfolding act_all act
  rounds-queue [] s w = (w, omega arith, refl)
  rounds-queue (o ∷ os) s w =
      let (w', size) = round-queue o s w in
      let (w'', size', count) = rounds-queue os (finish o (take_next s)) w' in
      (w'', omega (arith, size, size'), count ∙ counter-finish o (take_next s) ∙ counter-take s)

  finished :
      (n : ℕ) (s : Scheduler J R)
      → s.consumer ≡ waiting
      → length s.queue ≡ 0
      → IsLocated n s
      → is_done n s.futures ≡ true
  finished n s w size h = elim (List-cases s.queue) [
    | inr (item, rest, q) ↦ absurd (omega (arith, ap (λ (l : List (QueuedRequest J)). length l) q))
    | inl empty ↦ done (
        subst (λ c. Located n [] c s.futures) w
          (subst (λ l. Located n l s.consumer s.futures) empty h))
  ]
    where
      done : Located {J = J} n [] waiting s.futures → is_done n s.futures ≡ true
      done (inl q) = absurd q
      done (inr (inl r)) = absurd r
      done (inr (inr d)) = d

  rounds_go_on : (n : ℕ) (os : List (Outcome R)) (s : Scheduler J R) → ¬ LeftOpen n (rounds os) s
  rounds_go_on n [] s l = l
  rounds_go_on n (o ∷ os) s (inl g) = g.0
  rounds_go_on n (o ∷ os) s (inr (inl g)) = g.0
  rounds_go_on n (o ∷ os) s (inr (inr l)) = rounds_go_on n os (act (finishes o) (act takes s)) l

  pub all_served :
      (as' : List (Action J R)) (os : List (Outcome R))
      → (act_all as' new_scheduler).consumer ≡ waiting
      → length (act_all as' new_scheduler).queue ≤ length os
      → (length (act_all (rounds os) (act_all as' new_scheduler)).queue ≡ 0)
        × ((n : ℕ)
            → n < (act_all as' new_scheduler).counter
            → (is_done n (act_all (rounds os) (act_all as' new_scheduler)).futures ≡ true)
              ⊎ LeftOpen n as' new_scheduler)
  all_served as' os w l =
      let s : Scheduler J R = act_all as' new_scheduler in
      let (w', size, count) = rounds-queue os s w in
      let empty : length (act_all (rounds os) s).queue ≡ 0 = omega (arith, size, l) in
      (
        empty,
        λ n k. elim (none_lost as' n) [
          | inr left ↦ inr left
          | inl placed ↦ elim (act_all-Placed n (rounds os) s placed) [
            | inr left ↦ absurd (rounds_go_on n os s left)
            | inl placed' ↦
                inl
                  (finished n (act_all (rounds os) s) w' empty (placed' (omega (arith, k, count))))
          ]
        ],
      )

  -- After any run, `stop` leaves every request that was ever submitted with its outcome, unless it is
  -- at work at that time, or was at work when an earlier `stop` was called or when its job ended with
  -- CancelledError.
  pub stop-all_done :
      (as' : List (Action J R)) (n : ℕ)
      → n < (act_all as' new_scheduler).counter
      → (is_done n (stop (act_all as' new_scheduler)).futures ≡ true)
        ⊎ (IsRunning n (act_all as' new_scheduler).consumer ⊎ LeftOpen n as' new_scheduler)
  stop-all_done as' n l =
      let s : Scheduler J R = act_all as' new_scheduler in
      elim (IsRunning-cases n s.consumer) [
        | inl r ↦ inr (inl r)
        | inr i ↦ elim (none_lost as' n) [
          | inr left ↦ inr (inr left)
          | inl placed ↦ inl (stop-done n s i (placed l))
        ]
      ]
