-- ===== src/Modbus/Scheduler/Examples.antt =====
-- Schedules of requests at concrete inputs; a job is named by a number, and so is its result.
use xedge.Prelude.{
  ℕ, ◌≤◌, ◌<◌, ◌≡◌, refl, true, false, ◌⊎◌, inl, inr, List, [], ◌∷◌, All, arith, length,
}
use xedge.Prelude.Sort.{insert_sorted}
use xedge.Modbus.Scheduler.{
  write_priority, read_priority, QueuedRequest, waiting, executing, Outcome, result, failed, Action,
  starts, takes, submits, finishes, cancels, new_scheduler, act_all, act, start, submit, take_next,
  cancel, stop, settle, outcome_of, is_done,
}
use xedge.Modbus.Scheduler.Order.{Before, served_first}
use xedge.Modbus.Scheduler.Stop.{all_served, stop-all_done, rounds}
use xedge.Modbus.Scheduler.Futures.{IsRunning, LeftOpen, goes_on}
use xedge.Modbus.Scheduler.Abandoned.{stop-abandons}

-- Two reads, then a write, and a read whose caller gives up.
abbrev mixed : List (Action ℕ ℕ)
mixed =
    starts
    ∷ submits read_priority 10
    ∷ submits read_priority 11
    ∷ submits write_priority 12
    ∷ submits read_priority 13
    ∷ cancels 3
    ∷ []

abbrev the_write : QueuedRequest ℕ
the_write = record { priority = 0; sequence = 2; job = 12 }

write_first : (take_next (act_all mixed new_scheduler)).consumer ≡ executing the_write
unfolding act_all act start submit take_next cancel settle outcome_of insert_sorted new_scheduler
write_first = refl

at_the_queue : (act_all mixed new_scheduler).consumer ≡ waiting
unfolding act_all act start submit take_next cancel settle outcome_of insert_sorted new_scheduler
at_the_queue = refl

four_waiting : length (act_all mixed new_scheduler).queue ≤ 4
unfolding act_all act start submit take_next cancel settle outcome_of insert_sorted new_scheduler
four_waiting = omega arith

served_first_example : All (λ r. Before the_write r) (take_next (act_all mixed new_scheduler)).queue
served_first_example = served_first mixed the_write at_the_queue write_first

abbrev outcomes : List (Outcome ℕ)
outcomes = result 1 ∷ failed ∷ result 3 ∷ result 4 ∷ []

-- No `stop` is called in this run, and no job ends with CancelledError.
mixed_served :
    (n : ℕ)
    → n < (act_all mixed new_scheduler).counter
    → is_done n (act_all (rounds outcomes) (act_all mixed new_scheduler)).futures ≡ true
mixed_served n l = elim ((all_served mixed outcomes at_the_queue four_waiting).1 n l) [
  | inl d ↦ d
  | inr left ↦ absurd (
      goes_on n mixed new_scheduler
        ((λ g. g), ((λ g. g), ((λ g. g), ((λ g. g), ((λ g. g), ((λ g. g), tt)))))) left)
]

one_issued : 0 < (act_all mixed new_scheduler).counter
unfolding act_all act start submit take_next cancel settle outcome_of insert_sorted new_scheduler
one_issued = omega arith

stop-all_done_example :
    (is_done 0 (stop (act_all mixed new_scheduler)).futures ≡ true)
    ⊎ (IsRunning 0 (act_all mixed new_scheduler).consumer ⊎ LeftOpen 0 mixed new_scheduler)
stop-all_done_example = stop-all_done mixed 0 one_issued

abbrev at_work : List (Action ℕ ℕ)
at_work = starts ∷ submits read_priority 10 ∷ takes ∷ []

abbrev the_read : QueuedRequest ℕ
the_read = record { priority = 10; sequence = 0; job = 10 }

read_at_work : (act_all at_work new_scheduler).consumer ≡ executing the_read
unfolding act_all act start submit take_next outcome_of insert_sorted new_scheduler
read_at_work = refl

read_open : is_done 0 (act_all at_work new_scheduler).futures ≡ false
unfolding act_all act start submit take_next outcome_of insert_sorted new_scheduler
read_open = refl

stop-abandons_example :
    is_done 0
      (act_all
        (starts ∷ submits write_priority 5 ∷ takes ∷ finishes (result 1) ∷ [])
        (stop (act_all at_work new_scheduler))).futures
    ≡ false
stop-abandons_example =
    stop-abandons at_work (starts ∷ submits write_priority 5 ∷ takes ∷ finishes (result 1) ∷ [])
      the_read read_at_work read_open tt
