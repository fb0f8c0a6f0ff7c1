-- ===== src/Modbus/Scheduler.antt =====
-- xedge/drivers/modbus/scheduler.py: one priority queue and one consumer for all requests of a
-- connection. `J` is the type of jobs, `R` that of their results. A future is named by the sequence
-- number of its request.
use xedge.Prelude.{
  ℕ, zero, suc, ◌+◌, ◌≡◌, ◌≢◌, Bool, true, false, ◌&&◌, ◌||◌, Option, none, some, List, [], ◌∷◌,
  ltb, ◌==◌, if◌then◌else◌,
}
use xedge.Prelude.Sort.{insert_sorted}
pub mod Order
pub mod Futures
pub mod Stop
pub mod Abandoned
mod Examples

-- RequestPriority
abbrev pub write_priority : ℕ
write_priority = 0

abbrev pub read_priority : ℕ
read_priority = 10

pub record QueuedRequest (J : Type 0) : Type 0 where
  pub priority : ℕ
  pub sequence : ℕ
  pub job : J

-- How a future ends: `stopped` is SchedulerStoppedError, `cancelled` is the end of a caller that no
-- longer waits.
pub data Outcome (R : Type 0) : Type 0 where
  result : R → Outcome R
  failed stopped cancelled : Outcome R

-- The consumer task: not there, at `queue.get()`, at `item.coro_factory()`, or ended by an exception.
pub data Consumer (J : Type 0) : Type 0 where
  not_started waiting died : Consumer J
  executing : QueuedRequest J → Consumer J

-- The queue in the order in which a PriorityQueue gives its items.
pub record Scheduler (J R : Type 0) : Type 0 where
  pub queue : List (QueuedRequest J)
  pub counter : ℕ
  pub consumer : Consumer J
  pub futures : List (ℕ × Outcome R)

module _ {J : Type 0} where
  -- The order that `dataclass(order=True)` gives, on (priority, sequence).
  abbrev pub request_lt : QueuedRequest J → QueuedRequest J → Bool
  request_lt a b =
      ltb a.priority b.priority || (a.priority == b.priority && ltb a.sequence b.sequence)

module _ {R : Type 0} where
  unfoldable pub outcome_of : ℕ → List (ℕ × Outcome R) → Option (Outcome R)
  outcome_of n [] = none
  outcome_of n ((m, o) ∷ rest) = if m == n then some o else outcome_of n rest

  abbrev pub is_some : Option (Outcome R) → Bool
  is_some none = false
  is_some (some o) = true

  abbrev pub is_cancelled : Option (Outcome R) → Bool
  is_cancelled (some cancelled) = true
  is_cancelled _ = false

  -- future.done()
  abbrev pub is_done : ℕ → List (ℕ × Outcome R) → Bool
  is_done n futures = is_some (outcome_of n futures)

  -- Set the outcome of a future, if it has none.
  unfoldable pub settle : ℕ → Outcome R → List (ℕ × Outcome R) → List (ℕ × Outcome R)
  unfolding outcome_of
  settle n o futures = if is_done n futures then futures else (n, o) ∷ futures

module _ {J R : Type 0} where
  unfoldable pub new_scheduler : Scheduler J R
  new_scheduler = record { queue = []; counter = 0; consumer = not_started; futures = [] }

  unfoldable pub start : Scheduler J R → Scheduler J R
  start s = elim s.consumer [ not_started ↦ record s { consumer = waiting } | _ ↦ s ]

  -- `submit` up to its `await future`.
  unfoldable pub submit : ℕ → J → Scheduler J R → Scheduler J R
  submit priority job s = record s {
    queue =
        insert_sorted request_lt (record { priority = priority; sequence = s.counter; job = job })
          s.queue;
    counter = s.counter + 1;
  }

  -- One round of `_run` up to the job: get an item, and skip it if its future is cancelled.
  take_from : Scheduler J R → List (QueuedRequest J) → Scheduler J R
  take_from s [] = s
  take_from s (item ∷ rest) =
      if is_cancelled (outcome_of item.sequence s.futures)
      then record s { queue = rest }
      else record s { queue = rest; consumer = executing item }

  unfoldable pub take_next : Scheduler J R → Scheduler J R
  unfolding take_from
  take_next s = elim s.consumer [ waiting ↦ take_from s s.queue | _ ↦ s ]

  -- The job of the current item ended, with a result or an `Exception`.
  unfoldable pub finish : Outcome R → Scheduler J R → Scheduler J R
  unfolding settle
  finish o s = elim s.consumer [
    | executing item ↦ record s { consumer = waiting; futures = settle item.sequence o s.futures }
    | _ ↦ s
  ]

  -- The job of the current item ended with CancelledError, which `except Exception` lets pass: the
  -- consumer ends with it, and the future is not set.
  unfoldable pub break_off : Scheduler J R → Scheduler J R
  break_off s = elim s.consumer [ executing item ↦ record s { consumer = died } | _ ↦ s ]

  -- A caller is cancelled while it awaits its future.
  unfoldable pub cancel : ℕ → Scheduler J R → Scheduler J R
  unfolding settle
  cancel n s = record s { futures = settle n cancelled s.futures }

  unfoldable pub fail_all : List (QueuedRequest J) → List (ℕ × Outcome R) → List (ℕ × Outcome R)
  unfolding settle
  fail_all [] futures = futures
  fail_all (item ∷ rest) futures = fail_all rest (settle item.sequence stopped futures)

  -- Cancelling the consumer raises CancelledError in the job, which `except Exception` lets pass.
  unfoldable pub stop : Scheduler J R → Scheduler J R
  unfolding fail_all
  stop s = record s { consumer = not_started; queue = []; futures = fail_all s.queue s.futures }

-- What may happen to a scheduler, in any order: calls, and the progress of the consumer.
pub data Action (J R : Type 0) : Type 0 where
  starts takes stops breaks : Action J R
  submits : ℕ → J → Action J R
  finishes : Outcome R → Action J R
  cancels : ℕ → Action J R

module _ {J R : Type 0} where
  unfoldable pub act : Action J R → Scheduler J R → Scheduler J R
  unfolding start submit take_next finish break_off cancel stop
  act starts s = start s
  act takes s = take_next s
  act stops s = stop s
  act (submits priority job) s = submit priority job s
  act (finishes o) s = finish o s
  act breaks s = break_off s
  act (cancels n) s = cancel n s

  unfoldable pub act_all : List (Action J R) → Scheduler J R → Scheduler J R
  unfolding act
  act_all [] s = s
  act_all (a ∷ rest) s = act_all rest (act a s)
