-- ===== src/Connectivity/Hysteresis.antt =====
-- Invariant and hysteresis of the tracker of xedge/core/connectivity.py.
use xedge.Prelude.{
  ℕ, ◌+◌, ◌≤◌, ◌<◌, ◌≡◌, ◌≢◌, ◌⊎◌, inl, inr, String, Option, none, some, List, [], ◌∷◌, arith, leb,
  if◌then◌else◌, length, All, Bool-cases,
}
use xedge.Prelude.Results.{ok}
use xedge.Connectivity.{
  ConnectivityTracker, unknown, connected, degraded, not_connected, init, record_success,
  record_failure,
}

-- One result that a caller reports, with the time that it passes and the clock.
pub data Outcome : Type 0 where
  success : Option ℕ → ℕ → Outcome
  failure : Option ℕ → Option String → ℕ → Outcome

unfoldable pub report : ConnectivityTracker → Outcome → ConnectivityTracker
unfolding record_success record_failure
report t (success now clock) = record_success now clock t
report t (failure now reason clock) = record_failure now reason clock t

unfoldable pub report_all : ConnectivityTracker → List Outcome → ConnectivityTracker
report_all t [] = t
report_all t (o ∷ os) = report_all (report t o) os

pub record IsConsistent (t : ConnectivityTracker) : Type 0 where
  pub failure_threshold_pos : 1 ≤ t.failure_threshold
  pub recovery_threshold_pos : 1 ≤ t.recovery_threshold
  pub one_streak : (t.consecutive_failures ≡ 0) ⊎ (t.consecutive_successes ≡ 0)
  pub unknown_fresh :
      t.state ≡ unknown → (t.consecutive_failures ≡ 0) × (t.consecutive_successes ≡ 0)
  pub connected_clean :
      t.state ≡ connected → (t.consecutive_failures ≡ 0) × (1 ≤ t.consecutive_successes)
  pub degraded_below :
      t.state ≡ degraded
      → (1 ≤ t.consecutive_failures) × (t.consecutive_failures < t.failure_threshold)
  pub down_unrecovered : t.state ≡ not_connected → t.consecutive_successes < t.recovery_threshold

init-IsConsistent :
    (f r clock : ℕ) (t : ConnectivityTracker) → init f r clock ≡ ok t → IsConsistent t
unfolding init
init-IsConsistent f r clock t h = ground arith

report-IsConsistent :
    (t : ConnectivityTracker) (o : Outcome) → IsConsistent t → IsConsistent (report t o)
unfolding report
report-IsConsistent t (success now clock) h = ground arith
report-IsConsistent t (failure now reason clock) h = ground arith

report_all-IsConsistent :
    (t : ConnectivityTracker) (os : List Outcome) → IsConsistent t → IsConsistent (report_all t os)
unfolding report_all
report_all-IsConsistent t [] h = h
report_all-IsConsistent t (o ∷ os) h =
    report_all-IsConsistent (report t o) os (report-IsConsistent t o h)

-- Every tracker that the constructor returns is consistent after any sequence of reported results, as
-- the docstring of the class has it (ADR-011 differs: there a tracker stays connected below the
-- threshold of failures): one of the two streaks is 0, a connected tracker has no failure, a degraded one has fewer failures
-- than the threshold, and a tracker that is not connected has not yet seen enough successes.
pub init-report_all-IsConsistent :
    (f r clock : ℕ) (os : List Outcome) (t : ConnectivityTracker)
    → init f r clock ≡ ok t
    → IsConsistent (report_all t os)
init-report_all-IsConsistent f r clock os t h =
    report_all-IsConsistent t os (init-IsConsistent f r clock t h)

abbrev pub IsFailure : Outcome → Type 0
IsFailure (success now clock) = ⊥
IsFailure (failure now reason clock) = Unit

abbrev pub IsSuccess : Outcome → Type 0
IsSuccess (success now clock) = Unit
IsSuccess (failure now reason clock) = ⊥

report-down :
    (t : ConnectivityTracker) (o : Outcome)
    → t.state ≡ not_connected
    → IsFailure o
    → (report t o).state ≡ not_connected
unfolding report
report-down t (success now clock) h i = absurd i
report-down t (failure now reason clock) h i = ground arith

failures_stay_down :
    (t : ConnectivityTracker) (os : List Outcome)
    → t.state ≡ not_connected
    → All IsFailure os
    → (report_all t os).state ≡ not_connected
unfolding report_all
failures_stay_down t [] h i = h
failures_stay_down t (o ∷ os) h i = failures_stay_down (report t o) os (report-down t o h i.0) i.1

-- One failure of a tracker that is not down.
report-failure :
    (t : ConnectivityTracker) (o : Outcome)
    → t.state ≢ not_connected
    → IsFailure o
    → ((report t o).state ≡ (
        if leb t.failure_threshold (t.consecutive_failures + 1) then not_connected else degraded))
      × ((report t o).consecutive_failures ≡ t.consecutive_failures + 1)
      × ((report t o).failure_threshold ≡ t.failure_threshold)
unfolding report
report-failure t (success now clock) h i = absurd i
report-failure t (failure now reason clock) h i = ground arith

-- From a tracker that is not `not_connected`, one or more failures in a row lead to `not_connected`
-- exactly if they and the failures counted before reach the failure threshold, and to `degraded`
-- otherwise, so that the first failure leaves `connected` whatever the threshold is. The docstring of
-- the class says so; ADR-011 asks for as many failures as the threshold before that.
pub failures_trip :
    (os : List Outcome) (t : ConnectivityTracker)
    → t.state ≢ not_connected
    → All IsFailure os
    → 1 ≤ length os
    → (report_all t os).state ≡ (
        if leb t.failure_threshold (t.consecutive_failures + length os)
        then not_connected
        else degraded)
unfolding report_all
failures_trip [] t h i l = absurd (omega arith)
failures_trip (o ∷ []) t h i l = ground (arith, report-failure t o)
failures_trip (o ∷ p ∷ os) t h i l =
    elim (Bool-cases (leb t.failure_threshold (t.consecutive_failures + 1))) [
      | inl down ↦
          ground (arith, report-failure t o h i.0, failures_stay_down (report t o) (p ∷ os))
      | inr up ↦ ground (arith, report-failure t o h i.0, failures_trip (p ∷ os) (report t o))
    ]

report-connected :
    (t : ConnectivityTracker) (o : Outcome)
    → t.state ≡ connected
    → IsSuccess o
    → (report t o).state ≡ connected
unfolding report
report-connected t (success now clock) h i = ground arith
report-connected t (failure now reason clock) h i = absurd i

successes_stay_up :
    (t : ConnectivityTracker) (os : List Outcome)
    → t.state ≡ connected
    → All IsSuccess os
    → (report_all t os).state ≡ connected
unfolding report_all
successes_stay_up t [] h i = h
successes_stay_up t (o ∷ os) h i =
    successes_stay_up (report t o) os (report-connected t o h i.0) i.1

-- One success of a tracker that is down.
report-recovery :
    (t : ConnectivityTracker) (o : Outcome)
    → t.state ≡ not_connected
    → IsSuccess o
    → ((report t o).state ≡ (
        if leb t.recovery_threshold (t.consecutive_successes + 1)
        then connected
        else not_connected))
      × ((report t o).consecutive_successes ≡ t.consecutive_successes + 1)
      × ((report t o).recovery_threshold ≡ t.recovery_threshold)
unfolding report
report-recovery t (success now clock) h i = ground arith
report-recovery t (failure now reason clock) h i = absurd i

-- From `not_connected`, one or more successes in a row lead to `connected` exactly if they and the
-- successes counted before reach the recovery threshold; until then the state stays
-- `not_connected`.
pub successes_recover :
    (os : List Outcome) (t : ConnectivityTracker)
    → t.state ≡ not_connected
    → All IsSuccess os
    → 1 ≤ length os
    → (report_all t os).state ≡ (
        if leb t.recovery_threshold (t.consecutive_successes + length os)
        then connected
        else not_connected)
unfolding report_all
successes_recover [] t h i l = absurd (omega arith)
successes_recover (o ∷ []) t h i l = ground (arith, report-recovery t o)
successes_recover (o ∷ p ∷ os) t h i l =
    elim (Bool-cases (leb t.recovery_threshold (t.consecutive_successes + 1))) [
      | inl up ↦ ground (arith, report-recovery t o h i.0, successes_stay_up (report t o) (p ∷ os))
      | inr down ↦
          ground (arith, report-recovery t o h i.0, successes_recover (p ∷ os) (report t o))
    ]

-- The time of an outcome: the one that the caller passes, else the clock's.
abbrev pub at : Outcome → ℕ
at (success none clock) = clock
at (success (some now) clock) = now
at (failure none reason clock) = clock
at (failure (some now) reason clock) = now

-- A reported result leaves `changed_at` alone if the state stays as it was, sets it to the result's
-- time if the state changes, never leads to `unknown`, and keeps both thresholds.
pub report_changes :
    (t : ConnectivityTracker) (o : Outcome)
    → ((report t o).state ≡ t.state → (report t o).changed_at ≡ t.changed_at)
      × ((report t o).state ≢ t.state → (report t o).changed_at ≡ at o)
      × ((report t o).state ≢ unknown)
      × ((report t o).failure_threshold ≡ t.failure_threshold)
      × ((report t o).recovery_threshold ≡ t.recovery_threshold)
unfolding report
report_changes t (success none clock) = ground arith
report_changes t (success (some now) clock) = ground arith
report_changes t (failure none reason clock) = ground arith
report_changes t (failure (some now) reason clock) = ground arith
