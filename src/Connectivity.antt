-- ===== src/Connectivity.antt =====
-- xedge/core/connectivity.py: the connectivity state machine that drivers, gateways and assets
-- share. `datetime.now(UTC)` is the argument `clock` of each call; times are numbers.
use xedge.Prelude.{ℕ, ◌+◌, String, Bool, true, false, Option, none, some, ltb, leb, if◌then◌else◌}
use xedge.Prelude.Results.{Result, ok, err}
pub mod Hysteresis
mod Examples

pub data ConnectivityState : Type 0 where
  unknown connected degraded not_connected : ConnectivityState

-- The two arguments that `__init__` refuses.
pub data ThresholdError : Type 0 where
  failure_threshold_too_low recovery_threshold_too_low : ThresholdError

pub record ConnectivityTracker : Type 0 where
  pub failure_threshold : ℕ
  pub recovery_threshold : ℕ
  pub state : ConnectivityState
  pub consecutive_failures : ℕ
  pub consecutive_successes : ℕ
  pub last_failure_reason : Option String
  pub changed_at : ℕ

unfoldable pub init : ℕ → ℕ → ℕ → Result ThresholdError ConnectivityTracker
init failure_threshold recovery_threshold clock =
    if ltb failure_threshold 1
    then err failure_threshold_too_low
    else if ltb recovery_threshold 1
    then err recovery_threshold_too_low
    else ok (record {
      failure_threshold = failure_threshold;
      recovery_threshold = recovery_threshold;
      state = unknown;
      consecutive_failures = 0;
      consecutive_successes = 0;
      last_failure_reason = none;
      changed_at = clock;
    })

abbrev same_state : ConnectivityState → ConnectivityState → Bool
same_state unknown unknown = true
same_state connected connected = true
same_state degraded degraded = true
same_state not_connected not_connected = true
same_state _ _ = false

abbrev or_clock : Option ℕ → ℕ → ℕ
or_clock none clock = clock
or_clock (some now) clock = now

unfoldable pub transition :
    ConnectivityState → Option ℕ → ℕ → ConnectivityTracker → ConnectivityTracker
transition new_state now clock t =
    if same_state new_state t.state
    then t
    else record t { state = new_state; changed_at = or_clock now clock }

on_success : ConnectivityState → Option ℕ → ℕ → ConnectivityTracker → ConnectivityTracker
unfolding transition
on_success unknown now clock t = transition connected now clock t
on_success degraded now clock t = transition connected now clock t
on_success not_connected now clock t =
    if leb t.recovery_threshold t.consecutive_successes then transition connected now clock t else t
on_success connected now clock t = t

unfoldable pub record_success : Option ℕ → ℕ → ConnectivityTracker → ConnectivityTracker
unfolding on_success
record_success now clock t =
    let t' = record t {
      consecutive_failures = 0;
      consecutive_successes = t.consecutive_successes + 1;
    } in
    on_success t'.state now clock t'

on_failure : ConnectivityState → Option ℕ → ℕ → ConnectivityTracker → ConnectivityTracker
unfolding transition
on_failure not_connected now clock t = t
on_failure _ now clock t =
    if leb t.failure_threshold t.consecutive_failures
    then transition not_connected now clock t
    else transition degraded now clock t

unfoldable pub record_failure :
    Option ℕ → Option String → ℕ → ConnectivityTracker → ConnectivityTracker
unfolding on_failure
record_failure now reason clock t =
    let t' = record t {
      consecutive_successes = 0;
      consecutive_failures = t.consecutive_failures + 1;
      last_failure_reason = reason;
    } in
    on_failure t'.state now clock t'
