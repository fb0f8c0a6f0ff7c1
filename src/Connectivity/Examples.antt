-- ===== src/Connectivity/Examples.antt =====
-- Runs of the connectivity tracker, and its theorems at concrete inputs.
use xedge.Prelude.{◌≡◌, refl, none, some, List, [], ◌∷◌, arith}
use xedge.Prelude.Results.{err}
use xedge.Connectivity.{
  ConnectivityTracker, unknown, connected, not_connected, failure_threshold_too_low, init,
}
use xedge.Connectivity.Hysteresis.{
  Outcome, success, failure, report, report_all, IsConsistent, init-report_all-IsConsistent,
  failures_trip, successes_recover,
}

abbrev up : ConnectivityTracker
up = record {
  failure_threshold = 3;
  recovery_threshold = 2;
  state = connected;
  consecutive_failures = 0;
  consecutive_successes = 1;
  last_failure_reason = none;
  changed_at = 5;
}

abbrev down : ConnectivityTracker
down = record up { state = not_connected; consecutive_successes = 0; consecutive_failures = 3 }

abbrev timeouts : List Outcome
timeouts = failure none (some "timeout") 6 ∷ failure none none 7 ∷ failure (some 9) none 8 ∷ []

abbrev answers : List Outcome
answers = success none 6 ∷ success none 7 ∷ []

trips : (report_all up timeouts).state ≡ not_connected
unfolding report_all report
trips = refl

refuses : init 0 3 1 ≡ err failure_threshold_too_low
unfolding init
refuses = refl

init-report_all-IsConsistent_example :
    IsConsistent (report_all (record up { state = unknown; consecutive_successes = 0 }) timeouts)
init-report_all-IsConsistent_example =
    init-report_all-IsConsistent 3 2 5 timeouts
      (record up { state = unknown; consecutive_successes = 0 }) (unfold init in refl)

failures_trip_example : (report_all up timeouts).state ≡ not_connected
failures_trip_example = failures_trip timeouts up (λ e. cc) (tt, (tt, (tt, tt))) (omega arith)

successes_recover_example : (report_all down answers).state ≡ connected
successes_recover_example = successes_recover answers down refl (tt, (tt, tt)) (omega arith)
