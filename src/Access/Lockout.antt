-- ===== src/Access/Lockout.antt =====
-- The lockout of xedge/api/auth.py, described by the whole history of attempts.
use xedge.Prelude.{ℕ, ◌≤◌, ◌≡◌, refl, sym, ap, ◌∙◌, arith, List, [], ◌∷◌, ◌++◌, length, leb}
use xedge.Access.{
  LoginAttemptTracker, new_tracker, recent, prune, record_failure, record_success, is_locked_out,
}

-- A call, and the time that it reads.
pub data Attempt : Type 0 where
  failure : ℕ → Attempt
  success : Attempt
  check : ℕ → Attempt

unfoldable pub attempt : Attempt → LoginAttemptTracker → LoginAttemptTracker
unfolding record_failure record_success is_locked_out
attempt (failure now) tracker = record_failure now tracker
attempt success tracker = record_success tracker
attempt (check now) tracker = (is_locked_out now tracker).1

unfoldable pub attempt_all : List Attempt → LoginAttemptTracker → LoginAttemptTracker
unfolding attempt
attempt_all [] tracker = tracker
attempt_all (a ∷ attempts) tracker = attempt_all attempts (attempt a tracker)

-- The times of all failures since the last success; none is forgotten.
abbrev pub since_success : List ℕ → List Attempt → List ℕ
since_success times [] = times
since_success times (failure now ∷ attempts) = since_success (times ++ now ∷ []) attempts
since_success times (success ∷ attempts) = since_success [] attempts
since_success times (check now ∷ attempts) = since_success times attempts

-- The clock does not go back, from a first time to a last one.
abbrev pub IsOrdered : ℕ → List Attempt → ℕ → Type 0
IsOrdered first [] last = first ≤ last
IsOrdered first (failure now ∷ attempts) last = (first ≤ now) × IsOrdered now attempts last
IsOrdered first (success ∷ attempts) last = IsOrdered first attempts last
IsOrdered first (check now ∷ attempts) last = (first ≤ now) × IsOrdered now attempts last

pub recent-recent :
    (window before now : ℕ) (times : List ℕ)
    → before ≤ now
    → recent window now (recent window before times) ≡ recent window now times
unfolding recent
recent-recent window before now [] h = refl
recent-recent window before now (t ∷ times) h =
    ground (arith, recent-recent window before now times h)

pub recent-append :
    (window now : ℕ) (times later : List ℕ)
    → recent window now (times ++ later) ≡ recent window now times ++ recent window now later
unfolding recent
recent-append window now [] later = refl
recent-append window now (t ∷ times) later = ground (arith, recent-append window now times later)

-- From a time on, the tracker and a history agree on what is recent.
abbrev Agrees : ℕ → LoginAttemptTracker → List ℕ → Type 0
Agrees first tracker times =
    (now : ℕ)
    → first ≤ now
    → recent tracker.window_seconds now tracker.failure_times
      ≡ recent tracker.window_seconds now times

attempt_all-Agrees :
    (attempts : List Attempt) (tracker : LoginAttemptTracker) (times : List ℕ) (first last : ℕ)
    → IsOrdered first attempts last
    → Agrees first tracker times
    → (recent tracker.window_seconds last (attempt_all attempts tracker).failure_times
        ≡ recent tracker.window_seconds last (since_success times attempts))
      × ((attempt_all attempts tracker).threshold ≡ tracker.threshold)
      × ((attempt_all attempts tracker).window_seconds ≡ tracker.window_seconds)
unfolding attempt_all record_failure record_success is_locked_out prune
attempt_all-Agrees [] tracker times first last o h = (h last o, refl, refl)
attempt_all-Agrees (success ∷ attempts) tracker times first last o h =
    attempt_all-Agrees attempts (record_success tracker) [] first last o (λ now le. refl)
attempt_all-Agrees (check at ∷ attempts) tracker times first last o h =
    attempt_all-Agrees attempts (is_locked_out at tracker).1 times at last o.1 (λ now le.
      recent-recent tracker.window_seconds at now tracker.failure_times le
      ∙ h now (omega (arith, le, o.0)))
attempt_all-Agrees (failure at ∷ attempts) tracker times first last o h =
    attempt_all-Agrees attempts (record_failure at tracker) (times ++ at ∷ []) at last o.1
      (λ now le.
        recent-append tracker.window_seconds now
          (recent tracker.window_seconds at tracker.failure_times) (at ∷ [])
        ∙ ap (λ l. l ++ recent tracker.window_seconds now (at ∷ []))
            (recent-recent tracker.window_seconds at now tracker.failure_times le
              ∙ h now (omega (arith, le, o.0)))
        ∙ sym (recent-append tracker.window_seconds now times (at ∷ [])))

-- After any sequence of failures, successes and checks under a clock that does not go back, logins are
-- locked out just when, of all failures since the last success, at least as many as the threshold lie
-- within the window before now: forgetting old failures at each call never changes the answer.
pub is_locked_out-history :
    (threshold window_seconds now : ℕ) (attempts : List Attempt)
    → IsOrdered 0 attempts now
    → (is_locked_out now (attempt_all attempts (new_tracker threshold window_seconds))).0
      ≡ leb threshold (length (recent window_seconds now (since_success [] attempts)))
unfolding is_locked_out prune new_tracker
is_locked_out-history threshold window_seconds now attempts o =
    let tracker : LoginAttemptTracker = new_tracker threshold window_seconds in
    let (same, limit, window) = attempt_all-Agrees attempts tracker [] 0 now o (λ at le. refl) in
    ap
      (λ n. leb n (
        length (
          recent (attempt_all attempts tracker).window_seconds now
            (attempt_all attempts tracker).failure_times)))
      limit
    ∙ ap (λ w. leb threshold (length (recent w now (attempt_all attempts tracker).failure_times)))
        window
    ∙ ap (λ l. leb threshold (length l)) same
