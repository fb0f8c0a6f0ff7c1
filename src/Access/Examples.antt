-- ===== src/Access/Examples.antt =====
-- Access at concrete inputs.
use xedge.Prelude.{
  ℕ, String, if◌then◌else◌, ◌≡◌, refl, arith, true, false, some, List, [], ◌∷◌, length, leb,
}
use xedge.Prelude.Assoc.{get, put}
use xedge.Access.{
  new_tracker, recent, is_locked_out, has_permission, contains, record_failure, record_success,
  prune,
}
use xedge.Access.Lockout.{
  Attempt, failure, success, check, attempt, attempt_all, since_success, is_locked_out-history,
}
use xedge.Access.RateLimit.{
  RateLimitMiddleware, Request, handled, refused, dispatch, window_seconds,
}
use xedge.Access.RateLimit.History.{serve_all, times_of, dispatch-history}
use xedge.Access.Roles.{has_permission-admin}

abbrev attempts : List Attempt
attempts = failure 1 ∷ success ∷ failure 10 ∷ failure 20 ∷ check 25 ∷ failure 200 ∷ []

-- Two of the three failures since the success are too old at 201.
not_locked : (is_locked_out 201 (attempt_all attempts (new_tracker 2 100))).0 ≡ false
unfolding is_locked_out attempt_all attempt new_tracker record_failure record_success prune recent
not_locked = refl

is_locked_out-history_example :
    (is_locked_out 201 (attempt_all attempts (new_tracker 2 100))).0
    ≡ leb 2 (length (recent 100 201 (since_success [] attempts)))
is_locked_out-history_example =
    is_locked_out-history 2 100 201 attempts
      (omega arith, (omega arith, (omega arith, (omega arith, (omega arith, omega arith)))))

unknown_role : has_permission (some "guest") "tag:read" ≡ false
unfolding has_permission contains get
unknown_role = refl

auditor_and_admin : has_permission (some "admin") "audit:read" ≡ true
unfolding has_permission contains get
auditor_and_admin = has_permission-admin (some "auditor") "audit:read" refl

-- Two requests in a minute; the third of the client comes ten seconds after them.
abbrev small_limit : RateLimitMiddleware
small_limit = record { requests_per_minute = 2; exempt_paths = "/health" ∷ []; hits = [] }

abbrev request : String → ℕ → Request
request client now = record { path = "/api/v1/tags"; client = some client; now = now }

abbrev requests : List Request
requests = request "a" 100 ∷ request "b" 101 ∷ request "a" 105 ∷ []

third_is_refused :
    (dispatch (request "a" 110) (serve_all requests [] small_limit).1).0
    ≡ refused "a" "/api/v1/tags"
unfolding dispatch serve_all contains recent get put
third_is_refused = refl

dispatch-history_example : (dispatch (request "a" 110) (serve_all requests [] small_limit).1).0 ≡ (
    if leb 2
      (length (recent window_seconds 110 (times_of "a" (serve_all requests [] small_limit).0)))
    then refused "a" "/api/v1/tags"
    else handled)
unfolding contains
dispatch-history_example =
    dispatch-history small_limit requests (request "a" 110) refl (omega arith)
      (omega arith, (omega arith, (omega arith, omega arith))) refl
