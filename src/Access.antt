-- ===== src/Access.antt =====
-- Access to the API: LoginAttemptTracker of xedge/api/auth.py and the roles of xedge/api/permissions.py;
-- xedge/api/rate_limit.py is in RateLimit.
-- `time.time()` is the argument `now`; times are numbers of a clock.
use xedge.Prelude.{
  ℕ, ◌+◌, String, Bool, true, false, ◌||◌, Option, none, some, List, [], ◌∷◌, ◌++◌, length, ltb,
  leb, str_eq, if◌then◌else◌,
}
use xedge.Prelude.Assoc.{Dict, get}
pub mod Lockout
pub mod Roles
pub mod RateLimit
mod Examples

abbrev pub default_lockout_threshold : ℕ
default_lockout_threshold = 5

pub record LoginAttemptTracker : Type 0 where
  pub threshold : ℕ
  pub window_seconds : ℕ
  pub failure_times : List ℕ

unfoldable pub new_tracker : ℕ → ℕ → LoginAttemptTracker
new_tracker threshold window_seconds = record {
  threshold = threshold;
  window_seconds = window_seconds;
  failure_times = [];
}

-- The times t with t > now - window_seconds.
unfoldable pub recent : ℕ → ℕ → List ℕ → List ℕ
recent window_seconds now [] = []
recent window_seconds now (t ∷ times) =
    let rest = recent window_seconds now times in
    if ltb now (t + window_seconds) then t ∷ rest else rest

unfoldable pub prune : ℕ → LoginAttemptTracker → LoginAttemptTracker
unfolding recent
prune now tracker = record tracker {
  failure_times = recent tracker.window_seconds now tracker.failure_times;
}

unfoldable pub record_failure : ℕ → LoginAttemptTracker → LoginAttemptTracker
unfolding prune
record_failure now tracker =
    let pruned = prune now tracker in
    record pruned { failure_times = pruned.failure_times ++ now ∷ [] }

unfoldable pub record_success : LoginAttemptTracker → LoginAttemptTracker
record_success tracker = record tracker { failure_times = [] }

unfoldable pub is_locked_out : ℕ → LoginAttemptTracker → Bool × LoginAttemptTracker
unfolding prune
is_locked_out now tracker =
    let pruned = prune now tracker in (leb pruned.threshold (length pruned.failure_times), pruned)

abbrev pub role_permissions : Dict (List String)
role_permissions =
    (
      "admin",
      "tag:read" ∷ "tag:write" ∷ "config:read" ∷ "config:write" ∷ "driver:restart"
          ∷ "northbound:publish" ∷ "security:manage" ∷ "user:manage" ∷ "audit:read" ∷ "ota:trigger"
          ∷ "diagnostics:run" ∷ "alarm:manage" ∷ [],
    )
    ∷ (
      "operator",
      "tag:read" ∷ "tag:write" ∷ "config:read" ∷ "config:write" ∷ "driver:restart"
          ∷ "northbound:publish" ∷ "diagnostics:run" ∷ "alarm:manage" ∷ [],
    )
    ∷ ("auditor", "tag:read" ∷ "config:read" ∷ "audit:read" ∷ [])
    ∷ ("readonly", "tag:read" ∷ [])
    ∷ []

unfoldable pub contains : List String → String → Bool
contains [] permission = false
contains (p ∷ permissions) permission = str_eq p permission || contains permissions permission

-- ROLE_PERMISSIONS.get(role, frozenset())
abbrev pub permissions_of : Option (List String) → List String
permissions_of none = []
permissions_of (some permissions) = permissions

unfoldable pub has_permission : Option String → String → Bool
unfolding contains
has_permission none permission = false
has_permission (some role) permission =
    contains (permissions_of (get role_permissions role)) permission
