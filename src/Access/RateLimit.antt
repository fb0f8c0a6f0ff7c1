-- ===== src/Access/RateLimit.antt =====
-- xedge/api/rate_limit.py: the sliding window of requests of each client. The response of the handler
-- behind the middleware is not part of the model, nor is the header of a refusal.
use xedge.Prelude.{
  ℕ, ◌+◌, String, Bool, true, false, Option, none, some, List, [], ◌∷◌, ◌++◌, length, ltb, leb,
  if◌then◌else◌,
}
use xedge.Prelude.Assoc.{Dict, get, put}
use xedge.Access.{recent, contains}
pub mod History

abbrev pub window_seconds : ℕ
window_seconds = 60

abbrev pub default_requests_per_minute : ℕ
default_requests_per_minute = 100

abbrev pub max_tracked_ips : ℕ
max_tracked_ips = 10_000

pub record RateLimitMiddleware : Type 0 where
  pub requests_per_minute : ℕ
  pub exempt_paths : List String
  pub hits : Dict (List ℕ)

pub record Request : Type 0 where
  pub path : String
  pub client : Option String
  pub now : ℕ

-- `refused` is the response 429; its arguments are the actor and the path of the audit entry.
pub data Answer : Type 0 where
  handled : Answer
  refused : String → String → Answer

abbrev pub client_ip : Request → String
client_ip r = elim r.client [ none ↦ "unknown" | some host ↦ host ]

abbrev pub hits_or_none : Option (List ℕ) → List ℕ
hits_or_none none = []
hits_or_none (some times) = times

abbrev pub hits_of : Dict (List ℕ) → String → List ℕ
hits_of hits ip = hits_or_none (get hits ip)

-- The safety valve against too many clients.
abbrev pub bounded : Dict (List ℕ) → Dict (List ℕ)
bounded hits = if ltb max_tracked_ips (length hits) then [] else hits

-- The answer for the hits of the client in the window.
abbrev pub count_hit :
    Request → List ℕ → Dict (List ℕ) → RateLimitMiddleware → Bool → Answer × RateLimitMiddleware
count_hit r times hits m true = (refused (client_ip r) r.path, record m { hits = hits })
count_hit r times hits m false =
    (handled, record m { hits = put hits (client_ip r) (times ++ r.now ∷ []) })

abbrev pub limit : Request → RateLimitMiddleware → Answer × RateLimitMiddleware
limit r m =
    let hits = bounded m.hits in
    let times = recent window_seconds r.now (hits_of hits (client_ip r)) in
    count_hit r times hits m (leb m.requests_per_minute (length times))

unfoldable pub dispatch : Request → RateLimitMiddleware → Answer × RateLimitMiddleware
unfolding contains recent
dispatch r m = if contains m.exempt_paths r.path then (handled, m) else limit r m
