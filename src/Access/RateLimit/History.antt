-- ===== src/Access/RateLimit/History.antt =====
-- The rate limit of xedge/api/rate_limit.py, described by the whole history of requests.
use xedge.Prelude.{
  ℕ, suc, ◌+◌, ◌≤◌, ◌≡◌, refl, sym, ap, ◌∙◌, subst, arith, String, Bool, true, false, some, List,
  [], ◌∷◌, ◌++◌, append-nil, eq_iff, length, leb, if◌then◌else◌,
}
use text.Mathlib.Text.{◌==◌}
use xedge.Prelude.Assoc.{Dict, get, put, get-put}
use xedge.Access.{recent, contains}
use xedge.Access.Lockout.{recent-recent, recent-append}
use xedge.Access.RateLimit.{
  window_seconds, max_tracked_ips, RateLimitMiddleware, Request, Answer, handled, refused,
  client_ip, hits_or_none, hits_of, bounded, count_hit, limit, dispatch,
}

abbrev pub Log : Type 0
Log = List (String × ℕ)

-- The requests that were let through and counted, each with its client and its time.
abbrev pub note : Bool → Request → Log → Answer → Log
note true r log answer = log
note false r log handled = log ++ (client_ip r, r.now) ∷ []
note false r log (refused actor path) = log

unfoldable pub serve_all : List Request → Log → RateLimitMiddleware → Log × RateLimitMiddleware
unfolding dispatch
serve_all [] log m = (log, m)
serve_all (r ∷ rs) log m =
    let (answer, m') = dispatch r m in
    serve_all rs (note (contains m.exempt_paths r.path) r log answer) m'

unfoldable pub times_of : String → Log → List ℕ
times_of ip [] = []
times_of ip ((own, t) ∷ log) = let rest = times_of ip log in if own == ip then t ∷ rest else rest

times_of-append :
    (ip : String) (log later : Log)
    → times_of ip (log ++ later) ≡ times_of ip log ++ times_of ip later
unfolding times_of
times_of-append ip [] later = refl
times_of-append ip ((own, t) ∷ log) later = ground (arith, times_of-append ip log later)

length-put :
    (hits : Dict (List ℕ)) (ip : String) (times : List ℕ)
    → length (put hits ip times) ≤ suc (length hits)
unfolding put
length-put [] ip times = omega arith
length-put ((own, old) ∷ rest) ip times = ground (arith, length-put rest ip times)

bounded-small : (hits : Dict (List ℕ)) → length hits ≤ max_tracked_ips → bounded hits ≡ hits
bounded-small hits h = ground (arith, h)

-- The hits and the log agree, for every client, on what is recent from a time on.
abbrev Agrees : ℕ → Log → Dict (List ℕ) → Type 0
Agrees first log hits =
    (ip : String) (now : ℕ)
    → first ≤ now
    → recent window_seconds now (hits_of hits ip) ≡ recent window_seconds now (times_of ip log)

hits_of-put :
    (hits : Dict (List ℕ)) (own ip : String) (times : List ℕ)
    → hits_of (put hits own times) ip ≡ (if own == ip then times else hits_of hits ip)
hits_of-put hits own ip times = ap hits_or_none (get-put hits own ip times) ∙ either (own == ip)
  where
    either :
        (b : Bool)
        → hits_or_none (if b then some times else get hits ip)
          ≡ (if b then times else hits_or_none (get hits ip))
    either true = refl
    either false = refl

put-Agrees :
    (first : ℕ) (log : Log) (hits : Dict (List ℕ)) (own : String) (at : ℕ)
    → first ≤ at
    → Agrees first log hits
    → Agrees at
        (log ++ (own, at) ∷ [])
        (put hits own (recent window_seconds at (hits_of hits own) ++ at ∷ []))
unfolding times_of
put-Agrees first log hits own at le h ip now le' =
    ap (recent window_seconds now)
      (hits_of-put hits own ip (recent window_seconds at (hits_of hits own) ++ at ∷ []))
    ∙ either (own == ip) (λ e. (eq_iff own ip).0 e)
    ∙ ap (recent window_seconds now) (sym (times_of-append ip log ((own, at) ∷ [])))
  where
    either :
        (b : Bool)
        → (b ≡ true → own ≡ ip)
        → recent window_seconds now
            (if b then recent window_seconds at (hits_of hits own) ++ at ∷ [] else hits_of hits ip)
          ≡ recent window_seconds now (times_of ip log ++ (if b then at ∷ [] else []))
    either true e =
        recent-append window_seconds now (recent window_seconds at (hits_of hits own)) (at ∷ [])
        ∙ ap (λ l. l ++ recent window_seconds now (at ∷ []))
            (recent-recent window_seconds at now (hits_of hits own) le'
              ∙ h own now (omega (arith, le, le'))
              ∙ ap (λ k. recent window_seconds now (times_of k log)) (e refl))
        ∙ sym (recent-append window_seconds now (times_of ip log) (at ∷ []))
    either false e =
        h ip now (omega (arith, le, le'))
        ∙ ap (recent window_seconds now) (sym (append-nil (times_of ip log)))

-- The clock does not go back, from a first time to a last one.
abbrev pub IsOrdered : ℕ → List Request → ℕ → Type 0
IsOrdered first [] last = first ≤ last
IsOrdered first (r ∷ rs) last = (first ≤ r.now) × IsOrdered r.now rs last

-- What one request leaves: agreement from its time on, at most one client more, the same settings.
abbrev IsServed : Request → RateLimitMiddleware → Log × RateLimitMiddleware → Type 0
IsServed r m s =
    Agrees r.now s.0 s.1.hits
    × (length s.1.hits ≤ suc (length m.hits))
    × (s.1.requests_per_minute ≡ m.requests_per_minute)
    × (s.1.exempt_paths ≡ m.exempt_paths)

dispatch-IsServed :
    (r : Request) (log : Log) (m : RateLimitMiddleware) (first : ℕ)
    → first ≤ r.now
    → length m.hits ≤ max_tracked_ips
    → Agrees first log m.hits
    → IsServed r m (note (contains m.exempt_paths r.path) r log (dispatch r m).0, (dispatch r m).1)
unfolding dispatch
dispatch-IsServed r log m first le small h = exempted (contains m.exempt_paths r.path)
  where
    kept : Agrees r.now log m.hits
    kept ip now le' = h ip now (omega (arith, le, le'))

    counted :
        (b : Bool)
        → IsServed r m (
          note false r log
              (count_hit r
                (recent window_seconds r.now (hits_of m.hits (client_ip r)))
                m.hits
                m
                b).0,
          (count_hit r (recent window_seconds r.now (hits_of m.hits (client_ip r))) m.hits m b).1,
        )
    counted true = (kept, omega arith, refl, refl)
    counted false = (
      put-Agrees first log m.hits (client_ip r) r.now le h,
      length-put m.hits (client_ip r)
          (recent window_seconds r.now (hits_of m.hits (client_ip r)) ++ r.now ∷ []),
      refl,
      refl,
    )

    limited : IsServed r m (note false r log (limit r m).0, (limit r m).1)
    limited =
        subst
          (λ hits. IsServed r m (
            note false r log
                (count_hit r (recent window_seconds r.now (hits_of hits (client_ip r))) hits m (
                  leb m.requests_per_minute
                    (length (recent window_seconds r.now (hits_of hits (client_ip r)))))).0,
            (count_hit r (recent window_seconds r.now (hits_of hits (client_ip r))) hits m (
                leb m.requests_per_minute
                  (length (recent window_seconds r.now (hits_of hits (client_ip r)))))).1,
          ))
          (sym (bounded-small m.hits small))
          (counted (
            leb m.requests_per_minute
              (length (recent window_seconds r.now (hits_of m.hits (client_ip r))))))

    exempted :
        (b : Bool)
        → IsServed r m (
          note b r log (if b then (handled, m) else limit r m).0,
          (if b then (handled, m) else limit r m).1,
        )
    exempted true = (kept, omega arith, refl, refl)
    exempted false = limited

serve_all-Agrees :
    (rs : List Request) (log : Log) (m : RateLimitMiddleware) (first last : ℕ)
    → IsOrdered first rs last
    → length m.hits + length rs ≤ max_tracked_ips
    → Agrees first log m.hits
    → Agrees last (serve_all rs log m).0 (serve_all rs log m).1.hits
      × (length (serve_all rs log m).1.hits ≤ length m.hits + length rs)
      × ((serve_all rs log m).1.requests_per_minute ≡ m.requests_per_minute)
      × ((serve_all rs log m).1.exempt_paths ≡ m.exempt_paths)
unfolding serve_all
serve_all-Agrees [] log m first last o small h =
    (λ ip now le. h ip now (omega (arith, o, le)), omega arith, refl, refl)
serve_all-Agrees (r ∷ rs) log m first last o small h =
    let (agrees, one, rate, exempt) =
      dispatch-IsServed r log m first o.0 (omega (arith, small)) h in
    let (agrees', more, rate', exempt') =
      serve_all-Agrees rs (note (contains m.exempt_paths r.path) r log (dispatch r m).0)
        (dispatch r m).1 r.now last o.1 (omega (arith, one, small)) agrees in
    (agrees', omega (arith, one, more), rate' ∙ rate, exempt' ∙ exempt)

nothing :
    (ip : String) (now : ℕ)
    → recent window_seconds now (hits_of [] ip) ≡ recent window_seconds now (times_of ip [])
unfolding get times_of
nothing ip now = refl

count_hit-answer :
    (r : Request) (times : List ℕ) (hits : Dict (List ℕ)) (m : RateLimitMiddleware) (b : Bool)
    → (count_hit r times hits m b).0 ≡ (if b then refused (client_ip r) r.path else handled)
count_hit-answer r times hits m true = refl
count_hit-answer r times hits m false = refl

limited-answer :
    (r : Request) (m : RateLimitMiddleware)
    → contains m.exempt_paths r.path ≡ false
    → length m.hits ≤ max_tracked_ips
    → (dispatch r m).0 ≡ (
        if leb m.requests_per_minute
          (length (recent window_seconds r.now (hits_of m.hits (client_ip r))))
        then refused (client_ip r) r.path
        else handled)
unfolding dispatch
limited-answer r m plain small =
    let window : Dict (List ℕ) → List ℕ =
      λ hits. recent window_seconds r.now (hits_of hits (client_ip r)) in
    exempted plain
    ∙ ap
        (λ hits.
          (count_hit r (window hits) hits m (leb m.requests_per_minute (length (window hits)))).0)
        (bounded-small m.hits small)
    ∙ count_hit-answer r (window m.hits) m.hits m
        (leb m.requests_per_minute (length (window m.hits)))
  where
    exempted : {b : Bool} → b ≡ false → (if b then (handled, m) else limit r m).0 ≡ (limit r m).0
    exempted e = rw e refl

-- After at most 10,000 requests under a clock that does not go back, from a start without any, a
-- request whose path is not exempt is refused just when, of all earlier requests of its client that
-- were let through and counted, at least as many as the limit lie within the 60 seconds before it.
pub dispatch-history :
    (m : RateLimitMiddleware) (rs : List Request) (r : Request)
    → m.hits ≡ []
    → length rs ≤ max_tracked_ips
    → IsOrdered 0 rs r.now
    → contains m.exempt_paths r.path ≡ false
    → (dispatch r (serve_all rs [] m).1).0 ≡ (
        if leb m.requests_per_minute
          (length (recent window_seconds r.now (times_of (client_ip r) (serve_all rs [] m).0)))
        then refused (client_ip r) r.path
        else handled)
dispatch-history m rs r none_yet small o plain =
    let s : Log × RateLimitMiddleware = serve_all rs [] m in
    let empty : length m.hits ≡ 0 = ap (λ d. length d) none_yet in
    let (agrees, size, rate, exempt) =
      serve_all-Agrees rs [] m 0 r.now o (omega (arith, empty, small)) (λ ip now le.
        ap (λ d. recent window_seconds now (hits_of d ip)) none_yet ∙ nothing ip now) in
    limited-answer r s.1 (ap (λ e. contains e r.path) exempt ∙ plain)
      (omega (arith, size, empty, small))
    ∙ ap
        (λ k.
          if leb k (length (recent window_seconds r.now (hits_of s.1.hits (client_ip r))))
          then refused (client_ip r) r.path
          else handled)
        rate
    ∙ ap
        (λ l.
          if leb m.requests_per_minute (length l) then refused (client_ip r) r.path else handled)
        (agrees (client_ip r) r.now (omega arith))
