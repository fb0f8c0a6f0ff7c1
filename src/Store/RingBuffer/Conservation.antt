-- ===== src/Store/RingBuffer/Conservation.antt =====
-- No sample of xedge/store/ring_buffer.py is lost, reordered or kept beyond the maximal depth.
use xedge.Prelude.{
  ℕ, ◌+◌, ◌≤◌, ◌≡◌, refl, sym, ap, ◌∙◌, inl, inr, Bool, true, false, Option, some, List, [], ◌∷◌,
  ◌++◌, arith, leb, length, length-append, length-drop, take, drop, take-append-drop, append_assoc,
  append-nil, Bool-cases, List-cases,
}
use xedge.Prelude.Results.{Result, ok, err}
use xedge.Store.RingBuffer.{RingBuffer, PushError, push, drain, drain_count, new_buffer}

-- One call on a buffer whose evicted samples go to a list.
pub data Call (A : Type 0) : Type 0 where
  push_call : A → Call A
  drain_call : Option ℕ → Call A

-- The buffer and its history, in order: `taken` are the samples of the pushes that returned,
-- `spilled` those that were evicted, `left` those that were evicted or drained.
pub record Trace (A : Type 0) : Type 0 where
  pub ring : RingBuffer A
  pub spilled : List A
  pub left : List A
  pub taken : List A
  pub refused : ℕ

module _ {A : Type 0} where
  abbrev collect : A → List A × List A → List A × List A
  collect a (spilled, left) = (spilled ++ a ∷ [], left ++ a ∷ [])

  abbrev pushed : Trace A → A → Result PushError (RingBuffer A × (List A × List A)) → Trace A
  pushed t a (ok (b, (spilled, left))) = record t {
    ring = b;
    spilled = spilled;
    left = left;
    taken = t.taken ++ a ∷ [];
  }
  pushed t a (err e) = record t { refused = t.refused + 1 }

  unfoldable pub step : Trace A → Call A → Trace A
  unfolding push drain
  step t (push_call a) = pushed t a (push (some collect) a t.ring (t.spilled, t.left))
  step t (drain_call n) =
      let (drained, b) = drain n t.ring in record t { ring = b; left = t.left ++ drained }

  unfoldable pub run : Trace A → List (Call A) → Trace A
  unfolding step
  run t [] = t
  run t (c ∷ cs) = run (step t c) cs

  pub record IsConserved (t : Trace A) : Type 0 where
    pub fifo : t.left ++ t.ring.buffer ≡ t.taken
    pub bounded : length t.ring.buffer ≤ t.ring.max_depth
    pub counted : t.ring.evicted_count ≡ length t.spilled
    pub alarm_kept : t.ring.is_alarm_stream ≡ true → t.spilled ≡ []

  drain-IsConserved :
      (t : Trace A) (n : Option ℕ) → IsConserved t → IsConserved (step t (drain_call n))
  unfolding step
  drain-IsConserved t n h =
      let k : ℕ = drain_count n t.ring in
      record {
        fifo =
            append_assoc t.left (take k t.ring.buffer) (drop k t.ring.buffer)
            ∙ rw (take-append-drop k t.ring.buffer) h.fifo;
        bounded = omega (arith, h.bounded, length-drop k t.ring.buffer);
        counted = h.counted;
        alarm_kept = h.alarm_kept;
      }

  -- What a push leads to: room, a refusal, an eviction, or a fault at depth 0.
  abbrev roomy : Trace A → A → Trace A
  roomy t a = record t {
    ring = record (t.ring) { buffer = t.ring.buffer ++ a ∷ [] };
    taken = t.taken ++ a ∷ [];
  }

  abbrev refused_by : Trace A → Trace A
  refused_by t = record t { refused = t.refused + 1 }

  abbrev evicting : Trace A → A → A → List A → Trace A
  evicting t a oldest rest = record t {
    ring = record (t.ring) { buffer = rest ++ a ∷ []; evicted_count = t.ring.evicted_count + 1 };
    spilled = t.spilled ++ oldest ∷ [];
    left = t.left ++ oldest ∷ [];
    taken = t.taken ++ a ∷ [];
  }

  step-roomy :
      (t : Trace A) (a : A)
      → leb t.ring.max_depth (length t.ring.buffer) ≡ false
      → step t (push_call a) ≡ roomy t a
  unfolding step
  step-roomy t a full = rw full

  step-refused :
      (t : Trace A) (a : A)
      → leb t.ring.max_depth (length t.ring.buffer) ≡ true
      → t.ring.is_alarm_stream ≡ true
      → step t (push_call a) ≡ refused_by t
  unfolding step
  step-refused t a full alarm = rw (full, alarm)

  step-fault :
      (t : Trace A) (a : A)
      → leb t.ring.max_depth (length t.ring.buffer) ≡ true
      → t.ring.is_alarm_stream ≡ false
      → t.ring.buffer ≡ []
      → step t (push_call a) ≡ refused_by t
  unfolding step
  step-fault t a full alarm empty = ground arith

  step-evicting :
      (t : Trace A) (a oldest : A) (rest : List A)
      → leb t.ring.max_depth (length t.ring.buffer) ≡ true
      → t.ring.is_alarm_stream ≡ false
      → t.ring.buffer ≡ oldest ∷ rest
      → step t (push_call a) ≡ evicting t a oldest rest
  unfolding step
  step-evicting t a oldest rest full alarm e = ground arith

  refused-IsConserved : (t : Trace A) → IsConserved t → IsConserved (refused_by t)
  refused-IsConserved t h = record {
    fifo = h.fifo;
    bounded = h.bounded;
    counted = h.counted;
    alarm_kept = h.alarm_kept;
  }

  roomy-IsConserved :
      (t : Trace A) (a : A)
      → IsConserved t
      → leb t.ring.max_depth (length t.ring.buffer) ≡ false
      → IsConserved (roomy t a)
  roomy-IsConserved t a h room = record {
    fifo = sym (append_assoc t.left t.ring.buffer (a ∷ [])) ∙ ap (λ l. l ++ a ∷ []) h.fifo;
    bounded = ground (arith, length-append t.ring.buffer (a ∷ []));
    counted = h.counted;
    alarm_kept = h.alarm_kept;
  }

  evicting-IsConserved :
      (t : Trace A) (a oldest : A) (rest : List A)
      → IsConserved t
      → t.ring.is_alarm_stream ≡ false
      → t.ring.buffer ≡ oldest ∷ rest
      → IsConserved (evicting t a oldest rest)
  evicting-IsConserved t a oldest rest h alarm e = record {
    fifo =
        sym (append_assoc (t.left ++ oldest ∷ []) rest (a ∷ []))
        ∙ ap (λ l. l ++ a ∷ [])
            (append_assoc t.left (oldest ∷ []) rest ∙ ap (λ l. t.left ++ l) (sym e) ∙ h.fifo);
    bounded =
        ground (arith, length-append rest (a ∷ []), h.bounded, ap (λ (l : List A). length l) e);
    counted = omega (arith, h.counted, length-append t.spilled (oldest ∷ []));
    alarm_kept = λ yes'. absurd (cc);
  }

  push-IsConserved : (t : Trace A) (a : A) → IsConserved t → IsConserved (step t (push_call a))
  push-IsConserved t a h = elim (Bool-cases (leb t.ring.max_depth (length t.ring.buffer))) [
    | inr room ↦ rw (step-roomy t a room) (roomy-IsConserved t a h room)
    | inl full ↦ elim (Bool-cases t.ring.is_alarm_stream) [
      | inl alarm ↦ rw (step-refused t a full alarm) (refused-IsConserved t h)
      | inr plain ↦ elim (List-cases t.ring.buffer) [
        | inl empty ↦ rw (step-fault t a full plain empty) (refused-IsConserved t h)
        | inr (oldest, rest, e) ↦
            rw (step-evicting t a oldest rest full plain e)
              (evicting-IsConserved t a oldest rest h plain e)
      ]
    ]
  ]

  run-IsConserved_from : (t : Trace A) (cs : List (Call A)) → IsConserved t → IsConserved (run t cs)
  unfolding run
  run-IsConserved_from t [] h = h
  run-IsConserved_from t (push_call a ∷ cs) h =
      run-IsConserved_from (step t (push_call a)) cs (push-IsConserved t a h)
  run-IsConserved_from t (drain_call n ∷ cs) h =
      run-IsConserved_from (step t (drain_call n)) cs (drain-IsConserved t n h)

  -- A new buffer, and no history.
  unfoldable pub new_trace : ℕ → Bool → Trace A
  unfolding new_buffer
  new_trace max_depth is_alarm_stream = record {
    ring = new_buffer max_depth is_alarm_stream;
    spilled = [];
    left = [];
    taken = [];
    refused = 0;
  }

  new_trace-IsConserved :
      (max_depth : ℕ) (is_alarm_stream : Bool) → IsConserved (new_trace max_depth is_alarm_stream)
  unfolding new_trace
  new_trace-IsConserved max_depth is_alarm_stream = record {
    fifo = refl;
    bounded = omega arith;
    counted = refl;
    alarm_kept = λ alarm. refl;
  }

  -- Whatever calls a new buffer gets, of any maximal depth and of an alarm stream or not, the samples
  -- that were evicted or drained, followed by those that it holds, are the accepted samples in the
  -- order of their pushes; it never holds more than its maximal depth; its counter is the number of
  -- evicted samples; and an alarm stream evicts none.
  pub run-IsConserved :
      (max_depth : ℕ) (is_alarm_stream : Bool) (cs : List (Call A))
      → IsConserved (run (new_trace max_depth is_alarm_stream) cs)
  run-IsConserved max_depth is_alarm_stream cs =
      run-IsConserved_from (new_trace max_depth is_alarm_stream) cs
        (new_trace-IsConserved max_depth is_alarm_stream)

  -- The samples that a list of calls pushes.
  abbrev pub pushes : List (Call A) → List A
  pushes [] = []
  pushes (push_call a ∷ cs) = a ∷ pushes cs
  pushes (drain_call n ∷ cs) = pushes cs

  -- A push of an ordinary stream with room for one sample at least is always taken.
  push-taken :
      (t : Trace A) (a : A)
      → IsConserved t
      → t.ring.is_alarm_stream ≡ false
      → 1 ≤ t.ring.max_depth
      → ((step t (push_call a)).taken ≡ t.taken ++ a ∷ [])
        × ((step t (push_call a)).refused ≡ t.refused)
        × ((step t (push_call a)).ring.is_alarm_stream ≡ false)
        × ((step t (push_call a)).ring.max_depth ≡ t.ring.max_depth)
  push-taken t a h plain d = elim (Bool-cases (leb t.ring.max_depth (length t.ring.buffer))) [
    | inr room ↦ rw (step-roomy t a room) (refl, refl, plain, refl)
    | inl full ↦ elim (List-cases t.ring.buffer) [
      | inl empty ↦ absurd (ground (arith, ap (λ (l : List A). length l) empty))
      | inr (oldest, rest, e) ↦
          rw (step-evicting t a oldest rest full plain e) (refl, refl, plain, refl)
    ]
  ]

  run-takes_all_from :
      (t : Trace A) (cs : List (Call A))
      → IsConserved t
      → t.ring.is_alarm_stream ≡ false
      → 1 ≤ t.ring.max_depth
      → ((run t cs).left ++ (run t cs).ring.buffer ≡ t.taken ++ pushes cs)
        × ((run t cs).refused ≡ t.refused)
  unfolding run
  run-takes_all_from t [] h plain d = (h.fifo ∙ sym (append-nil t.taken), refl)
  run-takes_all_from t (push_call a ∷ cs) h plain d =
      let (taken, refused, plain', depth) = push-taken t a h plain d in
      let (all, none') =
        run-takes_all_from (step t (push_call a)) cs (push-IsConserved t a h) plain'
          (omega (arith, depth)) in
      (
        all ∙ ap (λ l. l ++ pushes cs) taken ∙ append_assoc t.taken (a ∷ []) (pushes cs),
        none' ∙ refused,
      )
  run-takes_all_from t (drain_call n ∷ cs) h plain d =
      run-takes_all_from (step t (drain_call n)) cs (drain-IsConserved t n h) (unfold step in plain)
        (unfold step in d)

  -- A new buffer of an ordinary stream, of depth 1 or more, takes every pushed sample, whatever calls
  -- it gets: no push is refused, and the evicted or drained samples, followed by the held ones, are
  -- all the pushed ones, in order.
  pub run-takes_all :
      (max_depth : ℕ) (cs : List (Call A))
      → 1 ≤ max_depth
      → ((run (new_trace max_depth false) cs).left
            ++ (run (new_trace max_depth false) cs).ring.buffer
          ≡ pushes cs)
        × ((run (new_trace max_depth false) cs).refused ≡ 0)
  unfolding new_trace
  run-takes_all max_depth cs depth =
      run-takes_all_from (new_trace max_depth false) cs (new_trace-IsConserved max_depth false) refl
        depth
