-- ===== src/Store/RingBuffer/Examples.antt =====
-- Ring buffers at concrete inputs.
use xedge.Prelude.{ℕ, ◌≡◌, refl, true, false, none, some, List, [], ◌∷◌, ◌++◌, arith, String}
use xedge.Prelude.Assoc.{get, put}
use xedge.Prelude.Results.{err}
use xedge.Store.RingBuffer.{
  RingBuffer, RingBufferManager, push, drain, new_buffer, buffer_of, push_stream, backpressure,
  index_error,
}
use xedge.Store.RingBuffer.Conservation.{
  Call, push_call, drain_call, new_trace, run, step, pushes, IsConserved, run-IsConserved,
  run-takes_all,
}

abbrev calls : List (Call ℕ)
calls = push_call 5 ∷ push_call 6 ∷ push_call 7 ∷ drain_call (some 1) ∷ push_call 8 ∷ []

-- Three pushes into two places evict the oldest sample.
evicts_oldest : (run (new_trace 2 false) calls).spilled ≡ 5 ∷ []
unfolding run step push drain new_buffer new_trace
evicts_oldest = refl

run-IsConserved_example : IsConserved (run (new_trace 2 false) calls)
run-IsConserved_example = run-IsConserved 2 false calls

run-takes_all_example :
    ((run (new_trace 2 false) calls).left ++ (run (new_trace 2 false) calls).ring.buffer
      ≡ pushes calls)
    × ((run (new_trace 2 false) calls).refused ≡ 0)
run-takes_all_example = run-takes_all 2 calls (omega arith)

abbrev alarms : RingBuffer ℕ
alarms = record { max_depth = 1; is_alarm_stream = true; buffer = 4 ∷ []; evicted_count = 0 }

-- A full alarm stream refuses, and a stream of depth 0 fails.
refuses : push none 5 alarms tt ≡ err backpressure
unfolding push
refuses = refl

fails_at_zero : push {A = ℕ} none 5 (new_buffer 0 false) tt ≡ err index_error
unfolding push new_buffer
fails_at_zero = refl

abbrev two_streams : RingBufferManager ℕ
two_streams = record {
  max_depth = 2;
  buffers =
      (
        "pump",
        record { max_depth = 2; is_alarm_stream = false; buffer = 1 ∷ 2 ∷ []; evicted_count = 0 },
      )
      ∷ (
        "fan",
        record { max_depth = 2; is_alarm_stream = false; buffer = 3 ∷ []; evicted_count = 1 },
      )
      ∷ [];
}

abbrev log_eviction : String → ℕ → List (String × ℕ) → List (String × ℕ)
log_eviction stream_key evicted log = log ++ (stream_key, evicted) ∷ []

pump_evicts : (push_stream (some log_eviction) "pump" 9 false two_streams []).2 ≡ ("pump", 1) ∷ []
unfolding push_stream buffer_of push get put
pump_evicts = refl
