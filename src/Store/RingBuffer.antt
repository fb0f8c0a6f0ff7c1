-- ===== src/Store/RingBuffer.antt =====
-- xedge/store/ring_buffer.py: a bounded queue of samples for each stream. The samples are of any
-- type `A`; `C` is the state that the eviction callback changes, such as the cold store.
use xedge.Prelude.{
  ℕ, ◌+◌, min, String, Bool, true, false, Option, none, some, List, [], ◌∷◌, ◌++◌, map, leb,
  if◌then◌else◌, length, take, drop,
}
use xedge.Prelude.Assoc.{Dict, get, put}
use xedge.Prelude.Results.{Result, ok, err}
pub mod Conservation
pub mod Streams
mod Examples

-- `backpressure` is RingBufferBackpressureError; `index_error` comes from `popleft` on an empty
-- deque, which a maximal depth of 0 leads to.
pub data PushError : Type 0 where
  backpressure index_error : PushError

abbrev pub default_max_depth : ℕ
default_max_depth = 10_000

pub record RingBufferMetrics : Type 0 where
  pub depth : ℕ
  pub max_depth : ℕ
  pub evicted_count : ℕ

pub record RingBuffer (A : Type 0) : Type 0 where
  pub max_depth : ℕ
  pub is_alarm_stream : Bool
  pub buffer : List A
  pub evicted_count : ℕ

module _ {A C : Type 0} where
  abbrev pub spill : Option (A → C → C) → A → C → C
  spill none evicted c = c
  spill (some on_evict) evicted c = on_evict evicted c

  -- popleft, count, call back, append
  evict : Option (A → C → C) → A → List A → RingBuffer A → C → Result PushError (RingBuffer A × C)
  evict on_evict tag [] b c = err index_error
  evict on_evict tag (evicted ∷ rest) b c = ok (
    record b { buffer = rest ++ tag ∷ []; evicted_count = b.evicted_count + 1 },
    spill on_evict evicted c,
  )

  unfoldable pub push :
      Option (A → C → C) → A → RingBuffer A → C → Result PushError (RingBuffer A × C)
  unfolding evict
  push on_evict tag b c =
      if leb b.max_depth (length b.buffer)
      then (if b.is_alarm_stream then err backpressure else evict on_evict tag b.buffer b c)
      else ok (record b { buffer = b.buffer ++ tag ∷ [] }, c)

module _ {A : Type 0} where
  unfoldable pub new_buffer : ℕ → Bool → RingBuffer A
  new_buffer max_depth is_alarm_stream = record {
    max_depth = max_depth;
    is_alarm_stream = is_alarm_stream;
    buffer = [];
    evicted_count = 0;
  }

  abbrev pub drain_count : Option ℕ → RingBuffer A → ℕ
  drain_count none b = length b.buffer
  drain_count (some max_items) b = min max_items (length b.buffer)

  -- The samples that leave, oldest first, and the buffer that stays.
  unfoldable pub drain : Option ℕ → RingBuffer A → List A × RingBuffer A
  drain max_items b = (
    take (drain_count max_items b) b.buffer,
    record b { buffer = drop (drain_count max_items b) b.buffer },
  )

  unfoldable pub metrics : RingBuffer A → RingBufferMetrics
  metrics b = record {
    depth = length b.buffer;
    max_depth = b.max_depth;
    evicted_count = b.evicted_count;
  }

pub record RingBufferManager (A : Type 0) : Type 0 where
  pub max_depth : ℕ
  pub buffers : Dict (RingBuffer A)

module _ {A : Type 0} where
  -- The buffer of a stream; the alarm flag counts only when the buffer is made.
  unfoldable pub buffer_of : String → Bool → RingBufferManager A → RingBuffer A
  unfolding new_buffer
  buffer_of stream_key is_alarm_stream m = elim (get m.buffers stream_key) [
    | none ↦ new_buffer m.max_depth is_alarm_stream
    | some b ↦ b
  ]

module _ {A C : Type 0} where
  abbrev for_stream : Option (String → A → C → C) → String → Option (A → C → C)
  for_stream none stream_key = none
  for_stream (some on_evict) stream_key = some (on_evict stream_key)

  -- The buffer is stored before the push, so that a refused push leaves it there.
  abbrev store_pushed :
      String
      → RingBufferManager A
      → C
      → Result PushError (RingBuffer A × C)
      → Result PushError (Unit {0}) × RingBufferManager A × C
  store_pushed stream_key m c (err e) = (err e, m, c)
  store_pushed stream_key m c (ok (b, c')) =
      (ok tt, record m { buffers = put m.buffers stream_key b }, c')

  unfoldable pub push_stream :
      Option (String → A → C → C)
      → String
      → A
      → Bool
      → RingBufferManager A
      → C
      → Result PushError (Unit {0}) × RingBufferManager A × C
  unfolding buffer_of
  push_stream on_evict stream_key tag is_alarm_stream m c =
      let b = buffer_of stream_key is_alarm_stream m in
      store_pushed stream_key (record m { buffers = put m.buffers stream_key b }) c
        (push (for_stream on_evict stream_key) tag b c)

module _ {A : Type 0} where
  unfoldable pub drain_stream :
      String → Option ℕ → RingBufferManager A → List A × RingBufferManager A
  drain_stream stream_key max_items m = elim (get m.buffers stream_key) [
    | none ↦ ([], m)
    | some b ↦
        let (drained, b') = drain max_items b in
        (drained, record m { buffers = put m.buffers stream_key b' })
  ]

  unfoldable pub drain_buffers : Option ℕ → Dict (RingBuffer A) → List A × Dict (RingBuffer A)
  drain_buffers max_items [] = ([], [])
  drain_buffers max_items ((stream_key, b) ∷ rest) =
      let (drained, b') = drain max_items b in
      let (others, rest') = drain_buffers max_items rest in
      (drained ++ others, (stream_key, b') ∷ rest')

  unfoldable pub drain_all : Option ℕ → RingBufferManager A → List A × RingBufferManager A
  unfolding drain_buffers
  drain_all max_items_per_stream m =
      let (drained, buffers) = drain_buffers max_items_per_stream m.buffers in
      (drained, record m { buffers = buffers })

  unfoldable pub stream_keys : RingBufferManager A → List String
  stream_keys m = map (λ e. e.0) m.buffers

  unfoldable pub stream_metrics : String → RingBufferManager A → Option RingBufferMetrics
  unfolding metrics
  stream_metrics stream_key m = elim (get m.buffers stream_key) [
    | none ↦ none
    | some b ↦ some (metrics b)
  ]
