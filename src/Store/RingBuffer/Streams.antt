-- ===== src/Store/RingBuffer/Streams.antt =====
-- The manager of xedge/store/ring_buffer.py: draining all streams.
use xedge.Prelude.{
  ◌≡◌, refl, ap, none, List, [], ◌∷◌, ◌++◌, map, arith, length, drop, take, All, take-all,
}
use xedge.Prelude.Assoc.{Dict}
use xedge.Store.RingBuffer.{RingBuffer, RingBufferManager, drain, drain_buffers, drain_all}

module _ {A : Type 0} where
  -- What the streams hold, in their order.
  abbrev pub contents : Dict (RingBuffer A) → List A
  contents [] = []
  contents ((k, b) ∷ rest) = b.buffer ++ contents rest

  take-length : (l : List A) → take (length l) l ≡ l
  take-length l = take-all (length l) l (omega arith)

  drop-length : (l : List A) → drop (length l) l ≡ []
  drop-length [] = refl
  drop-length (x ∷ l) = drop-length l

  drain_buffers-none :
      (d : Dict (RingBuffer A))
      → ((drain_buffers none d).0 ≡ contents d)
        × All (λ e. e.1.buffer ≡ []) (drain_buffers none d).1
        × (map (λ e. e.0) (drain_buffers none d).1 ≡ map (λ e. e.0) d)
  unfolding drain_buffers drain
  drain_buffers-none [] = (refl, tt, refl)
  drain_buffers-none ((k, b) ∷ rest) =
      let (all, empty, keys) = drain_buffers-none rest in
      (
        rw (take-length b.buffer) (ap (λ l. b.buffer ++ l) all),
        (drop-length b.buffer, empty),
        ap (λ l. k ∷ l) keys,
      )

  -- `drain_all` with no limit returns all that the streams hold, stream by stream in the order in
  -- which the streams were made and each from its oldest sample on; it leaves every stream empty and
  -- keeps the streams.
  pub drain_all-none :
      (m : RingBufferManager A)
      → ((drain_all none m).0 ≡ contents m.buffers)
        × All (λ e. e.1.buffer ≡ []) (drain_all none m).1.buffers
        × (map (λ e. e.0) (drain_all none m).1.buffers ≡ map (λ e. e.0) m.buffers)
  unfolding drain_all
  drain_all-none m = drain_buffers-none m.buffers
