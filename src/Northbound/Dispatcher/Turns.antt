-- ===== src/Northbound/Dispatcher/Turns.antt =====
-- The loop of xedge/northbound/dispatcher.py: what becomes of a live batch that the connector does not
-- take.
use xedge.Prelude.{ℕ, ◌≡◌, refl, ap, ◌∙◌, String, true, false, none, List, [], ◌∷◌, All}
use xedge.Prelude.Assoc.{Dict}
use xedge.Store.RingBuffer.{RingBuffer, RingBufferManager, drain_all}
use xedge.Store.RingBuffer.Streams.{contents, drain_all-none}
use xedge.Store.ColdStore.{Sqlite}
use xedge.Northbound.Dispatcher.{failed, Reply, Connector}
use xedge.Northbound.Dispatcher.Live.{
  Await, World, Dispatcher, published, publish_batch, publish_live, iteration, interval, publishing,
}

module _ {T : Type 0} where
  nothing_left : (d : Dict (RingBuffer T)) → All (λ e. e.1.buffer ≡ []) d → contents d ≡ []
  nothing_left [] h = refl
  nothing_left ((k, b) ∷ rest) h = rw h.0 (nothing_left rest h.1)

module _ {T : Type 0} {time : T → ℕ} {K : Type 0} (db : Sqlite T time)
    (safe_filename : String → String) (c : Connector K T) where
  open db use {Table}

  module _ (others : Await → World Table T → World Table T) where
    answered_failed :
        (t : T) (batch : List T) (d : Dispatcher K Table T)
        → (c.publish (t ∷ batch) d.connector).outcome ≡ failed
        → publish_batch db safe_filename c others (t ∷ batch) d ≡ (
          published failed (t ∷ batch),
          record {
            connected = false;
            backoff = d.backoff;
            connector = (c.publish (t ∷ batch) d.connector).connector;
            world = others publishing d.world;
          },
        )
    unfolding publish_batch
    answered_failed t batch d answer =
        let reply : Reply K T = c.publish (t ∷ batch) d.connector in
        ap
          (λ o. (
            published o (t ∷ batch),
            record d {
              connected = elim o [ failed ↦ false | _ ↦ d.connected ];
              connector = reply.connector;
              world = others publishing d.world;
            },
          ))
          answer

    -- When a connected dispatcher drains at least one sample and the connector answers the publication
    -- with a failure, the iteration ends disconnected, the samples are in no ring buffer when the
    -- publication starts, and the cold store that the dispatcher leaves is what the other tasks made
    -- of the one that it found: the samples of the batch are lost.
    pub failed_batch-lost :
        (fuel replay_batch_size backoff : ℕ) (k : K) (world : World Table T) (t : T)
        (batch : List T)
        → contents (others interval world).ring_buffers.buffers ≡ t ∷ batch
        → (c.publish (t ∷ batch) k).outcome ≡ failed
        → (emptied : RingBufferManager T) × (contents emptied.buffers ≡ [])
          × (iteration db safe_filename c others fuel replay_batch_size
                (record { connected = true; backoff = backoff; connector = k; world = world })
              ≡ (
                published failed (t ∷ batch),
                record {
                  connected = false;
                  backoff = backoff;
                  connector = (c.publish (t ∷ batch) k).connector;
                  world =
                      others publishing (record (others interval world) { ring_buffers = emptied });
                },
              ))
    unfolding iteration publish_live
    failed_batch-lost fuel n backoff k world t batch full answer =
        let w : World Table T = others interval world in
        let m : RingBufferManager T = (drain_all none w.ring_buffers).1 in
        let (drained, empty, keys) = drain_all-none w.ring_buffers in
        let d : Dispatcher K Table T = record {
          connected = true;
          backoff = backoff;
          connector = k;
          world = record w { ring_buffers = m };
        } in
        (
          m,
          nothing_left m.buffers empty,
          ap (λ l. publish_batch db safe_filename c others l d) (drained ∙ full)
              ∙ answered_failed t batch d answer,
        )
