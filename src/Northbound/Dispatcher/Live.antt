-- ===== src/Northbound/Dispatcher/Live.antt =====
-- xedge/northbound/dispatcher.py: the loop of `run`, one iteration at a time, and `stop`. What the other tasks do
-- to the ring buffers and to the cold store while it waits is a parameter.
use xedge.Prelude.{ℕ, ◌*◌, min, String, Bool, true, false, not, none, List, [], ◌∷◌, if◌then◌else◌}
use xedge.Store.RingBuffer.{RingBufferManager, drain_all}
use xedge.Store.ColdStore.{Sqlite, ColdStore}
use xedge.Northbound.Dispatcher.{
  Outcome, failed, Connector, initial_backoff_seconds, max_backoff_seconds, backoff_multiplier,
  through, gave_up, broke, out_of_fuel, Replayed, replay_cold_store,
}

-- What an iteration waits for.
pub data Await : Type 0 where
  connecting sleeping interval publishing : Await

pub record World (Table T : Type 0) : Type 0 where
  pub ring_buffers : RingBufferManager T
  pub cold_store : ColdStore Table

pub record Dispatcher (K Table T : Type 0) : Type 0 where
  pub connected : Bool
  pub backoff : ℕ
  pub connector : K
  pub world : World Table T

-- How an iteration ended; an exception of a live publication leaves `run`.
pub data Turn (T : Type 0) : Type 0 where
  slept : ℕ → Turn T
  idle : Turn T
  published : Outcome → List T → Turn T

abbrev pub new_dispatcher : {K Table T : Type 0} → K → World Table T → Dispatcher K Table T
new_dispatcher k w = record {
  connected = false;
  backoff = initial_backoff_seconds;
  connector = k;
  world = w;
}

module _ {T : Type 0} {time : T → ℕ} {K : Type 0} (db : Sqlite T time)
    (safe_filename : String → String) (c : Connector K T) where
  open db use {Table}

  module _ (others : Await → World Table T → World Table T) where
    -- The `except` branch of the reconnection.
    unfoldable pub back_off : Dispatcher K Table T → Turn T × Dispatcher K Table T
    back_off d = (
      slept d.backoff,
      record d {
        backoff = min (d.backoff * backoff_multiplier) max_backoff_seconds;
        world = others sleeping d.world;
      },
    )

    unfoldable pub publish_batch : List T → Dispatcher K Table T → Turn T × Dispatcher K Table T
    publish_batch [] d = (idle, d)
    publish_batch (t ∷ batch) d =
        let reply = c.publish (t ∷ batch) d.connector in
        (
          published reply.outcome (t ∷ batch),
          record d {
            connected = elim reply.outcome [ failed ↦ false | _ ↦ d.connected ];
            connector = reply.connector;
            world = others publishing d.world;
          },
        )

    -- From the wait for the interval on.
    unfoldable pub publish_live : Dispatcher K Table T → Turn T × Dispatcher K Table T
    unfolding publish_batch
    publish_live d =
        let w = others interval d.world in
        let (batch, ring_buffers) = drain_all none w.ring_buffers in
        publish_batch batch (record d { world = record w { ring_buffers = ring_buffers } })

    -- After a replay; one that gave up has cleared the flag, one that raised has not.
    abbrev pub after_replay :
        Replayed K Table T → Dispatcher K Table T → Turn T × Dispatcher K Table T
    after_replay r d =
        let d' : Dispatcher K Table T = record d {
          connector = r.connector;
          world = record d.world { cold_store = r.store };
        } in
        elim r.end [
          | through ↦ publish_live d'
          | out_of_fuel ↦ publish_live d'
          | gave_up ↦ publish_live (record d' { connected = false })
          | broke ↦ back_off d'
        ]

    unfoldable pub iteration : ℕ → ℕ → Dispatcher K Table T → Turn T × Dispatcher K Table T
    unfolding publish_live back_off replay_cold_store
    iteration fuel replay_batch_size d =
        if d.connected
        then publish_live d
        else let (ok, k) = c.connect d.connector in
          let w = others connecting d.world in
          if ok
          then after_replay
              (replay_cold_store db safe_filename c fuel replay_batch_size k w.cold_store)
              (record {
                connected = true;
                backoff = initial_backoff_seconds;
                connector = k;
                world = w;
              })
          else back_off (record d { connector = k; world = w })

  -- An exception of `disconnect` leaves the flag as it is.
  unfoldable pub stop : Dispatcher K Table T → Dispatcher K Table T
  stop d =
      if d.connected
      then record d {
        connected = not (c.disconnect d.connector).0;
        connector = (c.disconnect d.connector).1;
      }
      else d
