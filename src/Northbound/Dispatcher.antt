-- ===== src/Northbound/Dispatcher.antt =====
-- xedge/northbound/dispatcher.py: the life of one connector. The connector is a parameter with a state
-- `K`: what it answers, and what the other tasks do to the cold store while it is awaited.
use xedge.Prelude.{
  ℕ, zero, suc, ◌+◌, ◌*◌, min, String, Bool, true, false, Option, none, some, List, [], ◌∷◌, ◌++◌,
  map, if◌then◌else◌,
}
use xedge.Store.RingBuffer.{RingBufferManager, drain_all}
use xedge.Store.ColdStore.{
  Row, Sqlite, ColdStore, append, peek, delete_ids, purge_older_than, stream_keys,
}
pub mod Accounts
pub mod Replay
pub mod Emptied
pub mod Live
pub mod Turns
mod Examples

-- `failed` is a PublishResult with `success=False`, `raised` an exception.
pub data Outcome : Type 0 where
  success failed raised : Outcome

-- A call of another task on the cold store: `append`, or `purge_older_than` of `purge_loop`.
pub data Meanwhile (T : Type 0) : Type 0 where
  spilled : String → T → Meanwhile T
  purged : String → ℕ → Meanwhile T

pub record Reply (K T : Type 0) : Type 0 where
  pub outcome : Outcome
  pub connector : K
  pub meanwhile : List (Meanwhile T)

pub record Connector (K T : Type 0) : Type 0 where
  -- Whether it connected or disconnected, with no exception.
  pub connect : K → Bool × K
  pub disconnect : K → Bool × K
  pub publish : List T → K → Reply K T

abbrev pub initial_backoff_seconds : ℕ
initial_backoff_seconds = 1

abbrev pub max_backoff_seconds : ℕ
max_backoff_seconds = 300

abbrev pub backoff_multiplier : ℕ
backoff_multiplier = 2

-- One call of `publish`: its batch, how it ended, and what was done meanwhile.
pub record Publication (T : Type 0) : Type 0 where
  pub stream_key : String
  pub batch : List T
  pub outcome : Outcome
  pub meanwhile : List (Meanwhile T)

-- How a replay ended: through, given up after a failed publication, with an exception, or, in the
-- model only, without fuel.
pub data ReplayEnd : Type 0 where
  through gave_up broke out_of_fuel : ReplayEnd

pub record Replayed (K Table T : Type 0) : Type 0 where
  pub end : ReplayEnd
  pub connector : K
  pub store : ColdStore Table
  pub log : List (Publication T)

module _ {T : Type 0} {time : T → ℕ} (db : Sqlite T time) (safe_filename : String → String) where
  open db use {Table}

  unfoldable pub meanwhile_all : List (Meanwhile T) → ColdStore Table → ColdStore Table
  meanwhile_all [] s = s
  meanwhile_all (spilled key t ∷ rest) s = meanwhile_all rest (append db safe_filename key t s)
  meanwhile_all (purged key cutoff ∷ rest) s =
      meanwhile_all rest (purge_older_than db safe_filename key cutoff s)

module _ {T : Type 0} {time : T → ℕ} {K : Type 0} (db : Sqlite T time)
    (safe_filename : String → String) (c : Connector K T) where
  open db use {Table}

  abbrev pub logged : Publication T → Replayed K Table T → Replayed K Table T
  logged p r = record r { log = p ∷ r.log }

  -- What follows the answer to a batch: deletion and the next batch, or the end.
  abbrev pub after_publish :
      (K → ColdStore Table → Replayed K Table T)
      → String
      → List (Row T)
      → Reply K T
      → ColdStore Table
      → Replayed K Table T
  after_publish next key rows reply s =
      logged
        (record {
          stream_key = key;
          batch = map (λ r. r.1) rows;
          outcome = reply.outcome;
          meanwhile = reply.meanwhile;
        })
        (elim reply.outcome [
          | success ↦ next reply.connector (
              delete_ids db safe_filename key (map (λ r. r.0) rows)
                (meanwhile_all db safe_filename reply.meanwhile s))
          | failed ↦ record {
            end = gave_up;
            connector = reply.connector;
            store = meanwhile_all db safe_filename reply.meanwhile s;
            log = [];
          }
          | raised ↦ record {
            end = broke;
            connector = reply.connector;
            store = meanwhile_all db safe_filename reply.meanwhile s;
            log = [];
          }
        ])

  abbrev pub publish_rows :
      (K → ColdStore Table → Replayed K Table T)
      → String
      → List (Row T)
      → K
      → ColdStore Table
      → Replayed K Table T
  publish_rows next key [] k s = record { end = through; connector = k; store = s; log = [] }
  publish_rows next key (row ∷ rows) k s =
      after_publish next key (row ∷ rows) (c.publish (map (λ r. r.1) (row ∷ rows)) k) s

  -- The inner loop of `_replay_cold_store`.
  unfoldable pub replay_stream : ℕ → ℕ → String → K → ColdStore Table → Replayed K Table T
  unfolding peek delete_ids meanwhile_all
  replay_stream zero batch_size key k s = record {
    end = out_of_fuel;
    connector = k;
    store = s;
    log = [];
  }
  replay_stream (suc fuel) batch_size key k s =
      let (rows, s') = peek db safe_filename key batch_size s in
      publish_rows (replay_stream fuel batch_size key) key rows k s'

  -- The outer loop: on to the next stream, if the last one is through.
  abbrev pub and_then :
      Replayed K Table T → (K → ColdStore Table → Replayed K Table T) → Replayed K Table T
  and_then r next = elim r.end [
    | through ↦ let r' = next r.connector r.store in record r' { log = r.log ++ r'.log }
    | _ ↦ r
  ]

  unfoldable pub replay_streams : ℕ → ℕ → List String → K → ColdStore Table → Replayed K Table T
  unfolding replay_stream
  replay_streams fuel batch_size [] k s = record {
    end = through;
    connector = k;
    store = s;
    log = [];
  }
  replay_streams fuel batch_size (key ∷ keys) k s =
      and_then (replay_stream fuel batch_size key k s) (replay_streams fuel batch_size keys)

  unfoldable pub replay_cold_store : ℕ → ℕ → K → ColdStore Table → Replayed K Table T
  unfolding replay_streams stream_keys
  replay_cold_store fuel batch_size k s =
      replay_streams fuel batch_size (stream_keys db safe_filename s) k s
