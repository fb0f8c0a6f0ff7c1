-- ===== src/Northbound/Dispatcher/Examples.antt =====
-- The dispatcher at concrete inputs: a database whose table is the list of its rows, a connector that
-- takes batches while it has tokens, and what it answers then.
use xedge.Prelude.{ℕ, zero, suc, ◌≡◌, refl, arith, true, false, List, [], ◌∷◌, ◌++◌}
use xedge.Prelude.Assoc.{get, put}
use xedge.Store.RingBuffer.{RingBufferManager}
use xedge.Store.RingBuffer.Streams.{contents}
use xedge.Store.ColdStore.{
  Row, without, peek, delete_ids, append, with_table, connection, table_of, stream_keys,
  recorded_keys,
}
use xedge.Prelude.Sort.{sorted_by}
use xedge.Store.ColdStore.Examples.{listed, same_name, waiting, waiting-IsStored}
use xedge.Store.ColdStore.Batches.{rows_at, IsStored}
use xedge.Northbound.Dispatcher.{
  success, failed, Connector, spilled, through, replay_cold_store, replay_streams, replay_stream,
  meanwhile_all,
}
use xedge.Northbound.Dispatcher.Accounts.{delivered, spilled_to, backlog}
use xedge.Northbound.Dispatcher.Replay.{Spilling, replay_cold_store-keeps_all}
use xedge.Northbound.Dispatcher.Emptied.{replay_stream-empties}
use xedge.Northbound.Dispatcher.Live.{World, Await, iteration, published, stop}
use xedge.Northbound.Dispatcher.Turns.{failed_batch-lost}

-- Takes as many batches as its state says; one sample is spilled while it answers.
abbrev limited : Connector ℕ ℕ
limited = record {
  connect = λ k. (true, k);
  disconnect = λ k. (true, k);
  publish = λ batch k. elim k [
    | zero ↦ record { outcome = failed; connector = zero; meanwhile = spilled "a" 99 ∷ [] }
    | suc k' ↦ record { outcome = success; connector = k'; meanwhile = spilled "a" 99 ∷ [] }
  ];
}

abbrev generous : Connector ℕ ℕ
generous = record {
  connect = λ k. (true, k);
  disconnect = λ k. (true, k);
  publish = λ batch k. record { outcome = success; connector = k; meanwhile = [] };
}

limited-Spilling : Spilling listed same_name limited
limited-Spilling batch zero = tt
limited-Spilling batch (suc k) = tt

replay_cold_store-keeps_all_example :
    let r = replay_cold_store listed same_name limited 10 2 1 waiting in
    IsStored listed same_name r.store
    × (delivered same_name "a" r.log ++ backlog listed same_name "a" r.store
        ≡ backlog listed same_name "a" waiting ++ spilled_to same_name "a" r.log)
replay_cold_store-keeps_all_example =
    replay_cold_store-keeps_all listed same_name limited 10 2 1 waiting limited-Spilling
      waiting-IsStored "a"

replay_stream-empties_example :
    ((replay_stream listed same_name generous 4 2 "a" 0 waiting).end ≡ through)
    × (rows_at listed same_name "a"
          (replay_stream listed same_name generous 4 2 "a" 0 waiting).store
        ≡ [])
unfolding get
replay_stream-empties_example =
    replay_stream-empties listed same_name generous 4 2 "a" 0 waiting (λ batch k. (refl, refl))
      (omega arith) waiting-IsStored (omega arith)

-- One batch of two is taken, the next one is not: the sample left is still there, before the two that
-- were spilled.
replay_takes_one_batch :
    backlog listed same_name "a" (replay_cold_store listed same_name limited 10 2 1 waiting).store
    ≡ 30 ∷ 99 ∷ 99 ∷ []
unfolding replay_cold_store replay_streams replay_stream stream_keys recorded_keys sorted_by peek
    delete_ids meanwhile_all append with_table connection table_of without get put
replay_takes_one_batch = refl

abbrev quiet_world : World (List (Row ℕ)) ℕ
quiet_world = record {
  ring_buffers = record {
    max_depth = 4;
    buffers =
        (
          "b",
          record { max_depth = 4; is_alarm_stream = false; buffer = 5 ∷ 6 ∷ []; evicted_count = 0 },
        )
        ∷ [];
  };
  cold_store = waiting;
}

abbrev nobody : Await → World (List (Row ℕ)) ℕ → World (List (Row ℕ)) ℕ
nobody a w = w

-- `stop` disconnects once.
stopped_twice :
    stop listed same_name limited (
      stop listed same_name limited
        (record { connected = true; backoff = 1; connector = 0; world = quiet_world }))
    ≡ record { connected = false; backoff = 1; connector = 0; world = quiet_world }
unfolding stop
stopped_twice = refl

failed_batch-lost_example :
    (emptied : RingBufferManager ℕ) × (contents emptied.buffers ≡ [])
    × (iteration listed same_name limited nobody 10 2
          (record { connected = true; backoff = 1; connector = 0; world = quiet_world })
        ≡ (
          published failed (5 ∷ 6 ∷ []),
          record {
            connected = false;
            backoff = 1;
            connector = 0;
            world = record { ring_buffers = emptied; cold_store = waiting };
          },
        ))
failed_batch-lost_example =
    failed_batch-lost listed same_name limited nobody 10 2 1 0 quiet_world 5 (6 ∷ []) refl refl
