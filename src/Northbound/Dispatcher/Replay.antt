-- ===== src/Northbound/Dispatcher/Replay.antt =====
-- No stored sample is lost or reordered by the replay of xedge/northbound/dispatcher.py, whatever the
-- connector answers and whatever is spilled meanwhile, while nothing is purged.
use xedge.Prelude.{
  ℕ, zero, suc, ◌≡◌, refl, sym, ap, ◌∙◌, String, Bool, true, false, List, [], ◌∷◌, ◌++◌, map-append,
  append-nil, append_assoc, subst, take, if◌then◌else◌,
}
use text.Mathlib.Text.{◌==◌}
use xedge.Store.ColdStore.{Row, Sqlite, ColdStore, peek, delete_ids, stream_keys}
use xedge.Store.ColdStore.Tables.{IsNumbered, ids, samples_of}
use xedge.Store.ColdStore.Batches.{rows_at, IsStored, peek-rows, rows_at-peek}
use xedge.Northbound.Dispatcher.{
  Outcome, success, failed, raised, Reply, Connector, Publication, ReplayEnd, through, gave_up,
  broke, out_of_fuel, Replayed, Meanwhile, meanwhile_all, after_publish, publish_rows,
  replay_stream, and_then, replay_streams, replay_cold_store,
}
use xedge.Northbound.Dispatcher.Accounts.{
  OnlySpills, delivered, spilled_tags, spilled_to, backlog, meanwhile_all-IsStored,
  meanwhile_all-rows, delete_ids-IsStored, delete_batch, delivered-append, spilled_to-append,
}

module _ {T : Type 0} {time : T → ℕ} {K : Type 0} (db : Sqlite T time)
    (safe_filename : String → String) (c : Connector K T) where
  open db use {Table}

  -- What a file had, and what was spilled to it, is delivered or waits in it, in its order.
  abbrev IsAccounted : ColdStore Table → Replayed K Table T → Type 0
  IsAccounted s r =
      IsStored db safe_filename r.store
      × ((path : String)
          → delivered safe_filename path r.log ++ backlog db safe_filename path r.store
            ≡ backlog db safe_filename path s ++ spilled_to safe_filename path r.log)

  nothing_happened :
      (end : ReplayEnd) (k : K) (s : ColdStore Table)
      → IsStored db safe_filename s
      → IsAccounted s (record { end = end; connector = k; store = s; log = [] })
  nothing_happened end k s h = (h, λ path. sym (append-nil (backlog db safe_filename path s)))

  in_sequence :
      (s : ColdStore Table) (r r' : Replayed K Table T)
      → IsAccounted s r
      → IsAccounted r.store r'
      → IsAccounted s (record r' { log = r.log ++ r'.log })
  in_sequence s r r' h h' = (
    h'.0,
    λ path.
        let D : List (Publication T) → List T = delivered safe_filename path in
        let S : List (Publication T) → List T = spilled_to safe_filename path in
        let B : ColdStore Table → List T = backlog db safe_filename path in
        ap (λ l. l ++ B r'.store) (delivered-append safe_filename path r.log r'.log)
        ∙ append_assoc (D r.log) (D r'.log) (B r'.store)
        ∙ ap (λ l. D r.log ++ l) (h'.1 path)
        ∙ sym (append_assoc (D r.log) (B r.store) (S r'.log))
        ∙ ap (λ l. l ++ S r'.log) (h.1 path)
        ∙ append_assoc (B s) (S r.log) (S r'.log)
        ∙ ap (λ l. B s ++ l) (sym (spilled_to-append safe_filename path r.log r'.log)),
  )

  nothing_either :
      (b : Bool) (waiting : List T) → ((if b then [] else []) ++ []) ++ waiting ≡ waiting
  nothing_either true waiting = refl
  nothing_either false waiting = refl

  not_taken :
      (path : String) (key : String) (done : List (Meanwhile T)) (s : ColdStore Table)
      → OnlySpills done
      → IsStored db safe_filename s
      → ((if safe_filename key == path then [] else []) ++ [])
          ++ backlog db safe_filename path (meanwhile_all db safe_filename done s)
        ≡ backlog db safe_filename path s ++ (spilled_tags safe_filename path done ++ [])
  not_taken path key done s only h =
      let (new, rows, tags) = meanwhile_all-rows db safe_filename path done s only h in
      nothing_either (safe_filename key == path)
        (backlog db safe_filename path (meanwhile_all db safe_filename done s))
      ∙ ap samples_of rows
      ∙ map-append (λ r. r.1) (rows_at db safe_filename path s) new
      ∙ ap (λ l. backlog db safe_filename path s ++ l)
          (tags ∙ sym (append-nil (spilled_tags safe_filename path done)))

  after_publish-IsAccounted :
      (next : K → ColdStore Table → Replayed K Table T)
      → ((k : K) (s : ColdStore Table) → IsStored db safe_filename s → IsAccounted s (next k s))
      → (key : String) (n : ℕ) (o : Outcome) (k : K) (done : List (Meanwhile T))
        (s : ColdStore Table)
      → OnlySpills done
      → IsStored db safe_filename s
      → IsAccounted s (
          after_publish db safe_filename c next key
            (take n (rows_at db safe_filename (safe_filename key) s))
            (record { outcome = o; connector = k; meanwhile = done })
            s)
  after_publish-IsAccounted next ih key n failed k done s only h = (
    meanwhile_all-IsStored db safe_filename done s only h,
    λ path. not_taken path key done s only h,
  )
  after_publish-IsAccounted next ih key n raised k done s only h = (
    meanwhile_all-IsStored db safe_filename done s only h,
    λ path. not_taken path key done s only h,
  )
  after_publish-IsAccounted next ih key n success k done s only h =
      let batch : List (Row T) = take n (rows_at db safe_filename (safe_filename key) s) in
      let s' : ColdStore Table =
        delete_ids db safe_filename key (ids batch) (meanwhile_all db safe_filename done s) in
      let p : Publication T = record {
        stream_key = key;
        batch = samples_of batch;
        outcome = success;
        meanwhile = done;
      } in
      let one : Replayed K Table T = record {
        end = through;
        connector = k;
        store = s';
        log = p ∷ [];
      } in
      let stored : IsStored db safe_filename s' =
        delete_ids-IsStored db safe_filename key (ids batch) (meanwhile_all db safe_filename done s)
          (meanwhile_all-IsStored db safe_filename done s only h) in
      in_sequence s one (next k s')
        (
          stored,
          λ path.
              ap (λ l. l ++ backlog db safe_filename path s')
                (append-nil (if safe_filename key == path then samples_of batch else []))
              ∙ delete_batch db safe_filename path key n done s only h
              ∙ ap (λ l. backlog db safe_filename path s ++ l)
                  (sym (append-nil (spilled_tags safe_filename path done))),
        )
        (ih k s' stored)

  -- While the connector is awaited, nothing is purged.
  abbrev pub Spilling : Type 0
  Spilling = (batch : List T) (k : K) → OnlySpills (c.publish batch k).meanwhile

  publish_rows-IsAccounted :
      Spilling
      → (next : K → ColdStore Table → Replayed K Table T)
      → ((k : K) (s : ColdStore Table) → IsStored db safe_filename s → IsAccounted s (next k s))
      → (key : String) (n : ℕ) (rows : List (Row T)) (k : K) (s : ColdStore Table)
      → rows ≡ take n (rows_at db safe_filename (safe_filename key) s)
      → IsStored db safe_filename s
      → IsAccounted s (publish_rows db safe_filename c next key rows k s)
  publish_rows-IsAccounted only next ih key n [] k s e h = nothing_happened through k s h
  publish_rows-IsAccounted only next ih key n (row ∷ rows) k s e h =
      let reply : Reply K T = c.publish (samples_of (row ∷ rows)) k in
      subst (λ l. IsAccounted s (after_publish db safe_filename c next key l reply s)) (sym e)
        (after_publish-IsAccounted next ih key n reply.outcome reply.connector reply.meanwhile s
          (only (samples_of (row ∷ rows)) k) h)

  replay_stream-IsAccounted :
      Spilling
      → (fuel n : ℕ) (key : String) (k : K) (s : ColdStore Table) → IsStored db safe_filename s
      → IsAccounted s (replay_stream db safe_filename c fuel n key k s)
  unfolding replay_stream
  replay_stream-IsAccounted only zero n key k s h = nothing_happened out_of_fuel k s h
  replay_stream-IsAccounted only (suc fuel) n key k s h =
      let s' : ColdStore Table = (peek db safe_filename key n s).1 in
      let same : (path : String)
          → rows_at db safe_filename path s' ≡ rows_at db safe_filename path s =
        λ path. rows_at-peek db safe_filename path key n s in
      let accounted =
        publish_rows-IsAccounted only (replay_stream db safe_filename c fuel n key)
          (replay_stream-IsAccounted only fuel n key) key n (peek db safe_filename key n s).0 k s'
          (peek-rows db safe_filename key n s ∙ ap (take n) (sym (same (safe_filename key))))
          (λ path. subst IsNumbered (sym (same path)) (h path)) in
      (
        accounted.0,
        λ path.
            accounted.1 path
            ∙ ap
                (λ rows.
                  samples_of rows
                  ++ spilled_to safe_filename path
                      (replay_stream db safe_filename c (suc fuel) n key k s).log)
                (same path),
      )

  and_then-IsAccounted :
      (end : ReplayEnd) (k : K) (s s' : ColdStore Table) (log : List (Publication T))
      (next : K → ColdStore Table → Replayed K Table T)
      → IsAccounted s (record { end = end; connector = k; store = s'; log = log })
      → IsAccounted s' (next k s')
      → IsAccounted s (
          and_then db safe_filename c
            (record { end = end; connector = k; store = s'; log = log })
            next)
  and_then-IsAccounted through k s s' log next h h' =
      in_sequence s (record { end = through; connector = k; store = s'; log = log }) (next k s') h
        h'
  and_then-IsAccounted gave_up k s s' log next h h' = h
  and_then-IsAccounted broke k s s' log next h h' = h
  and_then-IsAccounted out_of_fuel k s s' log next h h' = h

  replay_streams-IsAccounted :
      Spilling
      → (fuel n : ℕ) (keys : List String) (k : K) (s : ColdStore Table)
      → IsStored db safe_filename s
      → IsAccounted s (replay_streams db safe_filename c fuel n keys k s)
  unfolding replay_streams
  replay_streams-IsAccounted only fuel n [] k s h = nothing_happened through k s h
  replay_streams-IsAccounted only fuel n (key ∷ keys) k s h =
      let r : Replayed K Table T = replay_stream db safe_filename c fuel n key k s in
      let accounted : IsAccounted s r = replay_stream-IsAccounted only fuel n key k s h in
      and_then-IsAccounted r.end r.connector s r.store r.log
        (replay_streams db safe_filename c fuel n keys) accounted
        (replay_streams-IsAccounted only fuel n keys r.connector r.store accounted.0)

  -- When every database has its rows numbered upwards, and `purge_loop`, which xedge/core/main.py runs
  -- on the same store, deletes nothing while the connector is awaited, a replay keeps the rows numbered
  -- so, and for each file the samples that the connector took, followed by those that still wait, are
  -- the samples that waited before the replay followed by those that were spilled during it, in that
  -- order: whatever the connector answered to each batch, in however many batches, and wherever the
  -- replay stopped.
  pub replay_cold_store-keeps_all :
      (fuel batch_size : ℕ) (k : K) (s : ColdStore Table)
      → Spilling
      → IsStored db safe_filename s
      → (path : String)
      → let r = replay_cold_store db safe_filename c fuel batch_size k s in
        IsStored db safe_filename r.store
        × (delivered safe_filename path r.log ++ backlog db safe_filename path r.store
            ≡ backlog db safe_filename path s ++ spilled_to safe_filename path r.log)
  unfolding replay_cold_store
  replay_cold_store-keeps_all fuel batch_size k s only h path =
      let accounted =
        replay_streams-IsAccounted only fuel batch_size (stream_keys db safe_filename s) k s h in
      (accounted.0, accounted.1 path)
