-- ===== src/Northbound/Dispatcher/Emptied.antt =====
-- A connector that takes every batch empties a stream of xedge/northbound/dispatcher.py.
use xedge.Prelude.{
  ℕ, zero, suc, ◌<◌, ◌≡◌, refl, sym, ap, ◌∙◌, String, List, [], ◌∷◌, arith, subst, length, take,
  drop, length-drop, length-take, eq_iff,
}
use xedge.Store.ColdStore.{Row, Sqlite, ColdStore, peek, delete_ids, without}
use xedge.Store.ColdStore.Tables.{IsNumbered, ids, samples_of}
use xedge.Store.ColdStore.Batches.{rows_at, IsStored, peek-rows, rows_at-peek, rows_at-delete_ids}
use xedge.Store.ColdStore.Drains.{take-deleted}
use xedge.Northbound.Dispatcher.{
  Outcome, success, failed, raised, Reply, Connector, through, Replayed, Meanwhile, meanwhile_all,
  after_publish, publish_rows, replay_stream,
}
use xedge.Northbound.Dispatcher.Accounts.{delete_ids-IsStored}

module _ {T : Type 0} {time : T → ℕ} {K : Type 0} (db : Sqlite T time)
    (safe_filename : String → String) (c : Connector K T) where
  open db use {Table}

  -- A connector that takes every batch, while no other task writes to the store or purges it.
  abbrev pub Takes : Type 0
  Takes =
      (batch : List T) (k : K)
      → ((c.publish batch k).outcome ≡ success) × ((c.publish batch k).meanwhile ≡ [])

  abbrev IsEmptied : String → Replayed K Table T → Type 0
  IsEmptied path r = (r.end ≡ through) × (rows_at db safe_filename path r.store ≡ [])

  taken-IsEmptied :
      (next : K → ColdStore Table → Replayed K Table T) (key : String) (rows : List (Row T))
      (o : Outcome) (k : K) (done : List (Meanwhile T)) (s : ColdStore Table)
      → o ≡ success
      → done ≡ []
      → IsEmptied (safe_filename key) (next k (delete_ids db safe_filename key (ids rows) s))
      → IsEmptied (safe_filename key) (
          after_publish db safe_filename c next key rows
            (record { outcome = o; connector = k; meanwhile = done })
            s)
  unfolding meanwhile_all
  taken-IsEmptied next key rows success k [] s e e' h = h
  taken-IsEmptied next key rows success k (t ∷ done) s e e' h = absurd (omega (arith, ap length e'))
  taken-IsEmptied next key rows failed k done s e e' h = absurd (cc e)
  taken-IsEmptied next key rows raised k done s e e' h = absurd (cc e)

  publish_rows-IsEmptied :
      (next : K → ColdStore Table → Replayed K Table T) (key : String) (rows : List (Row T)) (k : K)
      (s : ColdStore Table)
      → Takes
      → (rows ≡ [] → rows_at db safe_filename (safe_filename key) s ≡ [])
      → (0 < length rows
          → (k' : K)
          → IsEmptied (safe_filename key) (next k' (delete_ids db safe_filename key (ids rows) s)))
      → IsEmptied (safe_filename key) (publish_rows db safe_filename c next key rows k s)
  publish_rows-IsEmptied next key [] k s takes stop go = (refl, stop refl)
  publish_rows-IsEmptied next key (row ∷ rows) k s takes stop go =
      let reply : Reply K T = c.publish (samples_of (row ∷ rows)) k in
      let (took, quiet) = takes (samples_of (row ∷ rows)) k in
      taken-IsEmptied next key (row ∷ rows) reply.outcome reply.connector reply.meanwhile s took
        quiet (go (omega arith) reply.connector)

  none_taken : (n : ℕ) (rows : List (Row T)) → 0 < n → take n rows ≡ [] → rows ≡ []
  none_taken zero rows h e = absurd (omega (arith, h))
  none_taken (suc n) [] h e = refl
  none_taken (suc n) (row ∷ rows) h e = absurd (omega (arith, ap length e))

  -- When the connector takes every batch and no other task writes to the store or purges it
  -- meanwhile, the rows of every database are numbered upwards, and a batch holds at least one sample, then the replay of a
  -- stream comes to its end within one more round than its file has rows, and leaves the file empty.
  pub replay_stream-empties :
      (fuel batch_size : ℕ) (key : String) (k : K) (s : ColdStore Table)
      → Takes
      → 0 < batch_size
      → IsStored db safe_filename s
      → length (rows_at db safe_filename (safe_filename key) s) < fuel
      → IsEmptied (safe_filename key) (replay_stream db safe_filename c fuel batch_size key k s)
  unfolding replay_stream
  replay_stream-empties zero n key k s takes pos h enough = absurd (omega (arith, enough))
  replay_stream-empties (suc fuel) n key k s takes pos h enough =
      let s' : ColdStore Table = (peek db safe_filename key n s).1 in
      let batch : List (Row T) = (peek db safe_filename key n s).0 in
      let path : String = safe_filename key in
      let rows : List (Row T) = rows_at db safe_filename path s in
      let same : rows_at db safe_filename path s' ≡ rows =
        rows_at-peek db safe_filename path key n s in
      let peeked : batch ≡ take n rows = peek-rows db safe_filename key n s in
      let stored : IsStored db safe_filename s' =
        λ p. subst IsNumbered (sym (rows_at-peek db safe_filename p key n s)) (h p) in
      publish_rows-IsEmptied (replay_stream db safe_filename c fuel n key) key batch k s' takes
        (λ e. same ∙ none_taken n rows pos (sym peeked ∙ e))
        (λ taken k'.
          let s'' : ColdStore Table = delete_ids db safe_filename key (ids batch) s' in
          let left : rows_at db safe_filename path s'' ≡ drop n rows =
            rows_at-delete_ids db safe_filename path key (ids batch) s'
            ∙ rw ((eq_iff path path).1 refl)
                (ap (λ l. without (ids batch) l) same ∙ ap (λ l. without (ids l) rows) peeked)
            ∙ take-deleted db safe_filename n rows (h path) in
          replay_stream-empties fuel n key k' s'' takes pos
            (delete_ids-IsStored db safe_filename key (ids batch) s' stored)
            (subst (λ l. length l < fuel) (sym left)
              (shorter n rows pos (subst (λ l. 0 < length l) peeked taken) enough)))
    where
      shorter :
          (n : ℕ) (rows : List (Row T))
          → 0 < n
          → 0 < length (take n rows)
          → length rows < suc fuel
          → length (drop n rows) < fuel
      shorter n rows pos taken enough = omega (arith, length-drop n rows, length-take n rows)
