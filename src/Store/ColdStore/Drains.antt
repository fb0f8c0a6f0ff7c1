-- ===== src/Store/ColdStore/Drains.antt =====
-- Draining a stream of xedge/store/sqlite_store.py.
use xedge.Prelude.{
  ℕ, ◌≡◌, refl, sym, ap, ◌∙◌, subst, String, Bool, true, false, List, [], ◌∷◌, append-nil, take,
  drop, eq_iff, if◌then◌else◌,
}
use text.Mathlib.Text.{◌==◌}
use xedge.Store.ColdStore.{Row, Sqlite, ColdStore, peek, delete_ids, drain_rows, drain, without}
use xedge.Store.ColdStore.Tables.{IsNumbered, ids, samples_of, without-take}
use xedge.Store.ColdStore.Batches.{rows_at, IsStored, peek-rows, rows_at-peek, rows_at-delete_ids}

module _ {T : Type 0} {time : T → ℕ} (db : Sqlite T time) (safe_filename : String → String) where
  open db use {Table}

  drain_rows-deletes :
      (key : String) (rows : List (Row T)) (s : ColdStore Table)
      → drain_rows db safe_filename key rows s
        ≡ (samples_of rows, delete_ids db safe_filename key (ids rows) s)
  unfolding drain_rows delete_ids
  drain_rows-deletes key [] s = refl
  drain_rows-deletes key (row ∷ rows) s = refl

  pub take-deleted :
      (n : ℕ) (rows : List (Row T))
      → IsNumbered rows
      → without (ids (take n rows)) rows ≡ drop n rows
  take-deleted n rows h =
      ap (without (ids (take n rows))) (sym (append-nil rows))
      ∙ without-take n rows [] (subst IsNumbered (sym (append-nil rows)) h)
      ∙ append-nil (drop n rows)

  -- When every database has its rows numbered upwards, `drain` returns the samples of the first rows of
  -- the file of its stream, `max_items` of them or all, removes just these rows from the file, and
  -- leaves every other file as it is.
  pub drain-oldest :
      (key path : String) (max_items : ℕ) (s : ColdStore Table)
      → IsStored db safe_filename s
      → ((drain db safe_filename key max_items s).0
          ≡ samples_of (take max_items (rows_at db safe_filename (safe_filename key) s)))
        × (rows_at db safe_filename path (drain db safe_filename key max_items s).1 ≡ (
            if safe_filename key == path
            then drop max_items (rows_at db safe_filename (safe_filename key) s)
            else rows_at db safe_filename path s))
  unfolding drain
  drain-oldest key path n s h =
      let batch : List (Row T) = (peek db safe_filename key n s).0 in
      let s' : ColdStore Table = (peek db safe_filename key n s).1 in
      let rows : List (Row T) = rows_at db safe_filename (safe_filename key) s in
      let peeked : batch ≡ take n rows = peek-rows db safe_filename key n s in
      let drained = drain_rows-deletes key batch s' in
      (
        ap (λ r. r.0) drained ∙ ap samples_of peeked,
        ap (λ r. rows_at db safe_filename path r.1) drained
            ∙ rows_at-delete_ids db safe_filename path key (ids batch) s'
            ∙ ap (λ l. if safe_filename key == path then without (ids batch) l else l)
                (rows_at-peek db safe_filename path key n s)
            ∙ ap
                (λ l.
                  if safe_filename key == path
                  then without (ids l) (rows_at db safe_filename path s)
                  else rows_at db safe_filename path s)
                peeked
            ∙ either (safe_filename key == path) (λ e.
              ap (λ p. rows_at db safe_filename p s) ((eq_iff (safe_filename key) path).0 e)),
      )
    where
      either :
          (b : Bool)
          → (b ≡ true
              → rows_at db safe_filename (safe_filename key) s ≡ rows_at db safe_filename path s)
          → (if b
              then without
                  (ids (take n (rows_at db safe_filename (safe_filename key) s)))
                  (rows_at db safe_filename path s)
              else rows_at db safe_filename path s)
            ≡ (if b
                then drop n (rows_at db safe_filename (safe_filename key) s)
                else rows_at db safe_filename path s)
      either false e = refl
      either true e =
          ap (without (ids (take n (rows_at db safe_filename (safe_filename key) s))))
            (sym (e refl))
          ∙ take-deleted n (rows_at db safe_filename (safe_filename key) s) (h (safe_filename key))
