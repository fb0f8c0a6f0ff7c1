-- ===== src/Store/ColdStore/Batches.antt =====
-- What the operations of xedge/store/sqlite_store.py do to the rows of each database file.
use xedge.Prelude.{
  ℕ, ◌<◌, ◌≡◌, refl, sym, ap, append-nil, ◌∙◌, String, Bool, true, false, Bool-cases, inl, inr,
  Option, none, some, List, [], ◌∷◌, ◌++◌, map, All, subst, take, eq_iff, if◌then◌else◌,
}
use text.Mathlib.Text.{◌==◌}
use xedge.Prelude.Assoc.{Dict, get, put, get-put}
use xedge.Store.ColdStore.{
  Row, without, Sqlite, Database, ColdStore, has_key, or_ignore, file_of, connection, table_of,
  with_table, append, peek, delete_ids,
}
use xedge.Store.ColdStore.Tables.{IsNumbered, IsNumbered-last, without-none}

abbrev pub one_if : {T : Type 0} → Bool → T → List T
one_if true t = t ∷ []
one_if false t = []

module _ {T : Type 0} {time : T → ℕ} (db : Sqlite T time) (safe_filename : String → String) where
  open db use {Table}

  -- The rows of a file; a file that is not there has none.
  abbrev pub rows_at : String → ColdStore Table → List (Row T)
  rows_at path s = elim (get s.files path) [ none ↦ [] | some file ↦ db.rows file.samples ]

  abbrev rows_in : Option (Database Table) → List (Row T)
  rows_in o = elim o [ none ↦ [] | some file ↦ db.rows file.samples ]

  file_of-rows :
      (key : String) (s : ColdStore Table)
      → db.rows (file_of db safe_filename s key).samples ≡ rows_at (safe_filename key) s
  file_of-rows key s = cases (get s.files (safe_filename key))
    where
      cases :
          (o : Option (Database Table))
          → db.rows (
              Database.samples (elim o as (λ _. Database Table) [
                | none ↦ record { samples = db.new_table; meta = none }
                | some file ↦ file
              ]))
            ≡ rows_in o
      cases none = db.rows-new_table
      cases (some file) = refl

  rows_in-put :
      (files : Dict (Database Table)) (name path : String) (file : Database Table)
      → rows_in (get (put files name file) path)
        ≡ (if name == path then db.rows file.samples else rows_in (get files path))
  rows_in-put files name path file =
      ap (λ o. rows_in o) (get-put files name path file) ∙ split (name == path)
    where
      split :
          (b : Bool)
          → rows_in (if b then some file else get files path)
            ≡ (if b then db.rows file.samples else rows_in (get files path))
      split true = refl
      split false = refl

  pub rows_at-connection :
      (path key : String) (s : ColdStore Table)
      → rows_at path (connection db safe_filename key s) ≡ rows_at path s
  rows_at-connection path key s = elim (Bool-cases (has_key s.connections key)) [
    | inl e ↦ ap (rows_at path) (opened_before e)
    | inr e ↦
        ap (rows_at path) (opened_now e)
        ∙ rows_in-put s.files (safe_filename key) path (record (file_of db safe_filename s key) {
          meta = or_ignore (file_of db safe_filename s key).meta key;
        })
        ∙ elim (Bool-cases (safe_filename key == path)) [
          | inl same ↦ rw same (
              file_of-rows key s ∙ ap (λ p. rows_at p s) ((eq_iff (safe_filename key) path).0 same))
          | inr other ↦ rw other refl
        ]
  ]
    where
      opened_before : has_key s.connections key ≡ true → connection db safe_filename key s ≡ s
      opened_before e = unfold connection in rw e refl

      opened_now :
          has_key s.connections key ≡ false
          → connection db safe_filename key s ≡ record {
            files = put s.files (safe_filename key) (record (file_of db safe_filename s key) {
              meta = or_ignore (file_of db safe_filename s key).meta key;
            });
            connections = s.connections ++ key ∷ [];
          }
      opened_now e = unfold connection in rw e refl

  pub table_of-rows :
      (key : String) (s : ColdStore Table)
      → db.rows (table_of db safe_filename key s) ≡ rows_at (safe_filename key) s
  unfolding table_of
  table_of-rows key s =
      file_of-rows key (connection db safe_filename key s)
      ∙ rows_at-connection (safe_filename key) key s

  pub rows_at-with_table :
      (path key : String) (f : Table → Table) (s : ColdStore Table)
      → rows_at path (with_table db safe_filename key f s) ≡ (
          if safe_filename key == path
          then db.rows (f (table_of db safe_filename key s))
          else rows_at path s)
  unfolding with_table table_of
  rows_at-with_table path key f s =
      let s' : ColdStore Table = connection db safe_filename key s in
      rows_in-put s'.files (safe_filename key) path (record (file_of db safe_filename s' key) {
        samples = f (file_of db safe_filename s' key).samples;
      })
      ∙ elim (Bool-cases (safe_filename key == path)) [
        | inl same ↦ rw same refl
        | inr other ↦ rw other (rows_at-connection path key s)
      ]

  -- Every database has its rows numbered upwards.
  abbrev pub IsStored : ColdStore Table → Type 0
  IsStored s = (path : String) → IsNumbered (rows_at path s)

  pub append-rows :
      (path key : String) (t : T) (s : ColdStore Table)
      → IsStored s
      → (new : List (Row T)) × (rows_at path (append db safe_filename key t s)
          ≡ rows_at path s ++ new)
        × (map (λ r. r.1) new ≡ one_if (safe_filename key == path) t)
        × IsNumbered (rows_at path s ++ new)
  unfolding append
  append-rows path key t s h = elim (Bool-cases (safe_filename key == path)) [
    | inr other ↦ (
      [],
      rows_at-with_table path key (db.insert t) s ∙ rw other (sym (append-nil (rows_at path s))),
      rw other refl,
      rw (append-nil (rows_at path s)) (h path),
    )
    | inl same ↦
        let table = table_of db safe_filename key s in
        let at_path : db.rows table ≡ rows_at path s =
          table_of-rows key s ∙ ap (λ p. rows_at p s) ((eq_iff (safe_filename key) path).0 same) in
        let (id, inserted, older) = db.rows-insert t table in
        (
          (id, t) ∷ [],
          rows_at-with_table path key (db.insert t) s
              ∙ rw same (inserted ∙ ap (λ l. l ++ (id, t) ∷ []) at_path),
          rw same refl,
          IsNumbered-last (rows_at path s) id t (h path)
              (subst (All (λ row. row.0 < id)) at_path older),
        )
  ]

  pub peek-rows :
      (key : String) (n : ℕ) (s : ColdStore Table)
      → (peek db safe_filename key n s).0 ≡ take n (rows_at (safe_filename key) s)
  unfolding peek
  peek-rows key n s =
      db.select_oldest-rows n (table_of db safe_filename key s) ∙ ap (take n) (table_of-rows key s)

  pub rows_at-peek :
      (path key : String) (n : ℕ) (s : ColdStore Table)
      → rows_at path (peek db safe_filename key n s).1 ≡ rows_at path s
  unfolding peek
  rows_at-peek path key n s = rows_at-connection path key s

  pub rows_at-delete_ids :
      (path key : String) (is' : List ℕ) (s : ColdStore Table)
      → rows_at path (delete_ids db safe_filename key is' s)
        ≡ (if safe_filename key == path then without is' (rows_at path s) else rows_at path s)
  unfolding delete_ids
  rows_at-delete_ids path key [] s = elim (Bool-cases (safe_filename key == path)) [
    | inl same ↦ rw same (sym (without-none (rows_at path s)))
    | inr other ↦ rw other refl
  ]
  rows_at-delete_ids path key (id ∷ is') s =
      rows_at-with_table path key (db.delete_rows (id ∷ is')) s
      ∙ elim (Bool-cases (safe_filename key == path)) [
        | inl same ↦ rw same (
            db.rows-delete_rows (id ∷ is') (table_of db safe_filename key s)
            ∙ ap (without (id ∷ is')) (
                table_of-rows key s
                ∙ ap (λ p. rows_at p s) ((eq_iff (safe_filename key) path).0 same)))
        | inr other ↦ rw other refl
      ]
