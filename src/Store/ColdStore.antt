-- ===== src/Store/ColdStore.antt =====
-- xedge/store/sqlite_store.py: samples on disk, one database for each stream. SQLite is a parameter,
-- a type of tables with what the statements of the code do, and so are the conversion of a stream key
-- to a file name and the time of a sample.
use Prim.Native.String.{compare}
use Prim.Native.Nat.{Ordering}
use xedge.Prelude.{
  ℕ, ◌+◌, ◌-◌, ◌≤◌, ◌<◌, ◌≡◌, String, Bool, true, false, not, ◌||◌, Option, none, some, List, [],
  ◌∷◌, ◌++◌, map, length, take, All, ltb, ◌==◌, str_eq, if◌then◌else◌,
}
use xedge.Prelude.Assoc.{Dict, get, put}
use xedge.Prelude.Sort.{sorted_by}
pub mod Tables
pub mod Batches
pub mod Drains
pub mod Examples

-- A sample with the number that its row got.
abbrev pub Row : Type 0 → Type 0
Row T = ℕ × T

abbrev pub is_in : List ℕ → ℕ → Bool
is_in [] id = false
is_in (i ∷ ids) id = i == id || is_in ids id

module _ {T : Type 0} where
  -- What DELETE … WHERE id IN (…) leaves.
  unfoldable pub without : List ℕ → List (Row T) → List (Row T)
  without ids [] = []
  without ids (row ∷ rows) =
      let rest = without ids rows in if is_in ids row.0 then rest else row ∷ rest

  -- What DELETE … WHERE timestamp_ns < … leaves.
  unfoldable pub since : (T → ℕ) → ℕ → List (Row T) → List (Row T)
  since time cutoff [] = []
  since time cutoff (row ∷ rows) =
      let rest = since time cutoff rows in if ltb (time row.1) cutoff then rest else row ∷ rest

-- The `samples` table, by the statements that the code runs, and what SQLite documents of them.
pub record Sqlite (T : Type 0) (time : T → ℕ) : Type 1 where
  pub Table : Type 0
  pub new_table : Table
  pub insert : T → Table → Table
  pub select_oldest : ℕ → Table → List (Row T)
  pub select_count : Table → ℕ
  pub delete_rows : List ℕ → Table → Table
  pub delete_before : ℕ → Table → Table
  -- The rows in the order of their numbers.
  pub rows : Table → List (Row T)
  pub rows-new_table : rows new_table ≡ []
  pub rows-insert :
      (t : T) (table : Table)
      → (id : ℕ) × (rows (insert t table) ≡ rows table ++ (id, t) ∷ [])
        × All (λ row. row.0 < id) (rows table)
  pub select_oldest-rows : (n : ℕ) (table : Table) → select_oldest n table ≡ take n (rows table)
  pub select_count-rows : (table : Table) → select_count table ≡ length (rows table)
  pub rows-delete_rows :
      (ids : List ℕ) (table : Table) → rows (delete_rows ids table) ≡ without ids (rows table)
  pub rows-delete_before :
      (cutoff : ℕ) (table : Table)
      → rows (delete_before cutoff table) ≡ since time cutoff (rows table)

-- A database file: its samples, and the stream key of its `meta` table, if it has one.
pub record Database (Table : Type 0) : Type 0 where
  pub samples : Table
  pub meta : Option String

-- The files of the directory, and the stream keys with an open connection.
pub record ColdStore (Table : Type 0) : Type 0 where
  pub files : Dict (Database Table)
  pub connections : List String

abbrev pub has_key : List String → String → Bool
has_key [] key = false
has_key (k ∷ keys) key = str_eq k key || has_key keys key

abbrev pub string_le : String → String → Bool
string_le a b = elim (compare a b) [ Ordering.gt ↦ false | _ ↦ true ]

-- INSERT OR IGNORE
abbrev pub or_ignore : Option String → String → Option String
or_ignore none key = some key
or_ignore (some old) key = some old

abbrev or_else : Option ℕ → ℕ → ℕ
or_else none n = n
or_else (some m) n = m

-- The age from which on `purge_loop` purges a stream.
abbrev pub cutoff_for : (String → Bool) → ℕ → ℕ → Option ℕ → String → ℕ
cutoff_for is_alarm_key now retention alarm_retention key =
    now - (if is_alarm_key key then or_else alarm_retention retention else retention)

module _ {T : Type 0} {time : T → ℕ} (db : Sqlite T time) (safe_filename : String → String) where
  open db use {Table}

  abbrev pub file_of : ColdStore Table → String → Database Table
  file_of s key = elim (get s.files (safe_filename key)) [
    | none ↦ record { samples = db.new_table; meta = none }
    | some file ↦ file
  ]

  -- `_connection`: the store with the database of a stream there and open.
  unfoldable pub connection : String → ColdStore Table → ColdStore Table
  connection key s = if has_key s.connections key then s else record {
    files =
        put s.files (safe_filename key)
          (record (file_of s key) { meta = or_ignore (file_of s key).meta key });
    connections = s.connections ++ key ∷ [];
  }

  -- The table that a statement for a stream reads, and the store when it has written it.
  unfoldable pub table_of : String → ColdStore Table → Table
  unfolding connection
  table_of key s = (file_of (connection key s) key).samples

  unfoldable pub with_table : String → (Table → Table) → ColdStore Table → ColdStore Table
  unfolding connection
  with_table key f s =
      let s' = connection key s in
      record s' {
        files =
            put s'.files (safe_filename key)
              (record (file_of s' key) { samples = f (file_of s' key).samples });
      }

  unfoldable pub append : String → T → ColdStore Table → ColdStore Table
  append key t s = with_table key (db.insert t) s

  unfoldable pub count : String → ColdStore Table → ℕ × ColdStore Table
  count key s = (db.select_count (table_of key s), connection key s)

  unfoldable pub peek : String → ℕ → ColdStore Table → List (Row T) × ColdStore Table
  peek key max_items s = (db.select_oldest max_items (table_of key s), connection key s)

  unfoldable pub delete_ids : String → List ℕ → ColdStore Table → ColdStore Table
  delete_ids key [] s = s
  delete_ids key (id ∷ ids) s = with_table key (db.delete_rows (id ∷ ids)) s

  unfoldable pub drain_rows : String → List (Row T) → ColdStore Table → List T × ColdStore Table
  drain_rows key [] s = ([], s)
  drain_rows key (row ∷ rows) s =
      (map (λ r. r.1) (row ∷ rows), delete_ids key (map (λ r. r.0) (row ∷ rows)) s)

  unfoldable pub drain : String → ℕ → ColdStore Table → List T × ColdStore Table
  unfolding drain_rows peek
  drain key max_items s = let (rows, s') = peek key max_items s in drain_rows key rows s'

  -- The number of purged rows is the difference of the counts.
  unfoldable pub purge_older_than : String → ℕ → ColdStore Table → ColdStore Table
  purge_older_than key cutoff s = with_table key (db.delete_before cutoff) s

  -- The keys of all databases: of the open connections, and of the `meta` tables.
  unfoldable pub recorded_keys : Dict (Database Table) → List String → List String
  recorded_keys [] keys = keys
  recorded_keys ((path, file) ∷ rest) keys = recorded_keys rest (elim file.meta [
    | none ↦ keys
    | some key ↦ if has_key keys key then keys else keys ++ key ∷ []
  ])

  unfoldable pub stream_keys : ColdStore Table → List String
  unfolding recorded_keys
  stream_keys s = sorted_by string_le (recorded_keys s.files s.connections)

  -- One round of `purge_loop`, at a time and for the keys that it is given.
  unfoldable pub purge_all :
      (String → Bool) → ℕ → ℕ → Option ℕ → List String → ColdStore Table → ColdStore Table
  unfolding purge_older_than
  purge_all is_alarm_key now retention alarm_retention [] s = s
  purge_all is_alarm_key now retention alarm_retention (key ∷ keys) s =
      purge_all is_alarm_key now retention alarm_retention keys
        (purge_older_than key (cutoff_for is_alarm_key now retention alarm_retention key) s)
