-- ===== src/Store/ColdStore/Examples.antt =====
-- A cold store at concrete inputs: a database whose table is the list of its rows.
use xedge.Prelude.{
  ℕ, suc, ◌<◌, ◌≡◌, refl, max, arith, String, Bool, true, false, Option, none, some, List, [], ◌∷◌,
  ◌++◌, All, All-imp, str_eq, length, take, drop, if◌then◌else◌,
}
use text.Mathlib.Text.{◌==◌}
use xedge.Prelude.Assoc.{get}
use xedge.Store.ColdStore.{Row, Sqlite, Database, ColdStore, without, since, drain}
use xedge.Store.ColdStore.Tables.{IsNumbered, samples_of}
use xedge.Store.ColdStore.Batches.{rows_at, IsStored}
use xedge.Store.ColdStore.Drains.{drain-oldest}

abbrev pub age : ℕ → ℕ
age t = t

abbrev pub next_id : List (Row ℕ) → ℕ
next_id [] = 1
next_id (row ∷ rows) = max (suc row.0) (next_id rows)

pub next_id-above : (rows : List (Row ℕ)) → All (λ row. row.0 < next_id rows) rows
next_id-above [] = tt
next_id-above (row ∷ rows) = (
  omega arith,
  All-imp (λ r. r.0 < next_id rows) (λ r. r.0 < max (suc row.0) (next_id rows)) rows
      (λ r h. omega (arith, h)) (next_id-above rows),
)

-- A table that is the list of its rows.
abbrev pub listed : Sqlite ℕ age
listed = record {
  Table = List (Row ℕ);
  new_table = [];
  insert = λ t table. table ++ (next_id table, t) ∷ [];
  select_oldest = λ n table. take n table;
  select_count = λ table. length table;
  delete_rows = λ ids table. without ids table;
  delete_before = λ cutoff table. since age cutoff table;
  rows = λ table. table;
  rows-new_table = refl;
  rows-insert = λ t table. (next_id table, refl, next_id-above table);
  select_oldest-rows = λ n table. refl;
  select_count-rows = λ table. refl;
  rows-delete_rows = λ ids table. refl;
  rows-delete_before = λ cutoff table. refl;
}

abbrev pub same_name : String → String
same_name key = key

abbrev pub file_a : Database (List (Row ℕ))
file_a = record { samples = (1, 10) ∷ (2, 20) ∷ (3, 30) ∷ []; meta = some "a" }

abbrev rows_in : Option (Database (List (Row ℕ))) → List (Row ℕ)
rows_in o = elim o [ none ↦ [] | some file ↦ file.samples ]

abbrev file_if : Bool → Option (Database (List (Row ℕ)))
file_if b = if b then some file_a else none

abbrev pub waiting : ColdStore (List (Row ℕ))
waiting = record { files = ("a", file_a) ∷ []; connections = [] }

-- Only the file "a" has rows, and they are numbered upwards.
pub waiting-IsStored : IsStored listed same_name waiting
unfolding get
waiting-IsStored path = either (str_eq "a" path)
  where
    either : (b : Bool) → IsNumbered (rows_in (file_if b))
    either true = ((omega arith, (omega arith, tt)), ((omega arith, tt), (tt, tt)))
    either false = tt

drain-oldest_example :
    ((drain listed same_name "a" 2 waiting).0
      ≡ samples_of (take 2 (rows_at listed same_name "a" waiting)))
    × (rows_at listed same_name "b" (drain listed same_name "a" 2 waiting).1 ≡ (
        if "a" == "b"
        then drop 2 (rows_at listed same_name "a" waiting)
        else rows_at listed same_name "b" waiting))
drain-oldest_example = drain-oldest listed same_name "a" "b" 2 waiting waiting-IsStored
