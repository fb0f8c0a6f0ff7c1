-- ===== src/Northbound/Dispatcher/Accounts.antt =====
-- The account of the samples of a database file in xedge/northbound/dispatcher.py: what a batch, its
-- deletion and the samples that are spilled meanwhile do to the rows of the file.
use xedge.Prelude.{
  ℕ, ◌≡◌, refl, sym, ap, ◌∙◌, String, Bool, true, false, List, [], ◌∷◌, ◌++◌, map-append,
  append-nil, append_assoc, subst, take, drop, take-append-drop, eq_iff, if◌then◌else◌,
}
use text.Mathlib.Text.{◌==◌}
use xedge.Store.ColdStore.{Row, Sqlite, ColdStore, append, delete_ids, without}
use xedge.Store.ColdStore.Tables.{IsNumbered, without-IsNumbered, ids, samples_of, without-take}
use xedge.Store.ColdStore.Batches.{rows_at, IsStored, one_if, append-rows, rows_at-delete_ids}
use xedge.Northbound.Dispatcher.{
  Outcome, success, failed, raised, Meanwhile, spilled, purged, Publication, meanwhile_all,
}

-- Nothing was purged.
abbrev pub OnlySpills : {T : Type 0} → List (Meanwhile T) → Type 0
OnlySpills [] = Unit {0}
OnlySpills (spilled key t ∷ rest) = OnlySpills rest
OnlySpills (purged key cutoff ∷ rest) = ⊥

abbrev pub taken_of : {T : Type 0} → Outcome → List T → List T
taken_of success batch = batch
taken_of failed batch = []
taken_of raised batch = []

-- What the log of a replay has for a file: the samples that the connector took, and those that were
-- spilled meanwhile.
module _ {T : Type 0} (safe_filename : String → String) (path : String) where
  abbrev pub delivered : List (Publication T) → List T
  delivered [] = []
  delivered (p ∷ log) =
      (if safe_filename p.stream_key == path then taken_of p.outcome p.batch else [])
      ++ delivered log

  abbrev pub spilled_tags : List (Meanwhile T) → List T
  spilled_tags [] = []
  spilled_tags (spilled key t ∷ rest) = one_if (safe_filename key == path) t ++ spilled_tags rest
  spilled_tags (purged key cutoff ∷ rest) = spilled_tags rest

  abbrev pub spilled_to : List (Publication T) → List T
  spilled_to [] = []
  spilled_to (p ∷ log) = spilled_tags p.meanwhile ++ spilled_to log

module _ {T : Type 0} {time : T → ℕ} (db : Sqlite T time) (safe_filename : String → String) where
  open db use {Table}

  -- The samples that wait in a file, oldest first.
  abbrev pub backlog : String → ColdStore Table → List T
  backlog path s = samples_of (rows_at db safe_filename path s)

  pub append-IsStored :
      (key : String) (t : T) (s : ColdStore Table)
      → IsStored db safe_filename s
      → IsStored db safe_filename (append db safe_filename key t s)
  append-IsStored key t s h path =
      let (new, rows, tags, numbered) = append-rows db safe_filename path key t s h in
      subst IsNumbered (sym rows) numbered

  pub meanwhile_all-IsStored :
      (done : List (Meanwhile T)) (s : ColdStore Table)
      → OnlySpills done
      → IsStored db safe_filename s
      → IsStored db safe_filename (meanwhile_all db safe_filename done s)
  unfolding meanwhile_all
  meanwhile_all-IsStored [] s only h = h
  meanwhile_all-IsStored (spilled key t ∷ rest) s only h =
      meanwhile_all-IsStored rest (append db safe_filename key t s) only (append-IsStored key t s h)
  meanwhile_all-IsStored (purged key cutoff ∷ rest) s only h = absurd only

  pub meanwhile_all-rows :
      (path : String) (done : List (Meanwhile T)) (s : ColdStore Table)
      → OnlySpills done
      → IsStored db safe_filename s
      → (new : List (Row T)) × (rows_at db safe_filename path
            (meanwhile_all db safe_filename done s)
          ≡ rows_at db safe_filename path s ++ new)
        × (samples_of new ≡ spilled_tags safe_filename path done)
  unfolding meanwhile_all
  meanwhile_all-rows path (purged key cutoff ∷ rest) s only h = absurd only
  meanwhile_all-rows path [] s only h =
      ([], sym (append-nil (rows_at db safe_filename path s)), refl)
  meanwhile_all-rows path (spilled key t ∷ rest) s only h =
      let (first, rows, tags, numbered) = append-rows db safe_filename path key t s h in
      let (later, rows', tags') =
        meanwhile_all-rows path rest (append db safe_filename key t s) only
          (append-IsStored key t s h) in
      (
        first ++ later,
        rows'
            ∙ ap (λ l. l ++ later) rows
            ∙ append_assoc (rows_at db safe_filename path s) first later,
        map-append (λ r. r.1) first later
            ∙ ap (λ l. l ++ samples_of later) tags
            ∙ ap (λ l. one_if (safe_filename key == path) t ++ l) tags',
      )

  pub delete_ids-IsStored :
      (key : String) (is' : List ℕ) (s : ColdStore Table)
      → IsStored db safe_filename s
      → IsStored db safe_filename (delete_ids db safe_filename key is' s)
  delete_ids-IsStored key is' s h path =
      subst IsNumbered (sym (rows_at-delete_ids db safe_filename path key is' s))
        (either (safe_filename key == path))
    where
      either :
          (b : Bool)
          → IsNumbered (
              if b
              then without is' (rows_at db safe_filename path s)
              else rows_at db safe_filename path s)
      either true = without-IsNumbered is' (rows_at db safe_filename path s) (h path)
      either false = h path

  -- Deleting a batch that was read before more samples came.
  delete_rows :
      (b : Bool) (n : ℕ) (batch rows new : List (Row T))
      → (b ≡ true → batch ≡ rows)
      → IsNumbered (rows ++ new)
      → (if b then samples_of (take n batch) else [])
          ++ samples_of (if b then without (ids (take n batch)) (rows ++ new) else rows ++ new)
        ≡ samples_of rows ++ samples_of new
  delete_rows false n batch rows new e h = map-append (λ r. r.1) rows new
  delete_rows true n batch rows new e h =
      ap (λ l. samples_of (take n l) ++ samples_of (without (ids (take n l)) (rows ++ new)))
        (e refl)
      ∙ ap (λ l. samples_of (take n rows) ++ samples_of l) (without-take n rows new h)
      ∙ sym (map-append (λ r. r.1) (take n rows) (drop n rows ++ new))
      ∙ ap samples_of (
          sym (append_assoc (take n rows) (drop n rows) new)
          ∙ ap (λ l. l ++ new) (take-append-drop n rows))
      ∙ map-append (λ r. r.1) rows new

  pub delete_batch :
      (path key : String) (n : ℕ) (done : List (Meanwhile T)) (s : ColdStore Table)
      → OnlySpills done
      → IsStored db safe_filename s
      → (if safe_filename key == path
            then samples_of (take n (rows_at db safe_filename (safe_filename key) s))
            else [])
          ++ backlog path (
              delete_ids db safe_filename key
                (ids (take n (rows_at db safe_filename (safe_filename key) s)))
                (meanwhile_all db safe_filename done s))
        ≡ backlog path s ++ spilled_tags safe_filename path done
  delete_batch path key n done s only h =
      let (new, rows, tags) = meanwhile_all-rows path done s only h in
      let batch = rows_at db safe_filename (safe_filename key) s in
      ap
        (λ l. (if safe_filename key == path then samples_of (take n batch) else []) ++ samples_of l)
        (rows_at-delete_ids db safe_filename path key (ids (take n batch))
            (meanwhile_all db safe_filename done s)
          ∙ ap (λ l. if safe_filename key == path then without (ids (take n batch)) l else l) rows)
      ∙ delete_rows (safe_filename key == path) n batch (rows_at db safe_filename path s) new
          (λ e. ap (λ p. rows_at db safe_filename p s) ((eq_iff (safe_filename key) path).0 e))
          (subst IsNumbered rows (meanwhile_all-IsStored done s only h path))
      ∙ ap (λ l. backlog path s ++ l) tags

module _ {T : Type 0} (safe_filename : String → String) (path : String) where
  pub delivered-append :
      (a b : List (Publication T))
      → delivered safe_filename path (a ++ b)
        ≡ delivered safe_filename path a ++ delivered safe_filename path b
  delivered-append [] b = refl
  delivered-append (p ∷ a) b =
      let first = if safe_filename p.stream_key == path then taken_of p.outcome p.batch else [] in
      ap (λ l. first ++ l) (delivered-append a b)
      ∙ sym (append_assoc first (delivered safe_filename path a) (delivered safe_filename path b))

  pub spilled_to-append :
      (a b : List (Publication T))
      → spilled_to safe_filename path (a ++ b)
        ≡ spilled_to safe_filename path a ++ spilled_to safe_filename path b
  spilled_to-append [] b = refl
  spilled_to-append (p ∷ a) b =
      ap (λ l. spilled_tags safe_filename path p.meanwhile ++ l) (spilled_to-append a b)
      ∙ sym (
          append_assoc (spilled_tags safe_filename path p.meanwhile)
            (spilled_to safe_filename path a) (spilled_to safe_filename path b))
