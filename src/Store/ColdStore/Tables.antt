-- ===== src/Store/ColdStore/Tables.antt =====
-- Rows of xedge/store/sqlite_store.py by their numbers: deleting the oldest ones leaves the others.
use xedge.Prelude.{
  ℕ, zero, suc, ◌<◌, ◌≡◌, refl, ap, Bool-cases, inl, inr, List, [], ◌∷◌, ◌++◌, map, All, All-append,
  arith, take, drop,
}
use xedge.Prelude.Sort.{IsSorted}
use xedge.Store.ColdStore.{Row, is_in, without}

module _ {T : Type 0} where
  abbrev pub Older : Row T → Row T → Type 0
  Older a b = a.0 < b.0

  -- Numbers grow from row to row.
  abbrev pub IsNumbered : List (Row T) → Type 0
  IsNumbered rows = IsSorted Older rows

  abbrev pub ids : List (Row T) → List ℕ
  ids rows = map (λ r. r.0) rows

  abbrev pub samples_of : List (Row T) → List T
  samples_of rows = map (λ r. r.1) rows

  pub IsNumbered-last :
      (rows : List (Row T)) (id : ℕ) (t : T)
      → IsNumbered rows
      → All (λ row. row.0 < id) rows
      → IsNumbered (rows ++ (id, t) ∷ [])
  IsNumbered-last [] id t h l = (tt, tt)
  IsNumbered-last (row ∷ rows) id t h l =
      (All-append (Older row) rows ((id, t) ∷ []) h.0 (l.0, tt), IsNumbered-last rows id t h.1 l.1)

  without-All :
      (P : Row T → Type 0) (is' : List ℕ) (rows : List (Row T))
      → All P rows
      → All P (without is' rows)
  unfolding without
  without-All P is' [] h = tt
  without-All P is' (row ∷ rows) h = elim (Bool-cases (is_in is' row.0)) [
    | inl e ↦ rw e (without-All P is' rows h.1)
    | inr e ↦ rw e (h.0, without-All P is' rows h.1)
  ]

  pub without-IsNumbered :
      (is' : List ℕ) (rows : List (Row T)) → IsNumbered rows → IsNumbered (without is' rows)
  unfolding without
  without-IsNumbered is' [] h = tt
  without-IsNumbered is' (row ∷ rows) h = elim (Bool-cases (is_in is' row.0)) [
    | inl e ↦ rw e (without-IsNumbered is' rows h.1)
    | inr e ↦ rw e (without-All (Older row) is' rows h.0, without-IsNumbered is' rows h.1)
  ]

  -- A number below all rows deletes nothing of them.
  without-head :
      (id : ℕ) (is' : List ℕ) (rows : List (Row T))
      → All (λ r. id < r.0) rows
      → without (id ∷ is') rows ≡ without is' rows
  unfolding without
  without-head id is' [] h = refl
  without-head id is' (row ∷ rows) h = ground (arith, without-head id is' rows h.1, h.0)

  pub without-none : (rows : List (Row T)) → without [] rows ≡ rows
  unfolding without
  without-none [] = refl
  without-none (row ∷ rows) = ap (λ l. row ∷ l) (without-none rows)

  -- Deleting the numbers of the first rows leaves the rows behind them, also those that came since.
  pub without-take :
      (n : ℕ) (rows : List (Row T)) (new : List (Row T))
      → IsNumbered (rows ++ new)
      → without (ids (take n rows)) (rows ++ new) ≡ drop n rows ++ new
  unfolding without
  without-take zero rows new h = without-none (rows ++ new)
  without-take (suc n) [] new h = without-none new
  without-take (suc n) (row ∷ rows) new h =
      let ih = without-take n rows new h.1 in
      let rest = without-head row.0 (ids (take n rows)) (rows ++ new) h.0 in
      ground (arith, ih, rest)
