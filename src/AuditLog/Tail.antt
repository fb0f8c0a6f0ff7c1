-- ===== src/AuditLog/Tail.antt =====
-- What `tail` of xedge/observability/audit_log.py returns.
use xedge.Prelude.{
  ℕ, suc, ◌-◌, min, ◌≡◌, refl, ap, ◌∙◌, arith, String, Bool, true, false, Option, none, some, List,
  [], ◌∷◌, ◌++◌, length, take, length-drop, take-append-drop, if◌then◌else◌,
}
use xedge.Prelude.Int.{pos}
use xedge.AuditLog.{Entry, Formats, AuditLog, lines_of, is_match, keep_last, matches_in, tail}
use xedge.AuditLog.Chain.{Reads, no_lines, blank_line, entry_line}

module _ {D : Type 0} where
  abbrev pub selected : (Entry D → Bool) → List (Entry D) → List (Entry D)
  selected test [] = []
  selected test (entry ∷ entries) =
      let rest = selected test entries in if test entry then entry ∷ rest else rest

  keep_last-newest :
      (n : ℕ) (found : List (Entry D))
      → (older : List (Entry D)) × (older ++ keep_last (pos (suc n)) found ≡ found)
        × (length (keep_last (pos (suc n)) found) ≡ min (suc n) (length found))
  keep_last-newest n found = (
    take (length found - suc n) found,
    take-append-drop (length found - suc n) found,
    omega (arith, length-drop (length found - suc n) found),
  )

module _ {D L B : Type 0} (formats : Formats D L B) where
  open formats use {loads, is_blank}

  abbrev match_step :
      (Entry D → Bool) → Option (List (Entry D)) → Bool → Option (Entry D) → Option (List (Entry D))
  match_step test rest blank o = elim blank as (λ _. Option (List (Entry D))) [
    | true ↦ rest
    | false ↦ elim o as (λ _. Option (List (Entry D))) [
      | none ↦ none
      | some entry ↦ elim rest as (λ _. Option (List (Entry D))) [
        | none ↦ none
        | some later ↦ some (if test entry then entry ∷ later else later)
      ]
    ]
  ]

  matches_in-Reads :
      (test : Entry D → Bool) (lines : List L) (entries : List (Entry D))
      → Reads formats lines entries
      → matches_in formats test lines ≡ some (selected test entries)
  unfolding matches_in
  matches_in-Reads test _ _ no_lines = refl
  matches_in-Reads test _ _ (blank_line line lines entries e reads) =
      ap (λ b. match_step test (matches_in formats test lines) b (loads line)) e
      ∙ matches_in-Reads test lines entries reads
  matches_in-Reads test _ _ (entry_line line lines entry entries e l reads) =
      ap (λ b. match_step test (matches_in formats test lines) b (loads line)) e
      ∙ ap (λ o. match_step test (matches_in formats test lines) false o) l
      ∙ ap (λ rest. match_step test rest false (some entry))
          (matches_in-Reads test lines entries reads)

  -- On a file whose lines all hold entries, and with a limit of at least one, `tail` returns the newest
  -- of the entries that match the actor, the event and the number, in the order of the file, and as
  -- many of them as there are, up to the limit.
  pub tail-newest :
      (n : ℕ) (actor event : Option String) (since_seq : ℕ) (log : AuditLog L)
      (entries : List (Entry D))
      → Reads formats (lines_of log.file) entries
      → let found = selected (is_match actor event since_seq) entries in
        (tail formats (pos (suc n)) actor event since_seq log
          ≡ some (keep_last (pos (suc n)) found))
        × ((older : List (Entry D)) × (older ++ keep_last (pos (suc n)) found ≡ found))
        × (length (keep_last (pos (suc n)) found) ≡ min (suc n) (length found))
  unfolding tail
  tail-newest n actor event since_seq log entries reads =
      let test : Entry D → Bool = is_match actor event since_seq in
      let (older, split, count) = keep_last-newest n (selected test entries) in
      (
        ap
            (λ o. elim o as (λ _. Option (List (Entry D))) [
              | none ↦ none
              | some found ↦ some (keep_last (pos (suc n)) found)
            ])
            (matches_in-Reads test (lines_of log.file) entries reads),
        (older, split),
        count,
      )
