-- ===== src/AuditLog/Chain.antt =====
-- The entries that the lines of xedge/observability/audit_log.py hold, and the chain that they form.
use xedge.Prelude.{
  ℕ, ◌+◌, ◌≡◌, refl, ap, ◌∙◌, String, Bool, true, false, Option, none, some, List, [], ◌∷◌, ◌++◌,
}
use xedge.AuditLog.{Entry, Formats, last_line, resume_at, checks, verify_lines}

module _ {D L B : Type 0} (formats : Formats D L B) where
  open formats use {loads, is_blank}

  -- The lines hold these entries, one each, between blank lines.
  pub data Reads : List L → List (Entry D) → Type 0 where
    no_lines : Reads [] []
    blank_line :
        (line : L) (lines : List L) (entries : List (Entry D))
        → is_blank line ≡ true
        → Reads lines entries
        → Reads (line ∷ lines) entries
    entry_line :
        (line : L) (lines : List L) (entry : Entry D) (entries : List (Entry D))
        → is_blank line ≡ false
        → loads line ≡ some entry
        → Reads lines entries
        → Reads (line ∷ lines) (entry ∷ entries)

  -- Each entry names the hash before it and carries its own.
  abbrev pub IsChain : String → List (Entry D) → Type 0
  IsChain expected [] = Unit {0}
  IsChain expected (entry ∷ entries) =
      (checks formats expected entry ≡ true) × IsChain entry.hash entries

  abbrev pub end_of : String → List (Entry D) → String
  end_of expected [] = expected
  end_of expected (entry ∷ entries) = end_of entry.hash entries

  abbrev IsVerified : String → List L → Type 0
  IsVerified expected lines =
      (entries : List (Entry D)) × Reads lines entries × IsChain expected entries

  pub verify_lines-Reads :
      (expected : String) (lines : List L)
      → verify_lines formats expected lines ≡ some true
      → (entries : List (Entry D)) × Reads lines entries × IsChain expected entries
  unfolding verify_lines
  verify_lines-Reads expected [] h = ([], no_lines, tt)
  verify_lines-Reads expected (line ∷ lines) h =
      at_line (λ p. verify_lines-Reads p lines) (is_blank line) (loads line) refl refl h
    where
      checked :
          ((p : String) → verify_lines formats p lines ≡ some true → IsVerified p lines)
          → (b : Bool) (entry : Entry D) → is_blank line ≡ false
          → loads line ≡ some entry
          → checks formats expected entry ≡ b
          → (elim b as (λ _. Option Bool) [
            | false ↦ some false
            | true ↦ verify_lines formats entry.hash lines
          ])
            ≡ some true
          → IsVerified expected (line ∷ lines)
      checked ih false entry e l c h = absurd (cc h)
      checked ih true entry e l c h =
          let (entries, reads, chain) = ih entry.hash h in
          (entry ∷ entries, entry_line line lines entry entries e l reads, (c, chain))

      at_line :
          ((p : String) → verify_lines formats p lines ≡ some true → IsVerified p lines)
          → (blank : Bool) (o : Option (Entry D)) → is_blank line ≡ blank
          → loads line ≡ o
          → (elim blank as (λ _. Option Bool) [
            | true ↦ verify_lines formats expected lines
            | false ↦ elim o as (λ _. Option Bool) [
              | none ↦ none
              | some entry ↦ elim (checks formats expected entry) as (λ _. Option Bool) [
                | false ↦ some false
                | true ↦ verify_lines formats entry.hash lines
              ]
            ]
          ])
            ≡ some true
          → IsVerified expected (line ∷ lines)
      at_line ih true o e l h =
          let (entries, reads, chain) = ih expected h in
          (entries, blank_line line lines entries e reads, chain)
      at_line ih false none e l h = absurd (cc h)
      at_line ih false (some entry) e l h =
          checked ih (checks formats expected entry) entry e l refl h

  abbrev verify_step : String → List L → Bool → Option (Entry D) → Option Bool
  verify_step expected lines blank o = elim blank as (λ _. Option Bool) [
    | true ↦ verify_lines formats expected lines
    | false ↦ elim o as (λ _. Option Bool) [
      | none ↦ none
      | some entry ↦ elim (checks formats expected entry) as (λ _. Option Bool) [
        | false ↦ some false
        | true ↦ verify_lines formats entry.hash lines
      ]
    ]
  ]

  verify_entry :
      (expected : String) (lines : List L) (entry : Entry D)
      → checks formats expected entry ≡ true
      → verify_step expected lines false (some entry) ≡ verify_lines formats entry.hash lines
  verify_entry expected lines entry c =
      ap
        (λ b. elim b as (λ _. Option Bool) [
          | false ↦ some false
          | true ↦ verify_lines formats entry.hash lines
        ])
        c

  pub Reads-verify_lines :
      (expected : String) (lines : List L) (entries : List (Entry D))
      → Reads lines entries
      → IsChain expected entries
      → verify_lines formats expected lines ≡ some true
  unfolding verify_lines
  Reads-verify_lines expected _ _ no_lines chain = refl
  Reads-verify_lines expected _ _ (blank_line line lines entries e reads) chain =
      ap (λ b. verify_step expected lines b (loads line)) e
      ∙ Reads-verify_lines expected lines entries reads chain
  Reads-verify_lines expected _ _ (entry_line line lines entry entries e l reads) chain =
      ap (λ b. verify_step expected lines b (loads line)) e
      ∙ ap (λ o. verify_step expected lines false o) l
      ∙ verify_entry expected lines entry chain.0
      ∙ Reads-verify_lines entry.hash lines entries reads chain.1

  pub Reads-append :
      (lines more : List L) (entries later : List (Entry D))
      → Reads lines entries
      → Reads more later
      → Reads (lines ++ more) (entries ++ later)
  Reads-append _ more _ later no_lines h = h
  Reads-append _ more _ later (blank_line line lines entries e reads) h =
      blank_line line (lines ++ more) (entries ++ later) e
        (Reads-append lines more entries later reads h)
  Reads-append _ more _ later (entry_line line lines entry entries e l reads) h =
      entry_line line (lines ++ more) entry (entries ++ later) e l
        (Reads-append lines more entries later reads h)

  pub IsChain-append :
      (expected : String) (entries later : List (Entry D))
      → IsChain expected entries
      → IsChain (end_of expected entries) later
      → IsChain expected (entries ++ later)
  IsChain-append expected [] later h h' = h'
  IsChain-append expected (entry ∷ entries) later h h' =
      (h.0, IsChain-append entry.hash entries later h.1 h')

  -- The number and the hash that a log goes on with.
  abbrev pub goes_on : ℕ × String → List (Entry D) → ℕ × String
  goes_on start [] = start
  goes_on start (entry ∷ entries) = goes_on (entry.body.seq + 1, entry.hash) entries

  resumed :
      (line : L) (entry : Entry D)
      → loads line ≡ some entry
      → resume_at formats (some line) ≡ some (entry.body.seq + 1, entry.hash)
  resumed line entry l =
      ap
        (λ o. elim o as (λ _. Option (ℕ × String)) [
          | none ↦ none
          | some entry ↦ some (entry.body.seq + 1, entry.hash)
        ])
        l

  pub last_line-Reads :
      (lines : List L) (entries : List (Entry D)) (found : Option L) (start : ℕ × String)
      → Reads lines entries
      → resume_at formats found ≡ some start
      → resume_at formats (last_line formats lines found) ≡ some (goes_on start entries)
  unfolding last_line
  last_line-Reads _ _ found start no_lines h = h
  last_line-Reads _ _ found start (blank_line line lines entries e reads) h =
      rw e (last_line-Reads lines entries found start reads h)
  last_line-Reads _ _ found start (entry_line line lines entry entries e l reads) h = rw e (
      last_line-Reads lines entries (some line) (entry.body.seq + 1, entry.hash) reads
        (resumed line entry l))

  pub goes_on-append :
      (start : ℕ × String) (entries later : List (Entry D))
      → goes_on start (entries ++ later) ≡ goes_on (goes_on start entries) later
  goes_on-append start [] later = refl
  goes_on-append start (entry ∷ entries) later =
      goes_on-append (entry.body.seq + 1, entry.hash) entries later

  pub goes_on-end_of :
      (n : ℕ) (expected : String) (entries : List (Entry D))
      → (goes_on (n, expected) entries).1 ≡ end_of expected entries
  goes_on-end_of n expected [] = refl
  goes_on-end_of n expected (entry ∷ entries) =
      goes_on-end_of (entry.body.seq + 1) entry.hash entries
