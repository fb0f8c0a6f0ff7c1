-- ===== src/AuditLog/Restart.antt =====
-- Appending to xedge/observability/audit_log.py and opening the file again.
use xedge.Prelude.{
  ℕ, ◌≡◌, refl, sym, ap, ◌∙◌, subst, String, Bool, true, false, ◌&&◌, Option, none, some, List, [],
  ◌∷◌, ◌++◌, str_eq, eq_iff,
}
use xedge.AuditLog.{
  Entry, Formats, genesis_hash, AuditLog, resume, open_log, lines_of, next_entry, write_line,
  append, checks, verify_chain,
}
use xedge.AuditLog.Chain.{
  Reads, no_lines, entry_line, IsChain, end_of, verify_lines-Reads, Reads-verify_lines,
  Reads-append, IsChain-append, goes_on, last_line-Reads, goes_on-append, goes_on-end_of,
}

-- What `append` is called with, and the time that it reads.
pub record Event (D : Type 0) : Type 0 where
  pub now : String
  pub actor : String
  pub name : String
  pub details : D

module _ {D L B : Type 0} (formats : Formats D L B) where
  open formats use {sha256, dumps, loads, is_blank, loads-dumps, is_blank-dumps}

  unfoldable pub append_all : List (Event D) → AuditLog L → AuditLog L
  append_all [] log = log
  append_all (e ∷ events) log =
      append_all events (append formats e.now e.actor e.name e.details log)

  -- The lines of a log are a chain of entries, which the log goes on with on a line of its own.
  abbrev pub IsValid : AuditLog L → Type 0
  IsValid log =
      (entries : List (Entry D)) × Reads formats (lines_of log.file) entries
      × IsChain formats genesis_hash entries
      × (goes_on formats (1, genesis_hash) entries ≡ (log.next_seq, log.last_hash))
      × (log.ends_line ≡ true)

  resume-Reads :
      (file : Option (List L)) (entries : List (Entry D))
      → Reads formats (lines_of file) entries
      → resume formats file ≡ some (goes_on formats (1, genesis_hash) entries)
  unfolding resume
  resume-Reads none _ no_lines = refl
  resume-Reads (some lines) entries reads =
      last_line-Reads formats lines entries none (1, genesis_hash) reads refl

  pub IsValid-open_log :
      (log : AuditLog L) → IsValid log → open_log formats log.file true ≡ some log
  unfolding open_log
  IsValid-open_log log (entries, reads, chain, start, ended) =
      ap
        (λ o. elim o as (λ _. Option (AuditLog L)) [
          | none ↦ none
          | some start ↦ some (record {
            file = log.file;
            ends_line = true;
            next_seq = start.0;
            last_hash = start.1;
          })
        ])
        (resume-Reads log.file entries reads ∙ ap (λ s. some s) start)
      ∙ ap (λ b. some (record log { ends_line = b })) (sym ended)

  pub IsValid-verify_chain : (log : AuditLog L) → IsValid log → verify_chain formats log ≡ some true
  unfolding verify_chain
  IsValid-verify_chain log (entries, reads, chain, start, ended) =
      Reads-verify_lines formats genesis_hash (lines_of log.file) entries reads chain

  or_else : {A : Type 0} → A → Option A → A
  or_else other none = other
  or_else other (some x) = x

  some-injective : {A : Type 0} → (x y : A) → some x ≡ some y → x ≡ y
  unfolding or_else
  some-injective x y e = ap (or_else x) e

  opened :
      (file : Option (List L)) (log : AuditLog L) (o : Option (ℕ × String))
      → resume formats file ≡ o
      → (elim o as (λ _. Option (AuditLog L)) [
        | none ↦ none
        | some start ↦
            some (record { file = file; ends_line = true; next_seq = start.0; last_hash = start.1 })
      ])
        ≡ some log
      → (resume formats log.file ≡ some (log.next_seq, log.last_hash)) × (log.ends_line ≡ true)
  opened file log none e h = absurd (cc h)
  opened file log (some start) e h =
      let before : AuditLog L = record {
        file = file;
        ends_line = true;
        next_seq = start.0;
        last_hash = start.1;
      } in
      subst
        (λ l.
          (resume formats (AuditLog.file l) ≡ some (AuditLog.next_seq l, AuditLog.last_hash l))
          × (AuditLog.ends_line l ≡ true))
        (some-injective before log h) (e, refl)

  pub open_log-IsValid :
      (file : Option (List L)) (log : AuditLog L)
      → open_log formats file true ≡ some log
      → verify_chain formats log ≡ some true
      → IsValid log
  unfolding open_log verify_chain
  open_log-IsValid file log e verified =
      let (entries, reads, chain) =
        verify_lines-Reads formats genesis_hash (lines_of log.file) verified in
      let (resumed, ended) = opened file log (resume formats file) refl e in
      (
        entries,
        reads,
        chain,
        some-injective (goes_on formats (1, genesis_hash) entries) (log.next_seq, log.last_hash)
            (sym (resume-Reads log.file entries reads) ∙ resumed),
        ended,
      )

  both_true : (a b : Bool) → a ≡ true → b ≡ true → (a && b) ≡ true
  both_true true b e h = h
  both_true false b e h = e

  own_checks :
      (now actor event : String) (details : D) (log : AuditLog L)
      → checks formats log.last_hash (next_entry formats now actor event details log) ≡ true
  own_checks now actor event details log =
      let entry : Entry D = next_entry formats now actor event details log in
      both_true (str_eq log.last_hash log.last_hash) (str_eq entry.hash entry.hash)
        ((eq_iff log.last_hash log.last_hash).1 refl) ((eq_iff entry.hash entry.hash).1 refl)

  append-IsValid :
      (now actor event : String) (details : D) (log : AuditLog L)
      → IsValid log
      → IsValid (append formats now actor event details log)
  unfolding append
  append-IsValid now actor event details log (entries, reads, chain, start, ended) =
      let entry : Entry D = next_entry formats now actor event details log in
      let end : end_of formats genesis_hash entries ≡ log.last_hash =
        sym (goes_on-end_of formats 1 genesis_hash entries) ∙ ap (λ s. s.1) start in
      (
        entries ++ entry ∷ [],
        subst
            (λ b.
              Reads formats (write_line formats b (lines_of log.file) (dumps entry))
                (entries ++ entry ∷ []))
            (sym ended)
            (Reads-append formats (lines_of log.file) (dumps entry ∷ []) entries (entry ∷ []) reads
              (entry_line (dumps entry) [] entry [] (is_blank-dumps entry) (loads-dumps entry)
                no_lines)),
        IsChain-append formats genesis_hash entries (entry ∷ []) chain (
          subst (λ h. checks formats h entry ≡ true) (sym end)
              (own_checks now actor event details log),
          tt,
        ),
        goes_on-append formats (1, genesis_hash) entries (entry ∷ []),
        refl,
      )

  append_all-IsValid :
      (events : List (Event D)) (log : AuditLog L) → IsValid log → IsValid (append_all events log)
  unfolding append_all
  append_all-IsValid [] log h = h
  append_all-IsValid (e ∷ events) log h =
      append_all-IsValid events (append formats e.now e.actor e.name e.details log)
        (append-IsValid e.now e.actor e.name e.details log h)

  -- When a log was opened from a file that verifies and that ends with a newline, or has nothing in it
  -- yet, then after any sequence of appends the file verifies, and opening it again gives the very log
  -- that wrote it, so that a restart continues the numbers and the chain.
  pub append_all-reopens :
      (file : Option (List L)) (log : AuditLog L) (events : List (Event D))
      → open_log formats file true ≡ some log
      → verify_chain formats log ≡ some true
      → (verify_chain formats (append_all events log) ≡ some true)
        × (open_log formats (append_all events log).file true ≡ some (append_all events log))
  append_all-reopens file log events e verified =
      let valid = append_all-IsValid events log (open_log-IsValid file log e verified) in
      (
        IsValid-verify_chain (append_all events log) valid,
        IsValid-open_log (append_all events log) valid,
      )
