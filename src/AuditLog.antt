-- ===== src/AuditLog.antt =====
-- xedge/observability/audit_log.py: the hash-chained audit log. Its file is the list of its lines, if
-- it is there, and whether the last one is ended by a newline. SHA-256, UTF-8 and JSON are parameters, with what is documented of them.
use xedge.Prelude.{
  ℕ, zero, suc, ◌+◌, ◌-◌, ◌≡◌, String, Bool, true, false, not, ◌&&◌, Option, none, some, List, [],
  ◌∷◌, ◌++◌, length, drop, ltb, leb, str_eq, if◌then◌else◌,
}
use xedge.Prelude.Int.{ℤ, pos, negsuc}
use text.Mathlib.Text.{starts_with}
pub mod Chain
pub mod Restart
pub mod Tampering
pub mod Tail
mod Examples

-- An entry without its hash; `D` are the details, a JSON object.
pub record Body (D : Type 0) : Type 0 where
  pub seq : ℕ
  pub timestamp : String
  pub actor : String
  pub event : String
  pub details : D
  pub prev_hash : String

pub record Entry (D : Type 0) : Type 0 where
  pub body : Body D
  pub hash : String

-- Lines are of the type `L`, bytes of the type `B`. `loads` gives nothing where `json.loads` or the access to a key raises.
-- `fuse` is the text of one line and of another directly behind it, with no newline between them.
pub record Formats (D L B : Type 0) : Type 0 where
  pub sha256 : List B → String
  pub utf8 : String → List B
  pub canonical_json : Body D → String
  pub dumps : Entry D → L
  pub loads : L → Option (Entry D)
  pub is_blank : L → Bool
  pub fuse : L → L → L
  pub loads-dumps : (e : Entry D) → loads (dumps e) ≡ some e
  pub is_blank-dumps : (e : Entry D) → is_blank (dumps e) ≡ false

abbrev pub genesis_hash : String
genesis_hash = "0000000000000000000000000000000000000000000000000000000000000000"

-- `ends_line`: nothing follows the last newline of the file.
pub record AuditLog (L : Type 0) : Type 0 where
  pub file : Option (List L)
  pub ends_line : Bool
  pub next_seq : ℕ
  pub last_hash : String

abbrev pub lines_of : {L : Type 0} → Option (List L) → List L
lines_of none = []
lines_of (some lines) = lines

abbrev pub is_actor : Option String → String → Bool
is_actor none actor = true
is_actor (some wanted) actor = str_eq actor wanted

abbrev pub is_event : Option String → String → Bool
is_event none event = true
is_event (some wanted) event = starts_with event wanted

module _ {D : Type 0} where
  abbrev pub is_match : Option String → Option String → ℕ → Entry D → Bool
  is_match actor event since_seq e =
      ltb since_seq e.body.seq && (is_actor actor e.body.actor && is_event event e.body.event)

  -- matches[-limit:], where len(matches) > limit
  abbrev pub keep_last : ℤ → List (Entry D) → List (Entry D)
  keep_last (pos zero) found = found
  keep_last (pos (suc n)) found = drop (length found - suc n) found
  keep_last (negsuc n) found = drop (suc n) found

module _ {D L B : Type 0} (formats : Formats D L B) where
  open formats use {sha256, utf8, canonical_json, dumps, loads, is_blank, fuse}

  -- What is hashed for an entry: UTF-8 of a concatenation is the concatenation of the parts' UTF-8.
  abbrev pub message : String → Body D → List B
  message last_hash body = utf8 last_hash ++ utf8 (canonical_json body)

  unfoldable pub last_line : List L → Option L → Option L
  last_line [] found = found
  last_line (line ∷ lines) found = last_line lines (if is_blank line then found else some line)

  abbrev pub resume_at : Option L → Option (ℕ × String)
  resume_at none = some (1, genesis_hash)
  resume_at (some line) = elim (loads line) [
    | none ↦ none
    | some entry ↦ some (entry.body.seq + 1, entry.hash)
  ]

  -- Nothing stands for an exception.
  unfoldable pub resume : Option (List L) → Option (ℕ × String)
  unfolding last_line
  resume none = some (1, genesis_hash)
  resume (some lines) = resume_at (last_line lines none)

  unfoldable pub open_log : Option (List L) → Bool → Option (AuditLog L)
  unfolding resume
  open_log file ends_line = elim (resume file) [
    | none ↦ none
    | some start ↦
        some
          (record { file = file; ends_line = ends_line; next_seq = start.0; last_hash = start.1 })
  ]

  abbrev pub next_entry : String → String → String → D → AuditLog L → Entry D
  next_entry now actor event details log =
      let body : Body D = record {
        seq = log.next_seq;
        timestamp = now;
        actor = actor;
        event = event;
        details = details;
        prev_hash = log.last_hash;
      } in
      record { body = body; hash = sha256 (message log.last_hash body) }

  -- The lines of a file after a line and a newline are written at its end: text that no newline ends is
  -- the start of the line.
  abbrev pub fuse_last : List L → L → List L
  fuse_last [] line = line ∷ []
  fuse_last (last ∷ []) line = fuse last line ∷ []
  fuse_last (first ∷ (second ∷ lines)) line = first ∷ fuse_last (second ∷ lines) line

  abbrev pub write_line : Bool → List L → L → List L
  write_line true lines line = lines ++ line ∷ []
  write_line false lines line = fuse_last lines line

  unfoldable pub append : String → String → String → D → AuditLog L → AuditLog L
  append now actor event details log =
      let entry = next_entry now actor event details log in
      record {
        file = some (write_line log.ends_line (lines_of log.file) (dumps entry));
        ends_line = true;
        next_seq = log.next_seq + 1;
        last_hash = entry.hash;
      }

  abbrev pub checks : String → Entry D → Bool
  checks expected entry =
      str_eq entry.body.prev_hash expected
      && str_eq (sha256 (message expected entry.body)) entry.hash

  -- One line of `verify_chain`, and the lines after it.
  unfoldable pub verify_lines : String → List L → Option Bool
  verify_lines expected [] = some true
  verify_lines expected (line ∷ lines) = elim (is_blank line) [
    | true ↦ verify_lines expected lines
    | false ↦ elim (loads line) [
      | none ↦ none
      | some entry ↦ elim (checks expected entry) [
        | false ↦ some false
        | true ↦ verify_lines entry.hash lines
      ]
    ]
  ]

  unfoldable pub verify_chain : AuditLog L → Option Bool
  unfolding verify_lines
  verify_chain log = verify_lines genesis_hash (lines_of log.file)

  unfoldable pub matches_in : (Entry D → Bool) → List L → Option (List (Entry D))
  matches_in test [] = some []
  matches_in test (line ∷ lines) =
      let rest = matches_in test lines in
      elim (is_blank line) [
        | true ↦ rest
        | false ↦ elim (loads line) [
          | none ↦ none
          | some entry ↦ elim rest [
            | none ↦ none
            | some later ↦ some (if test entry then entry ∷ later else later)
          ]
        ]
      ]

  unfoldable pub tail : ℤ → Option String → Option String → ℕ → AuditLog L → Option (List (Entry D))
  unfolding matches_in
  tail limit actor event since_seq log =
      elim (matches_in (is_match actor event since_seq) (lines_of log.file)) [
        | none ↦ none
        | some found ↦ some (keep_last limit found)
      ]
