-- ===== src/AuditLog/Examples.antt =====
-- The audit log at concrete inputs: a line is an entry or blank, a byte is a character, and the hash
-- tells messages apart by whether their length is odd.
use Prim.Native.Char.{Char}
use xedge.Prelude.{
  ℕ, ◌%◌, min, ◌≡◌, ◌⊎◌, refl, ap, ◌∙◌, arith, String, Bool, true, false, Option, none, some, List,
  [], ◌∷◌, ◌++◌, length, ◌==◌, if◌then◌else◌,
}
use xedge.Prelude.Int.{pos}
use xedge.AuditLog.{
  Entry, Formats, AuditLog, genesis_hash, is_match, keep_last, next_entry, matches_in, open_log,
  verify_chain, tail, resume, verify_lines,
}
use xedge.AuditLog.Chain.{Reads, no_lines, blank_line, entry_line}
use xedge.AuditLog.Restart.{Event, append_all, append_all-reopens}
use xedge.AuditLog.Tampering.{texts, Collides, verified-same_texts, verify_chain-cut}
use xedge.AuditLog.Tail.{selected, tail-newest}

abbrev chars : String → List Char
chars String.[] = []
chars (String.◌∷◌ c s) = c ∷ chars s

head_or : Char → List Char → Char
head_or d [] = d
head_or d (c ∷ cs) = c

rest_of : List Char → List Char
rest_of [] = []
rest_of (c ∷ cs) = cs

chars-injective : (a b : String) → chars a ≡ chars b → a ≡ b
unfolding head_or rest_of
chars-injective String.[] String.[] e = refl
chars-injective String.[] (String.◌∷◌ d t) e = absurd (omega (arith, ap length e))
chars-injective (String.◌∷◌ c s) String.[] e = absurd (omega (arith, ap length e))
chars-injective (String.◌∷◌ c s) (String.◌∷◌ d t) e =
    ap (λ x. String.◌∷◌ x s) (ap (head_or c) e)
    ∙ ap (λ r. String.◌∷◌ d r) (chars-injective s t (ap rest_of e))

abbrev odd_hash : String
odd_hash = "1111111111111111111111111111111111111111111111111111111111111111"

abbrev digest : Bool → String
digest b = if b then genesis_hash else odd_hash

digest-width : (b : Bool) → length (chars (digest b)) ≡ 64
digest-width true = refl
digest-width false = refl

abbrev plain : Formats ℕ (Option (Entry ℕ)) Char
plain = record {
  sha256 = λ m. digest (length m % 2 == 0);
  utf8 = chars;
  canonical_json = λ body. body.event;
  dumps = λ e. some e;
  loads = λ l. l;
  is_blank = λ l. elim l [ none ↦ true | some e ↦ false ];
  fuse = λ a b. elim a [ none ↦ b | some e ↦ none ];
  loads-dumps = λ e. refl;
  is_blank-dumps = λ e. refl;
}

abbrev new_log : AuditLog (Option (Entry ℕ))
new_log = record { file = none; ends_line = true; next_seq = 1; last_hash = genesis_hash }

abbrev events : List (Event ℕ)
events =
    record { now = "t1"; actor = "ada"; name = "config.write"; details = 1 }
    ∷ record { now = "t2"; actor = "bob"; name = "alarm.acked"; details = 2 }
    ∷ []

abbrev written : AuditLog (Option (Entry ℕ))
written = append_all plain events new_log

append_all-reopens_example :
    (verify_chain plain written ≡ some true) × (open_log plain written.file true ≡ some written)
unfolding open_log resume verify_chain verify_lines
append_all-reopens_example = append_all-reopens plain none new_log events refl refl

abbrev first_entry : Entry ℕ
first_entry = next_entry plain "t1" "ada" "config.write" 1 new_log

abbrev second_entry : Entry ℕ
second_entry =
    next_entry plain "t2" "bob" "alarm.acked" 2
      (record { file = none; ends_line = true; next_seq = 2; last_hash = first_entry.hash })

abbrev stored : List (Option (Entry ℕ))
stored = some first_entry ∷ none ∷ some second_entry ∷ []

abbrev stored_log : AuditLog (Option (Entry ℕ))
stored_log = record {
  file = some stored;
  ends_line = true;
  next_seq = 3;
  last_hash = second_entry.hash;
}

stored-Reads : Reads plain stored (first_entry ∷ second_entry ∷ [])
stored-Reads =
    entry_line (some first_entry) (none ∷ some second_entry ∷ []) first_entry (second_entry ∷ [])
      refl refl
      (blank_line none (some second_entry ∷ []) (second_entry ∷ []) refl
        (entry_line (some second_entry) [] second_entry [] refl refl no_lines))

verified-same_texts_example :
    (texts plain (first_entry ∷ second_entry ∷ []) ≡ texts plain (first_entry ∷ second_entry ∷ []))
    ⊎ Collides plain (first_entry ∷ second_entry ∷ []) (first_entry ∷ second_entry ∷ [])
unfolding verify_lines
verified-same_texts_example =
    verified-same_texts plain 64 (λ m. digest-width (length m % 2 == 0)) refl chars-injective stored
      stored (first_entry ∷ second_entry ∷ []) (first_entry ∷ second_entry ∷ []) stored-Reads
      stored-Reads refl refl refl refl

verify_chain-cut_example :
    verify_chain plain (record stored_log { file = some (some first_entry ∷ none ∷ []) })
    ≡ some true
unfolding verify_chain verify_lines
verify_chain-cut_example =
    verify_chain-cut plain stored_log (some first_entry ∷ none ∷ []) (some second_entry ∷ []) refl
      refl

tail-newest_example :
    (tail plain (pos 1) none (some "alarm") 0 stored_log
      ≡ some (
          keep_last
            (pos 1)
            (selected (is_match none (some "alarm") 0) (first_entry ∷ second_entry ∷ []))))
    × ((older : List (Entry ℕ)) × (older
            ++ keep_last
                (pos 1)
                (selected (is_match none (some "alarm") 0) (first_entry ∷ second_entry ∷ []))
          ≡ selected (is_match none (some "alarm") 0) (first_entry ∷ second_entry ∷ [])))
    × (length (
          keep_last
            (pos 1)
            (selected (is_match none (some "alarm") 0) (first_entry ∷ second_entry ∷ [])))
        ≡ min 1
            (length (selected (is_match none (some "alarm") 0) (first_entry ∷ second_entry ∷ []))))
tail-newest_example =
    tail-newest plain 0 none (some "alarm") 0 stored_log (first_entry ∷ second_entry ∷ [])
      stored-Reads

-- A limit of zero returns every entry that matches.
no_limit : tail plain (pos 0) none none 0 stored_log ≡ some (first_entry ∷ second_entry ∷ [])
unfolding tail matches_in
no_limit = refl
