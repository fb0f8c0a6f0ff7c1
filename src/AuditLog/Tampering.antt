-- ===== src/AuditLog/Tampering.antt =====
-- What the chain of xedge/observability/audit_log.py shows of a file that was changed, and what it does
-- not show.
use xedge.Prelude.{
  ℕ, ◌≡◌, ◌≢◌, refl, sym, ap, ◌∙◌, subst, arith, ◌⊎◌, inl, inr, String, Bool, true, false,
  Bool-cases, ◌&&◌, Option, none, some, List, [], ◌∷◌, ◌++◌, map, length, take, drop,
  take-length_append, drop-length_append, str_eq, eq_iff,
}
use xedge.AuditLog.{
  Body, Entry, Formats, genesis_hash, AuditLog, message, lines_of, checks, verify_lines,
  verify_chain,
}
use xedge.AuditLog.Chain.{
  Reads, no_lines, blank_line, entry_line, IsChain, end_of, verify_lines-Reads, Reads-verify_lines,
}

-- The texts of the entries of a chain, and the place where two chains hash different messages to the
-- same value.
module _ {D L B : Type 0} (formats : Formats D L B) where
  open formats use {sha256, utf8, canonical_json, loads, is_blank}

  abbrev pub texts : List (Entry D) → List String
  texts entries = map (λ e. canonical_json e.body) entries

  abbrev entry_message : Entry D → List B
  entry_message e = message formats e.body.prev_hash e.body

  abbrev pub Collides : List (Entry D) → List (Entry D) → Type 0
  Collides [] others = ⊥
  Collides (e ∷ entries) [] = ⊥
  Collides (e ∷ entries) (o ∷ others) =
      ((entry_message e ≢ entry_message o) × (sha256 (entry_message e) ≡ sha256 (entry_message o)))
      ⊎ Collides entries others

  -- Messages with hashes of the same length in front.
  message-injective :
      ((a b : String) → utf8 a ≡ utf8 b → a ≡ b)
      → (p q : String) (b c : Body D) → length (utf8 p) ≡ length (utf8 q)
      → message formats p b ≡ message formats q c
      → (p ≡ q) × (canonical_json b ≡ canonical_json c)
  message-injective inj p q b c same e = (
    inj p q (
        sym (take-length_append (utf8 p) (utf8 (canonical_json b)) (length (utf8 p)) refl)
        ∙ ap (take (length (utf8 p))) e
        ∙ take-length_append (utf8 q) (utf8 (canonical_json c)) (length (utf8 p)) same),
    inj (canonical_json b) (canonical_json c) (
        sym (drop-length_append (utf8 p) (utf8 (canonical_json b)) (length (utf8 p)) refl)
        ∙ ap (drop (length (utf8 p))) e
        ∙ drop-length_append (utf8 q) (utf8 (canonical_json c)) (length (utf8 p)) same),
  )

  and_both : (a b : Bool) → (a && b) ≡ true → (a ≡ true) × (b ≡ true)
  and_both true b h = (refl, h)
  and_both false b h = absurd (cc h)

  checks-both :
      (expected : String) (e : Entry D)
      → checks formats expected e ≡ true
      → (e.body.prev_hash ≡ expected) × (sha256 (entry_message e) ≡ e.hash)
  checks-both expected e h =
      let (prev, own) =
        and_both (str_eq e.body.prev_hash expected)
          (str_eq (sha256 (message formats expected e.body)) e.hash) h in
      let same : e.body.prev_hash ≡ expected = (eq_iff e.body.prev_hash expected).0 prev in
      (
        same,
        ap (λ p. sha256 (message formats p e.body)) same
            ∙ (eq_iff (sha256 (message formats expected e.body)) e.hash).0 own,
      )

  abbrev HasWidth : ℕ → String → Type 0
  HasWidth n h = length (utf8 h) ≡ n

  -- Two entries with the same hash have the same text and the same hash before them, or collide.
  same_entry :
      ((a b : String) → utf8 a ≡ utf8 b → a ≡ b)
      → (x o : Entry D) → length (utf8 x.body.prev_hash) ≡ length (utf8 o.body.prev_hash)
      → sha256 (entry_message x) ≡ sha256 (entry_message o)
      → ((x.body.prev_hash ≡ o.body.prev_hash) × (canonical_json x.body ≡ canonical_json o.body))
        ⊎ ((entry_message x ≢ entry_message o)
            × (sha256 (entry_message x) ≡ sha256 (entry_message o)))
  same_entry inj x o w e =
      let split = message-injective inj x.body.prev_hash o.body.prev_hash x.body o.body w in
      let prevs = eq_iff x.body.prev_hash o.body.prev_hash in
      let jsons = eq_iff (canonical_json x.body) (canonical_json o.body) in
      elim (Bool-cases (str_eq x.body.prev_hash o.body.prev_hash)) [
        | inr a ↦ inr (λ m. absurd (cc (a, prevs.1 (split m).0)), e)
        | inl a ↦ elim (Bool-cases (str_eq (canonical_json x.body) (canonical_json o.body))) [
          | inl b ↦ inl (prevs.0 a, jsons.0 b)
          | inr b ↦ inr (λ m. absurd (cc (b, jsons.1 (split m).1)), e)
        ]
      ]

  same_chain :
      (n : ℕ)
      → ((m : List B) → HasWidth n (sha256 m))
      → ((a b : String) → utf8 a ≡ utf8 b → a ≡ b)
      → (p q : String) (entries others : List (Entry D)) → HasWidth n p
      → HasWidth n q
      → IsChain formats p entries
      → IsChain formats q others
      → length entries ≡ length others
      → end_of formats p entries ≡ end_of formats q others
      → ((p ≡ q) × (texts entries ≡ texts others)) ⊎ Collides entries others
  same_chain n width inj p q [] [] wp wq c d l e = inl (e, refl)
  same_chain n width inj p q [] (o ∷ others) wp wq c d l e = absurd (omega (arith, l))
  same_chain n width inj p q (x ∷ entries) [] wp wq c d l e = absurd (omega (arith, l))
  same_chain n width inj p q (x ∷ entries) (o ∷ others) wp wq c d l e =
      let (prev, own) = checks-both p x c.0 in
      let (prev', own') = checks-both q o d.0 in
      let later =
        same_chain n width inj x.hash o.hash entries others
          (subst (HasWidth n) own (width (entry_message x)))
          (subst (HasWidth n) own' (width (entry_message o))) c.1 d.1 (omega (arith, l)) e in
      elim later [
        | inr collides ↦ inr (inr collides)
        | inl same ↦
            elim (same_entry inj x o
              (subst (HasWidth n) (sym prev) wp ∙ sym (subst (HasWidth n) (sym prev') wq))
              (own ∙ same.0 ∙ sym own')) [
                | inl s ↦ inl (
                  sym prev ∙ s.0 ∙ prev',
                  ap (λ t. t ∷ texts entries) s.1 ∙ ap (λ l. canonical_json o.body ∷ l) same.1,
                )
                | inr collides ↦ inr (inl collides)
              ]
      ]

  loaded : (o : Option (Entry D)) (x y : Entry D) → o ≡ some x → o ≡ some y → x ≡ y
  loaded o x y e e' = ap (λ p. elim p as (λ _. Entry D) [ none ↦ x | some z ↦ z ]) (sym e ∙ e')

  unique_reading :
      (lines : List L) (entries others : List (Entry D))
      → Reads formats lines entries
      → Reads formats lines others
      → entries ≡ others
  unique_reading _ _ _ no_lines no_lines = refl
  unique_reading _ _ _ (blank_line line lines entries e r) (blank_line _ _ others e' r') =
      unique_reading lines entries others r r'
  unique_reading _ _ _ (blank_line line lines entries e r) (entry_line _ _ o others e' l' r') =
      absurd (cc (e, e'))
  unique_reading _ _ _ (entry_line line lines x entries e l r) (blank_line _ _ others e' r') =
      absurd (cc (e, e'))
  unique_reading _ _ _ (entry_line line lines x entries e l r) (entry_line _ _ o others e' l' r') =
      ap (λ y. y ∷ entries) (loaded (loads line) x o l l')
      ∙ ap (λ t. o ∷ t) (unique_reading lines entries others r r')

  verified-IsChain :
      (lines : List L) (entries : List (Entry D))
      → Reads formats lines entries
      → verify_lines formats genesis_hash lines ≡ some true
      → IsChain formats genesis_hash entries
  verified-IsChain lines entries r v =
      let (own, reads, chain) = verify_lines-Reads formats genesis_hash lines v in
      subst (IsChain formats genesis_hash) (unique_reading lines own entries reads r) chain

  -- When the hashes and the genesis hash are equally long, UTF-8 is injective, and two files verify,
  -- have equally many entries and end with the same hash, then their entries have the same texts, one
  -- by one, or at one place the files hash two different messages to the same value.
  pub verified-same_texts :
      (n : ℕ)
      → ((m : List B) → length (utf8 (sha256 m)) ≡ n)
      → length (utf8 genesis_hash) ≡ n
      → ((a b : String) → utf8 a ≡ utf8 b → a ≡ b)
      → (lines changed : List L) (entries others : List (Entry D)) → Reads formats lines entries
      → Reads formats changed others
      → verify_lines formats genesis_hash lines ≡ some true
      → verify_lines formats genesis_hash changed ≡ some true
      → length entries ≡ length others
      → end_of formats genesis_hash entries ≡ end_of formats genesis_hash others
      → (texts entries ≡ texts others) ⊎ Collides entries others
  verified-same_texts n width genesis inj lines changed entries others r r' v v' l e =
      elim (same_chain n width inj genesis_hash genesis_hash entries others genesis genesis
        (verified-IsChain lines entries r v) (verified-IsChain changed others r' v') l e) [
          | inl same ↦ inl same.1
          | inr collides ↦ inr collides
        ]

  verify_lines-first :
      (expected : String) (lines more : List L) (entries : List (Entry D))
      → Reads formats (lines ++ more) entries
      → IsChain formats expected entries
      → (first : List (Entry D)) × Reads formats lines first × IsChain formats expected first
  verify_lines-first expected [] more entries r c = ([], no_lines, tt)
  verify_lines-first expected (line ∷ lines) more _ (blank_line _ _ entries e r) c =
      let (first, reads, chain) = verify_lines-first expected lines more entries r c in
      (first, blank_line line lines first e reads, chain)
  verify_lines-first expected (line ∷ lines) more _ (entry_line _ _ x entries e l r) c =
      let (first, reads, chain) = verify_lines-first x.hash lines more entries r c.1 in
      (x ∷ first, entry_line line lines x first e l reads, (c.0, chain))

  -- A file that verifies still does when any number of lines are cut off its end: the chain alone does
  -- not show that the newest entries were removed.
  pub verify_chain-cut :
      (log : AuditLog L) (lines more : List L)
      → log.file ≡ some (lines ++ more)
      → verify_chain formats log ≡ some true
      → verify_chain formats (record log { file = some lines }) ≡ some true
  unfolding verify_chain
  verify_chain-cut log lines more e v =
      let (entries, reads, chain) =
        verify_lines-Reads formats genesis_hash (lines ++ more)
          (ap (λ f. verify_lines formats genesis_hash (lines_of f)) (sym e) ∙ v) in
      let (first, reads', chain') =
        verify_lines-first genesis_hash lines more entries reads chain in
      Reads-verify_lines formats genesis_hash lines first reads' chain'
