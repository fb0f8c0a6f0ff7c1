-- ===== src/Modbus/Planner/Coverage.antt =====
-- The blocks of xedge/drivers/modbus/planner.py hold every tag exactly once.
use xedge.Prelude.{
  ℕ, ◌≡◌, refl, sym, ap, ◌∙◌, inl, inr, false, List, [], ◌∷◌, ◌++◌, map, arith, Bool-cases,
  append_assoc, append-nil, map-append,
}
use xedge.Prelude.Results.{ok}
use xedge.Modbus.Codec.{FunctionCode}
use xedge.Modbus.Planner.{
  Tag, ReadBlock, Entry, Run, build_block, is_empty, plan_step, plan_loop, finish, plan_spans,
}
use xedge.Modbus.Planner.Blocks.{plan_step_cases, not_empty-append, fits}
use xedge.Modbus.Planner.Loop.{plan_spans-cons, opened}

-- The tags of blocks, in the order of the blocks.
abbrev pub tags_of : List ReadBlock → List Tag
tags_of [] = []
tags_of (b ∷ bs) = map (λ p. p.tag) b.tags ++ tags_of bs

pub tags_of-append : (bs cs : List ReadBlock) → tags_of (bs ++ cs) ≡ tags_of bs ++ tags_of cs
tags_of-append [] cs = refl
tags_of-append (b ∷ bs) cs =
    rw (tags_of-append bs cs) (sym (append_assoc _ (tags_of bs) (tags_of cs)))

abbrev pub tags_in : List Entry → List Tag
tags_in es = map (λ e. e.tag) es

module _ (fc : FunctionCode) (limit gap : ℕ) where
  tags-build_block :
      (start end : ℕ) (es : List Entry)
      → map (λ p. p.tag) (build_block fc start end es).tags ≡ tags_in es
  unfolding build_block
  tags-build_block start end [] = refl
  tags-build_block start end (e ∷ es) = ap (λ t. e.tag ∷ t) (tags-build_block start end es)

  -- The tags that the loop has taken so far.
  abbrev taken : Run → List Tag
  taken r = tags_of r.blocks ++ tags_in r.current

  taken-finish : (r : Run) → is_empty r.current ≡ false → tags_of (finish fc r) ≡ taken r
  unfolding finish
  taken-finish r h = rw h (
      rw (tags_of-append r.blocks (build_block fc r.start r.end r.current ∷ []))
        (rw (tags-build_block r.start r.end r.current) (rw append-nil)))

  taken-plan_step :
      (r : Run) (e : Entry)
      → is_empty r.current ≡ false
      → (taken (plan_step fc limit gap r e) ≡ taken r ++ e.tag ∷ [])
        × (is_empty (plan_step fc limit gap r e).current ≡ false)
  taken-plan_step r e h =
      rw (plan_step_cases fc limit gap r e h) (elim (Bool-cases (fits fc limit gap r e)) [
        | inl t ↦ rw t (
          rw map-append (sym (append_assoc (tags_of r.blocks) (tags_in r.current) (e.tag ∷ []))),
          not_empty-append fc limit gap r.current e,
        )
        | inr f ↦ rw f (
          rw (tags_of-append r.blocks (build_block fc r.start r.end r.current ∷ []))
              (rw (tags-build_block r.start r.end r.current) (rw append-nil)),
          refl,
        )
      ])

  taken-plan_loop :
      (es : List Entry) (r : Run)
      → is_empty r.current ≡ false
      → tags_of (finish fc (plan_loop fc limit gap r es)) ≡ taken r ++ tags_in es
  unfolding plan_loop
  taken-plan_loop [] r h = taken-finish r h ∙ sym (append-nil (taken r))
  taken-plan_loop (e ∷ es) r h =
      let (step, open') = taken-plan_step r e h in
      taken-plan_loop es (plan_step fc limit gap r e) open'
      ∙ rw step (append_assoc (taken r) (e.tag ∷ []) (tags_in es))

  -- The blocks hold the tags of the entries, in their order, each once.
  pub tags-plan_spans :
      (es : List Entry) (blocks : List ReadBlock)
      → plan_spans fc limit gap es ≡ ok blocks
      → tags_of blocks ≡ tags_in es
  tags-plan_spans [] blocks h = absurd (unfold plan_spans in ground arith)
  tags-plan_spans (e ∷ es) blocks h =
      let eq : finish fc (plan_loop fc limit gap (opened fc limit gap e) es) ≡ blocks =
        cc (plan_spans-cons fc limit gap e es) in
      rw eq at (taken-plan_loop es (opened fc limit gap e) refl)
