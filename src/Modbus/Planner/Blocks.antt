-- ===== src/Modbus/Planner/Blocks.antt =====
-- The coalescing loop of xedge/drivers/modbus/planner.py: every block is well formed.
use xedge.Prelude.{
  ℕ, ◌+◌, ◌-◌, ◌≤◌, ◌<◌, max, ◌≡◌, refl, ◌⊎◌, inl, inr, Bool, true, false, ◌&&◌, List, [], ◌∷◌,
  ◌++◌, map, arith, leb, if◌then◌else◌, length, length-map, All, Any, All-append, All-imp,
  Any-append_left, Any-append_last, Any-imp_All, Any-map, ltb, All-map, Bool-cases,
}
use xedge.Prelude.Results.{ok}
use xedge.Modbus.Codec.{FunctionCode}
use xedge.Modbus.Planner.{
  PlannedTag, ReadBlock, Entry, Run, tag_span, build_block, is_empty, plan_step,
}

-- A tag of a block is read at its own address and lies inside the block.
pub record IsPlaced (fc : FunctionCode) (b : ReadBlock) (p : PlannedTag) : Type 0 where
  pub spans : tag_span p.tag fc ≡ ok p.span
  pub located : b.address + p.offset ≡ p.tag.address
  pub inside : p.offset + p.span ≤ b.quantity

-- `x` is a register of the tag, or one of the `gap` registers behind it.
abbrev pub IsNear : ℕ → ℕ → PlannedTag → Type 0
IsNear gap x p = (p.tag.address ≤ x) × (x < p.tag.address + p.span + gap)

-- `bounded`: within the limit, or a tag alone; `tight`: some tag ends where the block ends; `near`: no
-- register of the block is further than `gap` behind a tag.
pub record IsBlock (fc : FunctionCode) (limit gap : ℕ) (b : ReadBlock) : Type 0 where
  pub code : b.function_code ≡ fc
  pub placed : All (IsPlaced fc b) b.tags
  pub bounded : (b.quantity ≤ limit) ⊎ ((length b.tags ≡ 1) × All (λ p. p.span ≡ b.quantity) b.tags)
  pub tight : Any (λ p. p.offset + p.span ≡ b.quantity) b.tags
  pub near : (x : ℕ) → b.address ≤ x → x < b.address + b.quantity → Any (IsNear gap x) b.tags

pub record IsEntry (fc : FunctionCode) (e : Entry) : Type 0 where
  pub address_eq : e.address ≡ e.tag.address
  pub spans : tag_span e.tag fc ≡ ok e.span

pub record IsInside (fc : FunctionCode) (start end : ℕ) (e : Entry) : Type 0 where
  pub entry : IsEntry fc e
  pub after : start ≤ e.address
  pub before : e.address + e.span ≤ end

abbrev pub IsNearEntry : ℕ → ℕ → Entry → Type 0
IsNearEntry gap x e = (e.address ≤ x) × (x < e.address + e.span + gap)

-- The state of the loop behind its first round.
pub record IsRun (fc : FunctionCode) (limit gap : ℕ) (r : Run) : Type 0 where
  pub done : All (IsBlock fc limit gap) r.blocks
  pub order : r.start ≤ r.end
  pub inside : All (IsInside fc r.start r.end) r.current
  pub bounded :
      (r.end - r.start ≤ limit)
      ⊎ ((length r.current ≡ 1) × All (λ e. e.span ≡ r.end - r.start) r.current)
  pub tight : Any (λ e. e.address + e.span ≡ r.end) r.current
  pub near : (x : ℕ) → r.start ≤ x → x < r.end → Any (IsNearEntry gap x) r.current
  pub nonempty : is_empty r.current ≡ false

module _ (fc : FunctionCode) (limit gap : ℕ) where
  planned-IsPlaced :
      (start end : ℕ) (entries : List Entry)
      → (e : Entry) → IsInside fc start end e
      → IsPlaced fc
          (build_block fc start end entries)
          (record { tag = e.tag; offset = e.address - start; span = e.span })
  unfolding build_block
  planned-IsPlaced start end entries e h = record {
    spans = h.entry.spans;
    located = omega (arith, h.entry.address_eq);
    inside = omega (arith, h.before, h.after);
  }

  abbrev planned : ℕ → Entry → PlannedTag
  planned start e = record { tag = e.tag; offset = e.address - start; span = e.span }

  build_block-bounded :
      (r : Run)
      → IsRun fc limit gap r
      → (r.end - r.start ≤ limit)
        ⊎ ((length (map (planned r.start) r.current) ≡ 1)
            × All (λ p. p.span ≡ r.end - r.start) (map (planned r.start) r.current))
  build_block-bounded r h = elim h.bounded [
    | inl small ↦ inl small
    | inr (one, whole) ↦ inr (
      omega (arith, length-map r.current (planned r.start)),
      All-map (λ p. p.span ≡ r.end - r.start) (planned r.start) r.current whole,
    )
  ]

  pub build_block-IsBlock :
      (r : Run)
      → IsRun fc limit gap r
      → IsBlock fc limit gap (build_block fc r.start r.end r.current)
  unfolding build_block
  build_block-IsBlock r h = record {
    code = refl;
    placed =
        All-map _ (planned r.start) r.current
          (All-imp _ _ r.current (planned-IsPlaced r.start r.end r.current) h.inside);
    bounded = build_block-bounded r h;
    tight = Any-map _ (planned r.start) r.current (
        Any-imp_All (IsInside fc r.start r.end) (λ e. e.address + e.span ≡ r.end) _ r.current
          (λ e i t. omega (arith, i.after)) h.inside h.tight);
    near = λ x lo hi. Any-map (IsNear gap x) (planned r.start) r.current (
        Any-imp_All (IsInside fc r.start r.end) (IsNearEntry gap x) _ r.current
          (λ e i t. omega (arith, i.entry.address_eq)) h.inside
          (h.near x lo (omega (arith, h.order))));
  }

  abbrev pub widened : Run → Entry → Run
  widened r e = record r { end = max r.end (e.address + e.span); current = r.current ++ e ∷ [] }

  abbrev pub restarted : Run → Entry → Run
  restarted r e = record {
    blocks = r.blocks ++ build_block fc r.start r.end r.current ∷ [];
    start = e.address;
    end = e.address + e.span;
    current = e ∷ [];
  }

  -- The test that extends the open block.
  abbrev pub fits : Run → Entry → Bool
  fits r e = leb (max r.end (e.address + e.span) - r.start) limit && leb e.address (r.end + gap)

  pub plan_step_cases :
      (r : Run) (e : Entry)
      → is_empty r.current ≡ false
      → plan_step fc limit gap r e ≡ (if fits r e then widened r e else restarted r e)
  unfolding plan_step
  plan_step_cases r e h = ground arith

  pub not_empty-append : (xs : List Entry) (e : Entry) → is_empty (xs ++ e ∷ []) ≡ false
  not_empty-append [] e = refl
  not_empty-append (x ∷ xs) e = refl

  widened-tight :
      (r : Run) (e : Entry)
      → IsRun fc limit gap r
      → r.start ≤ e.address
      → Any (λ x. x.address + x.span ≡ max r.end (e.address + e.span)) (r.current ++ e ∷ [])
  widened-tight r e h order = elim (Bool-cases (leb r.end (e.address + e.span))) [
    | inl new ↦ Any-append_last _ r.current e (ground arith)
    | inr old ↦ Any-append_left _ r.current (e ∷ []) (
        Any-imp_All (IsInside fc r.start r.end) (λ x. x.address + x.span ≡ r.end) _ r.current
          (λ x i t. ground arith) h.inside h.tight)
  ]

  -- A register behind the old end is the new tag's, or lies in the gap before it.
  widened-near :
      (r : Run) (e : Entry)
      → IsRun fc limit gap r
      → r.start ≤ e.address
      → fits r e ≡ true
      → (x : ℕ) → r.start ≤ x
      → x < max r.end (e.address + e.span)
      → Any (IsNearEntry gap x) (r.current ++ e ∷ [])
  widened-near r e h order t x lo hi = elim (Bool-cases (ltb x r.end)) [
    | inl old ↦ Any-append_left _ r.current (e ∷ []) (h.near x lo (ground arith))
    | inr new ↦ elim (Bool-cases (leb e.address x)) [
      | inl own ↦ Any-append_last _ r.current e (ground arith)
      | inr between ↦ Any-append_left _ r.current (e ∷ []) (
          Any-imp_All (IsInside fc r.start r.end) (λ y. y.address + y.span ≡ r.end) _ r.current
            (λ y i u. ground arith) h.inside h.tight)
    ]
  ]

  widened-IsRun :
      (r : Run) (e : Entry)
      → IsRun fc limit gap r
      → IsEntry fc e
      → r.start ≤ e.address
      → fits r e ≡ true
      → IsRun fc limit gap (widened r e)
  widened-IsRun r e h he order ok' = record {
    done = h.done;
    order = omega (arith, h.order);
    inside =
        All-append _ r.current (e ∷ [])
          (All-imp _ _ r.current
            (λ x i. record { entry = i.entry; after = i.after; before = omega (arith, i.before) })
            h.inside)
          (record { entry = he; after = order; before = omega arith }, tt);
    bounded = inl (ground arith);
    tight = widened-tight r e h order;
    near = widened-near r e h order ok';
    nonempty = not_empty-append r.current e;
  }

  restarted-IsRun :
      (r : Run) (e : Entry)
      → IsRun fc limit gap r
      → IsEntry fc e
      → IsRun fc limit gap (restarted r e)
  restarted-IsRun r e h he = record {
    done = All-append _ r.blocks _ h.done (build_block-IsBlock r h, tt);
    order = omega arith;
    inside = (record { entry = he; after = omega arith; before = omega arith }, tt);
    bounded = inr (refl, (omega arith, tt));
    tight = inl (omega arith);
    near = λ x lo hi. inl (lo, omega arith);
    nonempty = refl;
  }

  pub plan_step-IsRun :
      (r : Run) (e : Entry)
      → IsRun fc limit gap r
      → IsEntry fc e
      → r.start ≤ e.address
      → IsRun fc limit gap (plan_step fc limit gap r e)
        × ((plan_step fc limit gap r e).start ≤ e.address)
  plan_step-IsRun r e h he order =
      rw (plan_step_cases r e h.nonempty) (elim (Bool-cases (fits r e)) [
        | inl t ↦ rw t (widened-IsRun r e h he order t, order)
        | inr f ↦ rw f (restarted-IsRun r e h he, omega arith)
      ])
