-- ===== src/Modbus/Planner/Requests.antt =====
-- What `plan_read_blocks` of xedge/drivers/modbus/planner.py promises: every tag is read once, by
-- the function that it names, in requests that the codec accepts.
use mathlib.Core.Logic.{∥∥₁_elim}
use mathlib.Core.List.{Perm, Permᴰ, Perm-prop, perm_append_comm}
use mathlib.Core.List.Perm
use xedge.Prelude.{
  ℕ, ◌+◌, ◌/◌, ◌%◌, ◌≤◌, ◌≡◌, sym, ◌∙◌, subst, inl, inr, Option, none, some, List, [], ◌∷◌, map,
  arith, append-nil, append_assoc, All, All-append, All-imp, All-unmap, All-zip, Any-elim,
}
use xedge.Prelude.Int.{pos}
use xedge.Prelude.Results.{ok, ok_of_bind, ok_inj}
use xedge.Prelude.Assoc.{Dict, get}
use xedge.Prelude.Sort.{sorted_by, sorted_by-perm, sorted_by-All}
use xedge.Prelude.Perms.{All-perm, All-split}
use xedge.Modbus.Codec.{FunctionCode, code_of, max_read_quantity, encode_read_request}
use xedge.Modbus.Codec.Registers.{encode_read_request_lem}
use xedge.Modbus.Planner.{
  Tag, PlannedTag, ReadBlock, tag_span, plan_one_function_code, partition, block_limit,
  plan_functions, function_le, plan_read_blocks,
}
use xedge.Modbus.Planner.Blocks.{IsBlock, IsPlaced}
use xedge.Modbus.Planner.Coverage.{tags_of, tags_of-append}
use xedge.Modbus.Planner.Plan.{
  Groups, IsGroup, IsNamed, tags_in_groups, partition-IsGroup, plan_one-IsBlock,
}

-- A block of function code `fc` is well formed within the limits of the configuration, and each of
-- its tags names `fc`.
abbrev IsPlannedAt : Dict FunctionCode → Option ℕ → ℕ → ReadBlock → FunctionCode → Type 0
IsPlannedAt names size gap b fc =
    IsBlock fc (block_limit fc size) gap b × All (λ p. IsNamed names fc p.tag) b.tags

abbrev pub IsPlanned : Dict FunctionCode → Option ℕ → ℕ → ReadBlock → Type 0
IsPlanned names size gap b =
    IsBlock b.function_code (block_limit b.function_code size) gap b
    × All (λ p. IsNamed names b.function_code p.tag) b.tags

option_code_set : IsSet (Option FunctionCode)
option_code_set = hlevel

module _ (names : Dict FunctionCode) (size : Option ℕ) (gap : ℕ) where
  blocks-IsPlanned :
      (fc : FunctionCode) (bs : List ReadBlock)
      → All (IsBlock fc (block_limit fc size) gap) bs
      → All (IsNamed names fc) (tags_of bs)
      → All (IsPlanned names size gap) bs
  blocks-IsPlanned fc [] h k = tt
  blocks-IsPlanned fc (b ∷ bs) h k =
      let (here, rest) = All-split (IsNamed names fc) (map (λ p. p.tag) b.tags) (tags_of bs) k in
      (
        subst (IsPlannedAt names size gap b) (sym h.0.code)
            (h.0, All-unmap (IsNamed names fc) (λ (p : PlannedTag). p.tag) b.tags here),
        blocks-IsPlanned fc bs h.1 rest,
      )

  plan_functions-IsPlanned :
      (gs : Groups) (blocks : List ReadBlock)
      → plan_functions size gap gs ≡ ok blocks
      → All (IsGroup names) gs
      → All (IsPlanned names size gap) blocks × Perm (tags_of blocks) (tags_in_groups gs)
  unfolding plan_functions
  plan_functions-IsPlanned [] blocks h hs = rw (← (ok_inj h)) (tt, Perm.refl [])
  plan_functions-IsPlanned ((fc, ts) ∷ gs) blocks h hs =
      let (first, p, rest) =
        ok_of_bind (plan_one_function_code ts fc (block_limit fc size) gap) _ h in
      let (others, q, r) = ok_of_bind (plan_functions size gap gs) _ rest in
      let (good, same) = plan_one-IsBlock ts fc (block_limit fc size) gap first p in
      let (good', same') = plan_functions-IsPlanned gs others q hs.1 in
      let named =
        All-perm (IsNamed names fc) (λ t. option_code_set (get names t.function_code) (some fc))
          same hs.0 in
      rw (← (ok_inj r)) (
        All-append (IsPlanned names size gap) first others (blocks-IsPlanned fc first good named)
            good',
        rw (tags_of-append first others) (Perm.append same same'),
      )

Permᴰ-tags : {gs hs : Groups} → Permᴰ gs hs → Perm (tags_in_groups gs) (tags_in_groups hs)
Permᴰ-tags Permᴰ.nil = Perm.refl []
Permᴰ-tags (Permᴰ.cons {b = b} e p) = rw e (Perm.append_left b.1 (Permᴰ-tags p))
Permᴰ-tags (Permᴰ.swap {a' = a} {b' = b} {l = l} e f) =
    rw (e, f)
      (rw (← (append_assoc b.1 a.1 (tags_in_groups l)), ← (append_assoc a.1 b.1 (tags_in_groups l)))
        (Perm.append_right (tags_in_groups l) (perm_append_comm b.1 a.1)))
Permᴰ-tags (Permᴰ.trans p q) = Perm.trans (Permᴰ-tags p) (Permᴰ-tags q)

tags_in_groups-perm : {gs hs : Groups} → Perm gs hs → Perm (tags_in_groups gs) (tags_in_groups hs)
tags_in_groups-perm p = ∥∥₁_elim p Perm-prop Permᴰ-tags

module _ (names : Dict FunctionCode) (size : Option ℕ) (gap : ℕ) where
  planned :
      (tags : List Tag) (blocks : List ReadBlock)
      → plan_read_blocks tags names size gap ≡ ok blocks
      → All (IsPlanned names size gap) blocks × Perm (tags_of blocks) tags
  unfolding plan_read_blocks
  planned tags blocks h =
      let (gs, p, rest) = ok_of_bind (partition names [] tags) _ h in
      let (groups, same) = partition-IsGroup names tags [] gs p tt in
      let (good, same') =
        plan_functions-IsPlanned names size gap (sorted_by function_le gs) blocks rest
          (sorted_by-All function_le (IsGroup names) gs groups) in
      (
        good,
        Perm.trans same' (
            Perm.trans (tags_in_groups-perm (sorted_by-perm function_le gs))
              (rw append-nil at same)),
      )

  -- Whatever tags, limits and gap are configured, the blocks of a plan hold each configured tag
  -- exactly once.
  pub plan_read_blocks-perm :
      (tags : List Tag) (blocks : List ReadBlock)
      → plan_read_blocks tags names size gap ≡ ok blocks
      → Perm (tags_of blocks) tags
  plan_read_blocks-perm tags blocks h = (planned tags blocks h).1

  -- Every block of a plan is well formed: each of its tags names the block's function code, is read
  -- at its own address and lies inside the block with its whole span; the block's quantity is within
  -- the limit of the configuration and the protocol or the block is one tag alone; some tag ends
  -- where the block ends; and no register of the block is more than the configured gap behind a tag
  -- of it, so that with gap 0 the block reads registers of its tags only.
  pub plan_read_blocks-IsPlanned :
      (tags : List Tag) (blocks : List ReadBlock)
      → plan_read_blocks tags names size gap ≡ ok blocks
      → All (IsPlanned names size gap) blocks
  plan_read_blocks-IsPlanned tags blocks h = (planned tags blocks h).0

tag_span_bounds : (t : Tag) (fc : FunctionCode) (s : ℕ) → tag_span t fc ≡ ok s → (1 ≤ s) × (s ≤ 4)
unfolding tag_span
tag_span_bounds t fc s h = ground arith

max_read_quantity-ge : (fc : FunctionCode) → 125 ≤ max_read_quantity fc
unfolding max_read_quantity
max_read_quantity-ge fc = ground arith

block_limit-le : (fc : FunctionCode) (size : Option ℕ) → block_limit fc size ≤ max_read_quantity fc
block_limit-le fc none = omega arith
block_limit-le fc (some n) = omega arith

-- The last register of the tag is inside the 16-bit address space.
abbrev pub FitsAddressSpace : PlannedTag → Type 0
FitsAddressSpace p = p.tag.address + p.span ≤ 65536

-- How far a block reaches: as far as one of its tags.
block_reach :
    (fc : FunctionCode) (limit gap : ℕ) (b : ReadBlock)
    → IsBlock fc limit gap b
    → All FitsAddressSpace b.tags
    → (1 ≤ b.quantity) × (b.address + b.quantity ≤ 65536)
block_reach fc limit gap b h fits =
    Any-elim (λ p. IsPlaced fc b p × FitsAddressSpace p) (λ p. p.offset + p.span ≡ b.quantity) _
      b.tags
      (λ p r t.
        omega (arith, r.0.located, r.0.inside, r.1, tag_span_bounds p.tag fc p.span r.0.spans))
      (All-zip (IsPlaced fc b) FitsAddressSpace b.tags h.placed fits) h.tight

block_quantity :
    (fc : FunctionCode) (size : Option ℕ) (gap : ℕ) (b : ReadBlock)
    → IsBlock fc (block_limit fc size) gap b
    → b.quantity ≤ max_read_quantity fc
block_quantity fc size gap b h = elim h.bounded [
  | inl small ↦ omega (arith, block_limit-le fc size)
  | inr (one, whole) ↦
      Any-elim (λ p. IsPlaced fc b p × (p.span ≡ b.quantity)) (λ p. p.offset + p.span ≡ b.quantity)
        _ b.tags
        (λ p r t.
          omega (arith, r.1, tag_span_bounds p.tag fc p.span r.0.spans, max_read_quantity-ge fc))
        (All-zip (IsPlaced fc b) (λ p. p.span ≡ b.quantity) b.tags h.placed whole) h.tight
]

abbrev pub IsAccepted : ReadBlock → Type 0
IsAccepted b =
    (pdu : List ℕ) × (encode_read_request b.function_code (pos b.address) (pos b.quantity) ≡ ok pdu)

abbrev request_pdu : ReadBlock → List ℕ
request_pdu b =
    code_of b.function_code
    ∷ (b.address / 256)
    ∷ (b.address % 256)
    ∷ (b.quantity / 256)
    ∷ (b.quantity % 256)
    ∷ []

block-IsAccepted :
    (size : Option ℕ) (gap : ℕ) (b : ReadBlock)
    → IsBlock b.function_code (block_limit b.function_code size) gap b
    → All FitsAddressSpace b.tags
    → IsAccepted b
block-IsAccepted size gap b h fits =
    let (lo, hi) = block_reach b.function_code _ gap b h fits in
    let q = block_quantity b.function_code size gap b h in
    (request_pdu b, encode_read_request_lem b.function_code b.address b.quantity ∙ ground arith)

-- If every tag of a plan ends inside the 16-bit address space, `encode_read_request` accepts every
-- block of the plan, whatever block size and gap are configured.
pub plan_read_blocks-IsAccepted :
    (names : Dict FunctionCode) (size : Option ℕ) (gap : ℕ) (tags : List Tag)
    (blocks : List ReadBlock)
    → plan_read_blocks tags names size gap ≡ ok blocks
    → All (λ b. All FitsAddressSpace b.tags) blocks
    → All IsAccepted blocks
plan_read_blocks-IsAccepted names size gap tags blocks h fits =
    All-imp _ IsAccepted blocks (λ b r. block-IsAccepted size gap b r.0.0 r.1)
      (All-zip (IsPlanned names size gap) (λ b. All FitsAddressSpace b.tags) blocks
        (plan_read_blocks-IsPlanned names size gap tags blocks h) fits)
