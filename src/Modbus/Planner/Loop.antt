-- ===== src/Modbus/Planner/Loop.antt =====
-- The loop over the sorted tags of one function code, in xedge/drivers/modbus/planner.py.
use xedge.Prelude.{
  ℕ, ◌+◌, ◌≤◌, max, ◌≡◌, refl, inl, inr, List, [], ◌∷◌, arith, All, All-append, All-imp,
}
use xedge.Prelude.Results.{ok}
use xedge.Prelude.Sort.{IsSorted}
use xedge.Modbus.Codec.{FunctionCode}
use xedge.Modbus.Planner.{ReadBlock, Entry, Run, plan_step, plan_loop, finish, plan_spans}
use xedge.Modbus.Planner.Blocks.{IsBlock, IsEntry, IsRun, build_block-IsBlock, plan_step-IsRun}

abbrev pub AddressLe : Entry → Entry → Type 0
AddressLe x y = x.address ≤ y.address

module _ (fc : FunctionCode) (limit gap : ℕ) where
  plan_loop-IsRun :
      (es : List Entry) (r : Run)
      → IsRun fc limit gap r
      → All (IsEntry fc) es
      → IsSorted AddressLe es
      → All (λ x. r.start ≤ x.address) es
      → IsRun fc limit gap (plan_loop fc limit gap r es)
  unfolding plan_loop
  plan_loop-IsRun [] r h he hs ho = h
  plan_loop-IsRun (e ∷ es) r h he hs ho =
      let (next, order) = plan_step-IsRun fc limit gap r e h he.0 ho.0 in
      plan_loop-IsRun es (plan_step fc limit gap r e) next he.1 hs.1
        (All-imp (λ x. e.address ≤ x.address) _ es (λ x l. omega (arith, order)) hs.0)

  -- The first round opens a block for the first entry, whatever the limits.
  abbrev pub opened : Entry → Run
  opened e = record {
    blocks = [];
    start = e.address;
    end = max e.address (e.address + e.span);
    current = e ∷ [];
  }

  opened-IsRun : (e : Entry) → IsEntry fc e → IsRun fc limit gap (opened e)
  opened-IsRun e he = record {
    done = tt;
    order = omega arith;
    inside = (record { entry = he; after = omega arith; before = omega arith }, tt);
    bounded = inr (refl, (omega arith, tt));
    tight = inl (omega arith);
    near = λ x lo hi. inl (lo, omega arith);
    nonempty = refl;
  }

  finish-IsBlock : (r : Run) → IsRun fc limit gap r → All (IsBlock fc limit gap) (finish fc r)
  unfolding finish
  finish-IsBlock r h =
      rw h.nonempty (All-append _ r.blocks _ h.done (build_block-IsBlock fc limit gap r h, tt))

  pub plan_spans-cons :
      (e : Entry) (es : List Entry)
      → plan_spans fc limit gap (e ∷ es) ≡ ok (finish fc (plan_loop fc limit gap (opened e) es))
  unfolding plan_spans
  plan_spans-cons e es = refl

  -- The blocks planned for sorted entries are well formed.
  pub plan_spans-IsBlock :
      (es : List Entry) (blocks : List ReadBlock)
      → All (IsEntry fc) es
      → IsSorted AddressLe es
      → plan_spans fc limit gap es ≡ ok blocks
      → All (IsBlock fc limit gap) blocks
  plan_spans-IsBlock [] blocks he hs h = absurd (unfold plan_spans in ground arith)
  plan_spans-IsBlock (e ∷ es) blocks he hs h =
      let eq : finish fc (plan_loop fc limit gap (opened e) es) ≡ blocks =
        cc (plan_spans-cons e es) in
      rw eq at (
        finish-IsBlock (plan_loop fc limit gap (opened e) es)
          (plan_loop-IsRun es (opened e) (opened-IsRun e he.0) he.1 hs.1 hs.0))
