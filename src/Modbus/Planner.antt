-- ===== src/Modbus/Planner.antt =====
-- xedge/drivers/modbus/planner.py: from the tags of a group to the read requests that cover them.
pub mod Blocks
pub mod Loop
pub mod Coverage
pub mod Plan
pub mod Requests
mod Examples
use xedge.Prelude.{
  ℕ, ◌+◌, ◌-◌, max, min, String, Bool, true, false, not, ◌&&◌, ◌||◌, Option, none, some, List, [],
  ◌∷◌, ◌++◌, map, leb, ltb, ◌==◌, if◌then◌else◌, get_or,
}
use xedge.Prelude.Results.{Result, ok, err, ◌>>=◌}
use xedge.Prelude.Assoc.{Dict, get}
use xedge.Prelude.Sort.{sorted_by}
use xedge.Modbus.Codec.{FunctionCode, code_of, is_bit_function, max_read_quantity}
use xedge.Modbus.Datatypes.{default_data_type, register_count, DataTypeError}

-- The keys of a tag's configuration that the stack reads; an optional key is an `Option`.
pub record Tag : Type 0 where
  pub id : String
  pub address : ℕ
  pub function_code : String
  pub data_type : Option String

pub record PlannedTag : Type 0 where
  pub tag : Tag
  pub offset : ℕ
  pub span : ℕ

pub record ReadBlock : Type 0 where
  pub function_code : FunctionCode
  pub address : ℕ
  pub quantity : ℕ
  pub tags : List PlannedTag

abbrev pub is_batched : ReadBlock → Bool
is_batched block = at_least_two block.tags
  where
    at_least_two : List PlannedTag → Bool
    at_least_two [] = false
    at_least_two (t ∷ []) = false
    at_least_two (t ∷ u ∷ ts) = true

pub data PlanError : Type 0 where
  key_error index_error : PlanError
  data_type_error : DataTypeError → PlanError

abbrev pub in_plan {ℓ} : {A : Type ℓ} → Result DataTypeError A → Result PlanError A
in_plan (ok a) = ok a
in_plan (err e) = err (data_type_error e)

unfoldable pub tag_span : Tag → FunctionCode → Result PlanError ℕ
unfolding is_bit_function register_count
tag_span tag fc =
    if is_bit_function fc
    then ok 1
    else in_plan (register_count (elim tag.data_type [ none ↦ default_data_type | some t ↦ t ]))

-- A tag with its address and its span.
pub record Entry : Type 0 where
  pub address : ℕ
  pub span : ℕ
  pub tag : Tag

unfoldable pub entries_of : FunctionCode → List Tag → Result PlanError (List Entry)
unfolding tag_span
entries_of fc [] = ok []
entries_of fc (t ∷ ts) = do
  span ← tag_span t fc
  rest ← entries_of fc ts
  ok (record { address = t.address; span = span; tag = t } ∷ rest)

-- The sort key `(entry[0], entry[1])`.
abbrev pub entry_le : Entry → Entry → Bool
entry_le x y = ltb x.address y.address || (x.address == y.address && leb x.span y.span)

-- The entries are sorted, so none starts before the block.
unfoldable pub build_block : FunctionCode → ℕ → ℕ → List Entry → ReadBlock
build_block fc start end entries = record {
  function_code = fc;
  address = start;
  quantity = end - start;
  tags = map (λ e. record { tag = e.tag; offset = e.address - start; span = e.span }) entries;
}

-- The locals of the loop.
pub record Run : Type 0 where
  pub blocks : List ReadBlock
  pub start : ℕ
  pub end : ℕ
  pub current : List Entry

abbrev pub is_empty {ℓ} : {A : Type ℓ} → List A → Bool
is_empty [] = true
is_empty (x ∷ xs) = false

-- One round. `gap <= max_block_gap` is written with `end` on the right, since `gap` may be negative.
unfoldable pub plan_step : FunctionCode → ℕ → ℕ → Run → Entry → Run
unfolding build_block
plan_step fc limit max_block_gap run e =
    let candidate_end = max run.end (e.address + e.span) in
    let fits =
      leb (candidate_end - run.start) limit
      && (is_empty run.current || leb e.address (run.end + max_block_gap)) in
    if not (is_empty run.current) && not fits
    then record {
      blocks = run.blocks ++ build_block fc run.start run.end run.current ∷ [];
      start = e.address;
      end = e.address + e.span;
      current = e ∷ [];
    }
    else record run {
      start = if is_empty run.current then e.address else run.start;
      end = candidate_end;
      current = run.current ++ e ∷ [];
    }

unfoldable pub plan_loop : FunctionCode → ℕ → ℕ → Run → List Entry → Run
plan_loop fc limit max_block_gap run [] = run
plan_loop fc limit max_block_gap run (e ∷ es) =
    plan_loop fc limit max_block_gap (plan_step fc limit max_block_gap run e) es

-- The block that is open when the loop ends.
unfoldable pub finish : FunctionCode → Run → List ReadBlock
unfolding build_block
finish fc run =
    if is_empty run.current
    then run.blocks
    else run.blocks ++ build_block fc run.start run.end run.current ∷ []

unfoldable pub plan_spans : FunctionCode → ℕ → ℕ → List Entry → Result PlanError (List ReadBlock)
unfolding plan_loop plan_step finish
plan_spans fc limit max_block_gap [] = err index_error
plan_spans fc limit max_block_gap (e ∷ es) = ok (
    finish fc (
      plan_loop fc limit max_block_gap
        (record { blocks = []; start = e.address; end = e.address; current = [] }) (e ∷ es)))

unfoldable pub plan_one_function_code :
    List Tag → FunctionCode → ℕ → ℕ → Result PlanError (List ReadBlock)
unfolding entries_of plan_spans
plan_one_function_code tags fc limit max_block_gap = do
  entries ← entries_of fc tags
  plan_spans fc limit max_block_gap (sorted_by entry_le entries)

-- by_function.setdefault(function_code, []).append(tag)
unfoldable pub add_to_function :
    FunctionCode → Tag → List (FunctionCode × List Tag) → List (FunctionCode × List Tag)
add_to_function fc t [] = (fc, t ∷ []) ∷ []
add_to_function fc t ((g, ts) ∷ rest) =
    if code_of g == code_of fc
    then (g, ts ++ t ∷ []) ∷ rest
    else (g, ts) ∷ add_to_function fc t rest

unfoldable pub partition :
    Dict FunctionCode
    → List (FunctionCode × List Tag)
    → List Tag
    → Result PlanError (List (FunctionCode × List Tag))
unfolding add_to_function
partition names groups [] = ok groups
partition names groups (t ∷ ts) = elim (get names t.function_code) [
  | none ↦ err key_error
  | some fc ↦ partition names (add_to_function fc t groups) ts
]

abbrev pub block_limit : FunctionCode → Option ℕ → ℕ
block_limit fc none = max_read_quantity fc
block_limit fc (some size) = min (max_read_quantity fc) (max 1 size)

unfoldable pub plan_functions :
    Option ℕ → ℕ → List (FunctionCode × List Tag) → Result PlanError (List ReadBlock)
unfolding plan_one_function_code
plan_functions max_block_size max_block_gap [] = ok []
plan_functions max_block_size max_block_gap ((fc, ts) ∷ rest) = do
  blocks ← plan_one_function_code ts fc (block_limit fc max_block_size) max_block_gap
  others ← plan_functions max_block_size max_block_gap rest
  ok (blocks ++ others)

abbrev pub function_le : FunctionCode × List Tag → FunctionCode × List Tag → Bool
function_le a b = leb (code_of a.0) (code_of b.0)

unfoldable pub plan_read_blocks :
    List Tag → Dict FunctionCode → Option ℕ → ℕ → Result PlanError (List ReadBlock)
unfolding partition plan_functions
plan_read_blocks tags names max_block_size max_block_gap = do
  groups ← partition names [] tags
  plan_functions max_block_size max_block_gap (sorted_by function_le groups)
