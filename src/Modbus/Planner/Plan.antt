-- ===== src/Modbus/Planner/Plan.antt =====
-- `plan_read_blocks` of xedge/drivers/modbus/planner.py: partition by function code, sort, coalesce.
use mathlib.Core.List.{Perm, perm_middle}
use mathlib.Core.List.Perm
use xedge.Prelude.{
  ℕ, ◌≤◌, ◌≡◌, refl, ap, inl, inr, true, false, some, List, [], ◌∷◌, ◌++◌, arith, ◌==◌, ==_iff,
  Bool-cases, Option-cases, append_assoc, All, All-append,
}
use xedge.Prelude.Results.{ok, ok_of_bind, ok_inj}
use xedge.Prelude.Assoc.{Dict, get}
use xedge.Prelude.Sort.{sorted_by, sorted_by-perm, sorted_by-All, sorted_by-IsSorted}
use xedge.Modbus.Codec.{
  FunctionCode, code_of, read_coils, read_discrete_inputs, read_holding_registers,
  read_input_registers, write_single_coil, write_single_register, write_multiple_coils,
  write_multiple_registers,
}
use xedge.Modbus.Planner.{
  Tag, ReadBlock, Entry, tag_span, entries_of, entry_le, plan_one_function_code, add_to_function,
  partition,
}
use xedge.Modbus.Planner.Blocks.{IsBlock, IsEntry}
use xedge.Modbus.Planner.Loop.{AddressLe, plan_spans-IsBlock}
use xedge.Modbus.Planner.Coverage.{tags_of, tags_in, tags-plan_spans}

pub code_of_inj : (f g : FunctionCode) → code_of f ≡ code_of g → f ≡ g
code_of_inj read_coils g h = ground arith
code_of_inj read_discrete_inputs g h = ground arith
code_of_inj read_holding_registers g h = ground arith
code_of_inj read_input_registers g h = ground arith
code_of_inj write_single_coil g h = ground arith
code_of_inj write_single_register g h = ground arith
code_of_inj write_multiple_coils g h = ground arith
code_of_inj write_multiple_registers g h = ground arith

entries_of-IsEntry :
    (fc : FunctionCode) (ts : List Tag) (es : List Entry)
    → entries_of fc ts ≡ ok es
    → All (IsEntry fc) es × (tags_in es ≡ ts)
unfolding entries_of
entries_of-IsEntry fc [] es h = rw (← (ok_inj h)) (tt, refl)
entries_of-IsEntry fc (t ∷ ts) es h =
    let (span, p, rest) = ok_of_bind (tag_span t fc) _ h in
    let (tail, q, r) = ok_of_bind (entries_of fc ts) _ rest in
    let (ih, same) = entries_of-IsEntry fc ts tail q in
    rw (← (ok_inj r)) ((record { address_eq = refl; spans = p }, ih), ap (λ x. t ∷ x) same)

entry_le_address : (x y : Entry) → entry_le x y ≡ true → x.address ≤ y.address
entry_le_address x y h = ground arith

not_entry_le_address : (x y : Entry) → entry_le x y ≡ false → y.address ≤ x.address
not_entry_le_address x y h = ground arith

-- Blocks of one function code: well formed, and with the tags of the group.
pub plan_one-IsBlock :
    (ts : List Tag) (fc : FunctionCode) (limit gap : ℕ) (blocks : List ReadBlock)
    → plan_one_function_code ts fc limit gap ≡ ok blocks
    → All (IsBlock fc limit gap) blocks × Perm (tags_of blocks) ts
unfolding plan_one_function_code
plan_one-IsBlock ts fc limit gap blocks h =
    let (es, p, rest) = ok_of_bind (entries_of fc ts) _ h in
    let (entries, same) = entries_of-IsEntry fc ts es p in
    (
      plan_spans-IsBlock fc limit gap (sorted_by entry_le es) blocks
          (sorted_by-All entry_le (IsEntry fc) es entries)
          (sorted_by-IsSorted entry_le AddressLe entry_le_address not_entry_le_address
            (λ x y z a b. omega arith) es)
          rest,
      rw (tags-plan_spans fc limit gap (sorted_by entry_le es) blocks rest)
          (rw same at (Perm.map (λ e. e.tag) (sorted_by-perm entry_le es))),
    )

abbrev pub Groups : Type 0
Groups = List (FunctionCode × List Tag)

abbrev pub tags_in_groups : Groups → List Tag
tags_in_groups [] = []
tags_in_groups (g ∷ gs) = g.1 ++ tags_in_groups gs

-- Every tag of a group has the group's function code by its name.
abbrev pub IsNamed : Dict FunctionCode → FunctionCode → Tag → Type 0
IsNamed names fc t = get names t.function_code ≡ some fc

abbrev pub IsGroup : Dict FunctionCode → FunctionCode × List Tag → Type 0
IsGroup names g = All (IsNamed names g.0) g.1

add_to_function-IsGroup :
    (names : Dict FunctionCode) (fc : FunctionCode) (t : Tag) (gs : Groups)
    → IsNamed names fc t
    → All (IsGroup names) gs
    → All (IsGroup names) (add_to_function fc t gs)
unfolding add_to_function
add_to_function-IsGroup names fc t [] h hs = ((h, tt), tt)
add_to_function-IsGroup names fc t ((g, ts) ∷ gs) h hs =
    elim (Bool-cases (code_of g == code_of fc)) [
      | inl same ↦ rw same (
        All-append _ ts (t ∷ []) hs.0
            (rw (code_of_inj g fc ((==_iff (code_of g) (code_of fc)).0 same)) h, tt),
        hs.1,
      )
      | inr other ↦ rw other (hs.0, add_to_function-IsGroup names fc t gs h hs.1)
    ]

add_to_function-perm :
    (fc : FunctionCode) (t : Tag) (gs : Groups)
    → Perm (tags_in_groups (add_to_function fc t gs)) (t ∷ tags_in_groups gs)
unfolding add_to_function
add_to_function-perm fc t [] = Perm.refl (t ∷ [])
add_to_function-perm fc t ((g, ts) ∷ gs) = elim (Bool-cases (code_of g == code_of fc)) [
  | inl same ↦
      rw same
        (rw (append_assoc ts (t ∷ []) (tags_in_groups gs)) (perm_middle ts (tags_in_groups gs)))
  | inr other ↦ rw other (
      Perm.trans (Perm.append_left ts (add_to_function-perm fc t gs))
        (perm_middle ts (tags_in_groups gs)))
]

pub partition-IsGroup :
    (names : Dict FunctionCode) (ts : List Tag) (gs out : Groups)
    → partition names gs ts ≡ ok out
    → All (IsGroup names) gs
    → All (IsGroup names) out × Perm (tags_in_groups out) (ts ++ tags_in_groups gs)
unfolding partition
partition-IsGroup names [] gs out h hs = rw (← (ok_inj h)) (hs, Perm.refl (tags_in_groups gs))
partition-IsGroup names (t ∷ ts) gs out h hs = elim (Option-cases (get names t.function_code)) [
  | inl missing ↦ cc
  | inr (fc, found) ↦
      let h' : partition names (add_to_function fc t gs) ts ≡ ok out = rw (found, partition) at h in
      let (groups, same) =
        partition-IsGroup names ts (add_to_function fc t gs) out h'
          (add_to_function-IsGroup names fc t gs found hs) in
      (
        groups,
        Perm.trans same (
            Perm.trans (Perm.append_left ts (add_to_function-perm fc t gs))
              (perm_middle ts (tags_in_groups gs))),
      )
]
