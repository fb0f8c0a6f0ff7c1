-- ===== src/Modbus/Planner/Examples.antt =====
-- Plans at a concrete configuration.
use mathlib.Core.List.{Perm}
use xedge.Prelude.{ℕ, ◌≡◌, refl, String, Option, none, some, List, [], ◌∷◌, arith, All}
use xedge.Prelude.Results.{ok}
use xedge.Prelude.Assoc.{Dict, get}
use xedge.Prelude.Sort.{sorted_by}
use xedge.Modbus.Codec.{FunctionCode, read_coils, read_holding_registers, max_read_quantity}
use xedge.Modbus.Planner.{Tag, ReadBlock, plan_read_blocks}
use xedge.Modbus.Planner.Coverage.{tags_of}
use xedge.Modbus.Planner.Requests.{
  IsPlanned, IsAccepted, plan_read_blocks-perm, plan_read_blocks-IsPlanned,
  plan_read_blocks-IsAccepted,
}

abbrev names : Dict FunctionCode
names = ("read_coils", read_coils) ∷ ("read_holding_registers", read_holding_registers) ∷ []

abbrev register : String → ℕ → Option String → Tag
register id address data_type = record {
  id = id;
  address = address;
  function_code = "read_holding_registers";
  data_type = data_type;
}

abbrev flow : Tag
flow = register "flow" 12 (some "float32")

abbrev level : Tag
level = register "level" 10 none

abbrev total : Tag
total = register "total" 11 (some "uint32")

abbrev far : Tag
far = register "far" 20 none

abbrev tags : List Tag
tags = far ∷ flow ∷ level ∷ total ∷ []

abbrev plan : List ReadBlock
plan =
    record {
      function_code = read_holding_registers;
      address = 10;
      quantity = 4;
      tags =
          record { tag = level; offset = 0; span = 1 }
          ∷ record { tag = total; offset = 1; span = 2 }
          ∷ record { tag = flow; offset = 2; span = 2 }
          ∷ [];
    }
    ∷ record {
      function_code = read_holding_registers;
      address = 20;
      quantity = 1;
      tags = record { tag = far; offset = 0; span = 1 } ∷ [];
    }
    ∷ []

-- Overlapping and adjacent tags share a request; the far one has its own.
planned_tags : plan_read_blocks tags names none 0 ≡ ok plan
unfolding plan_read_blocks sorted_by get max_read_quantity
planned_tags = refl

plan_read_blocks-perm_example : Perm (tags_of plan) tags
plan_read_blocks-perm_example = plan_read_blocks-perm names none 0 tags plan planned_tags

plan_read_blocks-IsPlanned_example : All (IsPlanned names none 0) plan
plan_read_blocks-IsPlanned_example = plan_read_blocks-IsPlanned names none 0 tags plan planned_tags

plan_read_blocks-IsAccepted_example : All IsAccepted plan
plan_read_blocks-IsAccepted_example =
    plan_read_blocks-IsAccepted names none 0 tags plan planned_tags (omega arith)
