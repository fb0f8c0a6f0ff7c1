-- ===== src/Pipeline/Examples.antt =====
-- The pipeline at concrete inputs, with numbers for values and for floating-point numbers.
use xedge.Prelude.{
  ℕ, ◌+◌, ◌-◌, ◌*◌, ◌/◌, max, min, ◌≡◌, refl, String, Bool, true, false, Option, none, some, List,
  [], ◌∷◌, map, leb, ◌==◌,
}
use xedge.Prelude.Assoc.{get, put}
use xedge.Pipeline.{
  good, Values, absolute, DeadbandConfig, UnifiedTag, Published, new_filter, DriverEntry, normalize,
  should_publish, differs, is_significant, leaves_band, build_tag_pipeline_configs,
}
use xedge.Pipeline.Deadbands.{filter_all, last_of, IsHeldFor, should_publish-holds}
use xedge.Pipeline.Configs.{newest, drivers_of, build_tag_pipeline_configs-newest}

abbrev numbers : Values ℕ ℕ
numbers = record {
  equal = λ a b. a == b;
  number = λ a. some a;
  type_name = λ a. "INT64";
  scaled = λ raw scale offset. raw * scale + offset;
  distance = λ a b. max a b - min a b;
  magnitude = λ a. a;
  is_zero = λ a. a == 0;
  at_least = λ a b. leb b a;
  percent = λ a b. a * 100 / b;
}

abbrev sample : ℕ → UnifiedTag ℕ Bool
sample value = record {
  tag_id = "plc/level";
  timestamp = 7;
  value = value;
  data_type = "INT64";
  quality = good;
  source_driver = "plc";
  source_address = "40001";
  engineering_unit = none;
  is_alarm = false;
  metadata = [];
}

abbrev five : String → Option (DeadbandConfig ℕ)
five tag_id = some (record { kind = absolute; value = 5 })

abbrev drifting : List (UnifiedTag ℕ Bool)
drifting = sample 100 ∷ sample 103 ∷ sample 106 ∷ sample 109 ∷ []

-- Steps of three: the sum of two of them leaves the deadband of five.
drift_is_published :
    map (λ t. t.value) (filter_all numbers five drifting new_filter).0 ≡ 100 ∷ 106 ∷ []
unfolding filter_all should_publish differs is_significant leaves_band get put
drift_is_published = refl

should_publish-holds_example :
    (p : Published ℕ) × (last_of "plc/level" none (filter_all numbers five drifting new_filter).0
      ≡ some p)
    × IsHeldFor numbers (sample 110) (five "plc/level") p
unfolding filter_all should_publish differs is_significant leaves_band get put
should_publish-holds_example = should_publish-holds numbers five drifting (sample 110) refl

-- Without a time of its source the update keeps its own, and says so.
estimates :
    (normalize numbers true
      (record {
        tag_id = "plc/level";
        value = 10;
        quality = good;
        timestamp = 3;
        source_timestamp = none;
        source_driver = "plc";
        source_address = "40001";
        metadata = [];
      })
      (some (record {
        scaling = some (record { scale = 2; offset = 1 });
        deadband = none;
        engineering_unit = none;
      })))
    ≡ record {
      tag_id = "plc/level";
      timestamp = 3;
      value = 21;
      data_type = "INT64";
      quality = good;
      source_driver = "plc";
      source_address = "40001";
      engineering_unit = none;
      is_alarm = false;
      metadata = ("timestamp_estimated", true) ∷ [];
    }
unfolding normalize put
estimates = refl

abbrev section : List (DriverEntry ℕ)
section =
    record {
      id = "plc";
      tag_groups =
          record {
            deadband = five "";
            tags =
                record { id = "level"; scaling = some (some 2, none); engineering_unit = some "cm" }
                ∷ [];
          }
          ∷ [];
    }
    ∷ []

build_tag_pipeline_configs-newest_example :
    get (build_tag_pipeline_configs 1 0 section) "plc/level"
    ≡ newest "plc/level" none (drivers_of 1 0 section)
build_tag_pipeline_configs-newest_example =
    build_tag_pipeline_configs-newest 1 0 section "plc/level"
