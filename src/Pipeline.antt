-- ===== src/Pipeline.antt =====
-- xedge/core/pipeline.py: from an update of a driver to a tag, and the deadband filter. The values of
-- tags and the arithmetic on them are a parameter; metadata is a dict of any values.
use xedge.Prelude.{
  ℕ, String, Bool, true, false, not, ◌&&◌, ◌||◌, Option, none, some, List, [], ◌∷◌, ◌++◌,
  if◌then◌else◌,
}
use Prim.Native.String.{◌++◌ as concat}
use xedge.Prelude.Assoc.{Dict, get, put}
pub mod Deadbands
pub mod Configs
mod Examples

pub data Quality : Type 0 where
  good bad uncertain : Quality

abbrev pub same_quality : Quality → Quality → Bool
same_quality good good = true
same_quality bad bad = true
same_quality uncertain uncertain = true
same_quality good bad = false
same_quality good uncertain = false
same_quality bad good = false
same_quality bad uncertain = false
same_quality uncertain good = false
same_quality uncertain bad = false

abbrev pub same_flag : Bool → Bool → Bool
same_flag true b = b
same_flag false b = not b

-- What the code does with values: `==`, float(value) for an int or a float that is no bool, the name of
-- the type, and the arithmetic on floats.
pub record Values (V F : Type 0) : Type 0 where
  pub equal : V → V → Bool
  pub number : V → Option F
  pub type_name : V → String
  pub scaled : F → F → F → V
  pub distance : F → F → F
  pub magnitude : F → F
  pub is_zero : F → Bool
  pub at_least : F → F → Bool
  -- (diff / span) * 100.0
  pub percent : F → F → F

pub data DeadbandKind : Type 0 where
  absolute percentage : DeadbandKind

pub record ScalingConfig (F : Type 0) : Type 0 where
  pub scale : F
  pub offset : F

pub record DeadbandConfig (F : Type 0) : Type 0 where
  pub kind : DeadbandKind
  pub value : F

pub record TagPipelineConfig (F : Type 0) : Type 0 where
  pub scaling : Option (ScalingConfig F)
  pub deadband : Option (DeadbandConfig F)
  pub engineering_unit : Option String

-- An update of a driver; `M` are the values of its metadata.
pub record TagUpdate (V M : Type 0) : Type 0 where
  pub tag_id : String
  pub value : V
  pub quality : Quality
  pub timestamp : ℕ
  pub source_timestamp : Option ℕ
  pub source_driver : String
  pub source_address : String
  pub metadata : Dict M

pub record UnifiedTag (V M : Type 0) : Type 0 where
  pub tag_id : String
  pub timestamp : ℕ
  pub value : V
  pub data_type : String
  pub quality : Quality
  pub source_driver : String
  pub source_address : String
  pub engineering_unit : Option String
  pub is_alarm : Bool
  pub metadata : Dict M

module _ {V F : Type 0} (values : Values V F) where
  abbrev pub scale_value : Option (ScalingConfig F) → V → V
  scale_value none value = value
  scale_value (some scaling) value = elim (values.number value) [
    | none ↦ value
    | some raw ↦ values.scaled raw scaling.scale scaling.offset
  ]

  abbrev pub scaling_of : Option (TagPipelineConfig F) → Option (ScalingConfig F)
  scaling_of none = none
  scaling_of (some config) = config.scaling

  abbrev pub unit_of : Option (TagPipelineConfig F) → Option String
  unit_of none = none
  unit_of (some config) = config.engineering_unit

module _ {V F M : Type 0} (values : Values V F) (estimated : M) where
  -- `estimated` is the metadata value True.
  unfoldable pub normalize : TagUpdate V M → Option (TagPipelineConfig F) → UnifiedTag V M
  normalize update config =
      let value = scale_value values (scaling_of values config) update.value in
      record {
        tag_id = update.tag_id;
        timestamp = elim update.source_timestamp [ none ↦ update.timestamp | some at ↦ at ];
        value = value;
        data_type = values.type_name value;
        quality = update.quality;
        source_driver = update.source_driver;
        source_address = update.source_address;
        engineering_unit = unit_of values config;
        is_alarm = false;
        metadata = elim update.source_timestamp [
          | none ↦ put update.metadata "timestamp_estimated" estimated
          | some at ↦ update.metadata
        ];
      }

pub record Published (V : Type 0) : Type 0 where
  pub value : V
  pub quality : Quality
  pub is_alarm : Bool

pub record DeadbandFilter (V : Type 0) : Type 0 where
  pub last_published : Dict (Published V)

abbrev pub new_filter : {V : Type 0} → DeadbandFilter V
new_filter = record { last_published = [] }

module _ {V M : Type 0} where
  abbrev pub published_of : UnifiedTag V M → Published V
  published_of tag = record { value = tag.value; quality = tag.quality; is_alarm = tag.is_alarm }

  -- The answer, and the filter with the tag recorded if it is published.
  abbrev pub recorded : UnifiedTag V M → DeadbandFilter V → Bool → Bool × DeadbandFilter V
  recorded tag f true =
      (true, record { last_published = put f.last_published tag.tag_id (published_of tag) })
  recorded tag f false = (false, f)

module _ {V F : Type 0} (values : Values V F) where
  -- Two numeric values and a deadband.
  unfoldable pub leaves_band : DeadbandConfig F → F → F → Bool
  leaves_band deadband value prior =
      let diff = values.distance value prior in
      elim deadband.kind [
        | absolute ↦ values.at_least diff deadband.value
        | percentage ↦
            let span = values.magnitude prior in
            if values.is_zero span
            then not (values.is_zero diff)
            else values.at_least (values.percent diff span) deadband.value
      ]

  abbrev pub both_numbers : DeadbandConfig F → V → V → Option F → Option F → Bool
  both_numbers deadband value prior (some v) (some p) = leaves_band deadband v p
  both_numbers deadband value prior (some v) none = not (values.equal value prior)
  both_numbers deadband value prior none p = not (values.equal value prior)

  -- Whether a value differs enough from the last published one.
  unfoldable pub is_significant : Option (DeadbandConfig F) → V → V → Bool
  unfolding leaves_band
  is_significant none value prior = not (values.equal value prior)
  is_significant (some deadband) value prior =
      both_numbers deadband value prior (values.number value) (values.number prior)

module _ {V F M : Type 0} (values : Values V F) where
  unfoldable pub differs : UnifiedTag V M → Option (Published V) → Option (DeadbandConfig F) → Bool
  unfolding is_significant
  differs tag none deadband = true
  differs tag (some prior) deadband =
      if not (same_quality prior.quality tag.quality) || not (same_flag prior.is_alarm tag.is_alarm)
      then true
      else is_significant values deadband tag.value prior.value

  unfoldable pub should_publish :
      UnifiedTag V M → Option (DeadbandConfig F) → DeadbandFilter V → Bool × DeadbandFilter V
  unfolding differs
  should_publish tag deadband f =
      recorded tag f (differs tag (get f.last_published tag.tag_id) deadband)

-- The `drivers` section, with the defaults of its optional entries.
pub record TagEntry (F : Type 0) : Type 0 where
  pub id : String
  pub scaling : Option (Option F × Option F)
  pub engineering_unit : Option String

pub record GroupEntry (F : Type 0) : Type 0 where
  pub deadband : Option (DeadbandConfig F)
  pub tags : List (TagEntry F)

pub record DriverEntry (F : Type 0) : Type 0 where
  pub id : String
  pub tag_groups : List (GroupEntry F)

module _ {F : Type 0} (default_scale default_offset : F) where
  abbrev or_else : F → Option F → F
  or_else default none = default
  or_else default (some x) = x

  abbrev pub config_of : GroupEntry F → TagEntry F → TagPipelineConfig F
  config_of group tag = record {
    scaling = elim tag.scaling [
      | none ↦ none
      | some (scale, offset) ↦
          some
            (record { scale = or_else default_scale scale; offset = or_else default_offset offset })
    ];
    deadband = group.deadband;
    engineering_unit = tag.engineering_unit;
  }

  unfoldable pub add_tags :
      String
      → GroupEntry F
      → List (TagEntry F)
      → Dict (TagPipelineConfig F)
      → Dict (TagPipelineConfig F)
  add_tags instance_id group [] configs = configs
  add_tags instance_id group (tag ∷ tags) configs =
      add_tags instance_id group tags
        (put configs (concat instance_id (concat "/" tag.id)) (config_of group tag))

  unfoldable pub add_groups :
      String → List (GroupEntry F) → Dict (TagPipelineConfig F) → Dict (TagPipelineConfig F)
  unfolding add_tags
  add_groups instance_id [] configs = configs
  add_groups instance_id (group ∷ groups) configs =
      add_groups instance_id groups (add_tags instance_id group group.tags configs)

  unfoldable pub add_drivers :
      List (DriverEntry F) → Dict (TagPipelineConfig F) → Dict (TagPipelineConfig F)
  unfolding add_groups
  add_drivers [] configs = configs
  add_drivers (driver ∷ drivers) configs =
      add_drivers drivers (add_groups driver.id driver.tag_groups configs)

  unfoldable pub build_tag_pipeline_configs : List (DriverEntry F) → Dict (TagPipelineConfig F)
  unfolding add_drivers
  build_tag_pipeline_configs drivers = add_drivers drivers []
