-- ===== src/Pipeline/Configs.antt =====
-- Which entry of the `drivers` section gives a tag its configuration in xedge/core/pipeline.py.
use xedge.Prelude.{
  ◌≡◌, refl, sym, ap, ◌∙◌, String, Option, none, some, List, [], ◌∷◌, ◌++◌, if◌then◌else◌,
}
use text.Mathlib.Text.{◌==◌}
use Prim.Native.String.{◌++◌ as concat}
use xedge.Prelude.Assoc.{Dict, get, put, get-put}
use xedge.Pipeline.{
  TagPipelineConfig, TagEntry, GroupEntry, DriverEntry, config_of, add_tags, add_groups,
  add_drivers, build_tag_pipeline_configs,
}

module _ {V : Type 0} where
  unfoldable pub put_all : List (String × V) → Dict V → Dict V
  put_all [] d = d
  put_all ((key, value) ∷ rest) d = put_all rest (put d key value)

  -- The last value with a key, or what there was before the list.
  unfoldable pub newest : String → Option V → List (String × V) → Option V
  newest key before [] = before
  newest key before ((own, value) ∷ rest) =
      newest key (if own == key then some value else before) rest

  get-put_all :
      (key : String) (entries : List (String × V)) (d : Dict V)
      → get (put_all entries d) key ≡ newest key (get d key) entries
  unfolding put_all newest
  get-put_all key [] d = refl
  get-put_all key ((own, value) ∷ rest) d =
      get-put_all key rest (put d own value) ∙ ap (λ o. newest key o rest) (get-put d own key value)

  put_all-append :
      (a b : List (String × V)) (d : Dict V) → put_all (a ++ b) d ≡ put_all b (put_all a d)
  unfolding put_all
  put_all-append [] b d = refl
  put_all-append ((key, value) ∷ a) b d = put_all-append a b (put d key value)

module _ {F : Type 0} (default_scale default_offset : F) where
  -- The tags of the section in its order, each with its id and its configuration.
  abbrev pub tags_of :
      String → GroupEntry F → List (TagEntry F) → List (String × TagPipelineConfig F)
  tags_of instance_id group [] = []
  tags_of instance_id group (tag ∷ tags) =
      (concat instance_id (concat "/" tag.id), config_of default_scale default_offset group tag)
      ∷ tags_of instance_id group tags

  abbrev pub groups_of : String → List (GroupEntry F) → List (String × TagPipelineConfig F)
  groups_of instance_id [] = []
  groups_of instance_id (group ∷ groups) =
      tags_of instance_id group group.tags ++ groups_of instance_id groups

  abbrev pub drivers_of : List (DriverEntry F) → List (String × TagPipelineConfig F)
  drivers_of [] = []
  drivers_of (driver ∷ drivers) = groups_of driver.id driver.tag_groups ++ drivers_of drivers

  add_tags-put_all :
      (instance_id : String) (group : GroupEntry F) (tags : List (TagEntry F))
      (d : Dict (TagPipelineConfig F))
      → add_tags default_scale default_offset instance_id group tags d
        ≡ put_all (tags_of instance_id group tags) d
  unfolding add_tags put_all
  add_tags-put_all instance_id group [] d = refl
  add_tags-put_all instance_id group (tag ∷ tags) d = add_tags-put_all instance_id group tags (
      put d (concat instance_id (concat "/" tag.id))
        (config_of default_scale default_offset group tag))

  add_groups-put_all :
      (instance_id : String) (groups : List (GroupEntry F)) (d : Dict (TagPipelineConfig F))
      → add_groups default_scale default_offset instance_id groups d
        ≡ put_all (groups_of instance_id groups) d
  unfolding add_groups put_all
  add_groups-put_all instance_id [] d = refl
  add_groups-put_all instance_id (group ∷ groups) d =
      ap (add_groups default_scale default_offset instance_id groups)
        (add_tags-put_all instance_id group group.tags d)
      ∙ add_groups-put_all instance_id groups (put_all (tags_of instance_id group group.tags) d)
      ∙ sym (put_all-append (tags_of instance_id group group.tags) (groups_of instance_id groups) d)

  add_drivers-put_all :
      (drivers : List (DriverEntry F)) (d : Dict (TagPipelineConfig F))
      → add_drivers default_scale default_offset drivers d ≡ put_all (drivers_of drivers) d
  unfolding add_drivers put_all
  add_drivers-put_all [] d = refl
  add_drivers-put_all (driver ∷ drivers) d =
      ap (add_drivers default_scale default_offset drivers)
        (add_groups-put_all driver.id driver.tag_groups d)
      ∙ add_drivers-put_all drivers (put_all (groups_of driver.id driver.tag_groups) d)
      ∙ sym (put_all-append (groups_of driver.id driver.tag_groups) (drivers_of drivers) d)

  -- The configuration that a tag id leads to is that of the last entry with the id in the whole section,
  -- where an id is the driver's, a slash and the tag's; an id that no entry has leads to none.
  pub build_tag_pipeline_configs-newest :
      (drivers : List (DriverEntry F)) (tag_id : String)
      → get (build_tag_pipeline_configs default_scale default_offset drivers) tag_id
        ≡ newest tag_id none (drivers_of drivers)
  unfolding build_tag_pipeline_configs get
  build_tag_pipeline_configs-newest drivers tag_id =
      ap (λ d. get d tag_id) (add_drivers-put_all drivers [])
      ∙ get-put_all tag_id (drivers_of drivers) []
