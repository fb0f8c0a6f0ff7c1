-- ===== src/Pipeline/Deadbands.antt =====
-- What the deadband filter of xedge/core/pipeline.py may hold back.
use xedge.Prelude.{
  ◌≡◌, refl, sym, ap, ◌∙◌, String, Bool, true, false, not, ◌||◌, Option, none, some, List, [], ◌∷◌,
  if◌then◌else◌,
}
use text.Mathlib.Text.{◌==◌}
use xedge.Prelude.Assoc.{get, put, get-put}
use xedge.Pipeline.{
  Quality, good, bad, uncertain, same_quality, same_flag, Values, DeadbandConfig, UnifiedTag,
  Published, DeadbandFilter, new_filter, is_significant, differs, published_of, recorded,
  should_publish,
}

module _ {V F M : Type 0} (values : Values V F) where
  -- The tags that a sequence of tags leads to, through one filter.
  unfoldable pub filter_all :
      (String → Option (DeadbandConfig F))
      → List (UnifiedTag V M)
      → DeadbandFilter V
      → List (UnifiedTag V M) × DeadbandFilter V
  unfolding should_publish
  filter_all deadbands [] f = ([], f)
  filter_all deadbands (tag ∷ tags) f =
      let (publish, f') = should_publish values tag (deadbands tag.tag_id) f in
      let (later, f'') = filter_all deadbands tags f' in
      (if publish then tag ∷ later else later, f'')

module _ {V M : Type 0} where
  -- The last of the tags with an id, or what there was before them.
  unfoldable pub last_of :
      String → Option (Published V) → List (UnifiedTag V M) → Option (Published V)
  last_of tag_id before [] = before
  last_of tag_id before (tag ∷ tags) =
      last_of tag_id (if tag.tag_id == tag_id then some (published_of tag) else before) tags

same_quality_sound : (a b : Quality) → same_quality a b ≡ true → a ≡ b
same_quality_sound good good e = refl
same_quality_sound bad bad e = refl
same_quality_sound uncertain uncertain e = refl
same_quality_sound good bad e = absurd (cc e)
same_quality_sound good uncertain e = absurd (cc e)
same_quality_sound bad good e = absurd (cc e)
same_quality_sound bad uncertain e = absurd (cc e)
same_quality_sound uncertain good e = absurd (cc e)
same_quality_sound uncertain bad e = absurd (cc e)

same_flag_sound : (a b : Bool) → same_flag a b ≡ true → a ≡ b
same_flag_sound true true e = refl
same_flag_sound false false e = refl
same_flag_sound true false e = absurd (cc e)
same_flag_sound false true e = absurd (cc e)

either_false : (a b : Bool) → (a || b) ≡ false → (a ≡ false) × (b ≡ false)
either_false true b e = absurd (cc e)
either_false false b e = (refl, e)

not-false : (b : Bool) → not b ≡ false → b ≡ true
not-false true e = refl
not-false false e = absurd (cc e)

module _ {V F M : Type 0} (values : Values V F) where
  filter_all-last_of :
      (deadbands : String → Option (DeadbandConfig F)) (tags : List (UnifiedTag V M))
      (f : DeadbandFilter V) (tag_id : String)
      → get (filter_all values deadbands tags f).1.last_published tag_id
        ≡ last_of tag_id (get f.last_published tag_id) (filter_all values deadbands tags f).0
  unfolding filter_all last_of
  filter_all-last_of deadbands [] f tag_id = refl
  filter_all-last_of deadbands (tag ∷ tags) f tag_id =
      decided (λ f'. filter_all-last_of deadbands tags f' tag_id)
        (differs values tag (get f.last_published tag.tag_id) (deadbands tag.tag_id))
    where
      decided :
          ((f' : DeadbandFilter V)
            → get (filter_all values deadbands tags f').1.last_published tag_id
              ≡ last_of tag_id
                  (get f'.last_published tag_id)
                  (filter_all values deadbands tags f').0)
          → (b : Bool)
          → get (filter_all values deadbands tags (recorded tag f b).1).1.last_published tag_id
            ≡ last_of tag_id (get f.last_published tag_id) (
                if (recorded tag f b).0
                then tag ∷ (filter_all values deadbands tags (recorded tag f b).1).0
                else (filter_all values deadbands tags (recorded tag f b).1).0)
      decided ih true =
          let f' : DeadbandFilter V = record {
            last_published = put f.last_published tag.tag_id (published_of tag);
          } in
          ih f'
          ∙ ap (λ o. last_of tag_id o (filter_all values deadbands tags f').0)
              (get-put f.last_published tag.tag_id tag_id (published_of tag))
      decided ih false = ih f

  -- A tag is held back only for an earlier one with the same quality and the same alarm flag, and a
  -- value that does not differ significantly.
  abbrev pub IsHeldFor : UnifiedTag V M → Option (DeadbandConfig F) → Published V → Type 0
  IsHeldFor tag deadband p =
      (p.quality ≡ tag.quality)
      × (p.is_alarm ≡ tag.is_alarm)
      × (is_significant values deadband tag.value p.value ≡ false)

  differs-IsHeldFor :
      (tag : UnifiedTag V M) (prior : Option (Published V)) (deadband : Option (DeadbandConfig F))
      → differs values tag prior deadband ≡ false
      → (p : Published V) × (prior ≡ some p) × IsHeldFor tag deadband p
  unfolding differs
  differs-IsHeldFor tag none deadband e = absurd (cc e)
  differs-IsHeldFor tag (some p) deadband e =
      let (unchanged, value) =
        guarded
          (not (same_quality p.quality tag.quality) || not (same_flag p.is_alarm tag.is_alarm)) e in
      let (quality, flag) =
        either_false (not (same_quality p.quality tag.quality))
          (not (same_flag p.is_alarm tag.is_alarm)) unchanged in
      (
        p,
        refl,
        (
          same_quality_sound p.quality tag.quality
              (not-false (same_quality p.quality tag.quality) quality),
          same_flag_sound p.is_alarm tag.is_alarm
              (not-false (same_flag p.is_alarm tag.is_alarm) flag),
          value,
        ),
      )
    where
      guarded :
          (b : Bool)
          → (if b then true else is_significant values deadband tag.value p.value) ≡ false
          → (b ≡ false) × (is_significant values deadband tag.value p.value ≡ false)
      guarded true e = absurd (cc e)
      guarded false e = (refl, e)

  held :
      (tag : UnifiedTag V M) (f : DeadbandFilter V) (b : Bool)
      → (recorded tag f b).0 ≡ false
      → b ≡ false
  held tag f true e = absurd (cc e)
  held tag f false e = refl

  -- When a tag is held back after any sequence of tags has gone through a new filter, then a tag with
  -- the same id was published before, and the last of these has the same quality and the same alarm
  -- flag, and its value does not differ significantly from the held one: values that drift in small
  -- steps are measured against what was published, not against each other.
  pub should_publish-holds :
      (deadbands : String → Option (DeadbandConfig F)) (tags : List (UnifiedTag V M))
      (tag : UnifiedTag V M)
      → (should_publish values tag
          (deadbands tag.tag_id)
          (filter_all values deadbands tags new_filter).1).0
        ≡ false
      → (p : Published V) × (last_of tag.tag_id none (filter_all values deadbands tags new_filter).0
          ≡ some p)
        × IsHeldFor tag (deadbands tag.tag_id) p
  unfolding should_publish get
  should_publish-holds deadbands tags tag e =
      let f : DeadbandFilter V = (filter_all values deadbands tags new_filter).1 in
      let (p, prior, same) =
        differs-IsHeldFor tag (get f.last_published tag.tag_id) (deadbands tag.tag_id) (
          held tag f (differs values tag (get f.last_published tag.tag_id) (deadbands tag.tag_id))
            e) in
      (p, sym (filter_all-last_of deadbands tags new_filter tag.tag_id) ∙ prior, same)
