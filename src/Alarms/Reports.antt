-- ===== src/Alarms/Reports.antt =====
-- What `evaluate` of xedge/core/alarms.py reports, described without the state machine and without the
-- order in which the conditions are checked.
use xedge.Prelude.{
  ℕ, ◌-◌, ◌≡◌, refl, ap, ◌∙◌, String, Bool, true, false, not, ◌&&◌, ◌||◌, Option, none, some, leb,
  if◌then◌else◌,
}
use xedge.Prelude.Assoc.{get}
use xedge.Alarms.{
  AlarmState, normal, active, active_acked, Condition, rate_of_change, Floats, UnifiedTag,
  AlarmRule, AlarmStatus, AlarmEngine, status_of, meets, check_limits, rate_since, rate_trips,
  keep_rate, check_number, check_conditions, transition, is_shelved, is_reported, evaluate_rule,
  evaluate,
}

abbrev is_there : {A : Type 0} → Option A → Bool
is_there none = false
is_there (some x) = true

module _ {F : Type 0} (floats : Floats F) where
  -- Some limit of the rule is met.
  abbrev pub is_outside : AlarmRule F → F → Bool
  is_outside rule value =
      meets floats.at_least value rule.high_high
      || (meets floats.at_most value rule.low_low
          || (meets floats.at_least value rule.high || meets floats.at_most value rule.low))

  -- The value moved faster than its limit since an earlier sample.
  abbrev pub is_too_fast : Option F → Option (F × ℕ) → F → ℕ → Bool
  is_too_fast none prior value now = false
  is_too_fast (some limit) none value now = false
  is_too_fast (some limit) (some (prior_value, prior_timestamp)) value now =
      not (leb now prior_timestamp)
      && floats.greater (floats.rate value prior_value (now - prior_timestamp)) limit

  abbrev pub is_alarming : AlarmRule F → Option (F × ℕ) → Option F → ℕ → Bool
  is_alarming rule prior none now = false
  is_alarming rule prior (some value) now =
      is_outside rule value || is_too_fast rule.rate_of_change_per_second prior value now

  check_limits-is_there :
      (rule : AlarmRule F) (value : F) (rate_condition : Option Condition)
      → is_there (check_limits floats rule value rate_condition)
        ≡ (is_outside rule value || is_there rate_condition)
  unfolding check_limits
  check_limits-is_there rule value rate_condition =
      worst_first (meets floats.at_least value rule.high_high)
        (meets floats.at_most value rule.low_low) (meets floats.at_least value rule.high)
        (meets floats.at_most value rule.low)
    where
      worst_first :
          (a b c d : Bool)
          → is_there (
              if a
              then some Condition.high_high
              else if b
              then some Condition.low_low
              else if c
              then some Condition.high
              else if d
              then some Condition.low
              else rate_condition)
            ≡ ((a || (b || (c || d))) || is_there rate_condition)
      worst_first true b c d = refl
      worst_first false true c d = refl
      worst_first false false true d = refl
      worst_first false false false true = refl
      worst_first false false false false = refl

  rate_trips-is_there :
      (limit : F) (prior : Option (F × ℕ)) (value : F) (now : ℕ)
      → is_there (rate_trips floats (some limit) (rate_since floats prior value now))
        ≡ is_too_fast (some limit) prior value now
  unfolding rate_since
  rate_trips-is_there limit none value now = refl
  rate_trips-is_there limit (some (prior_value, prior_timestamp)) value now =
      either (leb now prior_timestamp) (floats.rate value prior_value (now - prior_timestamp))
    where
      over : (b : Bool) → is_there (if b then some rate_of_change else none) ≡ b
      over true = refl
      over false = refl

      either :
          (b : Bool) (rate : F)
          → is_there (rate_trips floats (some limit) (if b then none else some rate))
            ≡ (not b && floats.greater rate limit)
      either true rate = refl
      either false rate = over (floats.greater rate limit)

module _ {F V : Type 0} (floats : Floats F) where
  -- A check finds a condition just when the sample is alarming, and leaves the shelving.
  abbrev pub IsJudged :
      Bool → AlarmStatus F V → Option Condition × AlarmStatus F V × AlarmEngine F V → Type 0
  IsJudged b s r = (is_there r.0 ≡ b) × (r.1.shelved_until ≡ s.shelved_until)

  keep_rate-shelved :
      (rate : Option F) (s : AlarmStatus F V) → (keep_rate rate s).shelved_until ≡ s.shelved_until
  keep_rate-shelved none s = refl
  keep_rate-shelved (some rate) s = refl

  check_number-IsJudged :
      (limit : Option F) (rule : AlarmRule F) (tag_id : String) (now : ℕ) (value : F)
      (s : AlarmStatus F V) (e : AlarmEngine F V)
      → IsJudged
          (is_alarming floats
            (record rule { rate_of_change_per_second = limit })
            (get e.last_sample tag_id)
            (some value)
            now)
          s
          (check_number floats
            (record rule { rate_of_change_per_second = limit })
            tag_id
            now
            value
            s
            e)
  unfolding check_number
  check_number-IsJudged none rule tag_id now value s e = (
    check_limits-is_there floats (record rule { rate_of_change_per_second = none }) value none,
    refl,
  )
  check_number-IsJudged (some limit) rule tag_id now value s e =
      let rate = rate_since floats (get e.last_sample tag_id) value now in
      let rule' : AlarmRule F = record rule { rate_of_change_per_second = some limit } in
      (
        check_limits-is_there floats rule' value (rate_trips floats (some limit) rate)
            ∙ ap (λ b. is_outside floats rule' value || b)
                (rate_trips-is_there floats limit (get e.last_sample tag_id) value now),
        keep_rate-shelved rate s,
      )

  pub check_conditions-IsJudged :
      (number : Option F) (rule : AlarmRule F) (tag : UnifiedTag F V) (s : AlarmStatus F V)
      (e : AlarmEngine F V)
      → IsJudged
          (is_alarming floats rule (get e.last_sample tag.tag_id) number tag.timestamp)
          s
          (check_conditions floats rule (record tag { number = number }) s e)
  unfolding check_conditions
  check_conditions-IsJudged none rule tag s e = (refl, refl)
  check_conditions-IsJudged (some value) rule tag s e =
      check_number-IsJudged rule.rate_of_change_per_second rule tag.tag_id tag.timestamp value s e

  transition-is_reported :
      (condition : Option Condition) (now : ℕ) (state : AlarmState) (s : AlarmStatus F V)
      → is_reported (transition condition now (record s { state = state })) now
        ≡ (is_there condition && not (is_shelved s.shelved_until now))
  unfolding transition is_reported
  transition-is_reported none now state s = refl
  transition-is_reported (some c) now normal s = refl
  transition-is_reported (some c) now active s = refl
  transition-is_reported (some c) now active_acked s = refl

  -- What is reported, by the last sample and the shelving that the engine has on record: whatever the
  -- state of the alarm was before.
  pub evaluate_lem :
      (e : AlarmEngine F V) (tag : UnifiedTag F V) (rule : AlarmRule F)
      → get e.rules tag.tag_id ≡ some rule
      → (evaluate floats tag e).0.is_alarm ≡ (
          is_alarming floats rule (get e.last_sample tag.tag_id) tag.number tag.timestamp
          && not (is_shelved (status_of e tag.tag_id).shelved_until tag.timestamp))
  unfolding evaluate evaluate_rule
  evaluate_lem e tag rule has =
      let s : AlarmStatus F V = record (status_of e tag.tag_id) { last_value = some tag.value } in
      let r = check_conditions floats rule tag s e in
      let (found, shelved) = check_conditions-IsJudged tag.number rule tag s e in
      ap
        (λ o.
          (elim o as (λ _. UnifiedTag F V × AlarmEngine F V) [
            | none ↦ (tag, e)
            | some rule ↦ evaluate_rule floats rule tag e
          ]).0.is_alarm)
        has
      ∙ transition-is_reported r.0 tag.timestamp r.1.state r.1
      ∙ ap (λ b. b && not (is_shelved r.1.shelved_until tag.timestamp)) found
      ∙ ap
          (λ u.
            is_alarming floats rule (get e.last_sample tag.tag_id) tag.number tag.timestamp
            && not (is_shelved u tag.timestamp))
          shelved
