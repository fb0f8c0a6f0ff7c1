-- ===== src/Alarms.antt =====
-- xedge/core/alarms.py: AlarmEngine, with its rules, the state of each alarm, and the last sample for
-- the rate of change. Floating-point numbers are a parameter, a type with the operations that the code
-- does on them; times are numbers of a clock, and `datetime.now(UTC)` is the argument `clock`.
use xedge.Prelude.{
  ℕ, ◌+◌, ◌-◌, String, Bool, true, false, not, ◌&&◌, Option, none, some, List, [], ◌∷◌, ltb, leb,
  if◌then◌else◌,
}
use xedge.Prelude.Assoc.{Dict, get, put}
pub mod States
pub mod Reports
pub mod Independence
pub mod History
pub mod Verdicts
mod Examples

pub data AlarmState : Type 0 where
  normal active active_acked : AlarmState

-- The texts that `_check_conditions` returns.
pub data Condition : Type 0 where
  high_high low_low high low rate_of_change : Condition

-- float: `value >= limit`, `value <= limit`, `rate > limit`, and abs(value - prior) / elapsed.
pub record Floats (F : Type 0) : Type 0 where
  pub at_least : F → F → Bool
  pub at_most : F → F → Bool
  pub greater : F → F → Bool
  pub rate : F → F → ℕ → F

-- A sample: its value as float(tag.value) if it is numeric, and what else the tag carries.
pub record UnifiedTag (F V : Type 0) : Type 0 where
  pub tag_id : String
  pub timestamp : ℕ
  pub value : V
  pub number : Option F
  pub is_alarm : Bool

pub record AlarmRule (F : Type 0) : Type 0 where
  pub high : Option F
  pub high_high : Option F
  pub low : Option F
  pub low_low : Option F
  pub rate_of_change_per_second : Option F

pub record AlarmStatus (F V : Type 0) : Type 0 where
  pub state : AlarmState
  pub condition : Option Condition
  pub active_since : Option ℕ
  pub acknowledged_by : Option String
  pub acknowledged_at : Option ℕ
  pub shelved_until : Option ℕ
  pub last_value : Option V
  pub last_rate_per_second : Option F

pub record AlarmEngine (F V : Type 0) : Type 0 where
  pub rules : Dict (AlarmRule F)
  pub status : Dict (AlarmStatus F V)
  pub last_sample : Dict (F × ℕ)

module _ {F V : Type 0} where
  abbrev pub new_status : AlarmStatus F V
  new_status = record {
    state = normal;
    condition = none;
    active_since = none;
    acknowledged_by = none;
    acknowledged_at = none;
    shelved_until = none;
    last_value = none;
    last_rate_per_second = none;
  }

  unfoldable pub new_engine : Dict (AlarmRule F) → AlarmEngine F V
  new_engine rules = record { rules = rules; status = []; last_sample = [] }

  unfoldable pub has_rule : AlarmEngine F V → String → Bool
  has_rule e tag_id = elim (get e.rules tag_id) [ none ↦ false | some rule ↦ true ]

  -- self._status.setdefault(tag_id, AlarmStatus(tag_id=tag_id))
  unfoldable pub status_of : AlarmEngine F V → String → AlarmStatus F V
  status_of e tag_id = elim (get e.status tag_id) [ none ↦ new_status | some status ↦ status ]

-- A limit that is configured, and met.
abbrev pub meets : {F : Type 0} → (F → F → Bool) → F → Option F → Bool
meets test value none = false
meets test value (some limit) = test value limit

module _ {F : Type 0} (floats : Floats F) where
  -- The four limits, worst first.
  unfoldable pub check_limits : AlarmRule F → F → Option Condition → Option Condition
  check_limits rule value rate_condition =
      if meets floats.at_least value rule.high_high
      then some high_high
      else if meets floats.at_most value rule.low_low
      then some low_low
      else if meets floats.at_least value rule.high
      then some high
      else if meets floats.at_most value rule.low
      then some low
      else rate_condition

  -- The rate since the sample before, if there is one and time has passed.
  unfoldable pub rate_since : Option (F × ℕ) → F → ℕ → Option F
  rate_since none value now = none
  rate_since (some (prior_value, prior_timestamp)) value now =
      if leb now prior_timestamp
      then none
      else some (floats.rate value prior_value (now - prior_timestamp))

  abbrev pub rate_trips : Option F → Option F → Option Condition
  rate_trips limit none = none
  rate_trips limit (some rate) =
      if meets floats.greater rate limit then some rate_of_change else none

module _ {F V : Type 0} where
  abbrev pub keep_rate : Option F → AlarmStatus F V → AlarmStatus F V
  keep_rate none status = status
  keep_rate (some rate) status = record status { last_rate_per_second = some rate }

module _ {F V : Type 0} (floats : Floats F) where
  -- The condition of a numeric value, the status and the engine that the check leaves.
  unfoldable pub check_number :
      AlarmRule F
      → String
      → ℕ
      → F
      → AlarmStatus F V
      → AlarmEngine F V
      → Option Condition × AlarmStatus F V × AlarmEngine F V
  unfolding check_limits rate_since
  check_number rule tag_id now value status e = elim rule.rate_of_change_per_second [
    | none ↦ (check_limits floats rule value none, status, e)
    | some limit ↦
        let rate = rate_since floats (get e.last_sample tag_id) value now in
        (
          check_limits floats rule value (rate_trips floats (some limit) rate),
          keep_rate rate status,
          record e { last_sample = put e.last_sample tag_id (value, now) },
        )
  ]

  -- A value that is not numeric has no condition, and the rate of change does not see it.
  unfoldable pub check_conditions :
      AlarmRule F
      → UnifiedTag F V
      → AlarmStatus F V
      → AlarmEngine F V
      → Option Condition × AlarmStatus F V × AlarmEngine F V
  unfolding check_number
  check_conditions rule tag status e = elim tag.number [
    | none ↦ (none, status, e)
    | some value ↦ check_number rule tag.tag_id tag.timestamp value status e
  ]

abbrev pub is_normal : AlarmState → Bool
is_normal normal = true
is_normal active = false
is_normal active_acked = false

abbrev pub is_shelved : Option ℕ → ℕ → Bool
is_shelved none now = false
is_shelved (some until) now = ltb now until

module _ {F V : Type 0} where
  abbrev pub activate : ℕ → AlarmStatus F V → AlarmStatus F V
  activate now status = elim status.state [
    | normal ↦ record status {
      state = active;
      active_since = some now;
      acknowledged_by = none;
      acknowledged_at = none;
    }
    | _ ↦ status
  ]

  -- The transition of `evaluate`.
  unfoldable pub transition : Option Condition → ℕ → AlarmStatus F V → AlarmStatus F V
  transition none now status = record status {
    state = normal;
    condition = none;
    active_since = none;
  }
  transition (some condition) now status = record (activate now status) {
    condition = some condition;
  }

  unfoldable pub is_reported : AlarmStatus F V → ℕ → Bool
  is_reported status now = not (is_normal status.state) && not (is_shelved status.shelved_until now)

module _ {F V : Type 0} (floats : Floats F) where
  -- The rest of `evaluate` when the tag has a rule.
  unfoldable pub evaluate_rule :
      AlarmRule F → UnifiedTag F V → AlarmEngine F V → UnifiedTag F V × AlarmEngine F V
  unfolding check_conditions transition is_reported status_of
  evaluate_rule rule tag e =
      let status = record (status_of e tag.tag_id) { last_value = some tag.value } in
      let (condition, checked, e') = check_conditions floats rule tag status e in
      let after = transition condition tag.timestamp checked in
      (
        record tag { is_alarm = is_reported after tag.timestamp },
        record e' { status = put e'.status tag.tag_id after },
      )

  unfoldable pub evaluate : UnifiedTag F V → AlarmEngine F V → UnifiedTag F V × AlarmEngine F V
  unfolding evaluate_rule
  evaluate tag e = elim (get e.rules tag.tag_id) [
    | none ↦ (tag, e)
    | some rule ↦ evaluate_rule rule tag e
  ]

module _ {F V : Type 0} where
  abbrev pub acknowledge_status : ℕ → String → AlarmStatus F V → Option (AlarmStatus F V)
  acknowledge_status clock actor status = elim status.state [
    | active ↦ some (record status {
      state = active_acked;
      acknowledged_by = some actor;
      acknowledged_at = some clock;
    })
    | _ ↦ none
  ]

  -- A change of a status that may refuse it, with whether it was made.
  abbrev pub try_status :
      (AlarmStatus F V → Option (AlarmStatus F V))
      → String
      → AlarmEngine F V
      → Bool × AlarmEngine F V
  try_status change tag_id e = elim (get e.status tag_id) [
    | none ↦ (false, e)
    | some status ↦ elim (change status) [
      | none ↦ (false, e)
      | some after ↦ (true, record e { status = put e.status tag_id after })
    ]
  ]

  unfoldable pub acknowledge : ℕ → String → String → AlarmEngine F V → Bool × AlarmEngine F V
  acknowledge clock tag_id actor e = try_status (acknowledge_status clock actor) tag_id e

  unfoldable pub shelve : ℕ → String → ℕ → AlarmEngine F V → AlarmEngine F V
  unfolding status_of
  shelve clock tag_id duration_seconds e = record e {
    status =
        put e.status tag_id
          (record (status_of e tag_id) { shelved_until = some (clock + duration_seconds) });
  }

  abbrev pub unshelve_status : AlarmStatus F V → Option (AlarmStatus F V)
  unshelve_status status = elim status.shelved_until [
    | none ↦ none
    | some until ↦ some (record status { shelved_until = none })
  ]

  unfoldable pub unshelve : String → AlarmEngine F V → Bool × AlarmEngine F V
  unshelve tag_id e = try_status unshelve_status tag_id e

-- An entry of the `alarms.rules` section.
pub record RuleConfig (F : Type 0) : Type 0 where
  pub tag_id : String
  pub limits : AlarmRule F

module _ {F : Type 0} where
  unfoldable pub add_rules : List (RuleConfig F) → Dict (AlarmRule F) → Dict (AlarmRule F)
  add_rules [] rules = rules
  add_rules (entry ∷ rest) rules = add_rules rest (put rules entry.tag_id entry.limits)

  unfoldable pub build_alarm_rules : List (RuleConfig F) → Dict (AlarmRule F)
  unfolding add_rules
  build_alarm_rules rules_config = add_rules rules_config []
