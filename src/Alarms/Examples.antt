-- ===== src/Alarms/Examples.antt =====
-- Alarms at concrete inputs, with numbers for floating-point numbers.
use xedge.Prelude.{
  ℕ, ◌-◌, ◌/◌, max, min, ◌≡◌, refl, true, false, not, ◌&&◌, none, some, List, [], ◌∷◌, leb, ltb,
}
use xedge.Prelude.Assoc.{Dict, get, put}
use xedge.Alarms.{
  active_acked, Floats, UnifiedTag, AlarmRule, AlarmEngine, new_engine, status_of, is_shelved,
  evaluate, acknowledge, check_conditions, check_number, check_limits, rate_since, transition,
  is_reported, evaluate_rule,
}
use xedge.Alarms.States.{
  Action, evaluate_tag, acknowledge_alarm, shelve_alarm, act, act_all, act_all-IsConsistent,
  IsConsistent,
}
use xedge.Alarms.Reports.{is_alarming}
use xedge.Alarms.History.{last_numeric, shelved_after}
use xedge.Alarms.Verdicts.{evaluate-is_alarm}
use xedge.Alarms.Independence.{IsSameFor, act_all-IsSameFor}

abbrev numbers : Floats ℕ
numbers = record {
  at_least = λ a b. leb b a;
  at_most = λ a b. leb a b;
  greater = λ a b. ltb b a;
  rate = λ a b t. (max a b - min a b) / t;
}

abbrev boiler : AlarmRule ℕ
boiler = record {
  high = some 80;
  high_high = some 90;
  low = none;
  low_low = some 5;
  rate_of_change_per_second = some 10;
}

abbrev rules : Dict (AlarmRule ℕ)
rules = ("boiler", boiler) ∷ []

abbrev sample : ℕ → ℕ → UnifiedTag ℕ ℕ
sample at value = record {
  tag_id = "boiler";
  timestamp = at;
  value = value;
  number = some value;
  is_alarm = false;
}

abbrev shift : List (Action ℕ ℕ)
shift =
    evaluate_tag (sample 1 50)
    ∷ evaluate_tag (sample 20 85)
    ∷ acknowledge_alarm 21 "boiler" "ada"
    ∷ evaluate_tag (sample 30 95)
    ∷ []

abbrev on_shift : AlarmEngine ℕ ℕ
on_shift = act_all numbers shift (new_engine rules)

-- The acknowledgment outlasts a worse sample.
stays_acknowledged : (status_of on_shift "boiler").state ≡ active_acked
unfolding act_all act evaluate acknowledge new_engine status_of check_conditions check_number
    check_limits rate_since transition is_reported evaluate_rule get put
stays_acknowledged = refl

-- A sample that is within the limits is reported for its jump.
jumps :
    (evaluate numbers
      (sample 4 70)
      (act_all numbers (evaluate_tag (sample 3 50) ∷ []) (new_engine rules))).0.is_alarm
    ≡ true
unfolding act_all act evaluate new_engine status_of check_conditions check_number check_limits
    rate_since transition is_reported evaluate_rule get put
jumps = refl

act_all-IsConsistent_example : IsConsistent (status_of on_shift "boiler")
act_all-IsConsistent_example = act_all-IsConsistent numbers rules shift "boiler"

-- A shelving that has run out, and a sample within the limits after one that was not numeric.
abbrev morning : List (Action ℕ ℕ)
morning =
    shelve_alarm 0 "boiler" 3
    ∷ evaluate_tag (sample 1 50)
    ∷ evaluate_tag (record (sample 2 50) { number = none })
    ∷ []

evaluate-is_alarm_example :
    (evaluate numbers (sample 4 85) (act_all numbers morning (new_engine rules))).0.is_alarm ≡ (
      is_alarming numbers boiler (last_numeric "boiler" none morning) (some 85) 4
      && not (is_shelved (shelved_after "boiler" none morning) 4))
unfolding get
evaluate-is_alarm_example = evaluate-is_alarm numbers rules morning (sample 4 85) boiler refl

act_all-IsSameFor_example : IsSameFor "pump" on_shift (act_all numbers shift on_shift)
act_all-IsSameFor_example =
    act_all-IsSameFor numbers shift "pump" on_shift (refl, (refl, (refl, (refl, tt))))
