-- ===== src/Alarms/Independence.antt =====
-- Alarms of different tags in xedge/core/alarms.py do not touch each other.
use xedge.Prelude.{
  ℕ, ◌+◌, ◌≡◌, refl, ap, ◌∙◌, String, Bool, true, false, Option, none, some, List, [], ◌∷◌, All,
  if◌then◌else◌,
}
use text.Mathlib.Text.{◌==◌}
use xedge.Prelude.Assoc.{get, put, get-put}
use xedge.Alarms.{
  Floats, UnifiedTag, AlarmRule, AlarmStatus, AlarmEngine, status_of, check_number,
  check_conditions, transition, evaluate_rule, evaluate, acknowledge_status, try_status,
  acknowledge, shelve, unshelve_status, unshelve,
}
use xedge.Alarms.States.{
  Action, evaluate_tag, acknowledge_alarm, shelve_alarm, unshelve_alarm, act, act_all,
  status_of-put,
}

-- The tag that a call is about.
abbrev pub target : {F V : Type 0} → Action F V → String
target (evaluate_tag tag) = tag.tag_id
target (acknowledge_alarm clock tag_id actor) = tag_id
target (shelve_alarm clock tag_id duration_seconds) = tag_id
target (unshelve_alarm tag_id) = tag_id

module _ {F V : Type 0} where
  -- Two engines agree on a tag: its rule, its status and its last sample.
  abbrev pub IsSameFor : String → AlarmEngine F V → AlarmEngine F V → Type 0
  IsSameFor tag_id e e' =
      (get e'.rules tag_id ≡ get e.rules tag_id)
      × (status_of e' tag_id ≡ status_of e tag_id)
      × (get e'.last_sample tag_id ≡ get e.last_sample tag_id)

  put-IsSameFor :
      (e : AlarmEngine F V) (tag_id other : String) (after : AlarmStatus F V)
      → (tag_id == other) ≡ false
      → IsSameFor other e (record e { status = put e.status tag_id after })
  put-IsSameFor e tag_id other after away = (
    refl,
    status_of-put e tag_id other after ∙ ap (λ b. if b then after else status_of e other) away,
    refl,
  )

  try_status-IsSameFor :
      (change : AlarmStatus F V → Option (AlarmStatus F V)) (tag_id other : String)
      (e : AlarmEngine F V)
      → (tag_id == other) ≡ false
      → IsSameFor other e (try_status change tag_id e).1
  try_status-IsSameFor change tag_id other e away = found (get e.status tag_id)
    where
      changed :
          (o : Option (AlarmStatus F V))
          → IsSameFor other e
              (elim o as (λ _. Bool × AlarmEngine F V) [
                | none ↦ (false, e)
                | some after ↦ (true, record e { status = put e.status tag_id after })
              ]).1
      changed none = (refl, refl, refl)
      changed (some after) = put-IsSameFor e tag_id other after away

      found :
          (o : Option (AlarmStatus F V))
          → IsSameFor other e
              (elim o as (λ _. Bool × AlarmEngine F V) [
                | none ↦ (false, e)
                | some s ↦ elim (change s) as (λ _. Bool × AlarmEngine F V) [
                  | none ↦ (false, e)
                  | some after ↦ (true, record e { status = put e.status tag_id after })
                ]
              ]).1
      found none = (refl, refl, refl)
      found (some s) = changed (change s)

module _ {F V : Type 0} (floats : Floats F) where
  check_number-IsSameFor :
      (limit : Option F) (rule : AlarmRule F) (tag_id other : String) (now : ℕ) (value : F)
      (s : AlarmStatus F V) (e : AlarmEngine F V)
      → (tag_id == other) ≡ false
      → IsSameFor other e
          (check_number floats
            (record rule { rate_of_change_per_second = limit })
            tag_id
            now
            value
            s
            e).2
  unfolding check_number status_of
  check_number-IsSameFor none rule tag_id other now value s e away = (refl, refl, refl)
  check_number-IsSameFor (some limit) rule tag_id other now value s e away = (
    refl,
    refl,
    get-put e.last_sample tag_id other (value, now)
        ∙ ap (λ b. if b then some (value, now) else get e.last_sample other) away,
  )

  check_conditions-IsSameFor :
      (number : Option F) (rule : AlarmRule F) (tag : UnifiedTag F V) (other : String)
      (s : AlarmStatus F V) (e : AlarmEngine F V)
      → (tag.tag_id == other) ≡ false
      → IsSameFor other e (check_conditions floats rule (record tag { number = number }) s e).2
  unfolding check_conditions
  check_conditions-IsSameFor none rule tag other s e away = (refl, refl, refl)
  check_conditions-IsSameFor (some value) rule tag other s e away =
      check_number-IsSameFor rule.rate_of_change_per_second rule tag.tag_id other tag.timestamp
        value s e away

  evaluate_rule-IsSameFor :
      (rule : AlarmRule F) (tag : UnifiedTag F V) (other : String) (e : AlarmEngine F V)
      → (tag.tag_id == other) ≡ false
      → IsSameFor other e (evaluate_rule floats rule tag e).1
  unfolding evaluate_rule
  evaluate_rule-IsSameFor rule tag other e away =
      let s : AlarmStatus F V = record (status_of e tag.tag_id) { last_value = some tag.value } in
      let r = check_conditions floats rule tag s e in
      let checked = check_conditions-IsSameFor tag.number rule tag other s e away in
      let stored = put-IsSameFor r.2 tag.tag_id other (transition r.0 tag.timestamp r.1) away in
      (stored.0 ∙ checked.0, stored.1 ∙ checked.1, stored.2 ∙ checked.2)

  evaluate-IsSameFor :
      (tag : UnifiedTag F V) (other : String) (e : AlarmEngine F V)
      → (tag.tag_id == other) ≡ false
      → IsSameFor other e (evaluate floats tag e).1
  unfolding evaluate
  evaluate-IsSameFor tag other e away = either (get e.rules tag.tag_id)
    where
      either :
          (o : Option (AlarmRule F))
          → IsSameFor other e
              (elim o as (λ _. UnifiedTag F V × AlarmEngine F V) [
                | none ↦ (tag, e)
                | some rule ↦ evaluate_rule floats rule tag e
              ]).1
      either none = (refl, refl, refl)
      either (some rule) = evaluate_rule-IsSameFor rule tag other e away

  pub act-IsSameFor :
      (action : Action F V) (other : String) (e : AlarmEngine F V)
      → (target action == other) ≡ false
      → IsSameFor other e (act floats action e)
  unfolding act acknowledge shelve unshelve
  act-IsSameFor (evaluate_tag tag) other e away = evaluate-IsSameFor tag other e away
  act-IsSameFor (acknowledge_alarm clock tag_id actor) other e away =
      try_status-IsSameFor (acknowledge_status clock actor) tag_id other e away
  act-IsSameFor (shelve_alarm clock tag_id duration) other e away =
      put-IsSameFor e tag_id other
        (record (status_of e tag_id) { shelved_until = some (clock + duration) }) away
  act-IsSameFor (unshelve_alarm tag_id) other e away =
      try_status-IsSameFor unshelve_status tag_id other e away

  -- Calls about other tags, in any number and order, leave the rule, the status and the last sample of
  -- a tag as they are.
  pub act_all-IsSameFor :
      (actions : List (Action F V)) (tag_id : String) (e : AlarmEngine F V)
      → All (λ action. (target action == tag_id) ≡ false) actions
      → IsSameFor tag_id e (act_all floats actions e)
  unfolding act_all
  act_all-IsSameFor [] tag_id e h = (refl, refl, refl)
  act_all-IsSameFor (action ∷ actions) tag_id e h =
      let first = act-IsSameFor action tag_id e h.0 in
      let later = act_all-IsSameFor actions tag_id (act floats action e) h.1 in
      (later.0 ∙ first.0, later.1 ∙ first.1, later.2 ∙ first.2)
