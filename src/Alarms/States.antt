-- ===== src/Alarms/States.antt =====
-- The states of an alarm of xedge/core/alarms.py: what each says of the other fields of its status,
-- after any sequence of calls of the engine.
use xedge.Prelude.{
  ℕ, ◌+◌, ◌≡◌, refl, sym, ap, ◌∙◌, subst, String, Bool, true, false, Option, none, some, List, [],
  ◌∷◌, if◌then◌else◌,
}
use text.Mathlib.Text.{◌==◌}
use xedge.Prelude.Assoc.{Dict, get, put, get-put}
use xedge.Alarms.{
  AlarmState, normal, active, active_acked, Condition, Floats, UnifiedTag, AlarmRule, AlarmStatus,
  AlarmEngine, new_status, new_engine, status_of, rate_since, keep_rate, check_number,
  check_conditions, transition, evaluate_rule, evaluate, acknowledge_status, try_status,
  acknowledge, shelve, unshelve_status, unshelve,
}

-- A call of the engine, with the time that `datetime.now(UTC)` gives it.
pub data Action (F V : Type 0) : Type 0 where
  evaluate_tag : UnifiedTag F V → Action F V
  acknowledge_alarm : ℕ → String → String → Action F V
  shelve_alarm : ℕ → String → ℕ → Action F V
  unshelve_alarm : String → Action F V

module _ {A : Type 0} where
  abbrev pub IsSome : Option A → Type 0
  IsSome o = (x : A) × (o ≡ some x)

abbrev pub IsConsistentIn :
    AlarmState → Option Condition → Option ℕ → Option String → Option ℕ → Type 0
IsConsistentIn normal condition since by at = (condition ≡ none) × (since ≡ none)
IsConsistentIn active condition since by at =
    IsSome condition × IsSome since × (by ≡ none) × (at ≡ none)
IsConsistentIn active_acked condition since by at =
    IsSome condition × IsSome since × IsSome by × IsSome at

module _ {F V : Type 0} where
  -- The condition and the start are there just while the alarm is on, and the acknowledgment of an
  -- alarm that is on just when its state says so.
  abbrev pub IsConsistent : AlarmStatus F V → Type 0
  IsConsistent s =
      IsConsistentIn s.state s.condition s.active_since s.acknowledged_by s.acknowledged_at

  transition-IsConsistent :
      (condition : Option Condition) (now : ℕ) (state : AlarmState) (s : AlarmStatus F V)
      → IsConsistent (record s { state = state })
      → IsConsistent (transition condition now (record s { state = state }))
  unfolding transition
  transition-IsConsistent none now state s h = (refl, refl)
  transition-IsConsistent (some c) now normal s h = ((c, refl), (now, refl), refl, refl)
  transition-IsConsistent (some c) now active s h = ((c, refl), h.1, h.2, h.3)
  transition-IsConsistent (some c) now active_acked s h = ((c, refl), h.1, h.2, h.3)

  pub status_of-put :
      (e : AlarmEngine F V) (tag_id other : String) (after : AlarmStatus F V)
      → status_of (record e { status = put e.status tag_id after }) other
        ≡ (if tag_id == other then after else status_of e other)
  unfolding status_of
  status_of-put e tag_id other after =
      ap (λ o. elim o as (λ _. AlarmStatus F V) [ none ↦ new_status | some status ↦ status ])
        (get-put e.status tag_id other after)
      ∙ either (tag_id == other)
    where
      either :
          (b : Bool)
          → (elim (if b then some after else get e.status other) as (λ _. AlarmStatus F V) [
            | none ↦ new_status
            | some status ↦ status
          ])
            ≡ (if b then after else elim (get e.status other) as (λ _. AlarmStatus F V) [
              | none ↦ new_status
              | some status ↦ status
            ])
      either true = refl
      either false = refl

  abbrev pub IsSound : AlarmEngine F V → Type 0
  IsSound e = (tag_id : String) → IsConsistent (status_of e tag_id)

  put-IsSound :
      (e : AlarmEngine F V) (tag_id : String) (after : AlarmStatus F V)
      → IsSound e
      → IsConsistent after
      → IsSound (record e { status = put e.status tag_id after })
  put-IsSound e tag_id after h h' other =
      subst IsConsistent (sym (status_of-put e tag_id other after)) (either (tag_id == other))
    where
      either : (b : Bool) → IsConsistent (if b then after else status_of e other)
      either true = h'
      either false = h other

  abbrev IsKept : Option (AlarmStatus F V) → Type 0
  IsKept o = elim o [ none ↦ Unit {0} | some s ↦ IsConsistent s ]

  changed-IsSound :
      (tag_id : String) (e : AlarmEngine F V) (o : Option (AlarmStatus F V))
      → IsSound e
      → IsKept o
      → IsSound
          (elim o as (λ _. Bool × AlarmEngine F V) [
            | none ↦ (false, e)
            | some after ↦ (true, record e { status = put e.status tag_id after })
          ]).1
  changed-IsSound tag_id e none h h' = h
  changed-IsSound tag_id e (some after) h h' = put-IsSound e tag_id after h h'

  try_status-IsSound :
      (change : AlarmStatus F V → Option (AlarmStatus F V)) (tag_id : String) (e : AlarmEngine F V)
      → ((s : AlarmStatus F V) → IsConsistent s → IsKept (change s))
      → IsSound e
      → IsSound (try_status change tag_id e).1
  unfolding status_of
  try_status-IsSound change tag_id e keeps h = found (get e.status tag_id) (h tag_id)
    where
      found :
          (o : Option (AlarmStatus F V))
          → IsConsistent (elim o as (λ _. AlarmStatus F V) [ none ↦ new_status | some s ↦ s ])
          → IsSound
              (elim o as (λ _. Bool × AlarmEngine F V) [
                | none ↦ (false, e)
                | some s ↦ elim (change s) as (λ _. Bool × AlarmEngine F V) [
                  | none ↦ (false, e)
                  | some after ↦ (true, record e { status = put e.status tag_id after })
                ]
              ]).1
      found none h' = h
      found (some s) h' = changed-IsSound tag_id e (change s) h (keeps s h')

  acknowledge_status-IsKept :
      (clock : ℕ) (actor : String) (state : AlarmState) (s : AlarmStatus F V)
      → IsConsistent (record s { state = state })
      → IsKept (acknowledge_status clock actor (record s { state = state }))
  acknowledge_status-IsKept clock actor normal s h = tt
  acknowledge_status-IsKept clock actor active s h = (h.0, h.1, (actor, refl), (clock, refl))
  acknowledge_status-IsKept clock actor active_acked s h = tt

  unshelve_status-IsKept :
      (until : Option ℕ) (s : AlarmStatus F V)
      → IsConsistent (record s { shelved_until = until })
      → IsKept (unshelve_status (record s { shelved_until = until }))
  unshelve_status-IsKept none s h = tt
  unshelve_status-IsKept (some until) s h = h

  keep_rate-IsConsistent :
      (rate : Option F) (s : AlarmStatus F V) → IsConsistent s → IsConsistent (keep_rate rate s)
  keep_rate-IsConsistent none s h = h
  keep_rate-IsConsistent (some rate) s h = h

module _ {F V : Type 0} (floats : Floats F) where
  -- A check leaves the statuses of the engine as they are, and its own status consistent.
  abbrev IsChecked : AlarmEngine F V → Option Condition × AlarmStatus F V × AlarmEngine F V → Type 0
  IsChecked e r = IsConsistent r.1 × (r.2.status ≡ e.status)

  check_number-IsChecked :
      (limit : Option F) (rule : AlarmRule F) (tag_id : String) (now : ℕ) (value : F)
      (s : AlarmStatus F V) (e : AlarmEngine F V)
      → IsConsistent s
      → IsChecked e (
          check_number floats
            (record rule { rate_of_change_per_second = limit })
            tag_id
            now
            value
            s
            e)
  unfolding check_number
  check_number-IsChecked none rule tag_id now value s e h = (h, refl)
  check_number-IsChecked (some limit) rule tag_id now value s e h =
      (keep_rate-IsConsistent (rate_since floats (get e.last_sample tag_id) value now) s h, refl)

  check_conditions-IsChecked :
      (number : Option F) (rule : AlarmRule F) (tag : UnifiedTag F V) (s : AlarmStatus F V)
      (e : AlarmEngine F V)
      → IsConsistent s
      → IsChecked e (check_conditions floats rule (record tag { number = number }) s e)
  unfolding check_conditions
  check_conditions-IsChecked none rule tag s e h = (h, refl)
  check_conditions-IsChecked (some value) rule tag s e h =
      check_number-IsChecked rule.rate_of_change_per_second rule tag.tag_id tag.timestamp value s e
        h

  evaluate_rule-IsSound :
      (rule : AlarmRule F) (tag : UnifiedTag F V) (e : AlarmEngine F V)
      → IsSound e
      → IsSound (evaluate_rule floats rule tag e).1
  unfolding evaluate_rule
  evaluate_rule-IsSound rule tag e h =
      let status : AlarmStatus F V = record (status_of e tag.tag_id) {
        last_value = some tag.value;
      } in
      let (condition, checked, e') = check_conditions floats rule tag status e in
      let kept = check_conditions-IsChecked tag.number rule tag status e (h tag.tag_id) in
      put-IsSound e' tag.tag_id (transition condition tag.timestamp checked)
        (λ other.
          subst (λ d. IsConsistent (status_of (record e' { status = d }) other)) (sym kept.1)
            (h other))
        (transition-IsConsistent condition tag.timestamp checked.state checked kept.0)

  evaluate-IsSound :
      (tag : UnifiedTag F V) (e : AlarmEngine F V) → IsSound e → IsSound (evaluate floats tag e).1
  unfolding evaluate
  evaluate-IsSound tag e h = either (get e.rules tag.tag_id)
    where
      either :
          (o : Option (AlarmRule F))
          → IsSound
              (elim o as (λ _. UnifiedTag F V × AlarmEngine F V) [
                | none ↦ (tag, e)
                | some rule ↦ evaluate_rule floats rule tag e
              ]).1
      either none = h
      either (some rule) = evaluate_rule-IsSound rule tag e h

  unfoldable pub act : Action F V → AlarmEngine F V → AlarmEngine F V
  unfolding evaluate acknowledge shelve unshelve
  act (evaluate_tag tag) e = (evaluate floats tag e).1
  act (acknowledge_alarm clock tag_id actor) e = (acknowledge clock tag_id actor e).1
  act (shelve_alarm clock tag_id duration_seconds) e = shelve clock tag_id duration_seconds e
  act (unshelve_alarm tag_id) e = (unshelve tag_id e).1

  unfoldable pub act_all : List (Action F V) → AlarmEngine F V → AlarmEngine F V
  unfolding act
  act_all [] e = e
  act_all (action ∷ actions) e = act_all actions (act action e)

  act-IsSound : (action : Action F V) (e : AlarmEngine F V) → IsSound e → IsSound (act action e)
  unfolding act acknowledge shelve unshelve
  act-IsSound (evaluate_tag tag) e h = evaluate-IsSound tag e h
  act-IsSound (acknowledge_alarm clock tag_id actor) e h =
      try_status-IsSound (acknowledge_status clock actor) tag_id e
        (λ s. acknowledge_status-IsKept clock actor s.state s) h
  act-IsSound (shelve_alarm clock tag_id duration_seconds) e h =
      put-IsSound e tag_id
        (record (status_of e tag_id) { shelved_until = some (clock + duration_seconds) }) h
        (h tag_id)
  act-IsSound (unshelve_alarm tag_id) e h =
      try_status-IsSound unshelve_status tag_id e (λ s. unshelve_status-IsKept s.shelved_until s) h

  act_all-IsSound :
      (actions : List (Action F V)) (e : AlarmEngine F V) → IsSound e → IsSound (act_all actions e)
  unfolding act_all
  act_all-IsSound [] e h = h
  act_all-IsSound (action ∷ actions) e h =
      act_all-IsSound actions (act action e) (act-IsSound action e h)

  -- After any sequence of evaluations, acknowledgments, shelvings and unshelvings from a new engine on,
  -- with any rules and any floating-point operations, the status of every tag is consistent: a normal
  -- alarm has no condition and no start, an active one has both and no acknowledgment, and an
  -- acknowledged one has both and the actor and the time of its acknowledgment.
  pub act_all-IsConsistent :
      (rules : Dict (AlarmRule F)) (actions : List (Action F V)) (tag_id : String)
      → IsConsistent (status_of (act_all actions (new_engine rules)) tag_id)
  act_all-IsConsistent rules actions tag_id =
      act_all-IsSound actions (new_engine rules)
        (λ other. unfold new_engine in unfold status_of in unfold get in (refl, refl)) tag_id
