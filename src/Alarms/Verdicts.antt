-- ===== src/Alarms/Verdicts.antt =====
-- What `evaluate` of xedge/core/alarms.py reports, by the calls that the engine got since it was made.
use xedge.Prelude.{
  ℕ, ◌+◌, ◌≡◌, refl, sym, ap, ◌∙◌, inl, inr, Bool-cases, subst, String, not, ◌&&◌, Option, none,
  some, List, [], ◌∷◌, eq_iff, if◌then◌else◌,
}
use text.Mathlib.Text.{◌==◌}
use xedge.Prelude.Assoc.{Dict, get, get-put}
use xedge.Alarms.{
  Floats, UnifiedTag, AlarmRule, AlarmStatus, AlarmEngine, new_engine, status_of, check_number,
  check_conditions, transition, is_shelved, evaluate_rule, evaluate, acknowledge_status,
  acknowledge, shelve, unshelve_status, unshelve,
}
use xedge.Alarms.States.{
  Action, evaluate_tag, acknowledge_alarm, shelve_alarm, unshelve_alarm, act, act_all,
}
use xedge.Alarms.Reports.{is_alarming, check_conditions-IsJudged, evaluate_lem}
use xedge.Alarms.Independence.{target, act-IsSameFor}
use xedge.Alarms.History.{
  newer, heard, last_numeric, held, shelved_after, Recorded, Follows, away-heard, put-shelved,
  try_status-IsShelvedBy, acknowledge_status-shelved, unshelve_status-shelved, transition-shelved,
  IsShelvedBy-Follows,
}

module _ {F : Type 0} where
  new-Follows :
      (V : Type 0) (rules : Dict (AlarmRule F)) (limit : Option F) (rule : AlarmRule F)
      (tag_id : String)
      → get rules tag_id ≡ some (record rule { rate_of_change_per_second = limit })
      → Follows {V = V}
          (record rule { rate_of_change_per_second = limit })
          tag_id
          none
          none
          (new_engine rules)
  unfolding new_engine status_of get
  new-Follows V rules none rule tag_id has = (has, tt, refl)
  new-Follows V rules (some limit) rule tag_id has = (has, refl, refl)

module _ {F : Type 0} (floats : Floats F) where
  -- The recorded sample judges like the last one.
  is_alarming-Recorded :
      (limit : Option F) (rule : AlarmRule F) (prior stored : Option (F × ℕ)) (number : Option F)
      (now : ℕ)
      → Recorded limit prior stored
      → is_alarming floats (record rule { rate_of_change_per_second = limit }) stored number now
        ≡ is_alarming floats (record rule { rate_of_change_per_second = limit }) prior number now
  is_alarming-Recorded limit rule prior stored none now h = refl
  is_alarming-Recorded none rule prior stored (some value) now h = refl
  is_alarming-Recorded (some limit) rule prior stored (some value) now h =
      ap
        (λ p.
          is_alarming floats (record rule { rate_of_change_per_second = some limit }) p (some value)
            now)
        h

module _ {F V : Type 0} (floats : Floats F) where
  -- A check leaves the rules, and records the sample.
  abbrev IsRecorded :
      Option F → Option (F × ℕ) → String → AlarmEngine F V → AlarmEngine F V → Type 0
  IsRecorded limit prior tag_id e e' =
      (e'.rules ≡ e.rules) × Recorded limit prior (get e'.last_sample tag_id)

  check_number-IsRecorded :
      (limit : Option F) (rule : AlarmRule F) (tag_id : String) (now : ℕ) (value : F)
      (s : AlarmStatus F V) (e : AlarmEngine F V)
      → IsRecorded limit
          (some (value, now))
          tag_id
          e
          (check_number floats
            (record rule { rate_of_change_per_second = limit })
            tag_id
            now
            value
            s
            e).2
  unfolding check_number
  check_number-IsRecorded none rule tag_id now value s e = (refl, tt)
  check_number-IsRecorded (some limit) rule tag_id now value s e = (
    refl,
    get-put e.last_sample tag_id tag_id (value, now)
        ∙ ap (λ b. if b then some (value, now) else get e.last_sample tag_id)
            ((eq_iff tag_id tag_id).1 refl),
  )

  check_conditions-IsRecorded :
      (number : Option F) (rule : AlarmRule F) (tag : UnifiedTag F V) (s : AlarmStatus F V)
      (e : AlarmEngine F V) (prior : Option (F × ℕ))
      → Recorded rule.rate_of_change_per_second prior (get e.last_sample tag.tag_id)
      → IsRecorded rule.rate_of_change_per_second
          (newer number tag.timestamp prior)
          tag.tag_id
          e
          (check_conditions floats rule (record tag { number = number }) s e).2
  unfolding check_conditions
  check_conditions-IsRecorded none rule tag s e prior h = (refl, h)
  check_conditions-IsRecorded (some value) rule tag s e prior h =
      check_number-IsRecorded rule.rate_of_change_per_second rule tag.tag_id tag.timestamp value s e

  evaluate_rule-Follows :
      (rule : AlarmRule F) (tag : UnifiedTag F V) (e : AlarmEngine F V) (prior : Option (F × ℕ))
      (until : Option ℕ)
      → Follows rule tag.tag_id prior until e
      → Follows rule tag.tag_id
          (newer tag.number tag.timestamp prior)
          until
          (evaluate_rule floats rule tag e).1
  unfolding evaluate_rule
  evaluate_rule-Follows rule tag e prior until h =
      let s : AlarmStatus F V = record (status_of e tag.tag_id) { last_value = some tag.value } in
      let r = check_conditions floats rule tag s e in
      let recorded = check_conditions-IsRecorded tag.number rule tag s e prior h.1 in
      (
        ap (λ d. get d tag.tag_id) recorded.0 ∙ h.0,
        recorded.1,
        ap (λ (x : AlarmStatus F V). x.shelved_until)
              (put-shelved r.2 tag.tag_id (transition r.0 tag.timestamp r.1))
            ∙ transition-shelved r.0 tag.timestamp r.1.state r.1
            ∙ (check_conditions-IsJudged floats tag.number rule tag s e).1
            ∙ h.2,
      )

  evaluate-Follows :
      (rule : AlarmRule F) (tag : UnifiedTag F V) (e : AlarmEngine F V) (prior : Option (F × ℕ))
      (until : Option ℕ)
      → Follows rule tag.tag_id prior until e
      → Follows rule tag.tag_id
          (newer tag.number tag.timestamp prior)
          until
          (evaluate floats tag e).1
  unfolding evaluate
  evaluate-Follows rule tag e prior until h =
      subst
        (λ o.
          Follows rule tag.tag_id (newer tag.number tag.timestamp prior) until
            (elim o as (λ _. UnifiedTag F V × AlarmEngine F V) [
              | none ↦ (tag, e)
              | some rule ↦ evaluate_rule floats rule tag e
            ]).1)
        (sym h.0) (evaluate_rule-Follows rule tag e prior until h)

  own_Follows :
      (action : Action F V) (rule : AlarmRule F) (e : AlarmEngine F V) (prior : Option (F × ℕ))
      (until : Option ℕ)
      → Follows rule (target action) prior until e
      → Follows rule
          (target action)
          (heard (target action) action prior)
          (held (target action) action until)
          (act floats action e)
  unfolding act acknowledge shelve unshelve
  own_Follows (evaluate_tag tag) rule e prior until h =
      rw ((eq_iff tag.tag_id tag.tag_id).1 refl) (evaluate-Follows rule tag e prior until h)
  own_Follows (acknowledge_alarm clock tag_id actor) rule e prior until h =
      IsShelvedBy-Follows (λ u. u) rule tag_id prior until e (acknowledge clock tag_id actor e).1
        (try_status-IsShelvedBy (λ u. u) (acknowledge_status clock actor) tag_id e refl
          (λ s. acknowledge_status-shelved clock actor s.state s))
        h
  own_Follows (shelve_alarm clock tag_id duration) rule e prior until h =
      rw ((eq_iff tag_id tag_id).1 refl) (
        h.0,
        h.1,
        ap (λ (x : AlarmStatus F V). x.shelved_until)
            (put-shelved e tag_id
              (record (status_of e tag_id) { shelved_until = some (clock + duration) })),
      )
  own_Follows (unshelve_alarm tag_id) rule e prior until h = rw ((eq_iff tag_id tag_id).1 refl) (
      IsShelvedBy-Follows (λ u. none) rule tag_id prior until e (unshelve tag_id e).1
        (try_status-IsShelvedBy (λ u. none) unshelve_status tag_id e refl
          (λ s. unshelve_status-shelved s.shelved_until s))
        h)

  act-Follows :
      (action : Action F V) (rule : AlarmRule F) (tag_id : String) (e : AlarmEngine F V)
      (prior : Option (F × ℕ)) (until : Option ℕ)
      → Follows rule tag_id prior until e
      → Follows rule tag_id
          (heard tag_id action prior)
          (held tag_id action until)
          (act floats action e)
  act-Follows action rule tag_id e prior until h = elim (Bool-cases (target action == tag_id)) [
    | inl own ↦
        subst
          (λ other.
            Follows rule other prior until e
            → Follows rule other (heard other action prior) (held other action until)
                (act floats action e))
          ((eq_iff (target action) tag_id).0 own) (own_Follows action rule e prior until) h
    | inr away ↦
        let same = act-IsSameFor floats action tag_id e away in
        let (quiet, still) = away-heard action tag_id prior until away in
        subst (λ p. Follows rule tag_id p (held tag_id action until) (act floats action e))
          (sym quiet)
          (
            same.0 ∙ h.0,
            subst (Recorded rule.rate_of_change_per_second prior) (sym same.2) h.1,
            ap (λ (x : AlarmStatus F V). x.shelved_until) same.1 ∙ h.2 ∙ sym still,
          )
  ]

  act_all-Follows :
      (actions : List (Action F V)) (rule : AlarmRule F) (tag_id : String) (e : AlarmEngine F V)
      (prior : Option (F × ℕ)) (until : Option ℕ)
      → Follows rule tag_id prior until e
      → Follows rule tag_id
          (last_numeric tag_id prior actions)
          (shelved_after tag_id until actions)
          (act_all floats actions e)
  unfolding act_all
  act_all-Follows [] rule tag_id e prior until h = h
  act_all-Follows (action ∷ actions) rule tag_id e prior until h =
      act_all-Follows actions rule tag_id (act floats action e) (heard tag_id action prior)
        (held tag_id action until) (act-Follows action rule tag_id e prior until h)

  -- After any sequence of evaluations, acknowledgments, shelvings and unshelvings from a new engine on,
  -- a sample of a tag that has a rule is reported as an alarm just when it is numeric and meets a limit
  -- of the rule, or moved faster than the rule allows since the last numeric sample of the tag in the
  -- sequence, and the tag is not shelved at the time of the sample by its last shelving or unshelving.
  pub evaluate-is_alarm :
      (rules : Dict (AlarmRule F)) (actions : List (Action F V)) (tag : UnifiedTag F V)
      (rule : AlarmRule F)
      → get rules tag.tag_id ≡ some rule
      → (evaluate floats tag (act_all floats actions (new_engine rules))).0.is_alarm ≡ (
          is_alarming floats rule (last_numeric tag.tag_id none actions) tag.number tag.timestamp
          && not (is_shelved (shelved_after tag.tag_id none actions) tag.timestamp))
  evaluate-is_alarm rules actions tag rule has =
      let e : AlarmEngine F V = act_all floats actions (new_engine rules) in
      let follows =
        act_all-Follows actions rule tag.tag_id (new_engine rules) none none
          (new-Follows V rules rule.rate_of_change_per_second rule tag.tag_id has) in
      evaluate_lem floats e tag rule follows.0
      ∙ ap (λ b. b && not (is_shelved (status_of e tag.tag_id).shelved_until tag.timestamp))
          (is_alarming-Recorded floats rule.rate_of_change_per_second rule
            (last_numeric tag.tag_id none actions) (get e.last_sample tag.tag_id) tag.number
            tag.timestamp follows.1)
      ∙ ap
          (λ u.
            is_alarming floats rule (last_numeric tag.tag_id none actions) tag.number tag.timestamp
            && not (is_shelved u tag.timestamp))
          follows.2
