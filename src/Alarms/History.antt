-- ===== src/Alarms/History.antt =====
-- What an engine of xedge/core/alarms.py has on record of a tag, by the calls it got: the last numeric
-- sample and the shelving.
use xedge.Prelude.{
  ℕ, ◌+◌, ◌≡◌, refl, sym, ap, ◌∙◌, subst, String, Bool, true, false, Option, none, some, List, [],
  ◌∷◌, eq_iff, if◌then◌else◌,
}
use text.Mathlib.Text.{◌==◌}
use xedge.Prelude.Assoc.{get, put}
use xedge.Alarms.{
  AlarmState, normal, active, active_acked, Condition, AlarmRule, AlarmStatus, AlarmEngine,
  new_status, status_of, transition, acknowledge_status, try_status, unshelve_status,
}
use xedge.Alarms.States.{
  Action, evaluate_tag, acknowledge_alarm, shelve_alarm, unshelve_alarm, status_of-put,
}
use xedge.Alarms.Independence.{target}

module _ {F : Type 0} where
  -- A sample with its time, if it is numeric.
  abbrev pub newer : Option F → ℕ → Option (F × ℕ) → Option (F × ℕ)
  newer none now prior = prior
  newer (some value) now prior = some (value, now)

  -- The last sample is on record, if the rule has a limit for the rate.
  abbrev pub Recorded : Option F → Option (F × ℕ) → Option (F × ℕ) → Type 0
  Recorded none prior stored = Unit {0}
  Recorded (some limit) prior stored = stored ≡ prior

module _ {F V : Type 0} where
  abbrev pub heard : String → Action F V → Option (F × ℕ) → Option (F × ℕ)
  heard tag_id (evaluate_tag tag) prior =
      if tag.tag_id == tag_id then newer tag.number tag.timestamp prior else prior
  heard tag_id (acknowledge_alarm clock other actor) prior = prior
  heard tag_id (shelve_alarm clock other duration) prior = prior
  heard tag_id (unshelve_alarm other) prior = prior

  -- The last numeric sample of a tag in a sequence of calls.
  abbrev pub last_numeric : String → Option (F × ℕ) → List (Action F V) → Option (F × ℕ)
  last_numeric tag_id prior [] = prior
  last_numeric tag_id prior (action ∷ rest) = last_numeric tag_id (heard tag_id action prior) rest

  abbrev pub held : String → Action F V → Option ℕ → Option ℕ
  held tag_id (evaluate_tag tag) until = until
  held tag_id (acknowledge_alarm clock other actor) until = until
  held tag_id (shelve_alarm clock other duration) until =
      if other == tag_id then some (clock + duration) else until
  held tag_id (unshelve_alarm other) until = if other == tag_id then none else until

  -- Until when a tag is shelved after a sequence of calls.
  abbrev pub shelved_after : String → Option ℕ → List (Action F V) → Option ℕ
  shelved_after tag_id until [] = until
  shelved_after tag_id until (action ∷ rest) = shelved_after tag_id (held tag_id action until) rest

  -- An engine agrees with a history of a tag that has a rule.
  abbrev pub Follows : AlarmRule F → String → Option (F × ℕ) → Option ℕ → AlarmEngine F V → Type 0
  Follows rule tag_id prior until e =
      (get e.rules tag_id ≡ some rule)
      × Recorded rule.rate_of_change_per_second prior (get e.last_sample tag_id)
      × ((status_of e tag_id).shelved_until ≡ until)

  pub away-heard :
      (action : Action F V) (tag_id : String) (prior : Option (F × ℕ)) (until : Option ℕ)
      → (target action == tag_id) ≡ false
      → (heard tag_id action prior ≡ prior) × (held tag_id action until ≡ until)
  away-heard (evaluate_tag tag) tag_id prior until away = (rw away refl, refl)
  away-heard (acknowledge_alarm clock other actor) tag_id prior until away = (refl, refl)
  away-heard (shelve_alarm clock other duration) tag_id prior until away = (refl, rw away refl)
  away-heard (unshelve_alarm other) tag_id prior until away = (refl, rw away refl)

  status_of-get :
      (e : AlarmEngine F V) (tag_id : String) (o : Option (AlarmStatus F V))
      → get e.status tag_id ≡ o
      → status_of e tag_id ≡ (elim o as (λ _. AlarmStatus F V) [ none ↦ new_status | some s ↦ s ])
  unfolding status_of
  status_of-get e tag_id o h =
      ap (λ p. elim p as (λ _. AlarmStatus F V) [ none ↦ new_status | some s ↦ s ]) h

  pub put-shelved :
      (e : AlarmEngine F V) (tag_id : String) (after : AlarmStatus F V)
      → status_of (record e { status = put e.status tag_id after }) tag_id ≡ after
  put-shelved e tag_id after =
      status_of-put e tag_id tag_id after
      ∙ ap (λ b. if b then after else status_of e tag_id) ((eq_iff tag_id tag_id).1 refl)

  -- What a change of a status that may refuse it does to the shelving.
  abbrev shelved_by : AlarmStatus F V → Option (AlarmStatus F V) → Option ℕ
  shelved_by s none = s.shelved_until
  shelved_by s (some after) = after.shelved_until

  abbrev pub IsShelvedBy :
      (Option ℕ → Option ℕ) → String → AlarmEngine F V → AlarmEngine F V → Type 0
  IsShelvedBy f tag_id e e' =
      (e'.rules ≡ e.rules)
      × (e'.last_sample ≡ e.last_sample)
      × ((status_of e' tag_id).shelved_until ≡ f (status_of e tag_id).shelved_until)

  pub try_status-IsShelvedBy :
      (f : Option ℕ → Option ℕ) (change : AlarmStatus F V → Option (AlarmStatus F V))
      (tag_id : String) (e : AlarmEngine F V)
      → (none ≡ f none)
      → ((s : AlarmStatus F V) → shelved_by s (change s) ≡ f s.shelved_until)
      → IsShelvedBy f tag_id e (try_status change tag_id e).1
  try_status-IsShelvedBy f change tag_id e empty changes =
      found (get e.status tag_id) (status_of-get e tag_id (get e.status tag_id) refl)
    where
      changed :
          (s : AlarmStatus F V) (o : Option (AlarmStatus F V))
          → status_of e tag_id ≡ s
          → shelved_by s o ≡ f s.shelved_until
          → IsShelvedBy f tag_id e
              (elim o as (λ _. Bool × AlarmEngine F V) [
                | none ↦ (false, e)
                | some after ↦ (true, record e { status = put e.status tag_id after })
              ]).1
      changed s none h c = (
        refl,
        refl,
        subst (λ (x : AlarmStatus F V). x.shelved_until ≡ f x.shelved_until) (sym h) c,
      )
      changed s (some after) h c = (
        refl,
        refl,
        ap (λ (x : AlarmStatus F V). x.shelved_until) (put-shelved e tag_id after)
            ∙ c
            ∙ ap (λ (x : AlarmStatus F V). f x.shelved_until) (sym h),
      )

      found :
          (o : Option (AlarmStatus F V))
          → status_of e tag_id
            ≡ (elim o as (λ _. AlarmStatus F V) [ none ↦ new_status | some s ↦ s ])
          → IsShelvedBy f tag_id e
              (elim o as (λ _. Bool × AlarmEngine F V) [
                | none ↦ (false, e)
                | some s ↦ elim (change s) as (λ _. Bool × AlarmEngine F V) [
                  | none ↦ (false, e)
                  | some after ↦ (true, record e { status = put e.status tag_id after })
                ]
              ]).1
      found none h = (
        refl,
        refl,
        subst (λ (x : AlarmStatus F V). x.shelved_until ≡ f x.shelved_until) (sym h) empty,
      )
      found (some s) h = changed s (change s) h (changes s)

  pub acknowledge_status-shelved :
      (clock : ℕ) (actor : String) (state : AlarmState) (s : AlarmStatus F V)
      → shelved_by
          (record s { state = state })
          (acknowledge_status clock actor (record s { state = state }))
        ≡ s.shelved_until
  acknowledge_status-shelved clock actor normal s = refl
  acknowledge_status-shelved clock actor active s = refl
  acknowledge_status-shelved clock actor active_acked s = refl

  pub unshelve_status-shelved :
      (until : Option ℕ) (s : AlarmStatus F V)
      → shelved_by
          (record s { shelved_until = until })
          (unshelve_status (record s { shelved_until = until }))
        ≡ none
  unshelve_status-shelved none s = refl
  unshelve_status-shelved (some until) s = refl

  pub transition-shelved :
      (condition : Option Condition) (now : ℕ) (state : AlarmState) (s : AlarmStatus F V)
      → (transition condition now (record s { state = state })).shelved_until ≡ s.shelved_until
  unfolding transition
  transition-shelved none now state s = refl
  transition-shelved (some c) now normal s = refl
  transition-shelved (some c) now active s = refl
  transition-shelved (some c) now active_acked s = refl

  pub IsShelvedBy-Follows :
      (f : Option ℕ → Option ℕ) (rule : AlarmRule F) (tag_id : String) (prior : Option (F × ℕ))
      (until : Option ℕ) (e e' : AlarmEngine F V)
      → IsShelvedBy f tag_id e e'
      → Follows rule tag_id prior until e
      → Follows rule tag_id prior (f until) e'
  IsShelvedBy-Follows f rule tag_id prior until e e' h l = (
    ap (λ d. get d tag_id) h.0 ∙ l.0,
    subst (λ d. Recorded rule.rate_of_change_per_second prior (get d tag_id)) (sym h.1) l.1,
    h.2 ∙ ap f l.2,
  )
