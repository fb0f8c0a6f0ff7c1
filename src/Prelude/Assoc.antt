-- ===== src/Prelude/Assoc.antt =====
-- Python's `dict` with text keys, in insertion order: a new key goes to the end, a key that is
-- there keeps its place.
use Prim.Native.String.{String}
use mathlib.Core.Path.{◌≡◌, refl, ap, subst, ◌∙◌}
use mathlib.Core.Logic.{inl, inr}
use mathlib.Core.Option.{Option, none, some}
use mathlib.Core.List.{List, [], ◌∷◌}
use text.Mathlib.Text.{◌==◌}
use text.Mathlib.TextEquality.{eq_iff}
use native.Mathlib.Omega.{arith}
use xedge.Prelude.Tests.{if◌then◌else◌, Bool-cases}
use xedge.Prelude.Lists.{All}

abbrev pub Dict {ℓ} : Type ℓ → Type ℓ
Dict V = List (String × V)

module _ {ℓ} {V : Type ℓ} where
  -- d.get(key)
  unfoldable pub get : Dict V → String → Option V
  get [] key = none
  get ((own, value) ∷ rest) key = if own == key then some value else get rest key

  -- d[key] = new
  unfoldable pub put : Dict V → String → V → Dict V
  put [] key new = (key, new) ∷ []
  put ((own, value) ∷ rest) key new =
      let later = put rest key new in if own == key then (own, new) ∷ rest else (own, value) ∷ later

  -- d.pop(key, None), for the keys that `put` makes
  unfoldable pub pop : Dict V → String → Dict V
  pop [] key = []
  pop ((own, value) ∷ rest) key =
      let later = pop rest key in if own == key then later else (own, value) ∷ later

  pub get-put :
      (d : Dict V) (key other : String) (new : V)
      → get (put d key new) other ≡ (if key == other then some new else get d other)
  unfolding get put
  get-put [] key other new = refl
  get-put ((own, value) ∷ rest) key other new =
      ground (arith, get-put rest key other new, eq_iff own key, eq_iff own other, eq_iff key other)

  pub get-pop :
      (d : Dict V) (key other : String)
      → get (pop d key) other ≡ (if key == other then none else get d other)
  unfolding get pop
  get-pop [] key other = ground arith
  get-pop ((own, value) ∷ rest) key other =
      ground (arith, get-pop rest key other, eq_iff own key, eq_iff own other, eq_iff key other)

  -- What holds of every entry holds of what `get` finds.
  pub get-All :
      (P : String × V → Type 0) (d : Dict V) (key : String) (value : V)
      → All P d
      → get d key ≡ some value
      → P (key, value)
  unfolding get
  get-All P [] key value h e = absurd (cc)
  get-All P ((own, first) ∷ rest) key value h e = elim (Bool-cases (own == key)) [
    | inl same ↦
        let k : own ≡ key = (eq_iff own key).0 same in
        let v : first ≡ value = ground arith in
        subst P (ap (λ t. (t, first)) k ∙ ap (λ t. (key, t)) v) h.0
    | inr other ↦ get-All P rest key value h.1 (rw other at e)
  ]
