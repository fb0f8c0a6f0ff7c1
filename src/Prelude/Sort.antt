-- ===== src/Prelude/Sort.antt =====
-- Python's `sorted`: a stable sort by a Boolean order on keys.
use mathlib.Core.Path.{◌≡◌}
use mathlib.Core.Bool.{Bool, true, false}
use mathlib.Core.Logic.{inl, inr}
use mathlib.Core.List.{List, [], ◌∷◌, Perm}
use mathlib.Core.List.Perm
use xedge.Prelude.Tests.{if◌then◌else◌, Bool-cases}
use xedge.Prelude.Lists.{All}

module _ {ℓ} {A : Type ℓ} (le : A → A → Bool) where
  unfoldable pub insert_sorted : A → List A → List A
  insert_sorted x [] = x ∷ []
  insert_sorted x (y ∷ ys) = if le x y then x ∷ y ∷ ys else y ∷ insert_sorted x ys

  unfoldable pub sorted_by : List A → List A
  unfolding insert_sorted
  sorted_by [] = []
  sorted_by (x ∷ xs) = insert_sorted x (sorted_by xs)

  pub insert_sorted-perm : (x : A) (ys : List A) → Perm (insert_sorted x ys) (x ∷ ys)
  unfolding insert_sorted
  insert_sorted-perm x [] = Perm.refl (x ∷ [])
  insert_sorted-perm x (y ∷ ys) = elim (Bool-cases (le x y)) [
    | inl e ↦ rw e (Perm.refl (x ∷ y ∷ ys))
    | inr e ↦ rw e (Perm.trans (Perm.cons y (insert_sorted-perm x ys)) (Perm.swap x y ys))
  ]

  pub sorted_by-perm : (xs : List A) → Perm (sorted_by xs) xs
  unfolding sorted_by
  sorted_by-perm [] = Perm.refl []
  sorted_by-perm (x ∷ xs) =
      Perm.trans (insert_sorted-perm x (sorted_by xs)) (Perm.cons x (sorted_by-perm xs))

  module _ {κ} (P : A → Type κ) where
    pub insert_sorted-All : (x : A) (ys : List A) → P x → All P ys → All P (insert_sorted x ys)
    unfolding insert_sorted
    insert_sorted-All x [] h hs = (h, tt)
    insert_sorted-All x (y ∷ ys) h hs = elim (Bool-cases (le x y)) [
      | inl e ↦ rw e (h, hs)
      | inr e ↦ rw e (hs.0, insert_sorted-All x ys h hs.1)
    ]

    pub sorted_by-All : (xs : List A) → All P xs → All P (sorted_by xs)
    unfolding sorted_by
    sorted_by-All [] h = tt
    sorted_by-All (x ∷ xs) h = insert_sorted-All x (sorted_by xs) h.0 (sorted_by-All xs h.1)

-- A list in which no element comes before one that it must follow.
abbrev pub IsSorted {ℓ κ} : {A : Type ℓ} → (A → A → Type κ) → List A → Type (ℓ ⊔ κ)
IsSorted R [] = Unit
IsSorted R (x ∷ xs) = All (R x) xs × IsSorted R xs

module _ {ℓ κ} {A : Type ℓ} (le : A → A → Bool) (R : A → A → Type κ)
    (le_R : (x y : A) → le x y ≡ true → R x y) (not_le_R : (x y : A) → le x y ≡ false → R y x)
    (R_trans : (x y z : A) → R x y → R y z → R x z) where
  All-trans : (x y : A) (zs : List A) → R x y → All (R y) zs → All (R x) zs
  All-trans x y [] h hs = tt
  All-trans x y (z ∷ zs) h hs = (R_trans x y z h hs.0, All-trans x y zs h hs.1)

  pub insert_sorted-IsSorted :
      (x : A) (ys : List A) → IsSorted R ys → IsSorted R (insert_sorted le x ys)
  unfolding insert_sorted
  insert_sorted-IsSorted x [] h = (tt, tt)
  insert_sorted-IsSorted x (y ∷ ys) h = elim (Bool-cases (le x y)) [
    | inl e ↦ rw e ((le_R x y e, All-trans x y ys (le_R x y e) h.0), h)
    | inr e ↦
        rw e (insert_sorted-All le (R y) x ys (not_le_R x y e) h.0, insert_sorted-IsSorted x ys h.1)
  ]

  pub sorted_by-IsSorted : (xs : List A) → IsSorted R (sorted_by le xs)
  unfolding sorted_by
  sorted_by-IsSorted [] = tt
  sorted_by-IsSorted (x ∷ xs) = insert_sorted-IsSorted x (sorted_by le xs) (sorted_by-IsSorted xs)
