-- ===== src/Prelude/Perms.antt =====
-- `All` along a permutation, for a predicate into propositions.
use mathlib.Core.Path.{refl}
use mathlib.Core.Logic.Or
use mathlib.Core.List.{List, [], ◌∷◌, ◌++◌, Mem, Perm, mem-cons, not-mem-nil}
use mathlib.Core.List.Perm
use xedge.Prelude.Lists.{All}

module _ {ℓ κ} {A : Type ℓ} (P : A → Type κ) (P_prop : (x : A) → IsProp (P x)) where
  All-mem : (a : A) (xs : List A) → All P xs → Mem a xs → P a
  All-mem a [] h m = absurd (not-mem-nil m)
  All-mem a (x ∷ xs) h m =
      Or.elim (P_prop a) (mem-cons.0 m) (λ e. rw e h.0) (λ n. All-mem a xs h.1 n)

  mem-All : (xs : List A) → ((a : A) → Mem a xs → P a) → All P xs
  mem-All [] f = tt
  mem-All (x ∷ xs) f =
      (f x (mem-cons.1 (Or.inl refl)), mem-All xs (λ a m. f a (mem-cons.1 (Or.inr m))))

  pub All-perm : {xs ys : List A} → Perm xs ys → All P ys → All P xs
  All-perm {xs} {ys} p h = mem-All xs (λ a m. All-mem a ys h ((Perm.mem_iff p).0 m))

module _ {ℓ κ} {A : Type ℓ} (P : A → Type κ) where
  pub All-split : (xs ys : List A) → All P (xs ++ ys) → All P xs × All P ys
  All-split [] ys h = (tt, h)
  All-split (x ∷ xs) ys h = let (l, r) = All-split xs ys h.1 in ((h.0, l), r)
