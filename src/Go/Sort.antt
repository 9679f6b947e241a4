-- ===== src/Go/Sort.antt =====
-- sort.Slice, as an insertion sort.
pub mod Numbers
use mathlib.Core.List.{Permᴰ, Pairwise, mem-cons_self}
use mathlib.Core.List.Permᴰ
use bapi.Base.{sym, ap₂, ◌||◌, true, false, arith}
use mathlib.Core.List.{Perm}
use mathlib.Core.List.Perm
use bapi.Base.{
  refl, ap, ◌∙◌, suc, ◌≡◌, length, All, inr, inl, if◌then◌else◌, [], Bool-cases, ◌∷◌, List, Bool,
}

module _ {A : Type 0} (less : A → A → Bool) where
  place : A → List A → List A
  place x [] = x ∷ []
  place x (y ∷ ys) = if less y x then y ∷ place x ys else x ∷ y ∷ ys

  unfoldable pub sort_slice : List A → List A
  unfolding place
  sort_slice [] = []
  sort_slice (x ∷ xs) = place x (sort_slice xs)

  place-perm : (x : A) (xs : List A) → Perm (place x xs) (x ∷ xs)
  unfolding place
  place-perm x [] = Perm.refl (x ∷ [])
  place-perm x (y ∷ ys) = elim (Bool-cases (less y x)) [
    | inl e ↦ rw e (Perm.trans (Perm.cons y (place-perm x ys)) (Perm.swap x y ys))
    | inr e ↦ rw e (Perm.refl (x ∷ y ∷ ys))
  ]

  pub sort_slice-perm : (xs : List A) → Perm (sort_slice xs) xs
  unfolding sort_slice
  sort_slice-perm [] = Perm.refl []
  sort_slice-perm (x ∷ xs) =
      Perm.trans (place-perm x (sort_slice xs)) (Perm.cons x (sort_slice-perm xs))

  place-All {κ} : (P : A → Type κ) (x : A) (xs : List A) → P x → All P xs → All P (place x xs)
  unfolding place
  place-All P x [] p h = (p, tt)
  place-All P x (y ∷ ys) p h = elim (Bool-cases (less y x)) [
    | inl e ↦ rw e (h.0, place-All P x ys p h.1)
    | inr e ↦ rw e (p, h)
  ]

  pub sort_slice-All {κ} : (P : A → Type κ) (xs : List A) → All P xs → All P (sort_slice xs)
  unfolding sort_slice
  sort_slice-All P [] h = tt
  sort_slice-All P (x ∷ xs) h = place-All P x (sort_slice xs) h.0 (sort_slice-All P xs h.1)

  length-place : (x : A) (xs : List A) → length (place x xs) ≡ suc (length xs)
  unfolding place
  length-place x [] = refl
  length-place x (y ∷ ys) = elim (Bool-cases (less y x)) [
    | inl e ↦ rw e (ap suc (length-place x ys))
    | inr e ↦ rw e refl
  ]

  pub length-sort_slice : (xs : List A) → length (sort_slice xs) ≡ length xs
  unfolding sort_slice
  length-sort_slice [] = refl
  length-sort_slice (x ∷ xs) = length-place x (sort_slice xs) ∙ ap suc (length-sort_slice xs)

-- Of two entries that are not equal in the order, one comes first.
abbrev pub Apart : {A : Type 0} → (A → A → Bool) → A → A → Type 0
Apart less x y = (less x y || less y x) ≡ true

Apart-prop : {A : Type 0} (less : A → A → Bool) (x y : A) → IsProp (Apart less x y)
Apart-prop less x y = hlevel

Apart-sym : {A : Type 0} (less : A → A → Bool) (x y : A) → Apart less x y → Apart less y x
Apart-sym less x y h = ground arith

module _ {A : Type 0} (less : A → A → Bool)
    (trans : (x y z : A) → less x y ≡ true → less y z ≡ true → less x z ≡ true)
    (asym : (x y : A) → less x y ≡ true → less y x ≡ false) where
  place-place :
      (x y : A) (zs : List A)
      → less x y ≡ true
      → place less x (place less y zs) ≡ place less y (place less x zs)
  unfolding place
  place-place x y [] h = ground (arith, asym x y h)
  place-place x y (z ∷ zs) h =
      ground (arith, asym x y h, trans z x y, trans x y z, asym z x, asym z y, place-place x y zs h)

  place_comm :
      (x y : A) (zs : List A)
      → Apart less x y
      → place less x (place less y zs) ≡ place less y (place less x zs)
  place_comm x y zs h = elim (Bool-cases (less x y)) [
    | inl e ↦ place-place x y zs e
    | inr e ↦ sym (place-place y x zs (ground arith))
  ]

  -- The sorted list does not depend on the order of the entries, if no two of them are equal in it.
  pub sort_slice-Permᴰ :
      {xs ys : List A}
      → Permᴰ xs ys
      → Pairwise (Apart less) xs
      → sort_slice less xs ≡ sort_slice less ys
  unfolding sort_slice
  sort_slice-Permᴰ Permᴰ.nil h = refl
  sort_slice-Permᴰ (Permᴰ.cons {b = b} e p) (Pairwise.cons a h) =
      ap₂ (place less) e (sort_slice-Permᴰ p h)
  sort_slice-Permᴰ (Permᴰ.swap {a = a} {b = b} {l = l} e e') (Pairwise.cons h k) =
      place_comm a b (sort_slice less l) (h b mem-cons_self)
      ∙ ap₂ (λ x y. place less x (place less y (sort_slice less l))) e' e
  sort_slice-Permᴰ (Permᴰ.trans p q) h =
      sort_slice-Permᴰ p h
      ∙ sort_slice-Permᴰ q (Permᴰ.pairwise (Apart-prop less) (Apart-sym less) p h)
