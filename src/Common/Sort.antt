-- ===== src/Common/Sort.antt =====
-- `sort_by` with an order given as a Boolean test: it is stable, as Rust's is.
use Prim.Native.Char.{code}
use Prim.Native.String.{String}
use mathlib.Core.Path.{◌≡◌, refl}
use mathlib.Core.Logic.{◌⊎◌, inl, inr}
use mathlib.Core.Bool.{Bool, true, false, ◌&&◌, ◌||◌}
use mathlib.Core.List.Perm
use mathlib.Core.List.{List, [], ◌∷◌, Perm}
use native.Mathlib.Omega.{arith}
use nfctl.Common.Tests.{if◌then◌else◌, ltb, eqb, Bool-cases}
use nfctl.Common.Lists.{All}

-- The order of `str` on the code points: the order of UTF-8 bytes is theirs.
abbrev pub leb_chars : String → String → Bool
leb_chars String.[] t = true
leb_chars (String.◌∷◌ c s) String.[] = false
leb_chars (String.◌∷◌ c s) (String.◌∷◌ d t) =
    ltb (code c) (code d) || (eqb (code c) (code d) && leb_chars s t)

pub leb_chars_total : (s t : String) → (leb_chars s t ≡ true) ⊎ (leb_chars t s ≡ true)
leb_chars_total String.[] t = inl refl
leb_chars_total (String.◌∷◌ c s) String.[] = inr refl
leb_chars_total (String.◌∷◌ c s) (String.◌∷◌ d t) = ground (arith, leb_chars_total s t)

pub leb_chars_trans :
    (s t u : String) → leb_chars s t ≡ true → leb_chars t u ≡ true → leb_chars s u ≡ true
leb_chars_trans String.[] t u h k = refl
leb_chars_trans (String.◌∷◌ c s) String.[] u h k = cc
leb_chars_trans (String.◌∷◌ c s) (String.◌∷◌ d t) String.[] h k = cc
leb_chars_trans (String.◌∷◌ c s) (String.◌∷◌ d t) (String.◌∷◌ e u) h k =
    ground (arith, h, k, leb_chars_trans s t u)

module _ {ℓ} {A : Type ℓ} (le : A → A → Bool) where
  abbrev pub insert : A → List A → List A
  insert a [] = a ∷ []
  insert a (x ∷ xs) = let rest = insert a xs in if le a x then a ∷ x ∷ xs else x ∷ rest

  abbrev pub sort_by : List A → List A
  sort_by [] = []
  sort_by (x ∷ xs) = insert x (sort_by xs)

  -- No element comes before a smaller one.
  abbrev pub Sorted : List A → Type ℓ
  Sorted [] = Unit
  Sorted (x ∷ xs) = All (λ y. le x y ≡ true) xs × Sorted xs

  insert-perm : (a : A) (xs : List A) → Perm (insert a xs) (a ∷ xs)
  insert-perm a [] = Perm.refl (a ∷ [])
  insert-perm a (x ∷ xs) = elim (Bool-cases (le a x)) [
    | inl p ↦ rw p (Perm.refl (a ∷ x ∷ xs))
    | inr p ↦ rw p (Perm.trans (Perm.cons x (insert-perm a xs)) (Perm.swap a x xs))
  ]

  pub sort_by-perm : (xs : List A) → Perm (sort_by xs) xs
  sort_by-perm [] = Perm.nil
  sort_by-perm (x ∷ xs) = Perm.trans (insert-perm x (sort_by xs)) (Perm.cons x (sort_by-perm xs))

  module _ (total : (x y : A) → (le x y ≡ true) ⊎ (le y x ≡ true))
      (trans : (x y z : A) → le x y ≡ true → le y z ≡ true → le x z ≡ true) where
    insert-All :
        (x a : A) (ys : List A)
        → le x a ≡ true
        → All (λ y. le x y ≡ true) ys
        → All (λ y. le x y ≡ true) (insert a ys)
    insert-All x a [] h hs = (h, tt)
    insert-All x a (y ∷ ys) h hs = elim (Bool-cases (le a y)) [
      | inl p ↦ rw p (h, hs)
      | inr p ↦ rw p (hs.0, insert-All x a ys h hs.1)
    ]

    below-All :
        (a x : A) (xs : List A)
        → le a x ≡ true
        → All (λ y. le x y ≡ true) xs
        → All (λ y. le a y ≡ true) xs
    below-All a x [] h hs = tt
    below-All a x (y ∷ ys) h hs = (trans a x y h hs.0, below-All a x ys h hs.1)

    insert-Sorted : (a : A) (xs : List A) → Sorted xs → Sorted (insert a xs)
    insert-Sorted a [] h = (tt, tt)
    insert-Sorted a (x ∷ xs) h = elim (Bool-cases (le a x)) [
      | inl p ↦ rw p ((p, below-All a x xs p h.0), h)
      | inr p ↦
          let q : le x a ≡ true = elim (total a x) [ inl t ↦ absurd (cc (t, p)) | inr t ↦ t ] in
          rw p (insert-All x a xs q h.0, insert-Sorted a xs h.1)
    ]

    pub sort_by-Sorted : (xs : List A) → Sorted (sort_by xs)
    sort_by-Sorted [] = tt
    sort_by-Sorted (x ∷ xs) = insert-Sorted x (sort_by xs) (sort_by-Sorted xs)
