-- ===== src/Common/Traverse.antt =====
-- Lists that agree element by element, such as a list and the results of a traversal.
use mathlib.Core.Path.{◌≡◌, refl, sym, subst}
use mathlib.Core.Logic.{◌↔◌}
use mathlib.Core.List.{List, [], ◌∷◌, Memᴰ, map}
use nfctl.Common.Lists.{All}
use nfctl.Common.Results.{Result, ok, ok_of_bind, traverse}

-- Element by element, in order.
abbrev pub Each {ℓ κ} : {A : Type ℓ} {B : Type κ} → (A → B → Type 0) → List A → List B → Type 0
Each R [] [] = Unit
Each R (x ∷ xs) (y ∷ ys) = R x y × Each R xs ys
Each R _ _ = ⊥

module _ {ℓ} {E : Type 0} {A : Type ℓ} {B : Type 0} (f : A → Result E B) where
  pub traverse-ok :
      (xs : List A) (ys : List B) → traverse f xs ≡ ok ys → Each (λ x y. f x ≡ ok y) xs ys
  unfolding traverse
  traverse-ok [] [] h = tt
  traverse-ok [] (y ∷ ys) h = cc
  traverse-ok (x ∷ xs) [] h =
      let (y, _, q) = ok_of_bind (f x) _ h in let (ys, _, r) = ok_of_bind (traverse f xs) _ q in cc
  traverse-ok (x ∷ xs) (z ∷ zs) h =
      let (y, p, q) = ok_of_bind (f x) _ h in
      let (ys, s, r) = ok_of_bind (traverse f xs) _ q in (cc (p, r), traverse-ok xs zs (cc (s, r)))

  pub traverse-of_each :
      (xs : List A) (ys : List B) → Each (λ x y. f x ≡ ok y) xs ys → traverse f xs ≡ ok ys
  unfolding traverse
  traverse-of_each [] [] e = refl
  traverse-of_each [] (y ∷ ys) e = elim e [ ]
  traverse-of_each (x ∷ xs) [] e = elim e [ ]
  traverse-of_each (x ∷ xs) (y ∷ ys) (p, e) = rw (p, traverse-of_each xs ys e)

  -- Each element converts, so the list does.
  pub traverse-of_all :
      {P : A → Type 0} (xs : List A)
      → ((x : A) → P x → (y : B) × (f x ≡ ok y))
      → All P xs
      → (ys : List B) × (traverse f xs ≡ ok ys)
  unfolding traverse
  traverse-of_all [] g h = ([], refl)
  traverse-of_all (x ∷ xs) g (p, h) =
      let (y, q) = g x p in let (ys, r) = traverse-of_all xs g h in (y ∷ ys, rw (q, r))

module _ {ℓ κ} {A : Type ℓ} {B : Type κ} (R : A → B → Type 0) where
  pub Each-map {μ} :
      {C : Type μ} (f : A → C) (g : B → C) (xs : List A) (ys : List B)
      → ((x : A) (y : B) → R x y → g y ≡ f x)
      → Each R xs ys
      → map g ys ≡ map f xs
  Each-map f g [] [] same e = refl
  Each-map f g [] (y ∷ ys) same e = elim e [ ]
  Each-map f g (x ∷ xs) [] same e = elim e [ ]
  Each-map f g (x ∷ xs) (y ∷ ys) same (r, e) = rw (same x y r, Each-map f g xs ys same e)

  pub Each-nil : (xs : List A) (ys : List B) → Each R xs ys → (xs ≡ []) ↔ (ys ≡ [])
  Each-nil [] [] e = (λ _. refl, λ _. refl)
  Each-nil [] (y ∷ ys) e = elim e [ ]
  Each-nil (x ∷ xs) [] e = elim e [ ]
  Each-nil (x ∷ xs) (y ∷ ys) e = (λ h. cc, λ h. cc)

  pub Each-right :
      (xs : List A) (ys : List B) {y : B} → Each R xs ys → Memᴰ y ys → (x : A) × Memᴰ x xs × R x y
  Each-right [] [] e m = elim m [ ]
  Each-right [] (z ∷ zs) e m = elim e [ ]
  Each-right (x ∷ xs) [] e m = elim e [ ]
  Each-right (x ∷ xs) (z ∷ zs) (r, e) (Memᴰ.head p) =
      (x, Memᴰ.head refl, subst (λ w. R x w) (sym p) r)
  Each-right (x ∷ xs) (z ∷ zs) (r, e) (Memᴰ.tail m) =
      let (w, n, q) = Each-right xs zs e m in (w, Memᴰ.tail n, q)

  pub Each-left :
      (xs : List A) (ys : List B) {x : A} → Each R xs ys → Memᴰ x xs → (y : B) × Memᴰ y ys × R x y
  Each-left [] [] e m = elim m [ ]
  Each-left [] (z ∷ zs) e m = elim e [ ]
  Each-left (x ∷ xs) [] e m = elim e [ ]
  Each-left (x ∷ xs) (z ∷ zs) (r, e) (Memᴰ.head p) =
      (z, Memᴰ.head refl, subst (λ w. R w z) (sym p) r)
  Each-left (x ∷ xs) (z ∷ zs) (r, e) (Memᴰ.tail m) =
      let (w, n, q) = Each-left xs zs e m in (w, Memᴰ.tail n, q)

  pub Each-all :
      {P : A → Type 0} (xs : List A) (ys : List B)
      → ((x : A) (y : B) → R x y → P x)
      → Each R xs ys
      → All P xs
  Each-all [] [] g e = tt
  Each-all [] (y ∷ ys) g e = elim e [ ]
  Each-all (x ∷ xs) [] g e = elim e [ ]
  Each-all (x ∷ xs) (y ∷ ys) g (r, e) = (g x y r, Each-all xs ys g e)

  pub Each-weaken :
      {S : A → B → Type 0} (xs : List A) (ys : List B)
      → ((x : A) (y : B) → R x y → S x y)
      → Each R xs ys
      → Each S xs ys
  Each-weaken [] [] g e = tt
  Each-weaken [] (y ∷ ys) g e = elim e [ ]
  Each-weaken (x ∷ xs) [] g e = elim e [ ]
  Each-weaken (x ∷ xs) (y ∷ ys) g (r, e) = (g x y r, Each-weaken xs ys g e)
