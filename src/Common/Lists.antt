-- ===== src/Common/Lists.antt =====
-- Lists: Rust's `len`, `find`, `any`, `all`, `filter` and `contains`, and what they say of members.
use Prim.Native.Nat.{ℕ, suc, ◌+◌}
use mathlib.Core.Path.{◌≡◌, refl, sym, ap, subst}
use mathlib.Core.Logic.{◌↔◌, ◌⊎◌, inl, inr}
use mathlib.Core.Bool.{Bool, true, false, not, ◌&&◌, ◌||◌}
use mathlib.Core.List.Memᴰ
use mathlib.Core.List.{List, [], ◌∷◌, ◌++◌, Memᴰ, map, flatten}
use mathlib.Core.Option.{Option, none, some}
use native.Mathlib.Omega.{arith}
use nfctl.Common.Tests.{PartialEq, ◌==◌, if◌then◌else◌, Bool-cases, beq_refl, eq_of_beq, ne_of_beq}

module _ {ℓ} {A : Type ℓ} where
  abbrev pub length : List A → ℕ
  length [] = 0
  length (x ∷ xs) = suc (length xs)

  abbrev pub is_empty : List A → Bool
  is_empty [] = true
  is_empty (x ∷ xs) = false

  unfoldable pub find : (A → Bool) → List A → Option A
  find p [] = none
  find p (x ∷ xs) = if p x then some x else find p xs

  unfoldable pub any : (A → Bool) → List A → Bool
  any p [] = false
  any p (x ∷ xs) = p x || any p xs

  unfoldable pub all : (A → Bool) → List A → Bool
  all p [] = true
  all p (x ∷ xs) = p x && all p xs

  -- `iter().filter(p)`; the library's `filter` takes a decision.
  unfoldable pub keep : (A → Bool) → List A → List A
  keep p [] = []
  keep p (x ∷ xs) = let rest = keep p xs in if p x then x ∷ rest else rest

  abbrev pub All {κ} : (A → Type κ) → List A → Type κ
  All P [] = Unit
  All P (x ∷ xs) = P x × All P xs

module _ {ℓ} {A : Type ℓ} (p : A → Bool) where
  pub find-some : (xs : List A) {a : A} → find p xs ≡ some a → Memᴰ a xs × (p a ≡ true)
  unfolding find
  find-some [] h = cc
  find-some (x ∷ xs) {a} h = elim (Bool-cases (p x)) [
    | inl e ↦
        let q : x ≡ a = ground (arith, h, e) in
        (Memᴰ.head (sym q), subst (λ (y : A). p y ≡ true) q e)
    | inr e ↦ let (m, q) = find-some xs {a = a} (rw e at h) in (Memᴰ.tail m, q)
  ]

  pub find-none : (xs : List A) {a : A} → find p xs ≡ none → Memᴰ a xs → p a ≡ false
  unfolding find
  find-none [] h m = elim m [ ]
  find-none (x ∷ xs) h (Memᴰ.head e) =
      rw e (elim (Bool-cases (p x)) [ inl t ↦ ground (arith, h, t) | inr f ↦ f ])
  find-none (x ∷ xs) h (Memᴰ.tail m) = elim (Bool-cases (p x)) [
    | inl t ↦ ground (arith, h, t)
    | inr f ↦ find-none xs (rw f at h) m
  ]

  pub any-of_mem : (xs : List A) {a : A} → Memᴰ a xs → p a ≡ true → any p xs ≡ true
  unfolding any
  any-of_mem [] m h = elim m [ ]
  any-of_mem (x ∷ xs) (Memᴰ.head e) h = rw (← e, h)
  any-of_mem (x ∷ xs) (Memᴰ.tail m) h = ground (arith, any-of_mem xs m h)

  pub mem_of_any : (xs : List A) → any p xs ≡ true → (a : A) × Memᴰ a xs × (p a ≡ true)
  unfolding any
  mem_of_any [] h = cc
  mem_of_any (x ∷ xs) h = elim (Bool-cases (p x)) [
    | inl e ↦ (x, Memᴰ.head refl, e)
    | inr e ↦ let (a, m, q) = mem_of_any xs (rw e at h) in (a, Memᴰ.tail m, q)
  ]

  pub all_iff : (xs : List A) → (all p xs ≡ true) ↔ ((a : A) → Memᴰ a xs → p a ≡ true)
  unfolding all
  all_iff [] = (λ _ a m. elim m [ ], λ _. refl)
  all_iff (x ∷ xs) = (
    λ h a m. elim (Memᴰ.cases_cons m) [
      | inl e ↦ rw e (ground (arith, h))
      | inr r ↦ (all_iff xs).0 (ground (arith, h)) a r
    ],
    λ h. ground (arith, h x (Memᴰ.head refl), (all_iff xs).1 (λ a m. h a (Memᴰ.tail m))),
  )

  pub mem-keep : (xs : List A) (a : A) → Memᴰ a (keep p xs) ↔ (Memᴰ a xs × (p a ≡ true))
  unfolding keep
  mem-keep [] a = (λ m. elim m [ ], λ h. h.0)
  mem-keep (x ∷ xs) a = elim (Bool-cases (p x)) [
    | inl t ↦ rw t (
      λ m. elim (Memᴰ.cases_cons m) [
        | inl e ↦ (Memᴰ.head e, subst (λ y. p y ≡ true) (sym e) t)
        | inr r ↦ let (q, s) = (mem-keep xs a).0 r in (Memᴰ.tail q, s)
      ],
      λ h. elim (Memᴰ.cases_cons h.0) [
        | inl e ↦ Memᴰ.head e
        | inr r ↦ Memᴰ.tail ((mem-keep xs a).1 (r, h.1))
      ],
    )
    | inr f ↦ rw f (
      λ m. let (q, s) = (mem-keep xs a).0 m in (Memᴰ.tail q, s),
      λ h. elim (Memᴰ.cases_cons h.0) [
        | inl e ↦ absurd (cc (f, h.1, e))
        | inr r ↦ (mem-keep xs a).1 (r, h.1)
      ],
    )
  ]

module _ {ℓ} {A : Type ℓ} ⦃e : PartialEq A⦄ where
  unfoldable pub contains : List A → A → Bool
  contains [] a = false
  contains (x ∷ xs) a = x == a || contains xs a

  pub contains_iff : (xs : List A) (a : A) → (contains xs a ≡ true) ↔ Memᴰ a xs
  unfolding contains
  contains_iff [] a = (λ h. cc, λ m. elim m [ ])
  contains_iff (x ∷ xs) a = (
    λ h. elim (Bool-cases (x == a)) [
      | inl t ↦ Memᴰ.head (sym (eq_of_beq x a t))
      | inr f ↦ Memᴰ.tail ((contains_iff xs a).0 (rw f at h))
    ],
    λ m. elim (Memᴰ.cases_cons m) [
      | inl p ↦ rw (p, beq_refl x)
      | inr r ↦ ground (arith, (contains_iff xs a).1 r)
    ],
  )

module _ {ℓ} {A : Type ℓ} where
  pub length-append : (xs ys : List A) → length (xs ++ ys) ≡ length xs + length ys
  length-append [] ys = omega arith
  length-append (x ∷ xs) ys = omega (arith, length-append xs ys)

  pub All-mem {κ} : (P : A → Type κ) (xs : List A) {a : A} → All P xs → Memᴰ a xs → P a
  All-mem P [] h m = elim m [ ]
  All-mem P (x ∷ xs) h (Memᴰ.head e) = subst P (sym e) h.0
  All-mem P (x ∷ xs) h (Memᴰ.tail m) = All-mem P xs h.1 m

  pub All-of_mem {κ} : (P : A → Type κ) (xs : List A) → ((a : A) → Memᴰ a xs → P a) → All P xs
  All-of_mem P [] h = tt
  All-of_mem P (x ∷ xs) h = (h x (Memᴰ.head refl), All-of_mem P xs (λ a m. h a (Memᴰ.tail m)))

  pub All-append {κ} : (P : A → Type κ) (xs ys : List A) → All P xs → All P ys → All P (xs ++ ys)
  All-append P [] ys hx hy = hy
  All-append P (x ∷ xs) ys hx hy = (hx.0, All-append P xs ys hx.1 hy)

pub all_append {ℓ} :
    {A : Type ℓ} (p : A → Bool) (xs ys : List A) → all p (xs ++ ys) ≡ (all p xs && all p ys)
unfolding all
all_append p [] ys = refl
all_append p (x ∷ xs) ys = ground (arith, all_append p xs ys)

pub all-false {ℓ} :
    {A : Type ℓ} (p : A → Bool) (xs : List A)
    → all p xs ≡ false
    → (a : A) × Memᴰ a xs × (p a ≡ false)
unfolding all
all-false p [] h = cc
all-false p (x ∷ xs) h = elim (Bool-cases (p x)) [
  | inl t ↦ let (a, m, q) = all-false p xs (rw t at h) in (a, Memᴰ.tail m, q)
  | inr f ↦ (x, Memᴰ.head refl, f)
]

pub all-flatten_map {ℓ κ} :
    {A : Type ℓ} {B : Type κ} (p : B → Bool) (f : A → List B) (xs : List A)
    → all p (flatten (map f xs)) ≡ all (λ a. all p (f a)) xs
unfolding all flatten
all-flatten_map p f [] = refl
all-flatten_map p f (x ∷ xs) =
    rw (all_append p (f x) (flatten (map f xs)), all-flatten_map p f xs) refl

pub empty_cases {ℓ} :
    {A : Type ℓ} (xs : List A)
    → ((xs ≡ []) × (is_empty xs ≡ true)) ⊎ ((¬ (xs ≡ [])) × (is_empty xs ≡ false))
empty_cases [] = inl (refl, refl)
empty_cases (x ∷ xs) = inr (λ h. cc, refl)

-- `retain(|a| f(a) != b)`
pub mem-keep_ne {ℓ κ} :
    {A : Type ℓ} {B : Type κ} ⦃e : PartialEq B⦄ (f : A → B) (b : B) (xs : List A) (a : A)
    → Memᴰ a (keep (λ x. not (f x == b)) xs) ↔ (Memᴰ a xs × (¬ (f a ≡ b)))
mem-keep_ne f b xs a =
    let kept = mem-keep (λ x. not (f x == b)) xs a in
    (
      λ m.
          let (n, q) = kept.0 m in
          elim (Bool-cases (f a == b)) [
            | inl t ↦ absurd (cc (q, ap not t))
            | inr t ↦ (n, ne_of_beq (f a) b t)
          ],
      λ (n, ne). kept.1 (
        n,
        elim (Bool-cases (f a == b)) [
          | inl t ↦ absurd (ne (eq_of_beq (f a) b t))
          | inr t ↦ ap not t
        ],
      ),
    )
