-- ===== src/Common/Tests.antt =====
-- Boolean tests: the conditional, orders of numbers, and `==` by instances (Rust's `PartialEq`).
use Prim.Native.Nat.{ℕ, compare, Ordering}
use Prim.Native.String.{String}
use mathlib.Core.Path.{◌≡◌, refl}
use mathlib.Core.Logic.{◌↔◌, ◌⊎◌, inl, inr}
use mathlib.Core.Bool.{Bool, true, false, not, ◌&&◌}
use mathlib.Core.Option.{Option, none, some}
use native.Mathlib.Omega.{arith}
use text.Mathlib.Text.{◌==◌ as str_eq}
use text.Mathlib.TextEquality.{eq_iff}

abbrev pub ltb : ℕ → ℕ → Bool
ltb a b = elim (compare a b) [ Ordering.lt ↦ true | _ ↦ false ]

abbrev pub leb : ℕ → ℕ → Bool
leb a b = elim (compare a b) [ Ordering.gt ↦ false | _ ↦ true ]

abbrev pub eqb : ℕ → ℕ → Bool
eqb a b = elim (compare a b) [ Ordering.eq ↦ true | _ ↦ false ]

infix 1 if◌then◌else◌
abbrev pub if◌then◌else◌ {ℓ} : {A : Type ℓ} → Bool → A → A → A
if true then x else y = x
if false then x else y = y

pub eqb_iff : (a b : ℕ) → (eqb a b ≡ true) ↔ (a ≡ b)
eqb_iff a b = ground arith

pub Bool-cases : (b : Bool) → (b ≡ true) ⊎ (b ≡ false)
Bool-cases true = inl refl
Bool-cases false = inr refl

pub Option-cases {ℓ} : {A : Type ℓ} (o : Option A) → (o ≡ none) ⊎ ((a : A) × (o ≡ some a))
Option-cases none = inl refl
Option-cases (some a) = inr (a, refl)

-- Rust's `PartialEq`, as derived: the test decides equality.
pub record PartialEq {ℓ} (T : Type ℓ) : Type ℓ where
  pub same : T → T → Bool
  pub eq_law : (x y : T) → (same x y ≡ true) ↔ (x ≡ y)

abbrev pub ◌==◌ {ℓ} : {T : Type ℓ} ⦃t : PartialEq T⦄ → T → T → Bool
◌==◌ ⦃t⦄ x y = t.same x y

infix 50 ◌==◌
instance abbrev pub string_eq : PartialEq String
string_eq = record { same = str_eq; eq_law = eq_iff }

instance abbrev pub nat_eq : PartialEq ℕ
nat_eq = record { same = eqb; eq_law = eqb_iff }

module _ {ℓ} {A : Type ℓ} ⦃e : PartialEq A⦄ where
  pub beq_refl : (a : A) → (a == a) ≡ true
  beq_refl a = (e.eq_law a a).1 refl

  pub eq_of_beq : (a b : A) → (a == b) ≡ true → a ≡ b
  eq_of_beq a b = (e.eq_law a b).0

  pub beq_of_eq : (a b : A) → a ≡ b → (a == b) ≡ true
  beq_of_eq a b = (e.eq_law a b).1

  pub ne_of_beq : (a b : A) → (a == b) ≡ false → ¬ (a ≡ b)
  ne_of_beq a b h p = cc (h, (e.eq_law a b).1 p)

abbrev pub option_same {ℓ} : {A : Type ℓ} ⦃e : PartialEq A⦄ → Option A → Option A → Bool
option_same none none = true
option_same (some a) (some b) = a == b
option_same _ _ = false

pub option_same_law {ℓ} :
    {A : Type ℓ} ⦃e : PartialEq A⦄ (a b : Option A) → (option_same a b ≡ true) ↔ (a ≡ b)
option_same_law none none = ground arith
option_same_law none (some b) = ground arith
option_same_law (some a) none = ground arith
option_same_law ⦃e⦄ (some a) (some b) = ground (arith, e.eq_law a b)

instance abbrev pub option_eq {ℓ} : {A : Type ℓ} ⦃e : PartialEq A⦄ → PartialEq (Option A)
option_eq = record { same = option_same; eq_law = option_same_law }

abbrev pub pair_same {ℓ κ} :
    {A : Type ℓ} {B : Type κ} ⦃e : PartialEq A⦄ ⦃f : PartialEq B⦄ → A × B → A × B → Bool
pair_same p q = p.0 == q.0 && p.1 == q.1

pub pair_same_law {ℓ κ} :
    {A : Type ℓ} {B : Type κ} ⦃e : PartialEq A⦄ ⦃f : PartialEq B⦄ (p q : A × B)
    → (pair_same p q ≡ true) ↔ (p ≡ q)
pair_same_law ⦃e⦄ ⦃f⦄ (a, b) (c, d) = ground (arith, e.eq_law a c, f.eq_law b d)

instance abbrev pub pair_eq {ℓ κ} :
    {A : Type ℓ} {B : Type κ} ⦃e : PartialEq A⦄ ⦃f : PartialEq B⦄ → PartialEq (A × B)
pair_eq = record { same = pair_same; eq_law = pair_same_law }

abbrev pub bool_same : Bool → Bool → Bool
bool_same true b = b
bool_same false b = not b

pub bool_same_law : (a b : Bool) → (bool_same a b ≡ true) ↔ (a ≡ b)
bool_same_law a b = ground arith

instance abbrev pub bool_eq : PartialEq Bool
bool_eq = record { same = bool_same; eq_law = bool_same_law }

-- `Option::unwrap_or`
abbrev pub or_else {ℓ} : {A : Type ℓ} → Option A → A → A
or_else none a = a
or_else (some x) a = x

-- `Option::is_some`
abbrev pub is_some {ℓ} : {A : Type ℓ} → Option A → Bool
is_some none = false
is_some (some a) = true
