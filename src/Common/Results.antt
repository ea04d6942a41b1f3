-- ===== src/Common/Results.antt =====
-- `Result<A, E>` and the chains of `?`.
use mathlib.Core.Path.{◌≡◌, refl}
use mathlib.Core.Logic.{◌⊎◌, inl, inr}
use mathlib.Core.Bool.{Bool, true, false}
use mathlib.Core.Option.{Option, none, some}
use mathlib.Core.List.{List, [], ◌∷◌}
use native.Mathlib.Omega.{arith}

pub data Result {ℓ} (E : Type 0) (A : Type ℓ) : Type ℓ where
  ok : A → Result E A
  err : E → Result E A

module _ {ℓ κ} {E : Type 0} {A : Type ℓ} {B : Type κ} where
  infixl 5 ◌>>=◌
  abbrev pub ◌>>=◌ : Result E A → (A → Result E B) → Result E B
  ok a >>= f = f a
  err x >>= f = err x

  -- How a chain ended well, or badly.
  pub ok_of_bind :
      (m : Result E A) (f : A → Result E B) {b : B}
      → (m >>= f) ≡ ok b
      → (a : A) × (m ≡ ok a) × (f a ≡ ok b)
  ok_of_bind (err x) f h = cc
  ok_of_bind (ok a) f h = (a, refl, h)

  -- The same, for what follows from the two halves.
  pub after_bind {μ} :
      {P : Type μ} (m : Result E A) (f : A → Result E B) {b : B}
      → (m >>= f) ≡ ok b
      → ((a : A) → m ≡ ok a → f a ≡ ok b → P)
      → P
  after_bind (err x) f h k = cc
  after_bind (ok a) f h k = k a refl h

  pub err_of_bind :
      (m : Result E A) (f : A → Result E B) {x : E}
      → (m >>= f) ≡ err x
      → (m ≡ err x) ⊎ ((a : A) × (m ≡ ok a) × (f a ≡ err x))
  err_of_bind (ok a) f h = inr (a, refl, h)
  err_of_bind (err y) f h = inl (ground (arith, h))

infixl 5 ◌>>◌
abbrev pub ◌>>◌ {ℓ} : {E : Type 0} {B : Type ℓ} → Result E (Unit {0}) → Result E B → Result E B
m >> rest = m >>= λ _. rest

abbrev pub is_ok {ℓ} : {E : Type 0} {A : Type ℓ} → Result E A → Bool
is_ok (ok a) = true
is_ok (err x) = false

-- `Result::ok`
abbrev pub to_option {ℓ} : {E : Type 0} {A : Type ℓ} → Result E A → Option A
to_option (ok a) = some a
to_option (err x) = none

pub Result-cases {ℓ} :
    {E : Type 0} {A : Type ℓ} (r : Result E A) → ((a : A) × (r ≡ ok a)) ⊎ ((x : E) × (r ≡ err x))
Result-cases (ok a) = inl (a, refl)
Result-cases (err x) = inr (x, refl)

pub ok_injective {ℓ} :
    {E : Type 0} {A : Type ℓ} {a b : A} → ◌≡◌ {A = Result E A} (ok a) (ok b) → a ≡ b
ok_injective q = cc

-- `map_err`
abbrev pub map_err {ℓ} : {E E' : Type 0} {A : Type ℓ} → (E → E') → Result E A → Result E' A
map_err g (ok a) = ok a
map_err g (err x) = err (g x)

-- `ok_or`, `ok_or_else`
abbrev pub ok_or {ℓ} : {E : Type 0} {A : Type ℓ} → Option A → E → Result E A
ok_or none x = err x
ok_or (some a) x = ok a

-- `iter().map(f).collect::<Result<Vec<_>, _>>()`: the first error, or all results in order.
unfoldable pub traverse {ℓ κ} :
    {E : Type 0} {A : Type ℓ} {B : Type κ} → (A → Result E B) → List A → Result E (List B)
traverse f [] = ok []
traverse f (x ∷ xs) = f x >>= λ y. traverse f xs >>= λ ys. ok (y ∷ ys)
