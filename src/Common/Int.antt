-- ===== src/Common/Int.antt =====
-- `i64` values as integers; `negsuc n` is -(n + 1).
use Prim.Native.Nat.{ℕ, ◌+◌}
use mathlib.Core.Path.{◌≡◌}
use mathlib.Core.Logic.{◌↔◌}
use mathlib.Core.Bool.{Bool, true, false}
use mathlib.Core.Option.{Option, none, some}
use native.Mathlib.Omega.{arith}
use nfctl.Common.Tests.{PartialEq, eqb, leb, if◌then◌else◌, nat_eq, eqb_iff}

pub data ℤ : Type 0 where
  pos : ℕ → ℤ
  negsuc : ℕ → ℤ

abbrev pub int_same : ℤ → ℤ → Bool
int_same (pos a) (pos b) = eqb a b
int_same (negsuc a) (negsuc b) = eqb a b
int_same _ _ = false

pub int_same_law : (a b : ℤ) → (int_same a b ≡ true) ↔ (a ≡ b)
int_same_law (pos a) (pos b) = ground (arith, eqb_iff a b)
int_same_law (pos a) (negsuc b) = ground arith
int_same_law (negsuc a) (pos b) = ground arith
int_same_law (negsuc a) (negsuc b) = ground (arith, eqb_iff a b)

instance abbrev pub int_eq : PartialEq ℤ
int_eq = record { same = int_same; eq_law = int_same_law }

abbrev pub is_negative : ℤ → Bool
is_negative (pos _) = false
is_negative (negsuc _) = true

-- `i64::MAX`
abbrev pub i64_max : ℕ
i64_max = 9223372036854775807

-- `checked_add` of two `i64` values that are not negative.
abbrev pub checked_add : ℕ → ℕ → Option ℕ
checked_add a b = if leb (a + b) i64_max then some (a + b) else none
