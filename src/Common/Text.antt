-- ===== src/Common/Text.antt =====
-- Texts as lists of code points: equality, `ends_with` and `rsplit_once`.
use Prim.Native.Nat.{ℕ}
use mathlib.Core.Path.{◌≡◌, refl, ap}
use mathlib.Core.Logic.{◌↔◌, ◌⊎◌, inl, inr}
use mathlib.Core.Bool.{Bool, true, false, ◌&&◌, ◌||◌}
use mathlib.Core.Option.{Option, none, some}
use mathlib.Core.List.{List, [], ◌∷◌, ◌++◌}
use native.Mathlib.Omega.{arith}
use nfctl.Common.Tests.{eqb, eqb_iff, if◌then◌else◌, Bool-cases}
use nfctl.Common.Lists.{All}

unfoldable pub same_text : List ℕ → List ℕ → Bool
same_text [] [] = true
same_text (c ∷ s) (d ∷ t) = eqb c d && same_text s t
same_text _ _ = false

pub same_text_iff : (s t : List ℕ) → (same_text s t ≡ true) ↔ (s ≡ t)
unfolding same_text
same_text_iff [] [] = ground arith
same_text_iff [] (d ∷ t) = ground arith
same_text_iff (c ∷ s) [] = ground arith
same_text_iff (c ∷ s) (d ∷ t) = ground (arith, eqb_iff c d, same_text_iff s t)

-- `s.ends_with(t)`
unfoldable pub ends_with : List ℕ → List ℕ → Bool
ends_with [] t = same_text [] t
ends_with (c ∷ s) t = same_text (c ∷ s) t || ends_with s t

nil_of_append : (p t : List ℕ) → [] ≡ p ++ t → [] ≡ t
nil_of_append [] t q = q
nil_of_append (c ∷ p) t q = cc

suffix_cases :
    (c : ℕ) (s t p : List ℕ) → (c ∷ s) ≡ p ++ t → ((c ∷ s) ≡ t) ⊎ ((r : List ℕ) × (s ≡ r ++ t))
suffix_cases c s t [] q = inl q
suffix_cases c s t (d ∷ p) q = inr (p, cc)

pub ends_with_iff : (s t : List ℕ) → (ends_with s t ≡ true) ↔ ((p : List ℕ) × (s ≡ p ++ t))
unfolding ends_with
ends_with_iff [] t =
    (λ h. ([], (same_text_iff [] t).0 h), λ (p, q). (same_text_iff [] t).1 (nil_of_append p t q))
ends_with_iff (c ∷ s) t = (
  λ h. elim (Bool-cases (same_text (c ∷ s) t)) [
    | inl p ↦ ([], (same_text_iff (c ∷ s) t).0 p)
    | inr p ↦
        let (q, e) = (ends_with_iff s t).0 (rw p at h) in (c ∷ q, ap (λ (r : List ℕ). c ∷ r) e)
  ],
  λ (p, q). elim (suffix_cases c s t p q) [
    | inl whole ↦ rw ((same_text_iff (c ∷ s) t).1 whole)
    | inr shorter ↦ ground (arith, (ends_with_iff s t).1 shorter)
  ],
)

-- `s.rsplit_once(sep)`: around the last separator.
unfoldable pub rsplit_once : ℕ → List ℕ → Option (List ℕ × List ℕ)
rsplit_once sep [] = none
rsplit_once sep (c ∷ s) = elim (rsplit_once sep s) [
  | some p ↦ some (c ∷ p.0, p.1)
  | none ↦ if eqb c sep then some ([], s) else none
]

rsplit_once-none :
    (sep : ℕ) (t : List ℕ) → All (λ c. eqb c sep ≡ false) t → rsplit_once sep t ≡ none
unfolding rsplit_once
rsplit_once-none sep [] h = refl
rsplit_once-none sep (c ∷ t) (e, h) = rw (rsplit_once-none sep t h, e)

-- The part after the last separator has none.
pub rsplit_once-append :
    (sep : ℕ) (s t : List ℕ)
    → All (λ c. eqb c sep ≡ false) t
    → rsplit_once sep (s ++ sep ∷ t) ≡ some (s, t)
unfolding rsplit_once
rsplit_once-append sep [] t h = rw (rsplit_once-none sep t h, (eqb_iff sep sep).1 refl)
rsplit_once-append sep (c ∷ s) t h = rw (rsplit_once-append sep s t h)
