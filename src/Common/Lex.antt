-- ===== src/Common/Lex.antt =====
-- The order of texts by code points, and of pairs of a text and something else.
use Prim.Native.Char.{code}
use Prim.Native.Nat.{◌<◌}
use Prim.Native.String.{String}
use mathlib.Core.Path.{◌≡◌, refl, sym, ◌∙◌, subst}
use mathlib.Core.Logic.{◌↔◌, ◌⊎◌, inl, inr}
use mathlib.Core.Bool.{Bool, true}
use native.Mathlib.Omega.{arith}
use text.Mathlib.TextEquality.{Char-path}
use nfctl.Common.Tests.{if◌then◌else◌, ltb, Bool-cases, ◌==◌, string_eq, eq_of_beq, ne_of_beq}
use nfctl.Common.Sort.{leb_chars, leb_chars_total}

-- The order of a dictionary, by code points.
abbrev pub Precedes : String → String → Type 0
Precedes String.[] String.[] = ⊥
Precedes String.[] (String.◌∷◌ d t) = Unit
Precedes (String.◌∷◌ c s) String.[] = ⊥
Precedes (String.◌∷◌ c s) (String.◌∷◌ d t) = (code c < code d) ⊎ ((code c ≡ code d) × Precedes s t)

-- Before by a text, or with the same text and in order by the rest.
abbrev pub Lex : String → String → Type 0 → Type 0
Lex s t Rest = Precedes s t ⊎ ((s ≡ t) × Rest)

Precedes-irreflexive : (s : String) → Precedes s s → ⊥
Precedes-irreflexive String.[] h = h
Precedes-irreflexive (String.◌∷◌ c s) (inl h) = absurd (omega (arith, h))
Precedes-irreflexive (String.◌∷◌ c s) (inr h) = Precedes-irreflexive s h.1

Precedes-trans : (s t u : String) → Precedes s t → Precedes t u → Precedes s u
Precedes-trans String.[] String.[] u h k = absurd h
Precedes-trans String.[] (String.◌∷◌ d t) String.[] h k = absurd k
Precedes-trans String.[] (String.◌∷◌ d t) (String.◌∷◌ e u) h k = tt
Precedes-trans (String.◌∷◌ c s) String.[] u h k = absurd h
Precedes-trans (String.◌∷◌ c s) (String.◌∷◌ d t) String.[] h k = absurd k
Precedes-trans (String.◌∷◌ c s) (String.◌∷◌ d t) (String.◌∷◌ e u) h k = elim h [
  | inl p ↦ elim k [ inl q ↦ inl (omega (arith, p, q)) | inr q ↦ inl (omega (arith, p, q.0)) ]
  | inr p ↦ elim k [
    | inl q ↦ inl (omega (arith, p.0, q))
    | inr q ↦ inr (p.0 ∙ q.0, Precedes-trans s t u p.1 q.1)
  ]
]

leb_chars_refl : (s : String) → leb_chars s s ≡ true
leb_chars_refl s = elim (leb_chars_total s s) [ inl h ↦ h | inr h ↦ h ]

leb_chars_iff : (s t : String) → (leb_chars s t ≡ true) ↔ (Precedes s t ⊎ (s ≡ t))
leb_chars_iff String.[] String.[] = (λ _. inr refl, λ _. refl)
leb_chars_iff String.[] (String.◌∷◌ d t) = (λ _. inl tt, λ _. refl)
leb_chars_iff (String.◌∷◌ c s) String.[] = (λ h. cc, λ h. elim h [ inl x ↦ absurd x | inr x ↦ cc ])
leb_chars_iff (String.◌∷◌ c s) (String.◌∷◌ d t) = (
  λ h. elim (Bool-cases (ltb (code c) (code d))) [
    | inl p ↦ inl (inl (ground (arith, p)))
    | inr p ↦
        let (e, r) : (code c ≡ code d) × (leb_chars s t ≡ true) = ground (arith, h, p) in
        elim ((leb_chars_iff s t).0 r) [
          | inl x ↦ inl (inr (e, x))
          | inr x ↦ inr (λ i. String.◌∷◌ (Char-path c d e i) (x i))
        ]
  ],
  λ h. elim h [
    | inl x ↦ elim x [
      | inl l ↦ ground (arith, l)
      | inr y ↦ ground (arith, y.0, (leb_chars_iff s t).1 (inl y.1))
    ]
    | inr q ↦ subst (λ x. leb_chars (String.◌∷◌ c s) x ≡ true) q (leb_chars_refl (String.◌∷◌ c s))
  ],
)

pub lex_trans : {P Q R : Type 0} (s t u : String) → (P → Q → R) → Lex s t P → Lex t u Q → Lex s u R
lex_trans s t u f h k = elim h [
  | inl p ↦ elim k [
    | inl q ↦ inl (Precedes-trans s t u p q)
    | inr q ↦ inl (subst (Precedes s) q.0 p)
  ]
  | inr p ↦ elim k [
    | inl q ↦ inl (subst (λ x. Precedes x u) (sym p.0) q)
    | inr q ↦ inr (p.0 ∙ q.0, f p.1 q.1)
  ]
]

pub lex_total : {P Q : Type 0} (s t : String) → P ⊎ Q → Lex s t P ⊎ Lex t s Q
lex_total s t h = elim (Bool-cases (s == t)) [
  | inl e ↦
      let p = eq_of_beq s t e in elim h [ inl x ↦ inl (inr (p, x)) | inr y ↦ inr (inr (sym p, y)) ]
  | inr e ↦ elim (leb_chars_total s t) [
    | inl l ↦ elim ((leb_chars_iff s t).0 l) [
      | inl x ↦ inl (inl x)
      | inr p ↦ absurd (ne_of_beq s t e p)
    ]
    | inr l ↦ elim ((leb_chars_iff t s).0 l) [
      | inl x ↦ inr (inl x)
      | inr p ↦ absurd (ne_of_beq s t e (sym p))
    ]
  ]
]

-- The test that looks at the rest where the texts are the same.
pub lex_iff :
    {P : Type 0} (s t : String) (b : Bool)
    → (b ≡ true) ↔ P
    → ((if s == t then b else leb_chars s t) ≡ true) ↔ Lex s t P
lex_iff s t b h = elim (Bool-cases (s == t)) [
  | inl e ↦
      let p = eq_of_beq s t e in
      rw e (
        λ q. inr (p, h.0 q),
        λ l. elim l [
          | inl x ↦ absurd (Precedes-irreflexive t (subst (λ y. Precedes y t) p x))
          | inr y ↦ h.1 y.1
        ],
      )
  | inr e ↦ rw e (
    λ q. elim ((leb_chars_iff s t).0 q) [ inl x ↦ inl x | inr p ↦ absurd (ne_of_beq s t e p) ],
    λ l. elim l [ inl x ↦ (leb_chars_iff s t).1 (inl x) | inr y ↦ absurd (ne_of_beq s t e y.0) ],
  )
]
