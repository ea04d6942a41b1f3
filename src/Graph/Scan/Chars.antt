-- ===== src/Graph/Scan/Chars.antt =====
-- The functions of Scan on strings whose characters are known.
use Prim.Native.Char.{Char, code}
use nfctl.Common.{
  ℕ, String, Bool, true, false, ◌&&◌, not, ◌==◌, string_eq, eqb, if◌then◌else◌, ◌≡◌, ◌≢◌, ◌⊎◌, inl,
  inr, refl, arith, Bool-cases, eq_of_beq,
}
use nfctl.Model.Ids.{join}
use nfctl.Graph.Scan.{trim_start_by, trim_end_by, map_chars, keep_chars}

-- Each character has the property.
abbrev pub AllChars : (Char → Bool) → String → Type 0
AllChars p String.[] = Unit
AllChars p (String.◌∷◌ c s) = (p c ≡ true) × AllChars p s

-- None has.
abbrev pub NoChar : (Char → Bool) → String → Type 0
NoChar p s = AllChars (λ c. not (p c)) s

abbrev pub Is : ℕ → Char → Bool
Is n c = eqb (code c) n

pub AllChars-join :
    (p : Char → Bool) (s t : String) → AllChars p s → AllChars p t → AllChars p (join s t)
unfolding join
AllChars-join p String.[] t a b = b
AllChars-join p (String.◌∷◌ c s) t (h, a) b = (h, AllChars-join p s t a b)

pub AllChars-right : (p : Char → Bool) (s t : String) → AllChars p (join s t) → AllChars p t
unfolding join
AllChars-right p String.[] t a = a
AllChars-right p (String.◌∷◌ c s) t (h, a) = AllChars-right p s t a

pub AllChars-weaken :
    (p q : Char → Bool) (s : String)
    → ((c : Char) → p c ≡ true → q c ≡ true)
    → AllChars p s
    → AllChars q s
AllChars-weaken p q String.[] f a = tt
AllChars-weaken p q (String.◌∷◌ c s) f (h, a) = (f c h, AllChars-weaken p q s f a)

pub map_chars-same :
    (f : Char → Char) (p : Char → Bool) (s : String)
    → ((c : Char) → p c ≡ true → f c ≡ c)
    → AllChars p s
    → map_chars f s ≡ s
unfolding map_chars
map_chars-same f p String.[] h a = refl
map_chars-same f p (String.◌∷◌ c s) h (q, a) = cc (h c q, map_chars-same f p s h a)

pub map_chars-AllChars :
    (f : Char → Char) (p q : Char → Bool) (s : String)
    → ((c : Char) → p c ≡ true → q (f c) ≡ true)
    → AllChars p s
    → AllChars q (map_chars f s)
unfolding map_chars
map_chars-AllChars f p q String.[] h a = tt
map_chars-AllChars f p q (String.◌∷◌ c s) h (k, a) = (h c k, map_chars-AllChars f p q s h a)

pub map_chars_injective :
    (f : Char → Char) (p : Char → Bool) (s t : String)
    → ((c d : Char) → p c ≡ true → p d ≡ true → f c ≡ f d → c ≡ d)
    → AllChars p s
    → AllChars p t
    → map_chars f s ≡ map_chars f t
    → s ≡ t
unfolding map_chars
map_chars_injective f p String.[] String.[] h a b e = refl
map_chars_injective f p String.[] (String.◌∷◌ d t) h a b e = cc
map_chars_injective f p (String.◌∷◌ c s) String.[] h a b e = cc
map_chars_injective f p (String.◌∷◌ c s) (String.◌∷◌ d t) h (k, a) (l, b) e =
    let first : f c ≡ f d = cc in
    let rest : map_chars f s ≡ map_chars f t = cc in
    cc (h c d k l first, map_chars_injective f p s t h a b rest)

pub keep_chars-all : (p : Char → Bool) (s : String) → AllChars p s → keep_chars p s ≡ s
unfolding keep_chars
keep_chars-all p String.[] a = refl
keep_chars-all p (String.◌∷◌ c s) (h, a) = rw (h, keep_chars-all p s a)

pub false_of_not : (b : Bool) → not b ≡ true → b ≡ false
false_of_not b h = ground (arith, h)

pub join_nonempty : (s t : String) → t ≢ "" → join s t ≢ ""
unfolding join
join_nonempty String.[] t ne = ne
join_nonempty (String.◌∷◌ c s) t ne = λ e. cc

pub keep_head :
    (p : Char → Bool) (c : Char) (r : String)
    → (r ≢ "") ⊎ (p c ≡ false)
    → (if r == "" && p c then "" else String.◌∷◌ c r) ≡ String.◌∷◌ c r
keep_head p c r h = elim (Bool-cases (r == "")) [
  | inr n ↦ rw n refl
  | inl t ↦ elim h [ inl ne ↦ absurd (ne (eq_of_beq r "" t)) | inr k ↦ rw t (rw k refl) ]
]

pub trim_end-join :
    (p : Char → Bool) (s t : String)
    → trim_end_by p t ≢ ""
    → trim_end_by p (join s t) ≡ join s (trim_end_by p t)
unfolding trim_end_by join
trim_end-join p String.[] t ne = refl
trim_end-join p (String.◌∷◌ c s) t ne =
    rw (trim_end-join p s t ne)
      (keep_head p c (join s (trim_end_by p t)) (inl (join_nonempty s (trim_end_by p t) ne)))

pub trim_end-drop :
    (p : Char → Bool) (s t : String)
    → trim_end_by p t ≡ ""
    → trim_end_by p (join s t) ≡ trim_end_by p s
unfolding trim_end_by join
trim_end-drop p String.[] t e = e
trim_end-drop p (String.◌∷◌ c s) t e = rw (trim_end-drop p s t e) refl

pub trim_end-none : (p : Char → Bool) (s : String) → NoChar p s → trim_end_by p s ≡ s
unfolding trim_end_by
trim_end-none p String.[] a = refl
trim_end-none p (String.◌∷◌ c s) (h, a) =
    rw (trim_end-none p s a) (keep_head p c s (inr (false_of_not (p c) h)))

pub trim_start-none : (p : Char → Bool) (s : String) → NoChar p s → trim_start_by p s ≡ s
unfolding trim_start_by
trim_start-none p String.[] a = refl
trim_start-none p (String.◌∷◌ c s) (h, a) = rw (false_of_not (p c) h) refl
