-- ===== src/Graph/Scan/Patterns.antt =====
-- Patterns and where they stand in strings whose characters are known.
use Prim.Native.Char.{Char, code}
use nfctl.Common.{
  ℕ, String, true, false, not, Option, none, some, ◌==◌, string_eq, eqb, ◌≡◌, ◌≢◌, inl, inr, refl,
  ap, ◌∙◌, arith, eqb_iff, Bool-cases, eq_of_beq, beq_refl,
}
use mathlib.Core.Option
use text.Mathlib.TextEquality.{Char-path}
use nfctl.Model.Ids.{join}
use nfctl.Graph.Shards.{strip_suffix}
use nfctl.Graph.Scan.{strip_prefix, prepend, split_once}
use nfctl.Graph.Scan.Chars.{NoChar, Is, false_of_not}

pub eqb-other : (n m : ℕ) → not (eqb m n) ≡ true → eqb n m ≡ false
eqb-other n m h = ground (arith, h)

-- A prefix whose first character is not in the text.
pub strip_prefix-other :
    (p : Char) (ps s : String) → NoChar (Is (code p)) s → strip_prefix (String.◌∷◌ p ps) s ≡ none
unfolding strip_prefix
strip_prefix-other p ps String.[] a = refl
strip_prefix-other p ps (String.◌∷◌ c s) (h, a) = rw (eqb-other (code p) (code c) h) refl

-- A word and a space are no prefix of a text without spaces, and of another word and a space.
pub strip_prefix-no_space : (w s : String) → NoChar (Is 32) s → strip_prefix (join w " ") s ≡ none
unfolding strip_prefix join
strip_prefix-no_space String.[] String.[] a = refl
strip_prefix-no_space String.[] (String.◌∷◌ c s) (h, a) = rw (eqb-other 32 (code c) h) refl
strip_prefix-no_space (String.◌∷◌ p w) String.[] a = refl
strip_prefix-no_space (String.◌∷◌ p w) (String.◌∷◌ c s) (h, a) =
    elim (Bool-cases (eqb (code p) (code c))) [
      | inl t ↦ rw t (strip_prefix-no_space w s a)
      | inr f ↦ rw f refl
    ]

pub strip_prefix-word :
    (w s rest : String)
    → NoChar (Is 32) w
    → NoChar (Is 32) s
    → w ≢ s
    → strip_prefix (join w " ") (join s (join " " rest)) ≡ none
unfolding strip_prefix join
strip_prefix-word String.[] String.[] rest a b ne = absurd (ne refl)
strip_prefix-word String.[] (String.◌∷◌ c s) rest a (h, b) ne = rw (eqb-other 32 (code c) h) refl
strip_prefix-word (String.◌∷◌ p w) String.[] rest (k, a) b ne =
    rw (false_of_not (eqb (code p) 32) k) refl
strip_prefix-word (String.◌∷◌ p w) (String.◌∷◌ c s) rest (k, a) (h, b) ne =
    elim (Bool-cases (eqb (code p) (code c))) [
      | inl t ↦ rw t (
          strip_prefix-word w s rest a b
            (λ e. ne (cc (e, Char-path p c ((eqb_iff (code p) (code c)).0 t)))))
      | inr f ↦ rw f refl
    ]

pub strip_prefix-head :
    (p : Char) (ps : String) (c : Char) (s : String)
    → not (Is (code p) c) ≡ true
    → strip_prefix (String.◌∷◌ p ps) (String.◌∷◌ c s) ≡ none
unfolding strip_prefix
strip_prefix-head p ps c s k = rw (eqb-other (code p) (code c) k) refl

-- What `split_once` does, by whether the pattern is here.
abbrev here_or_later : String → Char → String → Option String → Option (String × String)
here_or_later pattern c s (some r) = some ("", r)
here_or_later pattern c s none = Option.map (prepend c) (split_once pattern s)

split_once-skip :
    (p : Char) (ps : String) (c : Char) (s : String)
    → not (Is (code p) c) ≡ true
    → split_once (String.◌∷◌ p ps) (String.◌∷◌ c s)
      ≡ Option.map (prepend c) (split_once (String.◌∷◌ p ps) s)
unfolding split_once
split_once-skip p ps c s k = ap (here_or_later (String.◌∷◌ p ps) c s) (strip_prefix-head p ps c s k)

strip_prefix-nil : (p : Char) (ps r : String) → strip_prefix (String.◌∷◌ p ps) "" ≡ some r → ⊥
unfolding strip_prefix
strip_prefix-nil p ps r h = cc

-- The first place of a pattern is after a text without its first character.
pub split_once-after :
    (p : Char) (ps s t r : String)
    → NoChar (Is (code p)) s
    → strip_prefix (String.◌∷◌ p ps) t ≡ some r
    → split_once (String.◌∷◌ p ps) (join s t) ≡ some (s, r)
unfolding split_once join
split_once-after p ps String.[] String.[] r a h = absurd (strip_prefix-nil p ps r h)
split_once-after p ps String.[] (String.◌∷◌ c t) r a h = ap (here_or_later (String.◌∷◌ p ps) c t) h
split_once-after p ps (String.◌∷◌ c s) t r (k, a) h =
    split_once-skip p ps c (join s t) k
    ∙ ap (Option.map (prepend c)) (split_once-after p ps s t r a h)

pub split_once-none :
    (p : Char) (ps s : String) → NoChar (Is (code p)) s → split_once (String.◌∷◌ p ps) s ≡ none
unfolding split_once
split_once-none p ps String.[] a = unfold strip_prefix in refl
split_once-none p ps (String.◌∷◌ c s) (h, a) =
    split_once-skip p ps c s h ∙ ap (Option.map (prepend c)) (split_once-none p ps s a)

differs :
    (k : Char) (ks : String) (c : Char) (s : String)
    → not (Is (code k) c) ≡ true
    → (String.◌∷◌ c s == String.◌∷◌ k ks) ≡ false
differs k ks c s h = elim (Bool-cases (String.◌∷◌ c s == String.◌∷◌ k ks)) [
  | inr f ↦ f
  | inl t ↦
      let e : String.◌∷◌ c s ≡ String.◌∷◌ k ks = eq_of_beq (String.◌∷◌ c s) (String.◌∷◌ k ks) t in
      let ck : c ≡ k = cc in absurd (ground (arith, h, ap code ck))
]

pub split_once-skip_text :
    (p : Char) (ps s t : String)
    → NoChar (Is (code p)) s
    → split_once (String.◌∷◌ p ps) t ≡ none
    → split_once (String.◌∷◌ p ps) (join s t) ≡ none
unfolding join
split_once-skip_text p ps String.[] t a h = h
split_once-skip_text p ps (String.◌∷◌ c s) t (k, a) h =
    split_once-skip p ps c (join s t) k
    ∙ ap (Option.map (prepend c)) (split_once-skip_text p ps s t a h)

again :
    (p : Char) (s : String)
    → NoChar (Is (code p)) s
    → strip_prefix (String.◌∷◌ p (String.◌∷◌ p "")) (String.◌∷◌ p s) ≡ none
unfolding strip_prefix
again p s a = rw ((eqb_iff (code p) (code p)).1 refl) (strip_prefix-other p "" s a)

-- A character twice is not where it stands once.
pub split_once-twice :
    (p : Char) (s : String)
    → NoChar (Is (code p)) s
    → split_once (String.◌∷◌ p (String.◌∷◌ p "")) (String.◌∷◌ p s) ≡ none
unfolding split_once
split_once-twice p s a =
    let pp = String.◌∷◌ p (String.◌∷◌ p "") in
    ap (here_or_later pp p s) (again p s a)
    ∙ ap (Option.map (prepend p)) (split_once-none p (String.◌∷◌ p "") s a)

pub strip_suffix-join :
    (k : Char) (ks s : String)
    → NoChar (Is (code k)) s
    → strip_suffix (String.◌∷◌ k ks) (join s (String.◌∷◌ k ks)) ≡ some s
unfolding strip_suffix join
strip_suffix-join k ks String.[] a = rw (beq_refl (String.◌∷◌ k ks)) refl
strip_suffix-join k ks (String.◌∷◌ c s) (h, a) =
    rw (differs k ks c (join s (String.◌∷◌ k ks)) h) (rw (strip_suffix-join k ks s a) refl)
