-- ===== src/Model/Ids/Grammar.antt =====
-- The grammar that `check_dns_label` (crates/nfctl-core/src/model/ids.rs) is meant to decide:
-- an RFC 1123 label, `[a-z0-9]([-a-z0-9]*[a-z0-9])?`.
use Prim.Native.String.{len}
use nfctl.Common.{
  ℕ, String, true, List, [], ◌∷◌, Option, none, some, ◌≡◌, ◌↔◌, ◌≤◌, ◌<◌, refl, inl, inr, ◌⊎◌, ap,
  sym, all, Result, ok, err, arith, ◌≢◌,
}
use nfctl.Model.Ids.{
  InvalidName, empty, too_long, bad_chars, chars, first?, last?, first_last_ok, ok_char, check_ends,
  check_chars, check_dns_label, new_name,
}

-- `[-a-z0-9]*[a-z0-9]`
pub data IsTail : List ℕ → Type 0 where
  last : {c : ℕ} → first_last_ok c ≡ true → IsTail (c ∷ [])
  more : {c : ℕ} {cs : List ℕ} → ok_char c ≡ true → IsTail cs → IsTail (c ∷ cs)

pub data IsLabel : List ℕ → Type 0 where
  one : {c : ℕ} → first_last_ok c ≡ true → IsLabel (c ∷ [])
  many : {c : ℕ} {cs : List ℕ} → first_last_ok c ≡ true → IsTail cs → IsLabel (c ∷ cs)

-- A character that may begin and end a name.
abbrev pub EndsWell : Option ℕ → Type 0
EndsWell none = ⊥
EndsWell (some c) = first_last_ok c ≡ true

first_last-ok_char : (c : ℕ) → first_last_ok c ≡ true → ok_char c ≡ true
first_last-ok_char c h = ground arith

IsTail-all : {cs : List ℕ} → IsTail cs → all ok_char cs ≡ true
unfolding all
IsTail-all (last {c} h) = ground (arith, first_last-ok_char c h)
IsTail-all (more h t) = ground (arith, h, IsTail-all t)

IsTail-EndsWell : {cs : List ℕ} → IsTail cs → EndsWell (last? cs)
IsTail-EndsWell (last h) = h
IsTail-EndsWell (more {cs = []} h t) = elim t [ ]
IsTail-EndsWell (more {cs = d ∷ cs} h t) = IsTail-EndsWell t

IsTail-of_all :
    (c : ℕ) (cs : List ℕ)
    → all ok_char (c ∷ cs) ≡ true
    → EndsWell (last? (c ∷ cs))
    → IsTail (c ∷ cs)
unfolding all
IsTail-of_all c [] h e = last e
IsTail-of_all c (d ∷ cs) h e = more (ground (arith, h)) (IsTail-of_all d cs (ground (arith, h)) e)

EndsWell-last :
    (c : ℕ) (cs : List ℕ)
    → EndsWell (last? (c ∷ cs))
    → (d : ℕ) × (last? (c ∷ cs) ≡ some d) × (first_last_ok d ≡ true)
EndsWell-last c [] e = (c, refl, e)
EndsWell-last c (d ∷ cs) e = EndsWell-last d cs e

last_total : (c : ℕ) (cs : List ℕ) → (d : ℕ) × (last? (c ∷ cs) ≡ some d)
last_total c [] = (c, refl)
last_total c (d ∷ cs) = last_total d cs

check_ends-ok :
    (c : ℕ) (cs : List ℕ)
    → check_ends (some c) (last? (c ∷ cs)) ≡ ok tt
    → (first_last_ok c ≡ true) × EndsWell (last? (c ∷ cs))
check_ends-ok c cs h =
    let (d, e) = last_total c cs in
    rw e (ground (arith, h, e, first_last-ok_char c), ground (arith, h, e))

IsLabel-of_all :
    (c : ℕ) (cs : List ℕ)
    → first_last_ok c ≡ true
    → all ok_char (c ∷ cs) ≡ true
    → EndsWell (last? (c ∷ cs))
    → IsLabel (c ∷ cs)
unfolding all
IsLabel-of_all c [] h a e = one h
IsLabel-of_all c (d ∷ cs) h a e = many h (IsTail-of_all d cs (ground (arith, a)) e)

IsLabel-parts :
    {cs : List ℕ}
    → IsLabel cs
    → (all ok_char cs ≡ true) × (check_ends (first? cs) (last? cs) ≡ ok tt)
unfolding all
IsLabel-parts (one {c} h) = (ground (arith, first_last-ok_char c h), ground arith)
IsLabel-parts (many {cs = []} h t) = elim t [ ]
IsLabel-parts (many {c} {cs = d ∷ cs} h t) =
    let (l, e, q) = EndsWell-last d cs (IsTail-EndsWell t) in
    (ground (arith, first_last-ok_char c h, IsTail-all t), ground (arith, h, e, q))

-- The characters of a label, the first and the last.
pub IsLabel-chars :
    {cs : List ℕ}
    → IsLabel cs
    → (all ok_char cs ≡ true) × EndsWell (first? cs) × EndsWell (last? cs)
IsLabel-chars (one {c} h) = ((IsLabel-parts (one h)).0, h, h)
IsLabel-chars (many {cs = []} h t) = elim t [ ]
IsLabel-chars (many {c} {cs = d ∷ cs} h t) = ((IsLabel-parts (many h t)).0, h, IsTail-EndsWell t)

pub check_chars_iff :
    (cs : List ℕ) (bytes max : ℕ)
    → (check_chars cs bytes max ≡ ok tt) ↔ (IsLabel cs × (bytes ≤ max))
unfolding check_chars
check_chars_iff [] bytes max = (λ h. cc, λ h. elim h.0 [ ])
check_chars_iff (c ∷ cs) bytes max = (
  λ h.
      let good : all ok_char (c ∷ cs) ≡ true = ground (arith, h) in
      let (head, ends) = check_ends-ok c cs (ground (arith, h)) in
      (IsLabel-of_all c cs head good ends, ground (arith, h)),
  λ h. ground (arith, h.1, IsLabel-parts h.0),
)

result_cases : (r : Result InvalidName (Unit {0})) → (r ≡ ok tt) ⊎ ((e : InvalidName) × (r ≡ err e))
result_cases (ok tt) = inl refl
result_cases (err e) = inr (e, refl)

-- `new` accepts exactly the RFC 1123 labels within the limit, and keeps the string as it is.
pub new_name_iff :
    (max : ℕ) (s t : String)
    → (new_name max s ≡ ok t) ↔ ((t ≡ s) × IsLabel (chars s) × (len s ≤ max))
unfolding new_name check_dns_label
new_name_iff max s t = (
  λ h. elim (result_cases (check_chars (chars s) (len s) max)) [
    | inl e ↦
        let (l, b) = (check_chars_iff (chars s) (len s) max).0 e in (ground (arith, h, e), l, b)
    | inr (e, p) ↦ absurd (ground (arith, h, p))
  ],
  λ (p, l, b). rw ((check_chars_iff (chars s) (len s) max).1 (l, b)) (ap ok (sym p)),
)

-- When each error is reported.
abbrev pub Explains : ℕ → List ℕ → ℕ → InvalidName → Type 0
Explains max cs bytes empty = cs ≡ []
Explains max cs bytes (too_long m) = (cs ≢ []) × (m ≡ max) × (max < bytes)
Explains max cs bytes bad_chars = (cs ≢ []) × (bytes ≤ max) × (¬ IsLabel cs)

check_chars-Explains :
    (cs : List ℕ) (bytes max : ℕ) (e : InvalidName)
    → check_chars cs bytes max ≡ err e
    → Explains max cs bytes e
unfolding check_chars
check_chars-Explains [] bytes max empty h = refl
check_chars-Explains [] bytes max (too_long m) h = cc
check_chars-Explains [] bytes max bad_chars h = cc
check_chars-Explains (c ∷ cs) bytes max empty h =
    let (d, q) = last_total c cs in absurd (ground (arith, h, q))
check_chars-Explains (c ∷ cs) bytes max (too_long m) h =
    let (d, q) = last_total c cs in (λ p. cc, ground (arith, h, q), ground (arith, h, q))
check_chars-Explains (c ∷ cs) bytes max bad_chars h =
    let (d, q) = last_total c cs in
    (λ p. cc, ground (arith, h, q), λ l. ground (arith, h, IsLabel-parts l))

-- Each error names its cause: `empty` a string with no characters, `too_long` one that is not
-- empty and passes the limit, `bad_chars` one within the limit that is no RFC 1123 label.
pub new_name-Explains :
    (max : ℕ) (s : String) (e : InvalidName)
    → new_name max s ≡ err e
    → Explains max (chars s) (len s) e
unfolding new_name check_dns_label
new_name-Explains max s e h =
    check_chars-Explains (chars s) (len s) max e
      (elim (result_cases (check_chars (chars s) (len s) max)) [
        | inl p ↦ ground (arith, h, p)
        | inr (x, p) ↦ ground (arith, h, p)
      ])
