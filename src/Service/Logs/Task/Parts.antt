-- ===== src/Service/Logs/Task/Parts.antt =====
-- Parts of a log and of what a stream replays (crates/nfctl-core/src/service/logs.rs).
use nfctl.Common.{
  ℕ, ◌≤◌, String, true, List, [], ◌∷◌, ◌++◌, Option, none, some, ◌≡◌, ◌⊎◌, refl, ap, arith, inl,
  inr, Bool-cases, All, leb, keep,
}
use nfctl.Model.Time.{Timestamp}
use nfctl.Service.Logs.Task.{TailTask, receive, or_since}
use nfctl.Service.Logs.Task.Boundary.{Entry, from_time, Ordered}

cons_head {ℓ} : {A : Type ℓ} {x z : A} {xs zs : List A} → (x ∷ xs) ≡ (z ∷ zs) → x ≡ z
cons_head p = cc

cons_tail {ℓ} : {A : Type ℓ} {x z : A} {xs zs : List A} → (x ∷ xs) ≡ (z ∷ zs) → xs ≡ zs
cons_tail p = cc

-- A stream that serves a part of what is replayed, or all of it and a part of what follows.
pub prefix_cases {ℓ} :
    {A : Type ℓ} (xs ys zs ws : List A)
    → (xs ++ ys) ≡ (zs ++ ws)
    → ((us : List A) × (xs ≡ zs ++ us) × (us ++ ys ≡ ws))
      ⊎ ((us : List A) × (zs ≡ xs ++ us) × (ys ≡ us ++ ws))
prefix_cases [] ys zs ws p = inr (zs, refl, p)
prefix_cases (x ∷ xs) ys [] ws p = inl (x ∷ xs, refl, p)
prefix_cases (x ∷ xs) ys (z ∷ zs) ws p = elim (prefix_cases xs ys zs ws (cons_tail p)) [
  | inl (us, q, r) ↦ inl (us, cc (cons_head p, q), r)
  | inr (us, q, r) ↦ inr (us, cc (cons_head p, q), r)
]

Ordered-lower :
    (t u : Timestamp) (es : List Entry) → t ≤ u → Ordered (some u) es → Ordered (some t) es
Ordered-lower t u [] le o = tt
Ordered-lower t u (e ∷ es) le o = (omega (arith, le, o.0), o.1)

pub from_time-Ordered :
    (t : Timestamp) (es : List Entry) → Ordered (some t) es → from_time t es ≡ es
unfolding keep
from_time-Ordered t [] o = refl
from_time-Ordered t (e ∷ es) o =
    let p : leb t e.0 ≡ true = ground (arith, o.0) in
    rw p (ap (λ l. e ∷ l) (from_time-Ordered t es (Ordered-lower t e.0 es o.0 o.1)))

-- The entries from the last time on were all sent at that time.
pub from_time-last :
    (t : Timestamp) (es : List Entry) → All (λ e. e.0 ≤ t) es → All (λ e. e.0 ≡ t) (from_time t es)
unfolding keep
from_time-last t [] h = tt
from_time-last t (e ∷ es) h = elim (Bool-cases (leb t e.0)) [
  | inl p ↦
      let le : t ≤ e.0 = ground (arith, p) in rw p (omega (arith, h.0, le), from_time-last t es h.1)
  | inr p ↦ rw p (from_time-last t es h.1)
]

pub All-left : (P : Entry → Type 0) (xs ys : List Entry) → All P (xs ++ ys) → All P xs
All-left P [] ys h = tt
All-left P (x ∷ xs) ys h = (h.0, All-left P xs ys h.1)

pub append_nil_right {ℓ} : {A : Type ℓ} (xs ys : List A) → (xs ++ ys) ≡ [] → ys ≡ []
append_nil_right [] ys h = h
append_nil_right (x ∷ xs) ys h = cc

pub append_nil_left {ℓ} : {A : Type ℓ} (xs ys : List A) → (xs ++ ys) ≡ [] → xs ≡ []
append_nil_left [] ys h = refl
append_nil_left (x ∷ xs) ys h = cc

pub receive_nothing : (l : Timestamp) (r : String → ℕ) (t : TailTask) → receive (some l) r [] t ≡ t
unfolding receive
receive_nothing l r t = refl

pub or_since-next :
    (last since : Option Timestamp) {start : Option Timestamp}
    → (last ≡ none → since ≡ start)
    → or_since last since ≡ or_since last start
or_since-next none since h = h refl
or_since-next (some l) since h = refl
