-- ===== src/Service/Logs/Task/Boundary.antt =====
-- What `last_ts` and `boundary` hold of the lines sent so far (crates/nfctl-core/src/service/logs.rs).
use nfctl.Common.{
  ℕ, suc, ◌+◌, ◌≤◌, ◌<◌, String, true, false, List, [], ◌∷◌, ◌++◌, Option, none, some, ◌≡◌, ◌≢◌,
  refl, ap, arith, inl, inr, Bool-cases, All, All-append, ◌==◌, string_eq, if◌then◌else◌, ltb, leb,
  eqb, keep,
}
use nfctl.Model.Time.{Timestamp}
use nfctl.Service.Logs.Task.{Counts, no_counts, put_one, note_time}

-- An entry of a log: its time and its text.
abbrev pub Entry : Type 0
Entry = Timestamp × String

abbrev pub from_time : Timestamp → List Entry → List Entry
from_time t es = keep (λ e. leb t e.0) es

-- How many of the entries have the text.
abbrev pub count : String → List Entry → ℕ
count u [] = 0
count u (e ∷ es) = (if u == e.1 then 1 else 0) + count u es

-- The entries come in the order of their times, none before the last one sent.
abbrev pub Ordered : Option Timestamp → List Entry → Type 0
Ordered last [] = Unit
Ordered none (e ∷ es) = Ordered (some e.0) es
Ordered (some t) (e ∷ es) = t ≤ e.0 × Ordered (some e.0) es

-- The boundary counts exactly the texts sent at the last time.
abbrev pub Counted : List Entry → Option Timestamp × Counts → Type 0
Counted sent (none, b) = (sent ≡ []) × ((u : String) → b u ≡ 0)
Counted sent (some t, b) =
    (sent ≢ []) × All (λ e. e.0 ≤ t) sent × ((u : String) → b u ≡ count u (from_time t sent))

pub count-append : (u : String) (xs ys : List Entry) → count u (xs ++ ys) ≡ count u xs + count u ys
count-append u [] ys = omega arith
count-append u (x ∷ xs) ys = omega (arith, count-append u xs ys)

pub from_time-append :
    (t : Timestamp) (xs ys : List Entry) → from_time t (xs ++ ys) ≡ from_time t xs ++ from_time t ys
unfolding keep
from_time-append t [] ys = refl
from_time-append t (x ∷ xs) ys = elim (Bool-cases (leb t x.0)) [
  | inl p ↦ rw p (ap (λ zs. x ∷ zs) (from_time-append t xs ys))
  | inr p ↦ rw p (from_time-append t xs ys)
]

-- Later than all entries.
from_time-late :
    (t s : Timestamp) (xs : List Entry) → All (λ e. e.0 ≤ t) xs → t < s → from_time s xs ≡ []
unfolding keep
from_time-late t s [] h lt = refl
from_time-late t s (x ∷ xs) h lt =
    let p : leb s x.0 ≡ false = ground (arith, h.0, lt) in rw p (from_time-late t s xs h.1 lt)

pub All-weaken :
    (t s : Timestamp) (xs : List Entry) → All (λ e. e.0 ≤ t) xs → t ≤ s → All (λ e. e.0 ≤ s) xs
All-weaken t s [] h le = tt
All-weaken t s (x ∷ xs) h le = (omega (arith, h.0), All-weaken t s xs h.1 le)

pub from_time-one : (t : Timestamp) (e : Entry) → t ≤ e.0 → from_time t (e ∷ []) ≡ e ∷ []
unfolding keep
from_time-one t e h = ground arith

-- One more entry with the text, or not.
one_more : (u : String) (e : Entry) (k : ℕ) → (if u == e.1 then suc k else k) ≡ k + count u (e ∷ [])
one_more u e k = elim (Bool-cases (u == e.1)) [
  | inl p ↦ rw p (omega arith)
  | inr p ↦ rw p (omega arith)
]

first_one : (u : String) (e : Entry) (b : Counts) → b u ≡ 0 → put_one e.1 b u ≡ count u (e ∷ [])
first_one u e b z = elim (Bool-cases (u == e.1)) [
  | inl p ↦ rw p (omega arith)
  | inr p ↦ rw p (omega (arith, z))
]

snoc_ne : (xs : List Entry) (e : Entry) → (xs ++ (e ∷ [])) ≢ []
snoc_ne [] e h = cc
snoc_ne (x ∷ xs) e h = cc

-- Sending one more entry keeps the boundary right.
pub note_time-Counted :
    (sent : List Entry) (s : Option Timestamp × Counts) (e : Entry)
    → Counted sent s
    → Ordered s.0 (e ∷ [])
    → Counted (sent ++ (e ∷ [])) (note_time e.0 e.1 s) × ((note_time e.0 e.1 s).0 ≡ some e.0)
unfolding note_time
note_time-Counted sent (none, b) e h o = rw h.0 (
  (
    (λ x. cc),
    ((omega arith), tt),
    λ u. rw (from_time-one e.0 e (omega arith)) (first_one u e b (h.1 u)),
  ),
  refl,
)
note_time-Counted sent (some t, b) e h o = elim (Bool-cases (ltb t e.0)) [
  | inl p ↦
      let lt : t < e.0 = ground (arith, p) in
      rw (p, note_time)
        (
          (
            snoc_ne sent e,
            All-append (λ x. x.0 ≤ e.0) sent (e ∷ []) (All-weaken t e.0 sent h.1 (omega arith))
                (omega arith, tt),
            λ u.
                rw
                  (
                    from_time-append e.0 sent (e ∷ []),
                    from_time-late t e.0 sent h.1 lt,
                    from_time-one e.0 e (omega arith),
                  )
                  (first_one u e no_counts refl),
          ),
          refl,
        )
  | inr p ↦
      let same : t ≡ e.0 = ground (arith, p, o.0) in
      let q : eqb e.0 t ≡ true = ground (arith, same) in
      rw (p, q, note_time)
        (
          (
            snoc_ne sent e,
            All-append (λ x. x.0 ≤ t) sent (e ∷ []) h.1 (omega (arith, same), tt),
            λ u.
                rw
                  (
                    from_time-append t sent (e ∷ []),
                    from_time-one t e o.0,
                    count-append u (from_time t sent) (e ∷ []),
                    ← h.2 u,
                  )
                  (one_more u e (b u)),
          ),
          ap some same,
        )
]
