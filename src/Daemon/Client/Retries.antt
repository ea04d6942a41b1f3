-- ===== src/Daemon/Client/Retries.antt =====
-- How often `get_json` (crates/nfctl-daemon/src/client.rs) calls, and what it returns.
use Prim.Native.Nat.{zero, suc}
use nfctl.Common.{
  ℕ, ◌+◌, ◌≤◌, ◌<◌, true, Option, none, some, Result, ok, err, ◌≡◌, ◌↔◌, ◌⊎◌, inl, inr, refl, sym,
  ap, ◌∙◌, subst, arith, eqb, ltb, eqb_iff, Option-cases, Bool-cases, Result-cases,
}
use nfctl.Daemon.Client.{CallError, retryable, settle, get_from}

-- An answer after which `get_json` may call again.
abbrev pub Again {ℓ} : {A : Type ℓ} → Result CallError A → Type 0
Again (ok a) = ⊥
Again (err e) = retryable e ≡ true

-- A run of the loop that starts at `first` with `left` retries: `last` is the call whose answer is
-- returned. Every call before it failed in a way that allows another, and it is followed by none
-- because its answer does not, or because no retry is left.
pub record Ran {ℓ} {A : Type ℓ} (once : ℕ → Result CallError A) (left first last : ℕ) : Type 0 where
  pub from : first ≤ last
  pub within : last ≤ first + left
  pub before : (n : ℕ) → first ≤ n → n < last → Again (once n)
  pub stops : (¬ Again (once last)) ⊎ (last ≡ first + left)

Ran-same {ℓ} :
    {A : Type ℓ} (once : ℕ → Result CallError A) (left first : ℕ) {m n : ℕ}
    → Ran once left first m
    → Ran once left first n
    → m < n
    → ⊥
Ran-same once left first {m} {n} r s h = elim r.stops [
  | inl stop ↦ stop (s.before m r.from h)
  | inr q ↦ absurd (omega (arith, s.within))
]

Ran-now {ℓ} :
    {A : Type ℓ} (once : ℕ → Result CallError A) (left first : ℕ)
    → (¬ Again (once first)) ⊎ (left ≡ 0)
    → Ran once left first first
Ran-now once left first h = record {
  from = omega arith;
  within = omega arith;
  before = λ n a b. absurd (omega (arith, a, b));
  stops = elim h [ inl stop ↦ inl stop | inr z ↦ inr (omega arith) ];
}

Ran-later {ℓ} :
    {A : Type ℓ} (once : ℕ → Result CallError A) (left first last : ℕ)
    → Again (once first)
    → Ran once left (suc first) last
    → Ran once (suc left) first last
Ran-later once left first last again r = record {
  from = omega (arith, r.from);
  within = omega (arith, r.within);
  before = λ n a b. elim (Bool-cases (eqb first n)) [
    | inl p ↦ subst (λ k. Again (once k)) ((eqb_iff first n).0 p) again
    | inr p ↦ r.before n (ground (arith, p, a)) b
  ];
  stops = elim r.stops [ inl stop ↦ inl stop | inr z ↦ inr (omega arith) ];
}

-- One call that is the last.
stopped {ℓ} :
    {A : Type ℓ} (once : ℕ → Result CallError A) (first : ℕ)
    (again : Option (Result CallError A × ℕ))
    → ¬ Again (once first)
    → settle first again (once first) ≡ (once first, suc first)
unfolding settle
stopped once first again stop = elim (Result-cases (once first)) [
  | inl (a, p) ↦ rw p refl
  | inr (e, p) ↦ elim (Bool-cases (retryable e)) [
    | inl t ↦ absurd (stop (subst Again (sym p) t))
    | inr f ↦ elim (Option-cases again) [ inl n ↦ rw (p, n) refl | inr (x, y) ↦ rw (p, y, f) refl ]
  ]
]

last_failed {ℓ} :
    {A : Type ℓ} (first : ℕ) (r : Result CallError A) {e : CallError}
    → r ≡ err e
    → settle first none r ≡ (r, suc first)
unfolding settle
last_failed first r p = rw p refl

goes_on {ℓ} :
    {A : Type ℓ} (first : ℕ) (rest : Result CallError A × ℕ) (r : Result CallError A)
    {e : CallError}
    → r ≡ err e
    → retryable e ≡ true
    → settle first (some rest) r ≡ rest
unfolding settle
goes_on first rest r p t = rw (p, t) refl

Again-cases {ℓ} :
    {A : Type ℓ} (r : Result CallError A)
    → (¬ Again r) ⊎ ((e : CallError) × (r ≡ err e) × (retryable e ≡ true))
Again-cases (ok a) = inl (λ h. h)
Again-cases (err e) = elim (Bool-cases (retryable e)) [
  | inl t ↦ inr (e, refl, t)
  | inr f ↦ inl (λ t. cc (f, t))
]

get_from_lem {ℓ} :
    {A : Type ℓ} (once : ℕ → Result CallError A) (left first : ℕ)
    → (last : ℕ) × (get_from once left first ≡ (once last, suc last)) × Ran once left first last
unfolding get_from
get_from_lem once zero first = elim (Again-cases (once first)) [
  | inl stop ↦ (first, stopped once first none stop, Ran-now once 0 first (inl stop))
  | inr (e, p, t) ↦ (first, last_failed first (once first) p, Ran-now once 0 first (inr refl))
]
get_from_lem once (suc left) first = elim (Again-cases (once first)) [
  | inl stop ↦ (
    first,
    stopped once first (some (get_from once left (suc first))) stop,
    Ran-now once (suc left) first (inl stop),
  )
  | inr (e, p, t) ↦
      let (last, q, r) = get_from_lem once left (suc first) in
      (
        last,
        goes_on first (get_from once left (suc first)) (once first) p t ∙ q,
        Ran-later once left first last (subst Again (sym p) t) r,
      )
]

-- `get_json` returns the answer of the first call that succeeds or fails in a way that allows no
-- other, or of the last that the retries allow, and it makes no call after that one: there is
-- exactly one such call, and at most one more than there are retries are made.
pub get_from_iff {ℓ} :
    {A : Type ℓ} (once : ℕ → Result CallError A) (retries : ℕ) (last : ℕ)
    → (((get_from once retries 0).1 ≡ suc last) ↔ Ran once retries 0 last)
      × (((get_from once retries 0).1 ≡ suc last) → (get_from once retries 0).0 ≡ once last)
get_from_iff {A} once retries last =
    let (n, q, r) = get_from_lem once retries 0 in
    let count : (get_from once retries 0).1 ≡ suc n = ap (λ (x : Result CallError A × ℕ). x.1) q in
    let same = λ (h : (get_from once retries 0).1 ≡ suc last).
      let e : n ≡ last = omega (arith, count, h) in e in
    (
      (
        λ h. subst (Ran once retries 0) (same h) r,
        λ s. elim (Bool-cases (ltb n last)) [
          | inl less ↦ absurd (Ran-same once retries 0 r s (ground (arith, less)))
          | inr not_less ↦ elim (Bool-cases (ltb last n)) [
            | inl more ↦ absurd (Ran-same once retries 0 s r (ground (arith, more)))
            | inr equal ↦ ground (arith, not_less, equal, count)
          ]
        ],
      ),
      λ h. ap (λ (x : Result CallError A × ℕ). x.0) q ∙ ap once (same h),
    )
