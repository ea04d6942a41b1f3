-- ===== src/Service/Status/Pending.antt =====
-- `total_pending`, `EdgeView::pending` and `drained` (crates/nfctl-core/src/service/status.rs).
use nfctl.Common.{
  ℕ, ◌+◌, ◌≤◌, true, List, [], ◌∷◌, map, flatten, Option, none, some, ◌≡◌, ◌≢◌, ◌↔◌, inl, inr, refl,
  ap, arith, Memᴰ, is_empty, empty_cases, all, all-false, all-flatten_map, all_iff, Bool-cases,
  Option-cases, option_same_law,
}
use mathlib.Core.Option
use nfctl.Common.Int.{ℤ, pos, negsuc, i64_max, int_eq}
use nfctl.Model.Runtime.{BufferInfo}
use nfctl.Service.Status.{
  EdgeView, add_count, add_pending, total_pending, edge_pending, PipelineView, is_drained, drained,
}

abbrev pub sum : List ℕ → ℕ
sum [] = 0
sum (n ∷ ns) = n + sum ns

-- Every buffer's count is known and not negative: the counts are `ns`.
abbrev pub Counted : {F : Type 0} → List (BufferInfo F) → List ℕ → Type 0
Counted bs ns = map (λ b. b.pending) bs ≡ map (λ n. some (pos n)) ns

add_count_iff :
    (t n : ℕ) (o : Option ℤ)
    → (add_count t o ≡ some n) ↔ ((k : ℕ) × (o ≡ some (pos k)) × (n ≡ t + k) × n ≤ i64_max)
unfolding add_count
add_count_iff t n none = (λ h. cc, λ (k, p, _, _). cc)
add_count_iff t n (some (negsuc k)) = (λ h. cc, λ (j, p, _, _). cc)
add_count_iff t n (some (pos k)) = (
  λ h. (k, refl, ground (arith, h), ground (arith, h)),
  λ (j, p, q, b). let e : k ≡ j = cc in ground (arith, e, q, b),
)

counted_nil : (ns : List ℕ) → [] ≡ map (λ n. some (pos n)) ns → ns ≡ []
counted_nil [] c = refl
counted_nil (m ∷ ms) c = cc

Counted-cons :
    {F : Type 0} (b : BufferInfo F) (bs : List (BufferInfo F)) (ns : List ℕ)
    → Counted (b ∷ bs) ns
    → (m : ℕ) × (ms : List ℕ) × (ns ≡ m ∷ ms) × (b.pending ≡ some (pos m)) × Counted bs ms
Counted-cons b bs [] c = cc
Counted-cons b bs (m ∷ ms) c = (m, ms, refl, cc, cc)

add_pending_iff :
    {F : Type 0} (t : ℕ) (bs : List (BufferInfo F)) (n : ℕ)
    → t ≤ i64_max
    → (add_pending t bs ≡ some n) ↔ ((ns : List ℕ) × Counted bs ns × (n ≡ t + sum ns) × n ≤ i64_max)
unfolding add_pending Option.bind
add_pending_iff t [] n le = (
  λ h. ([], refl, ground (arith, h), ground (arith, h, le)),
  λ (ns, c, q, b). let z = ap sum (counted_nil ns c) in ap some (omega (arith, z, q)),
)
add_pending_iff t (b ∷ bs) n le = (
  λ h. elim (Option-cases (add_count t b.pending)) [
    | inl p ↦ absurd (cc (rw p at h))
    | inr (u, p) ↦
        let (k, e, q, bound) = (add_count_iff t u b.pending).0 p in
        let (ns, c, s, le_n) = (add_pending_iff u bs n bound).0 (rw p at h) in
        (k ∷ ns, cc (e, c), omega arith, le_n)
  ],
  λ (ns, c, q, bound).
      let (m, ms, e, p, rest) = Counted-cons b bs ns c in
      let z = ap sum e in
      let le_t : t + m ≤ i64_max = omega arith in
      rw ((add_count_iff t (t + m) b.pending).1 (m, p, refl, le_t))
        ((add_pending_iff (t + m) bs n le_t).1 (ms, rest, omega arith, bound)),
)

total_pending_iff :
    {F : Type 0} (bs : List (BufferInfo F)) (r : ℤ)
    → (total_pending bs ≡ some r)
      ↔ ((ns : List ℕ) × Counted bs ns × (r ≡ pos (sum ns)) × sum ns ≤ i64_max)
unfolding total_pending
total_pending_iff bs r = (
  λ h. elim (Option-cases (add_pending 0 bs)) [
    | inl p ↦ absurd (cc (rw p at h))
    | inr (n, p) ↦
        let (ns, c, q, b) = (add_pending_iff 0 bs n (omega arith)).0 p in
        let e : n ≡ sum ns = omega (arith, q) in (ns, c, cc (rw p at h, e), omega (arith, e, b))
  ],
  λ (ns, c, q, b).
      rw ((add_pending_iff 0 bs (sum ns) (omega arith)).1 (ns, c, omega arith, b), q) refl,
)

-- The pending count of an edge is known exactly if the edge has a buffer, the count of each buffer
-- is known and not negative, and their sum is an `i64`: it is then that sum.
pub edge_pending_iff :
    {F : Type 0} (e : EdgeView F) (r : ℤ)
    → (edge_pending e ≡ some r) ↔ (
        (e.buffers ≢ [])
        × ((ns : List ℕ) × Counted e.buffers ns × (r ≡ pos (sum ns)) × sum ns ≤ i64_max))
unfolding edge_pending
edge_pending_iff e r = elim (empty_cases e.buffers) [
  | inl (p, q) ↦ rw (q, edge_pending) (λ h. cc, λ (ne, _). absurd (ne p))
  | inr (p, q) ↦
      rw (q, edge_pending)
        (
          λ h. (p, (total_pending_iff e.buffers r).0 h),
          λ (_, h). (total_pending_iff e.buffers r).1 h,
        )
]

no_buffers_iff :
    {F : Type 0} (es : List (EdgeView F))
    → (all (λ e. is_empty e.buffers) es ≡ true) ↔ ((e : EdgeView F) → Memᴰ e es → e.buffers ≡ [])
no_buffers_iff es = (
  λ h e m. elim (empty_cases e.buffers) [
    | inl (p, _) ↦ p
    | inr (_, q) ↦ absurd (cc (q, (all_iff (λ e. is_empty e.buffers) es).0 h e m))
  ],
  λ h. (all_iff (λ e. is_empty e.buffers) es).1 (λ e m. ap is_empty (h e m)),
)

is_drained_iff :
    {F : Type 0} (b : BufferInfo F)
    → (is_drained b ≡ true) ↔ ((b.pending ≡ some (pos 0)) × (b.ack_pending ≡ some (pos 0)))
unfolding is_drained
is_drained_iff b =
    ground (
      arith,
      option_same_law b.pending (some (pos 0)),
      option_same_law b.ack_pending (some (pos 0)),
    )

all_drained_iff :
    {F : Type 0} (es : List (EdgeView F))
    → (all is_drained (flatten (map (λ e. e.buffers) es)) ≡ true) ↔ (
        (e : EdgeView F) (b : BufferInfo F)
        → Memᴰ e es
        → Memᴰ b e.buffers
        → (b.pending ≡ some (pos 0)) × (b.ack_pending ≡ some (pos 0)))
all_drained_iff es = rw (all-flatten_map is_drained (λ e. e.buffers) es) (
  λ h e b m n.
      (is_drained_iff b).0 (
        (all_iff is_drained e.buffers).0 ((all_iff (λ e. all is_drained e.buffers) es).0 h e m) b
          n),
  λ h.
      (all_iff (λ e. all is_drained e.buffers) es).1
        (λ e m. (all_iff is_drained e.buffers).1 (λ b n. (is_drained_iff b).1 (h e b m n))),
)

-- The drain is unknown exactly if no edge has a buffer, and done exactly if some edge has one and
-- every buffer of every edge has nothing pending and nothing to be acknowledged.
pub drained_iff :
    {F : Type 0} (v : PipelineView F)
    → ((drained v ≡ none) ↔ ((e : EdgeView F) → Memᴰ e v.edges → e.buffers ≡ []))
      × ((drained v ≡ some true) ↔ (
          ((e : EdgeView F) × Memᴰ e v.edges × (e.buffers ≢ []))
          × ((e : EdgeView F) (b : BufferInfo F)
              → Memᴰ e v.edges
              → Memᴰ b e.buffers
              → (b.pending ≡ some (pos 0)) × (b.ack_pending ≡ some (pos 0)))))
unfolding drained
drained_iff v = elim (Bool-cases (all (λ e. is_empty e.buffers) v.edges)) [
  | inl p ↦
      let none_has = (no_buffers_iff v.edges).0 p in
      rw (p, drained)
        ((λ _. none_has, λ _. refl), (λ h. cc, λ ((e, m, ne), _). absurd (ne (none_has e m))))
  | inr p ↦
      let (e, m, q) = all-false (λ e. is_empty e.buffers) v.edges p in
      let ne : e.buffers ≢ [] = λ h. cc (q, ap is_empty h) in
      rw (p, drained)
        (
          (λ h. cc, λ h. absurd (ne (h e m))),
          (
            λ h. ((e, m, ne), (all_drained_iff v.edges).0 (ground (arith, h))),
            λ (_, h). ap some ((all_drained_iff v.edges).1 h),
          ),
        )
]
