-- ===== src/Model/Topology/Ranks/Settle.antt =====
-- The `while` loop of `Topology::ranks` (crates/nfctl-core/src/model/topology.rs) ends, and at its
-- end every edge that the loop counts goes to a greater rank.
use nfctl.Common.{
  ℕ, zero, suc, ◌+◌, ◌*◌, ◌≤◌, ◌<◌, Bool, true, false, List, [], ◌∷◌, some, length, ◌≡◌, refl, ap,
  ◌∙◌, inl, inr, arith, All, Bool-cases,
}
use nfctl.Common.Arrays.{
  get_or, set, replicate, length-replicate, length-set, get_or-replicate, get_or-set_cases,
}
use nfctl.Model.Topology.{Topology}
use nfctl.Model.Topology.Ranks.{index_edges, to_sink, maximum, lifts, relax, settle, settled}
use nfctl.Model.Topology.Ranks.Total.{EdgesBelow, index_edges-Below, to_sink_total}

abbrev pub sum : List ℕ → ℕ
sum [] = 0
sum (x ∷ xs) = x + sum xs

-- No vertex has a rank that, with its depth, passes `top`.
abbrev pub Within : List ℕ → ℕ → List ℕ → Type 0
Within sink top rank = (v : ℕ) → get_or rank v 0 + get_or sink v 0 ≤ top

-- An edge to a smaller depth goes to a greater rank.
abbrev pub Ordered : List ℕ → List ℕ → List (ℕ × ℕ) → Type 0
Ordered sink rank =
    All (λ e. get_or sink e.1 0 < get_or sink e.0 0 → get_or rank e.0 0 < get_or rank e.1 0)

sum-set : (xs : List ℕ) (i x : ℕ) → i < length xs → sum (set xs i x) + get_or xs i 0 ≡ sum xs + x
sum-set [] i x h = elim h [ ]
sum-set (y ∷ ys) zero x h = omega arith
sum-set (y ∷ ys) (suc i) x h = omega (arith, sum-set ys i x (omega arith))

sum-le : (xs : List ℕ) (top : ℕ) → ((i : ℕ) → get_or xs i 0 ≤ top) → sum xs ≤ length xs * top
sum-le [] top h = omega arith
sum-le (x ∷ xs) top h = grind (arith, h 0, sum-le xs top (λ i. h (suc i)))

sum-replicate : (n : ℕ) → sum (replicate n 0) ≡ 0
sum-replicate zero = refl
sum-replicate (suc n) = omega (arith, sum-replicate n)

lift-Within :
    (sink : List ℕ) (top : ℕ) (rank : List ℕ) (a b : ℕ)
    → Within sink top rank
    → lifts sink rank a b ≡ true
    → Within sink top (set rank b (get_or rank a 0 + 1))
lift-Within sink top rank a b within up v =
    elim (get_or-set_cases rank b v (get_or rank a 0 + 1) 0) [
      | inl (p, q) ↦ rw (q, ← p) (ground (arith, within a, up))
      | inr q ↦ rw q (within v)
    ]

-- What one pass does.
record Pass (sink : List ℕ) (top : ℕ) (es : List (ℕ × ℕ)) (rank : List ℕ) (changed : Bool)
    (r : List ℕ × Bool) : Type 0 where
  same_length : length r.0 ≡ length rank
  within : Within sink top r.0
  grows : sum rank ≤ sum r.0
  raised : changed ≡ false → r.1 ≡ true → sum rank < sum r.0
  kept : changed ≡ true → r.1 ≡ true
  still : r.1 ≡ false → (r.0 ≡ rank) × Ordered sink rank es

relax-Pass :
    (sink : List ℕ) (top : ℕ) (es : List (ℕ × ℕ)) (rank : List ℕ) (changed : Bool)
    → Within sink top rank
    → EdgesBelow (length rank) es
    → Pass sink top es rank changed (relax sink es rank changed)
unfolding relax
relax-Pass sink top [] rank changed within below = record {
  same_length = refl;
  within = within;
  grows = omega arith;
  raised = λ p q. cc;
  kept = λ p. p;
  still = λ p. (refl, tt);
}
relax-Pass sink top ((a, b) ∷ es) rank changed within below =
    elim (Bool-cases (lifts sink rank a b)) [
      | inl up ↦
          let rank' : List ℕ = set rank b (get_or rank a 0 + 1) in
          let same : length rank' ≡ length rank = length-set rank b (get_or rank a 0 + 1) in
          let more : sum rank < sum rank' =
            ground (arith, sum-set rank b (get_or rank a 0 + 1) below.0.1, up) in
          let rest =
            relax-Pass sink top es rank' true (lift-Within sink top rank a b within up)
              (rw same below.1) in
          rw up (record {
            same_length = rest.same_length ∙ same;
            within = rest.within;
            grows = omega (arith, rest.grows, more);
            raised = λ p q. omega (arith, rest.grows, more);
            kept = λ p. rest.kept refl;
            still = λ p. cc (rest.kept refl);
          })
      | inr flat ↦
          let rest = relax-Pass sink top es rank changed within below.1 in
          rw flat (record {
            same_length = rest.same_length;
            within = rest.within;
            grows = rest.grows;
            raised = rest.raised;
            kept = rest.kept;
            still = λ p. ((rest.still p).0, ((λ deeper. ground (arith, flat)), (rest.still p).1));
          })
    ]

-- What the loop has reached at its end.
pub record Settled (n : ℕ) (sink : List ℕ) (top : ℕ) (es : List (ℕ × ℕ)) (rank : List ℕ)
    : Type 0 where
  pub same_length : length rank ≡ n
  pub within : Within sink top rank
  pub ordered : Ordered sink rank es

-- A rank below the greatest sum can still be raised as often as the fuel says.
settle-Settled :
    (fuel n : ℕ) (sink : List ℕ) (top : ℕ) (es : List (ℕ × ℕ)) (rank : List ℕ)
    → length rank ≡ n
    → Within sink top rank
    → EdgesBelow n es
    → n * top < sum rank + fuel
    → (r : List ℕ) × (settle fuel sink es rank ≡ some r) × Settled n sink top es r
unfolding settle
settle-Settled zero n sink top es rank len within below room =
    let full = sum-le rank top (λ i. omega (arith, within i)) in
    absurd (omega (arith, full, ap (λ k. k * top) len))
settle-Settled (suc fuel) n sink top es rank len within below room =
    let pass = relax-Pass sink top es rank false within (rw len below) in
    elim (Bool-cases (relax sink es rank false).1) [
      | inl more ↦
          let (r, e, s) =
            settle-Settled fuel n sink top es (relax sink es rank false).0 (pass.same_length ∙ len)
              pass.within below (omega (arith, room, pass.raised refl more)) in
          (r, rw (more, settle) e, s)
      | inr done ↦
          let (same, ordered) = pass.still done in
          (
            rank,
            rw (done, settle) (ap some same),
            record { same_length = len; within = within; ordered = ordered },
          )
    ]

max-left : (ds : List ℕ) (i : ℕ) → get_or ds i 0 ≤ maximum ds
unfolding maximum
max-left [] i = omega arith
max-left (d ∷ ds) zero = omega arith
max-left (d ∷ ds) (suc i) = omega (arith, max-left ds i)

-- The loops of `ranks` end for every topology; no rank, with the depth of its vertex, passes the
-- greatest depth, and every edge to a smaller depth goes to a greater rank.
pub settled_total :
    (t : Topology)
    → (sink : List ℕ) × (rank : List ℕ) × (settled t ≡ some (sink, rank))
      × (to_sink (length t.vertices) (index_edges t.vertices t.edges) ≡ some sink)
      × Settled (length t.vertices) sink (maximum sink) (index_edges t.vertices t.edges) rank
unfolding settled
settled_total t =
    let n : ℕ = length t.vertices in
    let es = index_edges t.vertices t.edges in
    let below = index_edges-Below t.vertices t.edges in
    let (sink, deep, _) = to_sink_total n es below in
    let (rank, done, s) =
      settle-Settled (n * maximum sink + 1) n sink (maximum sink) es (replicate n 0)
        (length-replicate n 0)
        (λ v. rw (get_or-replicate {A = ℕ} n v 0) (omega (arith, max-left sink v))) below
        (omega (arith, sum-replicate n)) in
    (sink, rank, rw (deep, settled, done), deep, s)
