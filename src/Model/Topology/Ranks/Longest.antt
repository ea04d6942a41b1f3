-- ===== src/Model/Topology/Ranks/Longest.antt =====
-- On an acyclic topology the memoised search of `depth` (crates/nfctl-core/src/model/topology.rs)
-- computes the longest path to a sink.
use Prim.Native.Nat.{max}
use nfctl.Common.{
  ℕ, zero, suc, ◌+◌, ◌≤◌, ◌<◌, Bool, true, false, List, [], ◌∷◌, Option, none, some, ◌≡◌, sym, ap,
  subst, ◌∙◌, inl, inr, arith, All, Bool-cases, Option-cases,
}
use native.Mathlib.Nat.{add-zero}
use nfctl.Common.Arrays.{get_or, set, replicate, get_or-replicate, get_or-set_cases, set-set-get_or}
use nfctl.Model.Topology.Ranks.{Walk, best_of, depth, depths}

-- The greatest of the successors' values, each one more.
unfoldable pub longest_from : (ℕ → ℕ) → List ℕ → ℕ → ℕ
longest_from long [] best = best
longest_from long (x ∷ xs) best = longest_from long xs (max best (long x + 1))

-- `long v` is the length of the longest path from `v`: one more than the longest of a successor,
-- and 0 at a vertex with none. Only an acyclic graph has such a function.
abbrev pub IsLongest : List (List ℕ) → (ℕ → ℕ) → Type 0
IsLongest out long = (v : ℕ) → long v ≡ longest_from long (get_or out v []) 0

-- What the memo holds is right, and all that is on the stack is above `v`.
abbrev MemoIsRight : (ℕ → ℕ) → Walk → Type 0
MemoIsRight long w = (v d : ℕ) → get_or w.memo v none ≡ some d → d ≡ long v

abbrev Above : (ℕ → ℕ) → ℕ → List Bool → Type 0
Above long h stack = (s : ℕ) → get_or stack s false ≡ true → h < long s

abbrev IsRight : (ℕ → ℕ) → ℕ → ℕ → Walk → List Bool → Type 0
IsRight long expected d w stack = (d ≡ expected) × MemoIsRight long w × (w.stack ≡ stack)

longest_from-le : (long : ℕ → ℕ) (xs : List ℕ) (best : ℕ) → best ≤ longest_from long xs best
unfolding longest_from
longest_from-le long [] best = omega arith
longest_from-le long (x ∷ xs) best = omega (arith, longest_from-le long xs (max best (long x + 1)))

pub longest_from-lt :
    (long : ℕ → ℕ) (xs : List ℕ) (best : ℕ) → All (λ x. long x < longest_from long xs best) xs
unfolding longest_from
longest_from-lt long [] best = tt
longest_from-lt long (x ∷ xs) best = (
  omega (arith, longest_from-le long xs (max best (long x + 1))),
  longest_from-lt long xs (max best (long x + 1)),
)

-- What the recursive call is known to do for the values below `h`.
abbrev VisitsRight : (ℕ → ℕ) → ℕ → (ℕ → Walk → Option (ℕ × Walk)) → Type 0
VisitsRight long h visit =
    (x : ℕ) (w : Walk) (d : ℕ) (w' : Walk)
    → long x < h
    → MemoIsRight long w
    → Above long (long x) w.stack
    → get_or w.stack x false ≡ false
    → visit x w ≡ some (d, w')
    → IsRight long (long x) d w' w.stack

module _ (long : ℕ → ℕ) (h : ℕ) (visit : ℕ → Walk → Option (ℕ × Walk))
    (right : VisitsRight long h visit) where
  best_of-IsRight :
      (xs : List ℕ) (best : ℕ) (w : Walk) (d : ℕ) (w' : Walk)
      → All (λ x. long x < h) xs
      → MemoIsRight long w
      → ((s : ℕ) → get_or w.stack s false ≡ true → h ≤ long s)
      → best_of visit xs best w ≡ some (d, w')
      → IsRight long (longest_from long xs best) d w' w.stack
  unfolding best_of longest_from
  best_of-IsRight [] best w d w' below memo above e =
      let p : w ≡ w' = ground (arith, e) in
      (ground (arith, e), subst (MemoIsRight long) p memo, ap (λ (u : Walk). u.stack) (sym p))
  best_of-IsRight (x ∷ xs) best w d w' below memo above e =
      elim (Bool-cases (get_or w.stack x false)) [
        | inl on ↦ absurd (omega (arith, above x on, below.0))
        | inr off ↦ elim (Option-cases (visit x w)) [
          | inl p ↦ absurd (ground (arith, e, off, p))
          | inr ((k, u), p) ↦
              let (kd, um, us) =
                right x w k u below.0 memo (λ s q. omega (arith, above s q, below.0)) off p in
              let (rd, rm, rs) =
                best_of-IsRight xs (max best (k + 1)) u d w' below.1 um
                  (λ s q. above s (rw us at q)) (rw (off, best_of, p) at e) in
              (rw kd at rd, rm, rs ∙ us)
        ]
      ]

MemoIsRight-set :
    (long : ℕ → ℕ) (w : Walk) (v best : ℕ) (stack : List Bool)
    → MemoIsRight long w
    → best ≡ long v
    → MemoIsRight long (record { memo = set w.memo v (some best); stack = stack })
MemoIsRight-set long w v best stack memo e u d h =
    elim (get_or-set_cases w.memo v u (some best) none) [
      | inl (p, q) ↦ cc (p, q, h, e)
      | inr q ↦ memo u d (sym q ∙ h)
    ]

cons-values :
    (long : ℕ → ℕ) (left v d : ℕ) (rest : List ℕ)
    → d ≡ long v
    → ((i : ℕ) → i < left → get_or rest i 0 ≡ long (suc v + i))
    → (i : ℕ) → i < suc left
    → get_or (d ∷ rest) i 0 ≡ long (v + i)
cons-values long left v d rest first others zero h = rw add-zero first
cons-values long left v d rest first others (suc i) h =
    others i (omega arith) ∙ ap long (omega arith)

module _ (out : List (List ℕ)) (long : ℕ → ℕ) (spec : IsLongest out long) where
  depth-IsRight : (fuel h : ℕ) → VisitsRight long h (depth fuel out)
  unfolding depth
  depth-IsRight zero h v w d w' lt memo above off e = cc
  depth-IsRight (suc fuel) h v w d w' lt memo above off e =
      elim (Option-cases (get_or w.memo v none)) [
        | inr (k, known) ↦
            let p : w ≡ w' = ground (arith, e, known) in
            let q : k ≡ d = ground (arith, e, known) in
            (
              sym q ∙ memo v k known,
              subst (MemoIsRight long) p memo,
              ap (λ (u : Walk). u.stack) (sym p),
            )
        | inl unknown ↦
            let inner : Walk = record w { stack = set w.stack v true } in
            let r = best_of (depth fuel out) (get_or out v []) 0 inner in
            elim (Option-cases r) [
              | inl p ↦ absurd (ground (arith, e, unknown, p))
              | inr ((best, u), p) ↦
                  let (bd, um, us) =
                    best_of-IsRight long (long v) (depth fuel out) (depth-IsRight fuel (long v))
                      (get_or out v []) 0 inner best u
                      (subst (λ m. All (λ x. long x < m) (get_or out v [])) (sym (spec v))
                        (longest_from-lt long (get_or out v []) 0))
                      memo
                      (λ s q. elim (get_or-set_cases w.stack v s true false) [
                        | inl (same, _) ↦ omega (arith, ap long same)
                        | inr old ↦ omega (arith, above s (sym old ∙ q))
                      ])
                      p in
                  let right : best ≡ long v = bd ∙ sym (spec v) in
                  let q : d ≡ best = ground (arith, e, unknown, p) in
                  let q' : record { memo = set u.memo v (some best); stack = set u.stack v false }
                      ≡ w' =
                    ground (arith, e, unknown, p) in
                  (
                    q ∙ right,
                    subst (MemoIsRight long) q'
                        (MemoIsRight-set long u v best (set u.stack v false) um right),
                    ap (λ (x : Walk). x.stack) (sym q')
                        ∙ rw us (rw (← off) (set-set-get_or w.stack v true false)),
                  )
            ]
      ]

  pub depths-IsRight :
      (n fuel left v : ℕ) (w : Walk) (ds : List ℕ)
      → MemoIsRight long w
      → w.stack ≡ replicate n false
      → depths fuel out left v w ≡ some ds
      → (i : ℕ) → i < left
      → get_or ds i 0 ≡ long (v + i)
  unfolding depths
  depths-IsRight n fuel zero v w ds memo clean e i h = elim h [ ]
  depths-IsRight n fuel (suc left) v w ds memo clean e i h =
      elim (Option-cases (depth fuel out v w)) [
        | inl p ↦ absurd (ground (arith, e, p))
        | inr ((d, w'), p) ↦ elim (Option-cases (depths fuel out left (suc v) w')) [
          | inl q ↦ absurd (ground (arith, e, p, q))
          | inr (rest, q) ↦
              let off : (s : ℕ) → get_or w.stack s false ≡ false =
                λ s. rw clean (get_or-replicate n s false) in
              let (dl, wm, ws) =
                depth-IsRight fuel (long v + 1) v w d w' (omega arith) memo (λ s on. cc (off s, on))
                  (off v) p in
              let made : d ∷ rest ≡ ds = ground (arith, e, p, q) in
              subst (λ l. get_or l i 0 ≡ long (v + i)) made
                (cons-values long left v d rest dl
                  (depths-IsRight n fuel left (suc v) w' rest wm (ws ∙ clean) q) i h)
        ]
      ]
