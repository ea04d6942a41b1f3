-- ===== src/Daemon/Ends/Owner.antt =====
-- Whose buffers `ends_for` (crates/nfctl-daemon/src/client.rs) takes a buffer for.
use nfctl.Common.{
  ℕ, ◌≤◌, String, true, false, List, [], ◌∷◌, ◌++◌, none, some, string_eq, map, keep, length,
  length-append, ltb, eqb, ◌≡◌, ◌↔◌, ◌⊎◌, inl, inr, refl, sym, ap, ◌∙◌, subst, arith, Memᴰ, All,
  mem-keep, Bool-cases,
}
use Prim.Native.Char.{code}
use text.Mathlib.TextEquality.{Char-path}
use mathlib.Core.List.Memᴰ
use mathlib.Core.List.{append_assoc}
use nfctl.Common.Text.{ends_with, ends_with_iff, rsplit_once-append}
use nfctl.Model.Ids.{chars, join, VertexName}
use nfctl.Model.Topology.{Topology, Vertex}
use nfctl.Daemon.Ends.{stem, longest, owner, ends_of, ends_for}

chars_injective : (s t : String) → chars s ≡ chars t → s ≡ t
chars_injective String.[] String.[] h = refl
chars_injective String.[] (String.◌∷◌ d t) h = cc
chars_injective (String.◌∷◌ c s) String.[] h = cc
chars_injective (String.◌∷◌ c s) (String.◌∷◌ d t) h =
    let same : c ≡ d = Char-path c d (cc) in
    let rest : s ≡ t = chars_injective s t (cc) in cc (same, rest)

chars-join : (s t : String) → chars (join s t) ≡ chars s ++ chars t
unfolding join
chars-join String.[] t = refl
chars-join (String.◌∷◌ c s) t = ap (λ (r : List ℕ). code c ∷ r) (chars-join s t)

-- Of two ends of one text that are equally long, each is the other.
same_ends : (p q s t : List ℕ) → p ++ s ≡ q ++ t → length s ≡ length t → s ≡ t
same_ends [] [] s t h e = h
same_ends [] (d ∷ q) s t h e = absurd (omega (arith, ap length h, e, length-append q t))
same_ends (c ∷ p) [] s t h e = absurd (omega (arith, ap length h, e, length-append p s))
same_ends (c ∷ p) (d ∷ q) s t h e = same_ends p q s t (cc h) e

abbrev size : VertexName → ℕ
size n = length (chars n)

-- The longest name of a list, if there is one.
longest_lem :
    (ns : List VertexName)
    → ((ns ≡ []) × (longest ns ≡ none))
      ⊎ ((m : VertexName) × (longest ns ≡ some m)
          × Memᴰ m ns
          × ((n : VertexName) → Memᴰ n ns → size n ≤ size m))
unfolding longest
longest_lem [] = inl (refl, refl)
longest_lem (x ∷ xs) = elim (longest_lem xs) [
  | inl (e, p) ↦ inr (
    x,
    rw p,
    Memᴰ.head refl,
    λ n m. elim (Memᴰ.cases_cons m) [
      | inl q ↦ omega (arith, ap size q)
      | inr r ↦ elim (subst (λ l. Memᴰ n l) e r) [ ]
    ],
  )
  | inr (y, p, ym, max) ↦ elim (Bool-cases (ltb (size y) (size x))) [
    | inl t ↦ inr (
      x,
      rw (p, t),
      Memᴰ.head refl,
      λ n m. elim (Memᴰ.cases_cons m) [
        | inl q ↦ omega (arith, ap size q)
        | inr r ↦ ground (arith, t, max n r)
      ],
    )
    | inr f ↦ inr (
      y,
      rw (p, f),
      Memᴰ.tail ym,
      λ n m. elim (Memᴰ.cases_cons m) [ inl q ↦ ground (arith, f, ap size q) | inr r ↦ max n r ],
    )
  ]
]

abbrev Ending : Topology → List ℕ → VertexName → Type 0
Ending t s n = (w : Vertex) × Memᴰ w t.vertices × (w.name ≡ n) × (ends_with s (chars n) ≡ true)

candidates : Topology → List ℕ → List VertexName
candidates t s = keep (λ n. ends_with s (chars n)) (map (λ v. v.name) t.vertices)

mem-candidates :
    (t : Topology) (s : List ℕ) (n : VertexName) → Memᴰ n (candidates t s) ↔ Ending t s n
unfolding candidates
mem-candidates t s n =
    let kept = mem-keep (λ m. ends_with s (chars m)) (map (λ v. v.name) t.vertices) n in
    (
      λ m.
          let (q, e) = kept.0 m in
          let (w, wm, same) = Memᴰ.of_map (λ (v : Vertex). v.name) t.vertices q in (w, wm, same, e),
      λ (w, wm, same, e). kept.1 (
        subst (λ k. Memᴰ k (map (λ v. v.name) t.vertices)) same
            (Memᴰ.map (λ (v : Vertex). v.name) wm),
        e,
      ),
    )

-- The name of a buffer: what comes before the vertex, the vertex, and the partition.
pub buffer_name : (prefix : String) → VertexName → (partition : String) → String
buffer_name prefix v partition = join prefix (join "-" (join v (join "-" partition)))

-- The text of a partition: it has no dash.
abbrev pub NoDash : String → Type 0
NoDash s = All (λ c. eqb c b'-' ≡ false) (chars s)

-- What is before the partition.
abbrev pub before : String → VertexName → List ℕ
before prefix v = chars prefix ++ (b'-' ∷ chars v)

stem-buffer_name :
    (prefix : String) (v : VertexName) (partition : String)
    → NoDash partition
    → stem (buffer_name prefix v partition) ≡ before prefix v
unfolding stem buffer_name
stem-buffer_name prefix v partition clean =
    let spelled : chars (join prefix (join "-" (join v (join "-" partition))))
        ≡ before prefix v ++ (b'-' ∷ chars partition) =
      rw (chars-join, chars-join, chars-join, chars-join)
        (sym (append_assoc (chars prefix) (b'-' ∷ chars v) (b'-' ∷ chars partition))) in
    rw (spelled, rsplit_once-append b'-' (before prefix v) (chars partition) clean) refl

-- A buffer of the vertex `v` is taken for a buffer of `v` exactly if no vertex with a longer name has
-- a name that ends what comes before the partition.
pub ends_for_iff :
    (t : Topology) (v : Vertex) (prefix partition : String)
    → Memᴰ v t.vertices
    → NoDash partition
    → ((ends_for (some t) (buffer_name prefix v.name partition)).1 ≡ v.name) ↔ (
        (w : Vertex)
        → Memᴰ w t.vertices
        → ends_with (before prefix v.name) (chars w.name) ≡ true
        → length (chars w.name) ≤ length (chars v.name))
unfolding ends_for owner candidates ends_of
ends_for_iff t v prefix partition m clean =
    let s = before prefix v.name in
    let own : ends_with s (chars v.name) ≡ true =
      (ends_with_iff s (chars v.name)).1 (
        chars prefix ++ (b'-' ∷ []),
        sym (append_assoc (chars prefix) (b'-' ∷ []) (chars v.name)),
      ) in
    elim (longest_lem (candidates t s)) [
      | inl (e, _) ↦
          elim (subst (λ l. Memᴰ v.name l) e ((mem-candidates t s v.name).1 (v, m, refl, own))) [ ]
      | inr (r, p, rm, max) ↦
          rw (stem-buffer_name prefix v.name partition clean, p)
            (
              λ e w wm end.
                  subst (λ n. size w.name ≤ size n) e
                    (max w.name ((mem-candidates t s w.name).1 (w, wm, refl, end))),
              λ h.
                  let (w, wm, same, end) = (mem-candidates t s r).0 rm in
                  let (p1, e1) = (ends_with_iff s (chars r)).0 end in
                  let (p2, e2) = (ends_with_iff s (chars v.name)).0 own in
                  let at_most : size r ≤ size v.name =
                    subst (λ n. size n ≤ size v.name) same
                      (h w wm (subst (λ n. ends_with s (chars n) ≡ true) (sym same) end)) in
                  let at_least : size v.name ≤ size r =
                    max v.name ((mem-candidates t s v.name).1 (v, m, refl, own)) in
                  chars_injective r v.name (
                    same_ends p1 p2 (chars r) (chars v.name) (sym e1 ∙ e2)
                      (omega (arith, at_most, at_least))),
            )
    ]
