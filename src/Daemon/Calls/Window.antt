-- ===== src/Daemon/Calls/Window.antt =====
-- The window in which crates/nfctl-daemon/src/client.rs answers from its memory.
use nfctl.Common.{
  ℕ, ◌-◌, ◌<◌, String, List, [], ◌∷◌, Option, none, some, ltb, map, Result, ok, err, ◌≡◌, ◌⊎◌, inl,
  inr, refl, sym, ap, ◌∙◌, subst, arith, Memᴰ, Bool-cases, Option-cases, ok_injective,
}
use nfctl.Model.Ids.{VertexName}
use nfctl.Model.Time.{Timestamp}
use nfctl.Model.Topology.{Topology}
use nfctl.Model.Runtime.{VertexMetrics}
use nfctl.Daemon.Dto.{VertexMetricsDto}
use nfctl.Daemon.Client.{CallError, ClientError}
use nfctl.Daemon.Calls.{
  Client, Recent, recent_metrics, names_of, ask_each, remember, held, vertex_metrics,
}

-- A question for the metrics of a vertex or of all: the server that it meets, when it is put, and when
-- its answer would be noted.
pub record Question (F : Type 0) : Type 0 where
  pub server : String → ℕ → Result CallError (List (VertexMetricsDto F))
  pub now : Timestamp
  pub done : Timestamp
  pub vertex : Option VertexName

some_injective {ℓ} : {A : Type ℓ} {a b : A} → ◌≡◌ {A = Option A} (some a) (some b) → a ≡ b
some_injective h = cc

module _ {F : Type 0} (c : Client F) where
  abbrev pub put : Question F → Recent F → Result ClientError (List (VertexMetrics F)) × Recent F
  put q recent = vertex_metrics c q.server q.now q.done q.vertex recent

  -- What is remembered after the questions, the last one first.
  abbrev pub after : List (Question F) → Recent F
  after [] = none
  after (q ∷ qs) = (put q (after qs)).1

  -- What the server of the question answers for all vertices of the topology.
  abbrev pub asked : Topology → Question F → Result ClientError (List (VertexMetrics F))
  asked t q = ask_each c q.server (map (λ v. v.name) t.vertices)

  recent_metrics-some :
      (now : Timestamp) (recent : Recent F) {got : List (VertexMetrics F)}
      → recent_metrics c now recent ≡ some got
      → (at : Timestamp) × (recent ≡ some (at, got)) × (now - at < c.metrics_ttl)
  unfolding recent_metrics
  recent_metrics-some now none h = cc
  recent_metrics-some now (some (at, old)) h = elim (Bool-cases (ltb (now - at) c.metrics_ttl)) [
    | inl t ↦ (at, cc (rw t at h), ground (arith, t))
    | inr f ↦ absurd (cc (rw f at h))
  ]

  module _ (t : Topology) (known : c.topology ≡ some t) where
    named_all :
        (v : Option VertexName) (o : Option Topology)
        → v ≡ none
        → o ≡ some t
        → names_of c v o ≡ ok (map (λ w. w.name) t.vertices)
    unfolding names_of
    named_all v o p q = rw (p, q) refl

    named_one :
        (v : Option VertexName) {n : VertexName}
        → v ≡ some n
        → names_of c v c.topology ≡ ok (n ∷ [])
    unfolding names_of
    named_one v p = rw p refl

    held_all :
        (now : Timestamp) (v : Option VertexName) (recent : Recent F)
        → v ≡ none
        → held c now v recent ≡ recent_metrics c now recent
    unfolding held
    held_all now v recent p = rw p refl

    held_one :
        (now : Timestamp) (v : Option VertexName) {n : VertexName} (recent : Recent F)
        → v ≡ some n
        → held c now v recent ≡ none
    unfolding held
    held_one now v recent p = rw p refl

    -- A question for all vertices is answered from the memory, or by its server.
    put_all :
        (q : Question F) (recent : Recent F)
        → q.vertex ≡ none
        → ((got : List (VertexMetrics F)) × (recent_metrics c q.now recent ≡ some got)
            × (put q recent ≡ (ok got, recent)))
          ⊎ (put q recent ≡ remember c q.done q.vertex recent (asked t q))
    unfolding vertex_metrics
    put_all q recent all = elim (Option-cases (recent_metrics c q.now recent)) [
      | inl p ↦ inr (
          rw (named_all q.vertex c.topology all known, held_all q.now q.vertex recent all ∙ p) refl)
      | inr (got, p) ↦ inl (
        got,
        p,
        rw (named_all q.vertex c.topology all known, held_all q.now q.vertex recent all ∙ p) refl,
      )
    ]

    -- What is noted of an answer.
    noted :
        (done : Timestamp) (v : Option VertexName) (recent : Recent F)
        (r : Result ClientError (List (VertexMetrics F)))
        → ((remember c done v recent r).1 ≡ recent)
          ⊎ ((got : List (VertexMetrics F)) × (v ≡ none)
              × (r ≡ ok got)
              × ((remember c done v recent r).1 ≡ some (done, got)))
    unfolding remember
    noted done none recent (ok got) = inr (got, refl, refl, refl)
    noted done (some v) recent (ok got) = inl refl
    noted done none recent (err e) = inl refl
    noted done (some v) recent (err e) = inl refl

    answered :
        (done : Timestamp) (v : Option VertexName) (recent : Recent F)
        (r : Result ClientError (List (VertexMetrics F)))
        → (remember c done v recent r).0 ≡ r
    unfolding remember
    answered done none recent (ok got) = refl
    answered done (some v) recent (ok got) = refl
    answered done none recent (err e) = refl
    answered done (some v) recent (err e) = refl

    put_one :
        (q : Question F) (recent : Recent F) {v : VertexName}
        → q.vertex ≡ some v
        → (put q recent).1 ≡ recent
    unfolding vertex_metrics
    put_one q recent {v} one =
        rw (named_one q.vertex one, held_one q.now q.vertex recent one)
          (elim (noted q.done q.vertex recent (ask_each c q.server (v ∷ []))) [
            | inl same ↦ same
            | inr (got, none_, _, _) ↦ absurd (cc (one, none_))
          ])

    -- How the memory changes, if it does.
    put_memory :
        (q : Question F) (recent : Recent F)
        → ((put q recent).1 ≡ recent)
          ⊎ ((got : List (VertexMetrics F)) × (q.vertex ≡ none)
              × (asked t q ≡ ok got)
              × ((put q recent).1 ≡ some (q.done, got)))
    put_memory q recent = elim (Option-cases q.vertex) [
      | inr (v, one) ↦ inl (put_one q recent one)
      | inl all ↦ elim (put_all q recent all) [
        | inl (got, _, p) ↦
            inl (ap (λ (x : Result ClientError (List (VertexMetrics F)) × Recent F). x.1) p)
        | inr p ↦
            let e = ap (λ (x : Result ClientError (List (VertexMetrics F)) × Recent F). x.1) p in
            elim (noted q.done q.vertex recent (asked t q)) [
              | inl same ↦ inl (e ∙ same)
              | inr (got, _, r, s) ↦ inr (got, all, r, e ∙ s)
            ]
      ]
    ]

    -- An earlier answer of a server for all vertices.
    abbrev pub Given : List (Question F) → Timestamp → List (VertexMetrics F) → Type 0
    Given qs at got =
        (q : Question F) × Memᴰ q qs × (q.vertex ≡ none) × (q.done ≡ at) × (asked t q ≡ ok got)

    after-Given :
        (qs : List (Question F)) {at : Timestamp} {got : List (VertexMetrics F)}
        → after qs ≡ some (at, got)
        → Given qs at got
    after-Given [] h = cc
    after-Given (q ∷ qs) {at} {got} h = elim (put_memory q (after qs)) [
      | inl same ↦
          let (p, m, all, done, ans) = after-Given qs {at = at} {got = got} (sym same ∙ h) in
          (p, Memᴰ.tail m, all, done, ans)
      | inr (new, all, ans, noted_) ↦
          let e : (q.done, new) ≡ (at, got) = some_injective (sym noted_ ∙ h) in
          (
            q,
            Memᴰ.head refl,
            all,
            ap (λ (x : Timestamp × List (VertexMetrics F)). x.0) e,
            ans ∙ ap ok (ap (λ (x : Timestamp × List (VertexMetrics F)). x.1) e),
          )
    ]

-- A whole pipeline's metrics, once they are answered, are what the server answers now, or what it
-- answered to an earlier question for the whole pipeline, noted less than the window before.
pub metrics-fresh :
    {F : Type 0} (c : Client F) (t : Topology) (qs : List (Question F)) (q : Question F)
    (got : List (VertexMetrics F))
    → c.topology ≡ some t
    → q.vertex ≡ none
    → (put c q (after c qs)).0 ≡ ok got
    → (asked c t q ≡ ok got)
      ⊎ ((p : Question F) × Memᴰ p qs
          × (p.vertex ≡ none)
          × (asked c t p ≡ ok got)
          × (q.now - p.done < c.metrics_ttl))
metrics-fresh {F} c t qs q got known all h = elim (put_all c t known q (after c qs) all) [
  | inr p ↦ inl (
      sym (answered c t known q.done q.vertex (after c qs) (asked c t q))
      ∙ sym (ap (λ (x : Result ClientError (List (VertexMetrics F)) × Recent F). x.0) p)
      ∙ h)
  | inl (old, found, p) ↦
      let same : old ≡ got =
        ok_injective
          (sym (ap (λ (x : Result ClientError (List (VertexMetrics F)) × Recent F). x.0) p) ∙ h) in
      let (at, noted_, within) = recent_metrics-some c q.now (after c qs) found in
      let (e, m, whole, done, ans) = after-Given c t known qs noted_ in
      inr (e, m, whole, ans ∙ ap ok same, subst (λ d. q.now - d < c.metrics_ttl) (sym done) within)
]
