-- ===== src/Service/Logs/Task/Streams.antt =====
-- The streams of one tail, one after the other (`TailTask::run` in
-- crates/nfctl-core/src/service/logs.rs).
use nfctl.Common.{
  suc, String, false, List, [], ◌++◌, map, Option, none, some, ok, err, ◌≡◌, refl, sym, ap, ◌∙◌,
  subst, inl, inr, Bool-cases, Option-cases, All, leb,
}
use mathlib.Core.List.{append_assoc, append-nil}
use nfctl.Error.{Error}
use nfctl.Model.Time.{Timestamp}
use nfctl.Service.Logs.Task.{TailTask, new_task, receive, or_since, max_open_failures, attend}
use nfctl.Service.Logs.Task.Boundary.{Entry, from_time, count, Ordered, Counted, from_time-append}
use nfctl.Service.Logs.Task.Once.{
  line_of, serve, items, items-append, Holds, receive-skip, receive-Holds,
}
use nfctl.Service.Logs.Task.Parts.{
  prefix_cases, from_time-Ordered, from_time-last, All-left, append_nil_right, append_nil_left,
  receive_nothing, or_since-next,
}

-- A part of the log was sent, each line once, and the next call asks for what comes from there on.
pub record Progress (since_start : Option Timestamp) (log : List Entry) (t : TailTask)
    : Type 0 where
  pub done : List Entry
  pub rest : List Entry
  pub whole : log ≡ done ++ rest
  pub holds : Holds done rest t
  pub since : t.since ≡ or_since t.last_ts since_start

module _ (display : Error → String) (since_start : Option Timestamp) (log : List Entry) where
  -- One tail: streams that serve a part of what is asked for and break, and calls that fail, fewer
  -- in a row than the task bears.
  pub data Follows : TailTask → Type 0 where
    fresh : Follows (new_task since_start none)
    stream :
        {t : TailTask}
        → Follows t
        → (part later : List Entry) → serve t.since log ≡ part ++ later
        → Follows (attend display (ok (items part)) t).0
    refused :
        {t : TailTask}
        → Follows t
        → (e : Error) → (attend display (err e) t).1 ≡ false
        → Follows (attend display (err e) t).0

  -- The task after the items of one stream that left `later` out.
  record Received (later : List Entry) (r : TailTask) : Type 0 where
    pub done : List Entry
    pub rest : List Entry
    pub whole : log ≡ done ++ rest
    pub holds : Holds done rest r
    pub since : r.last_ts ≡ none → r.since ≡ since_start
    pub full : later ≡ [] → rest ≡ []

  module _ (served : serve since_start log ≡ log) (t : TailTask) (p : Progress since_start log t)
      (part later : List Entry) (e : serve t.since log ≡ part ++ later) where
    first_stream : t.last_ts ≡ none → Received later (receive t.last_ts t.boundary (items part) t)
    first_stream q =
        let (empty, zero_counts) = subst (λ x. Counted p.done (x, t.boundary)) q p.holds.counted in
        let from_start : t.since ≡ since_start = p.since ∙ ap (λ x. or_since x since_start) q in
        let all : log ≡ part ++ later = sym served ∙ ap (λ x. serve x log) (sym from_start) ∙ e in
        let left : p.rest ≡ part ++ later = ap (λ d. d ++ p.rest) (sym empty) ∙ sym p.whole ∙ all in
        let (h, k) =
          receive-Holds t.last_ts t.boundary part p.done later t zero_counts
            (subst (λ x. Holds p.done x t) left p.holds) in
        record {
          done = p.done ++ part;
          rest = later;
          whole = p.whole ∙ ap (λ x. p.done ++ x) left ∙ sym (append_assoc p.done part later);
          holds = h;
          since = λ _. k ∙ from_start;
          full = λ z. z;
        }

    resumed :
        (l : Timestamp)
        → t.last_ts ≡ some l
        → Received later (receive (some l) t.boundary (items part) t)
    resumed l q =
        let (ne, early, counts) = subst (λ x. Counted p.done (x, t.boundary)) q p.holds.counted in
        let again = from_time l p.done in
        let at_last = from_time-last l p.done early in
        let ordered = subst (λ x. Ordered x p.rest) q p.holds.ordered in
        let asked : again ++ p.rest ≡ part ++ later =
          ap (λ x. again ++ x) (sym (from_time-Ordered l p.rest ordered))
          ∙ sym (from_time-append l p.done p.rest)
          ∙ ap (from_time l) (sym p.whole)
          ∙ ap (λ x. serve x log) (sym (p.since ∙ ap (λ x. or_since x since_start) q))
          ∙ e in
        elim (prefix_cases again p.rest part later asked) [
          | inl (us, a, b) ↦
              let (r, _, c) =
                receive-skip l part t.boundary [] t us
                  (All-left (λ x. x.0 ≡ l) part us (subst (All (λ x. x.0 ≡ l)) a at_last))
                  (λ u. counts u ∙ ap (count u) a) in
              subst (Received later)
                (sym (
                  ap (λ x. receive (some l) t.boundary x t) (sym (append-nil (items part)))
                  ∙ c
                  ∙ receive_nothing l r t))
                (record {
                  done = p.done;
                  rest = p.rest;
                  whole = p.whole;
                  holds = p.holds;
                  since = λ z. cc (z, q);
                  full = λ z. append_nil_right us p.rest (b ∙ z);
                })
          | inr (us, a, b) ↦
              let (r, zeros, c) =
                receive-skip l again t.boundary (items us) t [] at_last
                  (λ u. counts u ∙ ap (count u) (sym (append-nil again))) in
              let (h, k) =
                receive-Holds (some l) r us p.done later t zeros
                  (subst (λ x. Holds p.done x t) b p.holds) in
              subst (Received later)
                (sym (
                  ap (λ x. receive (some l) t.boundary x t) (ap items a ∙ items-append again us)
                  ∙ c))
                (record {
                  done = p.done ++ us;
                  rest = later;
                  whole = p.whole ∙ ap (λ x. p.done ++ x) b ∙ sym (append_assoc p.done us later);
                  holds = h;
                  since = λ z. absurd (
                      ne (
                        append_nil_left p.done us
                          (subst
                            (λ x.
                              Counted (p.done ++ us)
                                (x, (receive (some l) r (items us) t).boundary))
                            z h.counted).0));
                  full = λ z. z;
                })
        ]

    received : Received later (receive t.last_ts t.boundary (items part) t)
    received = elim (Option-cases t.last_ts) [
      | inl q ↦ first_stream q
      | inr (l, q) ↦
          subst (λ x. Received later (receive x t.boundary (items part) t)) (sym q) (resumed l q)
    ]

  cleared :
      (t : TailTask)
      → Progress since_start log t
      → Progress since_start log (record t { failures = 0 })
  cleared t p = record {
    done = p.done;
    rest = p.rest;
    whole = p.whole;
    holds = record { counted = p.holds.counted; sent = p.holds.sent; ordered = p.holds.ordered };
    since = p.since;
  }

  attend-Progress :
      (served : serve since_start log ≡ log) (t : TailTask) (p : Progress since_start log t)
      (part later : List Entry)
      → serve t.since log ≡ part ++ later
      → (q : Progress since_start log (attend display (ok (items part)) t).0) × (later ≡ []
          → q.rest ≡ [])
  unfolding attend
  attend-Progress served t p part later e =
      let r = received served (record t { failures = 0 }) (cleared t p) part later e in
      (
        record {
          done = r.done;
          rest = r.rest;
          whole = r.whole;
          holds = record {
            counted = r.holds.counted;
            sent = r.holds.sent;
            ordered = r.holds.ordered;
          };
          since = or_since-next _ _ r.since;
        },
        r.full,
      )

  refused-Progress :
      (t : TailTask) (e : Error)
      → Progress since_start log t
      → (attend display (err e) t).1 ≡ false
      → Progress since_start log (attend display (err e) t).0
  unfolding attend
  refused-Progress t e p h = elim (Bool-cases (leb max_open_failures (suc t.failures))) [
    | inl q ↦ absurd (cc (rw (q, attend) at h))
    | inr q ↦
        rw (q, attend)
          (record {
            done = p.done;
            rest = p.rest;
            whole = p.whole;
            holds = record {
              counted = p.holds.counted;
              sent = p.holds.sent;
              ordered = p.holds.ordered;
            };
            since = p.since;
          })
  ]

  Follows-Progress :
      serve since_start log ≡ log
      → Ordered none log
      → (t : TailTask) → Follows t
      → Progress since_start log t
  Follows-Progress served ordered t fresh = record {
    done = [];
    rest = log;
    whole = refl;
    holds = record { counted = (refl, λ u. refl); sent = refl; ordered = ordered };
    since = refl;
  }
  Follows-Progress served ordered t (stream f part later e) =
      (attend-Progress served _ (Follows-Progress served ordered _ f) part later e).0
  Follows-Progress served ordered t (refused f e h) =
      refused-Progress _ e (Follows-Progress served ordered _ f) h

-- However often the streams of a tail break, what was sent is an initial part of the log, each line
-- once and in order; and a stream that serves all that is asked for brings it to the whole log. The
-- log is in the order of its times, and what is asked for at the start is all of it.
pub sent_once :
    (display : Error → String) (since_start : Option Timestamp) (log : List Entry) (t : TailTask)
    → serve since_start log ≡ log
    → Ordered none log
    → Follows display since_start log t
    → ((done : List Entry) × (rest : List Entry) × (log ≡ done ++ rest)
        × (t.sent ≡ map line_of done))
      × ((attend display (ok (items (serve t.since log))) t).0.sent ≡ map line_of log)
sent_once display since_start log t served ordered f =
    let p = Follows-Progress display since_start log served ordered t f in
    let (q, full) =
      attend-Progress display since_start log served t p (serve t.since log) []
        (sym (append-nil (serve t.since log))) in
    let all : q.done ≡ log =
      sym (append-nil q.done) ∙ ap (λ x. q.done ++ x) (sym (full refl)) ∙ sym q.whole in
    ((p.done, p.rest, p.whole, p.holds.sent), q.holds.sent ∙ ap (map line_of) all)
