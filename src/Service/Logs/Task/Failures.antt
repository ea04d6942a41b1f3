-- ===== src/Service/Logs/Task/Failures.antt =====
-- When a tail gives up (`TailTask::run` in crates/nfctl-core/src/service/logs.rs).
use nfctl.Common.{
  ℕ, suc, ◌+◌, ◌≤◌, ◌<◌, String, true, List, [], ◌∷◌, map, Option, Result, ok, err, ◌≡◌, ◌↔◌, refl,
  arith, inl, inr, Bool-cases, length, leb, ltb, nat_eq, option_same, option_eq, ◌&&◌, ◌∙◌,
}
use nfctl.Error.{Error}
use nfctl.Model.Pods.{LogLine}
use nfctl.Service.Logs.Task.{TailTask, max_open_failures, send, lower, receive, attend, run_tail}

send-failures : (line : LogLine) (t : TailTask) → (send line t).failures ≡ t.failures
unfolding send
send-failures line t = refl

receive-failures :
    (at : Option ℕ) (r : String → ℕ) (items : List (Result Error LogLine)) (t : TailTask)
    → (receive at r items t).failures ≡ t.failures
unfolding receive
receive-failures at r [] t = refl
receive-failures at r (err e ∷ items) t = refl
receive-failures at r (ok line ∷ items) t =
    elim (Bool-cases (option_same line.at at && ltb 0 (r line.text))) [
      | inl p ↦ rw p (receive-failures at (lower line.text r) items t)
      | inr p ↦ rw p (receive-failures at r items (send line t) ∙ send-failures line t)
    ]

gives_up_iff :
    (display : Error → String) (es : List Error) (t : TailTask)
    → t.failures < 5
    → ((run_tail display (map err es) t).1 ≡ true) ↔ (5 ≤ t.failures + length es)
unfolding run_tail attend
gives_up_iff display [] t h = (λ k. cc, λ k. absurd (omega (arith, h, k)))
gives_up_iff display (e ∷ es) t h = elim (Bool-cases (leb max_open_failures (suc t.failures))) [
  | inl p ↦
      let late : 5 ≤ suc t.failures = ground (arith, p) in
      rw (p, run_tail, attend) (λ _. omega (arith, late), λ _. refl)
  | inr p ↦
      let small : suc t.failures < 5 = ground (arith, p) in
      let rest = gives_up_iff display es (record t { failures = suc t.failures }) small in
      rw (p, run_tail, attend) (λ k. omega (arith, rest.0 k), λ k. rest.1 (omega (arith, k)))
]

-- Where calls fail one after the other, a tail gives up exactly when the fifth in a row has failed,
-- those before counted; a stream that opens sets the count back.
pub run_tail_gives_up :
    (display : Error → String) (es : List Error) (t : TailTask)
    (items : List (Result Error LogLine))
    → t.failures < 5
    → (((run_tail display (map err es) t).1 ≡ true) ↔ (5 ≤ t.failures + length es))
      × ((attend display (ok items) t).0.failures ≡ 0)
unfolding attend
run_tail_gives_up display es t items h = (
  gives_up_iff display es t h,
  receive-failures t.last_ts t.boundary items (record t { failures = 0 }),
)
