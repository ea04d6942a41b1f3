-- ===== src/Service/Logs/Task.antt =====
-- `TailTask` (crates/nfctl-core/src/service/logs.rs): one container's tail over the streams that its
-- calls of `tail_logs` return. The counts of `boundary` are a function with 0 for a missing text; the
-- channel takes every line.
pub mod Once
pub mod Boundary
pub mod Failures
pub mod Parts
pub mod Streams
use nfctl.Common.{
  ℕ, suc, ◌+◌, ◌-◌, String, Bool, true, false, not, ◌&&◌, List, [], ◌∷◌, ◌++◌, Option, none, some,
  Result, ok, err, PartialEq, ◌==◌, string_eq, nat_eq, option_eq, if◌then◌else◌, ltb, leb, eqb,
}
use nfctl.Error.{Error}
use nfctl.Model.Ids.{join}
use nfctl.Model.Time.{Timestamp}
use nfctl.Model.Pods.{LogLine, LogOptions}

abbrev pub Counts : Type 0
Counts = String → ℕ

abbrev pub no_counts : Counts
no_counts _ = 0

-- `insert(text, 1)`, `*entry(text).or_default() += 1` and `*count -= 1`.
abbrev pub put_one : String → Counts → Counts
put_one t m u = if u == t then 1 else m u

abbrev pub bump : String → Counts → Counts
bump t m u = if u == t then suc (m u) else m u

abbrev pub lower : String → Counts → Counts
lower t m u = if u == t then m u - 1 else m u

pub record TailTask : Type 0 where
  pub since : Option Timestamp
  pub tail_lines : Option ℕ
  pub last_ts : Option Timestamp
  pub boundary : Counts
  pub failures : ℕ
  -- What was sent to the consumer.
  pub sent : List LogLine

abbrev pub new_task : Option Timestamp → Option ℕ → TailTask
new_task since tail_lines = record {
  since = since;
  tail_lines = tail_lines;
  last_ts = none;
  boundary = no_counts;
  failures = 0;
  sent = [];
}

-- The `LogOptions` of each call.
unfoldable pub options : TailTask → LogOptions
options t = record { follow = true; since = t.since; tail_lines = t.tail_lines }

-- What a line that is not skipped does to `last_ts` and `boundary`.
pub note_time : Timestamp → String → Option Timestamp × Counts → Option Timestamp × Counts
note_time at text (none, b) = (some at, put_one text b)
note_time at text (some last, b) =
    if ltb last at
    then (some at, put_one text no_counts)
    else if eqb at last
    then (some last, bump text b)
    else (some last, b)

pub note_line : LogLine → Option Timestamp × Counts → Option Timestamp × Counts
note_line line s = elim line.at [ none ↦ s | some at ↦ note_time at line.text s ]

pub send : LogLine → TailTask → TailTask
send line t =
    let (last, b) = note_line line (t.last_ts, t.boundary) in
    record t { last_ts = last; boundary = b; sent = t.sent ++ (line ∷ []) }

-- The loop over one stream, which an error ends.
pub receive : Option Timestamp → Counts → List (Result Error LogLine) → TailTask → TailTask
receive replay_at replay [] t = t
receive replay_at replay (err e ∷ items) t = t
receive replay_at replay (ok line ∷ items) t =
    let skipped = receive replay_at (lower line.text replay) items t in
    let kept = receive replay_at replay items (send line t) in
    if line.at == replay_at && ltb 0 (replay line.text) then skipped else kept

-- `last_ts.or(self.since)`
abbrev pub or_since : Option Timestamp → Option Timestamp → Option Timestamp
or_since none since = since
or_since (some t) since = some t

abbrev pub max_open_failures : ℕ
max_open_failures = 5

-- One call of `tail_logs`, and whether the task gives up. `display` is the text of an error.
unfoldable pub attend :
    (display : Error → String)
    → Result Error (List (Result Error LogLine))
    → TailTask
    → TailTask × Bool
attend display (ok items) t =
    let r = receive t.last_ts t.boundary items (record t { failures = 0 }) in
    (record r { since = or_since r.last_ts r.since; tail_lines = none }, false)
attend display (err e) t =
    let f = record t { failures = suc t.failures } in
    if leb max_open_failures f.failures
    then (
      record f {
        sent =
            f.sent
            ++ (record { at = none; text = join "<tail failed: " (join (display e) ">") } ∷ []);
      },
      true,
    )
    else (f, false)

-- `run`, on what the calls answer.
unfoldable pub run_tail :
    (display : Error → String)
    → List (Result Error (List (Result Error LogLine)))
    → TailTask
    → TailTask × Bool
run_tail display [] t = (t, false)
run_tail display (a ∷ answers) t =
    let (u, gave_up) = attend display a t in
    let rest = run_tail display answers u in if gave_up then (u, true) else rest
