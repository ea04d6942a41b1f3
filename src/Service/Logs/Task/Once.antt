-- ===== src/Service/Logs/Task/Once.antt =====
-- A tail sends each line of a log once, however often its streams break and are opened again
-- (`TailTask::run` in crates/nfctl-core/src/service/logs.rs).
use nfctl.Common.{
  ◌<◌, String, true, false, List, [], ◌∷◌, ◌++◌, map, Option, none, some, Result, ok, ◌≡◌, refl,
  sym, ap, ◌∙◌, subst, arith, inl, inr, Bool-cases, All, ◌==◌, string_eq, nat_eq, option_eq,
  option_same, option_same_law, ◌&&◌, beq_refl, ltb,
}
use mathlib.Core.List.{append_assoc, append-nil}
use nfctl.Error.{Error}
use nfctl.Model.Time.{Timestamp}
use nfctl.Model.Pods.{LogLine}
use nfctl.Service.Logs.Task.{Counts, lower, TailTask, note_line, send, receive}
use nfctl.Service.Logs.Task.Boundary.{Entry, from_time, count, Ordered, Counted, note_time-Counted}

abbrev pub line_of : Entry → LogLine
line_of e = record { at = some e.0; text = e.1 }

-- What the cluster serves of a log, by the start that the call asks for, which is inclusive.
abbrev pub serve : Option Timestamp → List Entry → List Entry
serve none log = log
serve (some t) log = from_time t log

-- The items of a stream.
abbrev pub items : List Entry → List (Result Error LogLine)
items es = map ok (map line_of es)

pub items-append : (xs ys : List Entry) → items (xs ++ ys) ≡ items xs ++ items ys
items-append [] ys = refl
items-append (x ∷ xs) ys = ap (λ l. ok (line_of x) ∷ l) (items-append xs ys)

map-snoc :
    (xs : List Entry) (e : Entry)
    → map line_of xs ++ (line_of e ∷ []) ≡ map line_of (xs ++ (e ∷ []))
map-snoc [] e = refl
map-snoc (x ∷ xs) e = ap (λ l. line_of x ∷ l) (map-snoc xs e)

-- The counts that are left after replayed entries are the counts of the others.
lower-count :
    (e : Entry) (es : List Entry) (r : Counts)
    → ((u : String) → r u ≡ count u (e ∷ es))
    → (0 < r e.1) × ((u : String) → lower e.1 r u ≡ count u es)
lower-count e es r h = (
  (let k = h e.1 in omega (arith, rw (beq_refl e.1) at k)),
  λ u. elim (Bool-cases (u == e.1)) [
    | inl p ↦ let k = h u in rw p (omega (arith, rw p at k))
    | inr p ↦ let k = h u in rw p (omega (arith, rw p at k))
  ],
)

-- Entries of the time and the counts of the replay are skipped.
pub receive-skip :
    (at : Timestamp) (es : List Entry) (r : Counts) (more : List (Result Error LogLine))
    (t : TailTask) (rest : List Entry)
    → All (λ e. e.0 ≡ at) es
    → ((u : String) → r u ≡ count u (es ++ rest))
    → (q : Counts) × ((u : String) → q u ≡ count u rest)
      × (receive (some at) r (items es ++ more) t ≡ receive (some at) q more t)
unfolding receive
receive-skip at [] r more t rest same h = (r, h, refl)
receive-skip at (e ∷ es) r more t rest same h =
    let (positive, left) = lower-count e (es ++ rest) r h in
    let (q, c, p) = receive-skip at es (lower e.1 r) more t rest same.1 left in
    let hit : (option_same (some e.0) (some at) && ltb 0 (r e.1)) ≡ true =
      ground (arith, positive, (option_same_law (some e.0) (some at)).1 (ap some same.0)) in
    (q, c, rw hit p)

-- What has been sent, and what of the log is still to come.
pub record Holds (done rest : List Entry) (t : TailTask) : Type 0 where
  pub counted : Counted done (t.last_ts, t.boundary)
  pub sent : t.sent ≡ map line_of done
  pub ordered : Ordered t.last_ts rest

Ordered-head :
    (last : Option Timestamp) (e : Entry) (rest : List Entry)
    → Ordered last (e ∷ rest)
    → Ordered last (e ∷ []) × Ordered (some e.0) rest
Ordered-head none e rest o = (tt, o)
Ordered-head (some t) e rest o = ((o.0, tt), o.1)

send-Holds :
    (done : List Entry) (e : Entry) (rest : List Entry) (t : TailTask)
    → Holds done (e ∷ rest) t
    → Holds (done ++ (e ∷ [])) rest (send (line_of e) t)
unfolding send note_line
send-Holds done e rest t h =
    let (o, later) = Ordered-head t.last_ts e rest h.ordered in
    let (c, q) = note_time-Counted done (t.last_ts, t.boundary) e h.counted o in
    record {
      counted = c;
      sent = ap (λ l. l ++ (line_of e ∷ [])) h.sent ∙ map-snoc done e;
      ordered = subst (λ x. Ordered x rest) (sym q) later;
    }

send-since : (e : Entry) (t : TailTask) → (send (line_of e) t).since ≡ t.since
unfolding send
send-since e t = refl

-- Entries that are not replayed are sent.
pub receive-Holds :
    (at : Option Timestamp) (r : Counts) (es done rest : List Entry) (t : TailTask)
    → ((u : String) → r u ≡ 0)
    → Holds done (es ++ rest) t
    → Holds (done ++ es) rest (receive at r (items es) t)
      × ((receive at r (items es) t).since ≡ t.since)
unfolding receive
receive-Holds at r [] done rest t z h =
    (subst (λ d. Holds d rest t) (sym (append-nil done)) h, refl)
receive-Holds at r (e ∷ es) done rest t z h =
    let miss : (option_same (some e.0) at && ltb 0 (r e.1)) ≡ false = ground (arith, z e.1) in
    let (k, q) =
      receive-Holds at r es (done ++ (e ∷ [])) rest (send (line_of e) t) z
        (send-Holds done e (es ++ rest) t h) in
    rw miss (
      subst (λ d. Holds d rest (receive at r (items es) (send (line_of e) t)))
          (append_assoc done (e ∷ []) es) k,
      q ∙ send-since e t,
    )
