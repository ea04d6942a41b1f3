-- ===== src/Tests/Daemons.antt =====
-- The client of a daemon (crates/nfctl-daemon/src) on small answers, with numbers for floats.
use nfctl.Common.{
  ℕ, ◌<◌, ◌-◌, ◌≤◌, zero, suc, true, List, [], ◌∷◌, none, some, ok, err, traverse, keep, all,
  length, ◌≡◌, ◌↔◌, ◌⊎◌, refl, Result, Memᴰ,
}
use nfctl.Common.Int.{pos}
use nfctl.Common.Text.{ends_with, rsplit_once, same_text}
use nfctl.Model.Ids.{new_name, check_dns_label, check_chars, chars}
use nfctl.Model.Topology.{source, sink, Topology, Vertex}
use nfctl.Model.Runtime.{VertexMetrics}
use nfctl.Daemon.Dto.{
  Reading, VertexMetricsDto, metrics_from, windows_i64, windows_f64, get, nonneg,
}
use nfctl.Daemon.Client.{CallError, transport, http, get_from, get_json, settle, Flavour}
use nfctl.Daemon.Client.Retries.{Ran, get_from_iff}
use nfctl.Daemon.Ends.{ends_for, ends_of, owner, stem, longest, sources_of}
use nfctl.Daemon.Ends.Owner.{before, buffer_name, ends_for_iff}
use nfctl.Daemon.Calls.{Client, recent_metrics, names_of, ask_each, remember, held, vertex_metrics}
use nfctl.Daemon.Calls.Window.{Question, put, after, asked, metrics-fresh}
use nfctl.Tests.Shapes.{v, e}
use nfctl.Tests.Wire.{floats}

-- A source `in` and a vertex that is named after the pipeline `p` and it.
abbrev shadowed : Topology
shadowed = record { vertices = v "in" source 1 ∷ v "p-in" sink 1 ∷ []; edges = e "in" "p-in" ∷ [] }

ends_for_iff_example : ((ends_for (some shadowed) (buffer_name "default-p" "in" "0")).1 ≡ "in") ↔ (
    (w : Vertex)
    → Memᴰ w shadowed.vertices
    → ends_with (before "default-p" "in") (chars w.name) ≡ true
    → length (chars w.name) ≤ length (chars "in"))
ends_for_iff_example =
    ends_for_iff shadowed (v "in" source 1) "default-p" "0" (Memᴰ.head refl) (refl, tt)

-- The buffer of `in` in the pipeline `p` is taken for one of `p-in`.
taken : ends_for (some shadowed) "default-p-in-0" ≡ ("in" ∷ [], "p-in")
unfolding ends_for ends_of owner stem longest sources_of keep ends_with same_text rsplit_once
taken = refl

-- One failure that may pass, then an answer.
abbrev flaky : ℕ → Result CallError ℕ
flaky zero = err (transport "reset")
flaky (suc n) = ok n

get_from_iff_example :
    (((get_from flaky 2 0).1 ≡ 2) ↔ Ran flaky 2 0 1)
    × (((get_from flaky 2 0).1 ≡ 2) → (get_from flaky 2 0).0 ≡ flaky 1)
get_from_iff_example = get_from_iff flaky 2 1

abbrev reading : Reading ℕ
reading = record {
  float = floats;
  is_nonneg = λ _. true;
  times = record { parse_rfc3339 = λ _. none; from_unix_nanos = λ _. some 7 };
  parse_i64 = λ _. none;
  parse_f64 = λ _. none;
}

abbrev client : Client ℕ
client = record {
  flavour = Flavour.pipeline;
  key = record { namespace = "ns"; name = "p" };
  topology = some (record { vertices = v "in" source 1 ∷ []; edges = [] });
  retries = 2;
  metrics_ttl = 5;
  reading = reading;
}

abbrev answer : VertexMetricsDto ℕ
answer = record {
  vertex = "in";
  processing_rates = ("1m", some 4) ∷ [];
  pendings = ("1m", some (pos 3)) ∷ [];
}

-- The first question is answered, the server of the second is down.
abbrev first : Question ℕ
first = record { server = λ _ _. ok (answer ∷ []); now = 10; done = 12; vertex = none }

abbrev second : Question ℕ
second = record { server = λ _ _. err (http 500 "down"); now = 14; done = 15; vertex = none }

runs : Unit {0}
unfolding vertex_metrics names_of held recent_metrics remember ask_each get_json get_from settle
runs = tt

runs_answers : Unit {0}
unfolding metrics_from windows_i64 windows_f64 get nonneg traverse new_name check_dns_label
    check_chars all
runs_answers = tt

remembered :
    (got : List (VertexMetrics ℕ)) × ((put client second (after client (first ∷ []))).0 ≡ ok got)
unfolding runs runs_answers
remembered = (_, refl)

metrics-fresh_example :
    (asked client (record { vertices = v "in" source 1 ∷ []; edges = [] }) second ≡ ok remembered.0)
    ⊎ ((p : Question ℕ) × Memᴰ p (first ∷ [])
        × (p.vertex ≡ none)
        × (asked client (record { vertices = v "in" source 1 ∷ []; edges = [] }) p
            ≡ ok remembered.0)
        × (14 - p.done < 5))
metrics-fresh_example =
    metrics-fresh client (record { vertices = v "in" source 1 ∷ []; edges = [] }) (first ∷ [])
      second remembered.0 refl refl remembered.1
