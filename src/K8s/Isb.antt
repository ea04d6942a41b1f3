-- ===== src/K8s/Isb.antt =====
-- crates/nfctl-k8s/src/dto/isb.rs. `J` stands for a JSON document.
use nfctl.Common.{
  ℕ, String, Bool, true, false, not, ◌&&◌, List, [], Option, none, some, ◌==◌, string_eq, or_else,
  is_some, is_empty, all, ltb, if◌then◌else◌, Result, ok, ◌>>=◌, map_err,
}
use nfctl.Model.Ids.{new_name, max_label}
use nfctl.Model.Isb.{IsbPhase, IsbService, parse_isb_phase}
use nfctl.K8s.Object.{Object, bad_name, Invalid, invalid}
use nfctl.K8s.Dto.{ConditionDto}

pub record JetStreamDto (J : Type 0) : Type 0 where
  pub version : Option String
  pub replicas : Option ℕ
  pub persistence : Option J

pub record IsbSpecDto (J : Type 0) : Type 0 where
  pub jetstream : Option (JetStreamDto J)

pub record IsbStatusDto : Type 0 where
  pub phase : Option String
  pub conditions : List ConditionDto

abbrev no_jetstream : {J : Type 0} → JetStreamDto J
no_jetstream = record { version = none; replicas = none; persistence = none }

abbrev no_status : IsbStatusDto
no_status = record { phase = none; conditions = [] }

abbrev phase_of : Option String → IsbPhase
phase_of none = IsbPhase.unknown
phase_of (some s) = parse_isb_phase s

abbrev at_work : IsbPhase → Bool
at_work IsbPhase.running = true
at_work IsbPhase.deleting = true
at_work _ = false

abbrev ready : List ConditionDto → Bool
ready cs = not (is_empty cs) && all (λ c. c.status == "True") cs

-- The operator raises fewer than three replicas to three.
abbrev coerced : ℕ → ℕ
coerced r = if ltb r 3 then 3 else r

-- `into_isb`
pub into_isb : {J : Type 0} → Object (IsbSpecDto J) IsbStatusDto → Result Invalid IsbService
into_isb o = do
  let raw = or_else o.metadata.name ""
  name ← map_err (λ e. invalid "isbsvc" raw (bad_name e)) (new_name max_label raw)
  let ns_raw = or_else o.metadata.namespace ""
  namespace ← map_err (λ e. invalid "namespace" ns_raw (bad_name e)) (new_name max_label ns_raw)
  let js = or_else o.spec.jetstream no_jetstream
  let st = or_else o.status no_status
  ok (record {
    namespace = namespace;
    name = name;
    version = or_else js.version "";
    replicas = coerced (or_else js.replicas 3);
    persistent = is_some js.persistence;
    phase = phase_of st.phase;
    healthy = ready st.conditions && at_work (phase_of st.phase);
  })
