-- ===== src/Daemon/Dto.antt =====
-- crates/nfctl-daemon/src/dto.rs: what the daemon answers, as values of the domain. `F` stands for
-- `f64`. A map is the list of its entries.
use nfctl.Common.{
  ◌*◌, String, Bool, false, ◌&&◌, List, [], ◌∷◌, Option, none, some, ◌==◌, string_eq, or_else, map,
  if◌then◌else◌, Result, ok, ◌>>=◌, map_err, to_option,
}
use nfctl.Common.Int.{ℤ, pos, negsuc}
use nfctl.Common.Sort.{sort_by, leb_chars}
use nfctl.Model.Ids.{InvalidName, new_name, max_label, max_subdomain, VertexName}
use nfctl.Model.Time.{Timestamp, TimeFormats}
use nfctl.Model.Runtime.{
  Float, new_fraction, BufferInfo, Windows, VertexMetrics, EdgeWatermark, PipelineHealth,
  parse_health, ContainerError, ReplicaErrors,
}
use mathlib.Core.Option

-- What the conversions call outside the program.
pub record Reading (F : Type 0) : Type 0 where
  pub float : Float F
  pub is_nonneg : F → Bool
  pub times : TimeFormats
  pub parse_i64 : String → Option ℤ
  pub parse_f64 : String → Option F

-- The untagged wire forms of an integer and of a float.
pub data RawInt : Type 0 where
  text : String → RawInt
  number : ℤ → RawInt
  other null : RawInt

pub data RawFloat (F : Type 0) : Type 0 where
  number : F → RawFloat F
  text : String → RawFloat F
  null : RawFloat F

pub de_i64 : {F : Type 0} → Reading F → Option RawInt → Option ℤ
de_i64 w none = none
de_i64 w (some (RawInt.number n)) = some n
de_i64 w (some (RawInt.text s)) = w.parse_i64 s
de_i64 w (some RawInt.other) = none
de_i64 w (some RawInt.null) = none

pub de_f64 : {F : Type 0} → Reading F → Option (RawFloat F) → Option F
de_f64 w none = none
de_f64 w (some (RawFloat.number x)) = some x
de_f64 w (some (RawFloat.text s)) = w.parse_f64 s
de_f64 w (some RawFloat.null) = none

pub record BufferInfoDto (F : Type 0) : Type 0 where
  pub buffer_name : String
  pub pending_count : Option ℤ
  pub ack_pending_count : Option ℤ
  pub total_messages : Option ℤ
  pub buffer_length : Option ℤ
  pub buffer_usage_limit : Option F
  pub buffer_usage : Option F
  pub is_full : Option Bool

abbrev pub IntMap : Type 0
IntMap = List (String × Option ℤ)

abbrev pub FloatMap : Type 0 → Type 0
FloatMap F = List (String × Option F)

pub record VertexMetricsDto (F : Type 0) : Type 0 where
  pub vertex : String
  pub processing_rates : FloatMap F
  pub pendings : IntMap

pub record MonoVertexMetricsInnerDto (F : Type 0) : Type 0 where
  pub mono_vertex : String
  pub processing_rates : FloatMap F
  pub pendings : IntMap

pub record EdgeWatermarkDto : Type 0 where
  pub from : String
  pub to : String
  pub watermarks : List (Option ℤ)
  pub is_watermark_enabled : Option Bool

pub record StatusDto : Type 0 where
  pub status : String
  pub message : String
  pub code : String

pub record ContainerErrorDto : Type 0 where
  pub container : String
  pub timestamp : Option String
  pub code : String
  pub message : String
  pub details : String

pub record ReplicaErrorsDto : Type 0 where
  pub replica : String
  pub container_errors : List ContainerErrorDto

-- Why an answer is no value of the domain.
pub data Malformed : Type 0 where
  buffer vertex : String → InvalidName → Malformed

-- `HashMap::get`
unfoldable pub get {ℓ} : {A : Type ℓ} → List (String × A) → String → Option A
get [] k = none
get ((j, a) ∷ m) k = if j == k then some a else get m k

unfoldable pub nonneg : Option ℤ → Option ℤ
nonneg none = none
nonneg (some (pos n)) = some (pos n)
nonneg (some (negsuc n)) = none

-- `m.get(k).copied().flatten()`
abbrev entry {ℓ} : {A : Type ℓ} → List (String × Option A) → String → Option A
entry m k = or_else (get m k) none

unfoldable pub windows_i64 : IntMap → Windows ℤ
windows_i64 m = record {
  m1 = nonneg (entry m "1m");
  m5 = nonneg (entry m "5m");
  m15 = nonneg (entry m "15m");
  default = nonneg (entry m "default");
}

-- `filter(|v| v.is_finite() && *v >= 0.0)`
abbrev known_rate : {F : Type 0} → Reading F → Option F → Option F
known_rate w none = none
known_rate w (some v) = if w.float.is_finite v && w.is_nonneg v then some v else none

unfoldable pub windows_f64 : {F : Type 0} → Reading F → FloatMap F → Windows F
windows_f64 w m = record {
  m1 = known_rate w (entry m "1m");
  m5 = known_rate w (entry m "5m");
  m15 = known_rate w (entry m "15m");
  default = known_rate w (entry m "default");
}

-- `Vec::dedup`
pub dedup : List String → List String
dedup [] = []
dedup (x ∷ []) = x ∷ []
dedup (x ∷ y ∷ xs) = let rest = dedup (y ∷ xs) in if x == y then rest else x ∷ rest

pub buffer_from :
    {F : Type 0}
    → Reading F
    → BufferInfoDto F
    → List VertexName
    → VertexName
    → Result Malformed (BufferInfo F)
buffer_from w d sources to =
    map_err (buffer d.buffer_name) (new_name max_subdomain d.buffer_name) >>= λ name. ok (record {
      name = name;
      sources = dedup (sort_by leb_chars sources);
      to = to;
      pending = nonneg d.pending_count;
      ack_pending = nonneg d.ack_pending_count;
      total = nonneg d.total_messages;
      length = nonneg d.buffer_length;
      usage = Option.bind d.buffer_usage (new_fraction w.float);
      usage_limit = Option.bind d.buffer_usage_limit (new_fraction w.float);
      is_full = d.is_full;
    })

unfoldable pub metrics_from :
    {F : Type 0} → Reading F → VertexMetricsDto F → Result Malformed (VertexMetrics F)
metrics_from w d = map_err (vertex d.vertex) (new_name max_label d.vertex) >>= λ name. ok (record {
  vertex = name;
  rate = windows_f64 w d.processing_rates;
  pending = windows_i64 d.pendings;
})

-- Milliseconds that are not negative, as nanoseconds.
abbrev watermark_time : {F : Type 0} → Reading F → Option ℤ → Option Timestamp
watermark_time w none = none
watermark_time w (some (pos ms)) = w.times.from_unix_nanos (pos (ms * 1000000))
watermark_time w (some (negsuc ms)) = none

pub watermark_from : {F : Type 0} → Reading F → EdgeWatermarkDto → Result Malformed EdgeWatermark
watermark_from w d = do
  from ← map_err (vertex d.from) (new_name max_label d.from)
  to ← map_err (vertex d.to) (new_name max_label d.to)
  ok (record {
    from = from;
    to = to;
    enabled = or_else d.is_watermark_enabled false;
    per_partition = map (watermark_time w) d.watermarks;
  })

pub health_from : StatusDto → PipelineHealth
health_from d = record { status = parse_health d.status; message = d.message; code = d.code }

-- An error of a container whose name is none is left out.
pub container_errors : {F : Type 0} → Reading F → List ContainerErrorDto → List ContainerError
container_errors w [] = []
container_errors w (c ∷ cs) =
    let rest = container_errors w cs in
    elim (to_option (new_name max_label c.container)) [
      | none ↦ rest
      | some name ↦
          record {
            container = name;
            at = Option.bind c.timestamp w.times.parse_rfc3339;
            code = c.code;
            message = c.message;
            details = c.details;
          }
          ∷ rest
    ]

pub errors_from : {F : Type 0} → Reading F → ReplicaErrorsDto → ReplicaErrors
errors_from w d = record { replica = d.replica; errors = container_errors w d.container_errors }
