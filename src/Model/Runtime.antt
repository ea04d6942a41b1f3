-- ===== src/Model/Runtime.antt =====
-- crates/nfctl-core/src/model/runtime.rs: what the daemon knows. `F` stands for `f64`.
use nfctl.Common.{
  ℕ, String, Bool, List, Option, none, some, ◌≡◌, refl, ◌==◌, string_eq, if◌then◌else◌, ◌&&◌,
}
use nfctl.Common.Int.{ℤ}
use nfctl.Model.Ids.{VertexName, BufferName, ContainerName}
use nfctl.Model.Time.{Timestamp}

-- The comparisons that `Fraction::new` makes.
pub record Float (F : Type 0) : Type 0 where
  pub is_finite : F → Bool
  pub in_unit : F → Bool
  pub max : F → F → F

-- A float that `Fraction::new` let through.
pub record Fraction (F : Type 0) : Type 0 where
  pub get : F

unfoldable pub new_fraction : {F : Type 0} → Float F → F → Option (Fraction F)
new_fraction f v = if f.is_finite v && f.in_unit v then some (record { get = v }) else none

-- The literals and the arithmetic on `f64` that conversions use.
pub record Decimals (F : Type 0) : Type 0 where
  pub of_u32 : ℕ → F
  pub div_hundred : F → F
  pub zero : F
  pub eight_tenths : F

-- `Fraction::from_percent`
pub from_percent : {F : Type 0} → Float F → Decimals F → F → Option (Fraction F)
from_percent f d p = new_fraction f (d.div_hundred p)

pub record BufferInfo (F : Type 0) : Type 0 where
  pub name : BufferName
  pub sources : List VertexName
  pub to : VertexName
  pub pending : Option ℤ
  pub ack_pending : Option ℤ
  pub total : Option ℤ
  pub length : Option ℤ
  pub usage : Option (Fraction F)
  pub usage_limit : Option (Fraction F)
  pub is_full : Option Bool

pub record Windows (T : Type 0) : Type 0 where
  pub m1 : Option T
  pub m5 : Option T
  pub m15 : Option T
  pub default : Option T

abbrev pub no_windows : {T : Type 0} → Windows T
no_windows = record { m1 = none; m5 = none; m15 = none; default = none }

pub record VertexMetrics (F : Type 0) : Type 0 where
  pub vertex : VertexName
  pub rate : Windows F
  pub pending : Windows ℤ

pub record EdgeWatermark : Type 0 where
  pub from : VertexName
  pub to : VertexName
  pub enabled : Bool
  pub per_partition : List (Option Timestamp)

pub data Health : Type 0 where
  healthy warning critical unknown inactive deleting unhealthy : Health

-- `Health::parse_lenient`
pub parse_health : String → Health
parse_health s =
    if s == "healthy"
    then healthy
    else if s == "warning"
    then warning
    else if s == "critical"
    then critical
    else if s == "inactive"
    then inactive
    else if s == "deleting"
    then deleting
    else if s == "unhealthy"
    then unhealthy
    else unknown

-- `Health::as_str`
pub health_str : Health → String
health_str healthy = "healthy"
health_str warning = "warning"
health_str critical = "critical"
health_str unknown = "unknown"
health_str inactive = "inactive"
health_str deleting = "deleting"
health_str unhealthy = "unhealthy"

pub record PipelineHealth : Type 0 where
  pub status : Health
  pub message : String
  pub code : String

pub record ContainerError : Type 0 where
  pub container : ContainerName
  pub at : Option Timestamp
  pub code : String
  pub message : String
  pub details : String

pub record ReplicaErrors : Type 0 where
  pub replica : String
  pub errors : List ContainerError

-- `parse_lenient` reads back what `as_str` writes.
parse_health-health_str : (h : Health) → parse_health (health_str h) ≡ h
unfolding parse_health health_str
parse_health-health_str healthy = refl
parse_health-health_str warning = refl
parse_health-health_str critical = refl
parse_health-health_str unknown = refl
parse_health-health_str inactive = refl
parse_health-health_str deleting = refl
parse_health-health_str unhealthy = refl
