-- ===== src/K8s/Object.antt =====
-- What the conversions of crates/nfctl-k8s/src/dto share: the wire object of the `kube` crate, and the
-- reasons of `Error::Invalid`. A reason is a constructor with the values that the code formats into
-- its text.
use nfctl.Common.{String, List, Option, none, some, or_else}
use nfctl.Common.Int.{ℤ}
use nfctl.Model.Ids.{InvalidName}
use nfctl.Model.Time.{Timestamp, TimeFormats}
use nfctl.Model.Topology.{TopologyError}
use nfctl.Model.Runtime.{Float, Decimals}
use nfctl.Model.Pods.{Labels}
use mathlib.Core.Option

-- `metadata` of an object; a time of the API server is its nanoseconds since 1970.
pub record Metadata : Type 0 where
  pub name : Option String
  pub namespace : Option String
  pub annotations : Option Labels
  pub generation : Option ℤ
  pub creation_timestamp : Option ℤ

pub record Object (Spec Status : Type 0) : Type 0 where
  pub metadata : Metadata
  pub spec : Spec
  pub status : Option Status

-- What the conversions call outside the program.
pub record Formats (F : Type 0) : Type 0 where
  pub float : Float F
  pub decimals : Decimals F
  pub times : TimeFormats

pub data Reason : Type 0 where
  bad_name bad_namespace bad_isb : InvalidName → Reason
  vertex_name edge_from edge_to : String → InvalidName → Reason
  no_partitions kind_markers : String → Reason
  unknown_operator unknown_policy unknown_desired unknown_strategy : String → Reason
  bad_topology : TopologyError → Reason

-- `Error::Invalid`, the only error of a conversion.
pub record Invalid : Type 0 where
  pub kind : String
  pub name : String
  pub reason : Reason

abbrev pub invalid : String → String → Reason → Invalid
invalid kind name reason = record { kind = kind; name = name; reason = reason }

-- `o.metadata.annotations.clone().unwrap_or_default()`
abbrev pub annotations_of : Metadata → Labels
annotations_of m = or_else m.annotations List.[]

-- `message.filter(|m| !m.is_empty())`
abbrev pub nonempty : Option String → Option String
nonempty none = none
nonempty (some String.[]) = none
nonempty (some (String.◌∷◌ c s)) = some (String.◌∷◌ c s)

-- `to_timestamp` on an optional time.
abbrev pub to_timestamp : TimeFormats → Option ℤ → Option Timestamp
to_timestamp t o = Option.bind o t.from_unix_nanos
