-- ===== src/Model/Time.antt =====
-- crates/nfctl-core/src/model/time.rs. An instant is counted in nanoseconds from the least instant
-- of the `time` crate, a duration in nanoseconds.
use nfctl.Common.{ℕ, ◌-◌, String, Option, none, some, leb, nat_eq, if◌then◌else◌}
use nfctl.Common.Int.{ℤ}

abbrev pub Timestamp : Type 0
Timestamp = ℕ

abbrev pub Duration : Type 0
Duration = ℕ

-- `Timestamp::elapsed_until`: `None` if `now` is earlier.
unfoldable pub elapsed_until : Timestamp → Timestamp → Option Duration
elapsed_until t now = if leb t now then some (now - t) else none

-- What the `time` crate reads an instant from: a text in the format of RFC 3339, or the nanoseconds
-- since 1970, where they are in the range of the crate.
pub record TimeFormats : Type 0 where
  pub parse_rfc3339 : String → Option Timestamp
  pub from_unix_nanos : ℤ → Option Timestamp
