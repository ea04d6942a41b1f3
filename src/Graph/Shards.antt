-- ===== src/Graph/Shards.antt =====
-- The names of shards, `stem-N`, and the tags that carry an index (crates/nfctl-graph/src/view.rs).
use Prim.Native.Nat.{zero, suc, ◌/◌, ◌%◌}
use Prim.Native.Char.{Char, code}
use nfctl.Common.{
  ℕ, ◌+◌, ◌-◌, ◌*◌, String, Bool, true, ◌&&◌, not, List, Option, none, some, ◌==◌, string_eq, leb,
  eqb, ltb, or_else, map, if◌then◌else◌,
}
use mathlib.Core.Option
use nfctl.Model.Ids.{join}
use nfctl.Model.Pipeline.{u32_max}

-- `rsplit_once('-')`
unfoldable pub rsplit_dash : String → Option (String × String)
rsplit_dash String.[] = none
rsplit_dash (String.◌∷◌ c s) = elim (rsplit_dash s) [
  | some p ↦ some (String.◌∷◌ c p.0, p.1)
  | none ↦ if eqb (code c) b'-' then some (String.[], s) else none
]

abbrev is_digit : Char → Bool
is_digit c = leb b'0' (code c) && leb (code c) b'9'

unfoldable pub all_digits : String → Bool
all_digits String.[] = true
all_digits (String.◌∷◌ c s) = is_digit c && all_digits s

-- `parse::<u32>` of digits, from the value of those that were read.
unfoldable pub parse_u32 : (value : ℕ) → String → Option ℕ
parse_u32 value String.[] = some value
parse_u32 value (String.◌∷◌ c s) =
    let next = value * 10 + (code c - b'0') in
    let rest = parse_u32 next s in if leb next u32_max then rest else none

-- `!stem.is_empty() && !idx.is_empty() && idx.bytes().all(..)`, and the parse.
abbrev pub stem_and_index : String → String → Option (String × ℕ)
stem_and_index s idx =
    if not (s == "") && not (idx == "") && all_digits idx
    then Option.map (λ i. (s, i)) (parse_u32 0 idx)
    else none

-- `shard_split`
unfoldable pub shard_split : String → Option (String × ℕ)
shard_split name = Option.bind (rsplit_dash name) (λ p. stem_and_index p.0 p.1)

abbrev pub stem_of : String → Option String
stem_of name = Option.map (λ p. p.0) (shard_split name)

abbrev pub index_of : String → Option ℕ
index_of name = Option.map (λ p. p.1) (shard_split name)

-- `strip_suffix`
unfoldable pub strip_suffix : String → String → Option String
strip_suffix suffix String.[] = if suffix == "" then some "" else none
strip_suffix suffix (String.◌∷◌ c s) =
    let rest = Option.map (λ r. String.◌∷◌ c r) (strip_suffix suffix s) in
    if String.◌∷◌ c s == suffix then some "" else rest

abbrev digit : ℕ → Char
digit d =
    if eqb d 0
    then "0"
    else if eqb d 1
    then "1"
    else if eqb d 2
    then "2"
    else if eqb d 3
    then "3"
    else if eqb d 4
    then "4"
    else if eqb d 5
    then "5"
    else if eqb d 6
    then "6"
    else if eqb d 7
    then "7"
    else if eqb d 8
    then "8"
    else "9"

-- The decimal digits of a number before `tail`; ten are enough for a `u32`.
unfoldable pub digits : (fuel n : ℕ) → (tail : String) → String
digits zero n tail = tail
digits (suc fuel) n tail =
    let here = String.◌∷◌ (digit (n % 10)) tail in
    let more = digits fuel (n / 10) here in if ltb n 10 then here else more

unfoldable pub decimal : ℕ → String
decimal n = digits 10 n ""

abbrev norm_tag : String → String → String
norm_tag suffix tag = or_else (Option.map (λ s. join s "-*") (strip_suffix suffix tag)) tag

-- `norm_tags`
unfoldable pub norm_tags : List String → Option ℕ → List String
norm_tags tags none = tags
norm_tags tags (some i) = map (norm_tag (join "-" (decimal i))) tags
