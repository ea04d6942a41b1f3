-- ===== src/Graph/Scan.antt =====
-- The functions on strings that crates/nfctl-graph/src/mermaid.rs and mermaid_in.rs call: those of the
-- standard library, by clauses on the characters.
pub mod Chars
pub mod Patterns
use Prim.Native.Nat.{zero, suc}
use Prim.Native.Char.{Char, code}
use nfctl.Common.{
  ℕ, ◌+◌, ◌-◌, String, Bool, true, false, ◌&&◌, ◌||◌, not, List, [], ◌∷◌, Option, none, some, ◌==◌,
  string_eq, eqb, leb, is_some, if◌then◌else◌, any, map,
}
use mathlib.Core.Option

-- `s.strip_prefix(pattern)`
unfoldable pub strip_prefix : String → String → Option String
strip_prefix String.[] s = some s
strip_prefix (String.◌∷◌ p ps) String.[] = none
strip_prefix (String.◌∷◌ p ps) (String.◌∷◌ c s) =
    let rest = strip_prefix ps s in if eqb (code p) (code c) then rest else none

abbrev pub starts_with : String → String → Bool
starts_with pattern s = is_some (strip_prefix pattern s)

abbrev pub prepend : Char → String × String → String × String
prepend c p = (String.◌∷◌ c p.0, p.1)

-- `s.split_once(pattern)`; `s.find(pattern)` is where the first part ends.
unfoldable pub split_once : String → String → Option (String × String)
split_once pattern String.[] = Option.map (λ r. ("", r)) (strip_prefix pattern "")
split_once pattern (String.◌∷◌ c s) = elim (strip_prefix pattern (String.◌∷◌ c s)) [
  | some r ↦ some ("", r)
  | none ↦ Option.map (prepend c) (split_once pattern s)
]

-- `s.contains(pattern)`
abbrev pub has : String → String → Bool
has pattern s = is_some (split_once pattern s)

-- `char::is_whitespace`
abbrev pub is_white : Char → Bool
is_white c =
    (leb 9 (code c) && leb (code c) 13)
    || eqb (code c) 32
    || eqb (code c) 133
    || eqb (code c) 160
    || eqb (code c) 5760
    || eqb (code c) 8232
    || eqb (code c) 8233
    || eqb (code c) 8239
    || eqb (code c) 8287
    || eqb (code c) 12288
    || (leb 8192 (code c) && leb (code c) 8202)

-- `trim_start_matches`, `trim_end_matches` and `trim_matches`
unfoldable pub trim_start_by : (Char → Bool) → String → String
trim_start_by p String.[] = ""
trim_start_by p (String.◌∷◌ c s) =
    let rest = trim_start_by p s in if p c then rest else String.◌∷◌ c s

unfoldable pub trim_end_by : (Char → Bool) → String → String
trim_end_by p String.[] = ""
trim_end_by p (String.◌∷◌ c s) =
    let rest = trim_end_by p s in if rest == "" && p c then "" else String.◌∷◌ c rest

abbrev pub trim_by : (Char → Bool) → String → String
trim_by p s = trim_end_by p (trim_start_by p s)

abbrev pub trim : String → String
trim s = trim_by is_white s

abbrev pub is_quote : Char → Bool
is_quote c = eqb (code c) b'"'

-- `chars().map(..)` and `chars().filter(..)`
unfoldable pub map_chars : (Char → Char) → String → String
map_chars f String.[] = ""
map_chars f (String.◌∷◌ c s) = String.◌∷◌ (f c) (map_chars f s)

unfoldable pub keep_chars : (Char → Bool) → String → String
keep_chars p String.[] = ""
keep_chars p (String.◌∷◌ c s) = let rest = keep_chars p s in if p c then String.◌∷◌ c rest else rest

-- `s.replace(from, to)` of a character.
abbrev pub replace_char : ℕ → Char → String → String
replace_char from to s = map_chars (λ c. if eqb (code c) from then to else c) s

unfoldable nth_char : String → ℕ → Char → Char
nth_char String.[] i otherwise = otherwise
nth_char (String.◌∷◌ c s) zero otherwise = c
nth_char (String.◌∷◌ c s) (suc i) otherwise = nth_char s i otherwise

-- `to_ascii_lowercase`
unfoldable pub lower_char : Char → Char
unfolding nth_char
lower_char c =
    if leb b'A' (code c) && leb (code c) b'Z'
    then nth_char "abcdefghijklmnopqrstuvwxyz" (code c - b'A') c
    else c

abbrev pub to_lower : String → String
to_lower s = map_chars lower_char s

-- `split_whitespace().next().unwrap_or_default()` of a text without white space before it.
unfoldable pub first_word : String → String
first_word String.[] = ""
first_word (String.◌∷◌ c s) =
    let rest = first_word s in if is_white c then "" else String.◌∷◌ c rest

abbrev pub to_head : Char → List String → List String
to_head c [] = String.◌∷◌ c "" ∷ []
to_head c (s ∷ ss) = String.◌∷◌ c s ∷ ss

abbrev count : String → ℕ
count String.[] = 0
count (String.◌∷◌ c s) = suc (count s)

-- `s.split(sep)` after the next `skip` characters, for a separator that is not empty.
unfoldable pub split_from : ℕ → String → String → List String
split_from skip sep String.[] = "" ∷ []
split_from (suc skip) sep (String.◌∷◌ c s) = split_from skip sep s
split_from zero sep (String.◌∷◌ c s) =
    if starts_with sep (String.◌∷◌ c s)
    then "" ∷ split_from (count sep - 1) sep s
    else to_head c (split_from zero sep s)

-- `s.lines()`: a line ends with a line feed, or a carriage return and a line feed.
unfoldable pub lines : String → List String
lines String.[] = []
lines (String.◌∷◌ c s) =
    let rest = lines s in
    if eqb (code c) 10
    then "" ∷ rest
    else if eqb (code c) 13 && starts_with "\n" s
    then rest
    else to_head c rest
