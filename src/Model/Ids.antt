-- ===== src/Model/Ids.antt =====
-- crates/nfctl-core/src/model/ids.rs: Kubernetes names. A newtype over `String` is the string;
-- what its private field guarantees is that `new` returned it.
pub mod Grammar
use Prim.Native.Char.{code}
use Prim.Native.String.{len}
use nfctl.Common.{
  ℕ, String, Bool, true, false, ◌&&◌, ◌||◌, not, List, [], ◌∷◌, Option, none, some, PartialEq, ◌==◌,
  pair_same, ◌≡◌, ◌↔◌, string_eq, leb, ltb, eqb, if◌then◌else◌, all, Result, ok, err, ◌>>=◌, arith,
  eq_of_beq,
}

pub data InvalidName : Type 0 where
  empty : InvalidName
  too_long : (max : ℕ) → InvalidName
  bad_chars : InvalidName

-- `s.chars()`, as code points.
abbrev pub chars : String → List ℕ
chars String.[] = []
chars (String.◌∷◌ c s) = code c ∷ chars s

abbrev pub first? : List ℕ → Option ℕ
first? [] = none
first? (c ∷ cs) = some c

abbrev pub last? : List ℕ → Option ℕ
last? [] = none
last? (c ∷ []) = some c
last? (c ∷ d ∷ cs) = last? (d ∷ cs)

abbrev pub first_last_ok : ℕ → Bool
first_last_ok c = (leb b'a' c && leb c b'z') || (leb b'0' c && leb c b'9')

abbrev pub ok_char : ℕ → Bool
ok_char c = (leb b'a' c && leb c b'z') || (leb b'0' c && leb c b'9') || eqb c b'-'

-- The tail of the check, on the first and the last character.
abbrev pub check_ends : Option ℕ → Option ℕ → Result InvalidName (Unit {0})
check_ends (some first) (some last) =
    if not (first_last_ok first) || not (first_last_ok last) then err bad_chars else ok tt
check_ends _ _ = err empty

-- `s.len()` is the length in bytes, `bytes`; the rest reads the characters.
unfoldable pub check_chars : (cs : List ℕ) (bytes max : ℕ) → Result InvalidName (Unit {0})
check_chars [] bytes max = err empty
check_chars (c ∷ cs) bytes max =
    if ltb max bytes
    then err (too_long max)
    else if not (all ok_char (c ∷ cs))
    then err bad_chars
    else check_ends (first? (c ∷ cs)) (last? (c ∷ cs))

unfoldable pub check_dns_label : String → ℕ → Result InvalidName (Unit {0})
check_dns_label s max = check_chars (chars s) (len s) max

-- `$name::new`, for a name type with that maximum.
unfoldable pub new_name : (max : ℕ) → String → Result InvalidName String
new_name max s = check_dns_label s max >>= λ _. ok s

abbrev pub max_label : ℕ
max_label = 63

abbrev pub max_subdomain : ℕ
max_subdomain = 253

abbrev pub Namespace : Type 0
Namespace = String

abbrev pub PipelineName : Type 0
PipelineName = String

abbrev pub VertexName : Type 0
VertexName = String

abbrev pub IsbName : Type 0
IsbName = String

abbrev pub PodName : Type 0
PodName = String

abbrev pub ContainerName : Type 0
ContainerName = String

abbrev pub BufferName : Type 0
BufferName = String

abbrev pub default_ns : Namespace
default_ns = "default"

pub record PipelineKey : Type 0 where
  pub namespace : Namespace
  pub name : PipelineName

abbrev pub pipeline_key_same : PipelineKey → PipelineKey → Bool
pipeline_key_same a b = a.namespace == b.namespace && a.name == b.name

pub pipeline_key_same_law : (a b : PipelineKey) → (pipeline_key_same a b ≡ true) ↔ (a ≡ b)
pipeline_key_same_law a b =
    ground (arith, string_eq.eq_law a.namespace b.namespace, string_eq.eq_law a.name b.name)

instance abbrev pub pipeline_key_eq : PartialEq PipelineKey
pipeline_key_eq = record { same = pipeline_key_same; eq_law = pipeline_key_same_law }

-- `{s}{t}` of a format string.
unfoldable pub join : String → String → String
join String.[] t = t
join (String.◌∷◌ c s) t = String.◌∷◌ c (join s t)

-- `PipelineKey::fmt`
unfoldable pub key_str : PipelineKey → String
key_str k = join k.namespace (join "/" k.name)
