-- ===== src/K8s/Pipeline/Texts.antt =====
-- The texts that crates/nfctl-k8s/src/dto/pipeline.rs reads as operators, policies, phases and
-- strategies.
use nfctl.Common.{
  String, Bool, true, false, ◌||◌, List, [], ◌∷◌, Option, none, some, ◌==◌, string_eq, nat_eq,
  option_eq, Result, ok, err, is_ok, ok_of_bind, ◌≡◌, ◌↔◌, inl, inr, refl, sym, ◌∙◌, arith, Memᴰ,
  Bool-cases, eq_of_beq, beq_of_eq,
}
use mathlib.Core.List.Memᴰ
use nfctl.Model.Topology.{TagOperator, TagCondition, OnFull}
use nfctl.Model.Pipeline.{DesiredPhase, ResumeStrategy}
use nfctl.K8s.Object.{Reason}
use nfctl.K8s.Dto.{TagsDto}
use nfctl.K8s.Pipeline.{operator_of, tags_of, policy_of, desired_of, strategy_of}

abbrev pub OneOf : Option String → List String → Type 0
OneOf none allowed = Unit
OneOf (some s) allowed = Memᴰ s allowed

abbrev pub operator_text : Option TagsDto → Option String
operator_text none = none
operator_text (some t) = t.operator

one_of : String → List String → Bool
one_of s [] = false
one_of s (x ∷ xs) = s == x || one_of s xs

one_of_iff : (s : String) (xs : List String) → (one_of s xs ≡ true) ↔ Memᴰ s xs
unfolding one_of
one_of_iff s [] = (λ h. cc, λ m. elim m [ ])
one_of_iff s (x ∷ xs) = (
  λ h. elim (Bool-cases (s == x)) [
    | inl p ↦ Memᴰ.head (eq_of_beq s x p)
    | inr p ↦ Memᴰ.tail ((one_of_iff s xs).0 (rw p at h))
  ],
  λ m. elim (Memᴰ.cases_cons m) [
    | inl p ↦ rw (beq_of_eq s x p)
    | inr r ↦ ground (arith, (one_of_iff s xs).1 r)
  ],
)

pub is_ok_iff {ℓ} :
    {E : Type 0} {A : Type ℓ} (r : Result E A) → (is_ok r ≡ true) ↔ ((a : A) × (r ≡ ok a))
is_ok_iff (ok a) = (λ _. (a, refl), λ _. refl)
is_ok_iff (err x) = (λ h. cc, λ h. cc)

-- A reader of a text that passes exactly the allowed ones.
module _ {A : Type 0} (read : Option String → Result Reason A) (allowed : List String)
    (default : is_ok (read none) ≡ true)
    (same : (s : String) → is_ok (read (some s)) ≡ one_of s allowed) where
  read_iff : (o : Option String) → ((a : A) × (read o ≡ ok a)) ↔ OneOf o allowed
  read_iff none = (λ _. tt, λ _. (is_ok_iff (read none)).0 default)
  read_iff (some s) = (
    λ h. (one_of_iff s allowed).0 (sym (same s) ∙ (is_ok_iff (read (some s))).1 h),
    λ m. (is_ok_iff (read (some s))).0 (same s ∙ (one_of_iff s allowed).1 m),
  )

pub operator_of_iff :
    (o : Option String)
    → ((t : TagOperator) × (operator_of o ≡ ok t)) ↔ OneOf o ("or" ∷ "and" ∷ "not" ∷ [])
unfolding operator_of one_of
operator_of_iff = read_iff operator_of ("or" ∷ "and" ∷ "not" ∷ []) refl (λ s. ground arith)

pub policy_of_iff :
    (o : Option String)
    → ((t : OnFull) × (policy_of o ≡ ok t)) ↔ OneOf o ("discardLatest" ∷ "retryUntilSuccess" ∷ [])
unfolding policy_of one_of
policy_of_iff =
    read_iff policy_of ("discardLatest" ∷ "retryUntilSuccess" ∷ []) refl (λ s. ground arith)

pub desired_of_iff :
    (o : Option String)
    → ((t : DesiredPhase) × (desired_of o ≡ ok t)) ↔ OneOf o ("Paused" ∷ "Running" ∷ [])
unfolding desired_of one_of
desired_of_iff = read_iff desired_of ("Paused" ∷ "Running" ∷ []) refl (λ s. ground arith)

pub strategy_of_iff :
    (o : Option String)
    → ((t : Option ResumeStrategy) × (strategy_of o ≡ ok t)) ↔ OneOf o ("slow" ∷ "fast" ∷ [])
unfolding strategy_of one_of
strategy_of_iff = read_iff strategy_of ("slow" ∷ "fast" ∷ []) refl (λ s. ground arith)

pub tags_of_iff :
    (t : Option TagsDto)
    → ((c : Option TagCondition) × (tags_of t ≡ ok c))
      ↔ OneOf (operator_text t) ("or" ∷ "and" ∷ "not" ∷ [])
unfolding tags_of
tags_of_iff none = (λ _. tt, λ _. (none, refl))
tags_of_iff (some t) = (
  λ (c, h).
      let (o, p, _) = ok_of_bind (operator_of t.operator) _ h in
      (operator_of_iff t.operator).0 (o, p),
  λ h.
      let (o, p) = (operator_of_iff t.operator).1 h in
      (some (record { operator = o; values = t.values }), rw p refl),
)
