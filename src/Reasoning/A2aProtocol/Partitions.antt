-- ===== src/Reasoning/A2aProtocol/Partitions.antt =====
-- The codes of the event types of a2a_protocol.rs, and the paths of its partitions.
use sovereign_event_bus.Base.{
  ℕ, nat_eq, ◌==◌, ◌≡◌, ◌≢◌, ◌↔◌, refl, ap, ap₂, subst, sym, ◌∙◌, none, some, Bool, true, false, [],
  ◌∷◌, ◌++◌, if◌then◌else◌, is_empty, not, ◌&&◌, Bool-cases, Option-cases, eq_of_beq, inl, inr,
  arith, nat_beq, nat_beq_iff,
}
use sovereign_event_bus.Base.Text.{
  Text, codes, text_eq, text_beq, text_beq_iff, starts_with, strip_prefix,
}
use sovereign_event_bus.Reasoning.A2aProtocol.{
  ReasoningEventType, trace_start, as_u16, from_u16, ReasoningPartition, agent_traces, challenges,
  compositions, queries, path, from_path, agent_partition, behind_prefix,
}

-- The code of an event type reads back as the type, and a number that reads as a type is its code.
pub from_u16-as_u16 :
    (t : ReasoningEventType) (n : ℕ)
    → (from_u16 (as_u16 t) ≡ some t) × (from_u16 n ≡ some t → as_u16 t ≡ n)
unfolding from_u16 as_u16
from_u16-as_u16 trace_start n = (refl, ground arith)
from_u16-as_u16 _ n = (refl, ground arith)

-- The partition of an agent whose identifier is none of the reserved names and not empty.
abbrev pub IsOwn : ReasoningPartition → Type 0
IsOwn (agent_traces agent_id) =
    (agent_id ≢ [])
    × (agent_id ≢ codes "challenges")
    × (agent_id ≢ codes "compositions")
    × (agent_id ≢ codes "queries")
IsOwn challenges = Unit
IsOwn compositions = Unit
IsOwn queries = Unit

pub text_beq-false : (s t : Text) → s ≢ t → text_beq s t ≡ false
text_beq-false s t n = elim (Bool-cases (text_beq s t)) [
  | inl same ↦ elim (n ((text_beq_iff s t).0 same)) [ ]
  | inr other ↦ other
]

is_empty-false : (s : Text) → s ≢ [] → is_empty s ≡ false
is_empty-false [] n = elim (n refl) [ ]
is_empty-false (c ∷ s) n = refl

-- The test that `from_path` makes.
abbrev is_own : Text → Bool
is_own agent_id =
    not (is_empty agent_id)
    && (not (agent_id == codes "challenges")
        && (not (agent_id == codes "compositions") && not (agent_id == codes "queries")))

is_own→IsOwn : (agent_id : Text) → is_own agent_id ≡ true → IsOwn (agent_traces agent_id)
is_own→IsOwn agent_id own = (
  λ e. let own' = rw e at own in cc,
  λ e. let own' = rw e at own in cc,
  λ e. let own' = rw e at own in cc,
  λ e. let own' = rw e at own in cc,
)

agent_partition-eq-some :
    (agent_id : Text) (p : ReasoningPartition)
    → agent_partition agent_id ≡ some p
    → (p ≡ agent_traces agent_id) × IsOwn (agent_traces agent_id)
unfolding agent_partition
agent_partition-eq-some agent_id p h = elim (Bool-cases (is_own agent_id)) [
  | inl own ↦ let h' = rw own at h in (cc, is_own→IsOwn agent_id own)
  | inr other ↦ let h' = rw other at h in cc
]

strip_prefix-eq-some : (s p : Text) {t : Text} → strip_prefix s p ≡ some t → p ++ t ≡ s
unfolding strip_prefix
strip_prefix-eq-some s [] h = cc
strip_prefix-eq-some [] (b ∷ p) h = cc
strip_prefix-eq-some (a ∷ s) (b ∷ p) h = elim (Bool-cases (nat_beq a b)) [
  | inl same ↦ ap₂ (◌∷◌) (sym ((nat_beq_iff a b).0 same)) (strip_prefix-eq-some s p (rw same at h))
  | inr other ↦ let h' = rw other at h in cc
]

global :
    (s : Text) (q p : ReasoningPartition)
    → s ≡ path q
    → IsOwn q
    → some q ≡ some p
    → (path p ≡ s) × IsOwn p
global s q p e own h = let same : q ≡ p = cc in (ap path (sym same) ∙ sym e, subst IsOwn same own)

agent_path :
    (s : Text) (p : ReasoningPartition)
    → (if starts_with s (codes "reasoning/")
        then behind_prefix (strip_prefix s (codes "reasoning/"))
        else none)
      ≡ some p
    → (path p ≡ s) × IsOwn p
unfolding path behind_prefix
agent_path s p h = elim (Bool-cases (starts_with s (codes "reasoning/"))) [
  | inl reasoning ↦ elim (Option-cases (strip_prefix s (codes "reasoning/"))) [
    | inl gone ↦ let h' = rw (reasoning, gone) at h in cc
    | inr (agent_id, there) ↦
        let (same, own) = agent_partition-eq-some agent_id p (rw (reasoning, there) at h) in
        (rw same (strip_prefix-eq-some s (codes "reasoning/") there), subst IsOwn (sym same) own)
  ]
  | inr other ↦ let h' = rw other at h in cc
]

from_path-eq-some :
    (s : Text) (p : ReasoningPartition) → from_path s ≡ some p → (path p ≡ s) × IsOwn p
unfolding from_path path behind_prefix
from_path-eq-some s p h = elim (Bool-cases (s == codes "reasoning/challenges")) [
  | inl a ↦ global s challenges p (eq_of_beq s _ a) tt (rw a at h)
  | inr a ↦ elim (Bool-cases (s == codes "reasoning/compositions")) [
    | inl b ↦ global s compositions p (eq_of_beq s _ b) tt (rw (a, b) at h)
    | inr b ↦ elim (Bool-cases (s == codes "reasoning/queries")) [
      | inl c ↦ global s queries p (eq_of_beq s _ c) tt (rw (a, b, c) at h)
      | inr c ↦ agent_path s p (rw (a, b, c) at h)
    ]
  ]
]

path-IsOwn : (p : ReasoningPartition) → IsOwn p → from_path (path p) ≡ some p
unfolding from_path path behind_prefix starts_with strip_prefix
path-IsOwn (agent_traces agent_id) own = rw (
  is_empty-false agent_id own.0,
  text_beq-false agent_id (codes "challenges") own.1,
  text_beq-false agent_id (codes "compositions") own.2,
  text_beq-false agent_id (codes "queries") own.3,
)
path-IsOwn challenges own = refl
path-IsOwn compositions own = refl
path-IsOwn queries own = refl

-- A path is read as a partition exactly where it is the path of that partition and the partition
-- is not that of an agent without a name or with one of the names of the three global partitions.
pub from_path-path :
    (s : Text) (p : ReasoningPartition) → (from_path s ≡ some p) ↔ ((path p ≡ s) × IsOwn p)
from_path-path s p = (from_path-eq-some s p, λ h. ap from_path (sym h.0) ∙ path-IsOwn p h.1)
