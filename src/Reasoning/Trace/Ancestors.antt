-- ===== src/Reasoning/Trace/Ancestors.antt =====
-- What the search for cycles of trace.rs excludes when it finds none.
use sovereign_event_bus.Base.{
  ℕ, zero, suc, ◌==◌, ◌≡◌, ◌≢◌, refl, ap, subst, sym, ◌∙◌, none, some, Bool, true, false, ◌||◌,
  List, [], ◌∷◌, ◌++◌, arith, any, length, find, Bool-cases, Option-cases, inl, inr, eq_of_beq,
}
use mathlib.Core.Option
use sovereign_event_bus.Base.Text.{Text, text_eq}
use sovereign_event_bus.Reasoning.Trace.{
  TraceRelation, extends, challenges, rebuts, composes, ReasoningTrace, parent_ids, Visit, go_on,
  visit_all, is_visited, into_parents, has_cycles_internal, has_cycles,
}
use sovereign_event_bus.Reasoning.Trace.Cycles.{is_visited_self, is_visited-later}

-- What is visited with one more and not before is that one.
only_new :
    (id : Text) (visited : List Text) (y : Text)
    → is_visited y (id ∷ visited) ≡ true
    → is_visited y visited ≡ false
    → id ≡ y
unfolding is_visited
only_new id visited y k fresh = elim (Bool-cases (id == y)) [
  | inl same ↦ eq_of_beq id y same
  | inr other ↦ let k' = rw (other, fresh) at k in cc
]

found_none :
    (r : Visit)
    → Option.map (λ v. v.0) r ≡ some false
    → (after : List Text) × (r ≡ some (false, after))
found_none none h = cc
found_none (some (true, after)) h = cc
found_none (some (false, after)) h = (after, refl)

-- The relation is one to the trace `p`, or composes it.
abbrev pub relates : Text → TraceRelation → Bool
relates p (extends parent_trace_id) = parent_trace_id == p
relates p (challenges parent_trace_id) = parent_trace_id == p
relates p (rebuts challenge_trace_id) = challenge_trace_id == p
relates p (composes sub_trace_ids) = any (λ id. id == p) sub_trace_ids

any-append_ids :
    (p : Text) (ids more : List Text)
    → any (λ v. v == p) (ids ++ more) ≡ (any (λ v. v == p) ids || any (λ v. v == p) more)
any-append_ids p [] more = refl
any-append_ids p (id ∷ ids) more = ground (arith, any-append_ids p ids more)

is_visited-parent_ids :
    (p : Text) (rs : List TraceRelation) → is_visited p (parent_ids rs) ≡ any (relates p) rs
unfolding is_visited parent_ids
is_visited-parent_ids p [] = refl
is_visited-parent_ids p (extends id ∷ rs) = ap (λ b. id == p || b) (is_visited-parent_ids p rs)
is_visited-parent_ids p (challenges id ∷ rs) = ap (λ b. id == p || b) (is_visited-parent_ids p rs)
is_visited-parent_ids p (rebuts id ∷ rs) = ap (λ b. id == p || b) (is_visited-parent_ids p rs)
is_visited-parent_ids p (composes ids ∷ rs) =
    any-append_ids p ids (parent_ids rs)
    ∙ ap (λ b. any (λ v. v == p) ids || b) (is_visited-parent_ids p rs)

module _ {F64 : Type 0} (all_traces : List (ReasoningTrace F64)) where
  -- The trace of an identifier names another one as a parent.
  pub record Names (id y : Text) : Type 0 where
    pub trace : ReasoningTrace F64
    pub stored : find (λ t. t.trace_id == id) all_traces ≡ some trace
    pub named : any (relates y) trace.parent_relations ≡ true

  pub data Ancestor (id : Text) : Text → Type 0 where
    parent : {y : Text} → Names id y → Ancestor id y
    further : {y z : Text} → Ancestor id y → Names y z → Ancestor id z

  -- All parents of a trace are visited, and none is the root of the search.
  abbrev ClosedAt : Text → List Text → Text → Type 0
  ClosedAt root visited y = (p : Text) → Names y p → (is_visited p visited ≡ true) × (p ≢ root)

  record Clear (root : Text) (visited after : List Text) : Type 0 where
    keeps : (y : Text) → is_visited y visited ≡ true → is_visited y after ≡ true
    closed :
        (y : Text)
        → is_visited y after ≡ true
        → is_visited y visited ≡ false
        → ClosedAt root after y

  abbrev Cleared : Text → Text → List Text → List Text → Type 0
  Cleared root id visited after =
      Clear root visited after × (is_visited id visited ≡ false) × (is_visited id after ≡ true)

  go_on-eq-clear :
      (f : List Text → Visit) (r : Visit) {after : List Text}
      → go_on f r ≡ some (false, after)
      → (middle : List Text) × (r ≡ some (false, middle)) × (f middle ≡ some (false, after))
  go_on-eq-clear f none h = cc
  go_on-eq-clear f (some (true, w)) h = cc
  go_on-eq-clear f (some (false, w)) h = (w, refl, h)

  visit_all-Clear :
      (root : Text) (visit : Text → List Text → Visit)
      → ((id : Text) (visited after : List Text)
          → is_visited root visited ≡ true
          → visit id visited ≡ some (false, after)
          → Cleared root id visited after)
      → (ids visited after : List Text) → is_visited root visited ≡ true
      → visit_all visit ids visited ≡ some (false, after)
      → Clear root visited after
        × ((p : Text) → is_visited p ids ≡ true → (is_visited p after ≡ true) × (p ≢ root))
  unfolding visit_all is_visited
  visit_all-Clear root visit each [] visited after r h =
      let same : visited ≡ after = cc in
      (
        record {
          keeps = λ y k. subst (λ w. is_visited y w ≡ true) same k;
          closed =
              λ y k fresh p n. let fresh' = subst (λ w. is_visited y w ≡ false) same fresh in cc;
        },
        λ p k. cc,
      )
  visit_all-Clear root visit each (id ∷ ids) visited after r h =
      let (middle, first, rest) = go_on-eq-clear (visit_all visit ids) (visit id visited) h in
      let (c, new, mark) = each id visited middle r first in
      let (d, parents) = visit_all-Clear root visit each ids middle after (c.keeps root r) rest in
      (
        record {
          keeps = λ y k. d.keeps y (c.keeps y k);
          closed = λ y k fresh. elim (Bool-cases (is_visited y middle)) [
            | inl early ↦
                λ p n. let (seen, other) = c.closed y early fresh p n in (d.keeps p seen, other)
            | inr late ↦ d.closed y k late
          ];
        },
        λ p k. elim (Bool-cases (id == p)) [
          | inl here ↦
              let e = eq_of_beq id p here in
              (
                subst (λ q. is_visited q after ≡ true) e (d.keeps id mark),
                λ at_root.
                    let new' = subst (λ q. is_visited q visited ≡ false) (e ∙ at_root) new in cc,
              )
          | inr there ↦ parents p (rw there at k)
        ],
      )

  has_cycles_internal-Cleared :
      (root : Text) (fuel : ℕ) (id : Text) (visited after : List Text)
      → is_visited root (id ∷ visited) ≡ true
      → has_cycles_internal fuel all_traces id visited ≡ some (false, after)
      → Cleared root id visited after
  unfolding has_cycles_internal into_parents
  has_cycles_internal-Cleared root zero id visited after r h = cc
  has_cycles_internal-Cleared root (suc fuel) id visited after r h =
      elim (Bool-cases (is_visited id visited)) [
        | inl old ↦ let h' = rw old at h in cc
        | inr new ↦ elim (Option-cases (find (λ t. t.trace_id == id) all_traces)) [
          | inl gone ↦
              let h' = rw (new, gone) at h in
              let same : id ∷ visited ≡ after = cc in
              subst (Cleared root id visited) same (
                record {
                  keeps = is_visited-later id visited;
                  closed = λ y k fresh p n.
                      let e = only_new id visited y k fresh in
                      let stored =
                        subst (λ z. find (λ t. t.trace_id == z) all_traces ≡ some n.trace) (sym e)
                          n.stored in
                      cc;
                },
                new,
                is_visited_self id visited,
              )
          | inr (t, there) ↦
              let h' = rw (new, there) at h in
              let (c, parents) =
                visit_all-Clear root (has_cycles_internal fuel all_traces)
                  (λ i vs w k made.
                    has_cycles_internal-Cleared root fuel i vs w (is_visited-later i vs root k)
                      made)
                  (parent_ids t.parent_relations) (id ∷ visited) after r h' in
              (
                record {
                  keeps = λ y k. c.keeps y (is_visited-later id visited y k);
                  closed = λ y k fresh. elim (Bool-cases (is_visited y (id ∷ visited))) [
                    | inl own ↦ λ p n.
                        let e = only_new id visited y own fresh in
                        let stored =
                          subst (λ z. find (λ u. u.trace_id == z) all_traces ≡ some n.trace) (sym e)
                            n.stored in
                        let same : n.trace ≡ t = cc in
                        parents p (
                          is_visited-parent_ids p t.parent_relations
                          ∙ subst (λ u. any (relates p) u.parent_relations ≡ true) same n.named)
                    | inr deep ↦ c.closed y k deep
                  ];
                },
                new,
                c.keeps id (is_visited_self id visited),
              )
        ]
      ]

  ancestors-visited :
      (root : Text) (after : List Text)
      → ((y : Text) → is_visited y after ≡ true → ClosedAt root after y)
      → is_visited root after ≡ true
      → (y : Text) → Ancestor root y
      → (is_visited y after ≡ true) × (y ≢ root)
  ancestors-visited root after closed mark y (parent n) = closed root mark y n
  ancestors-visited root after closed mark z (further {y = y} a n) =
      closed y (ancestors-visited root after closed mark y a).0 z n

  -- Where the search finds no cycle, the trace is not an ancestor of its own, by the traces that one
  -- extends, challenges, rebuts or composes.
  pub has_cycles-Ancestor :
      (self : ReasoningTrace F64)
      → has_cycles all_traces self ≡ some false
      → ¬ Ancestor self.trace_id self.trace_id
  unfolding has_cycles is_visited
  has_cycles-Ancestor self h a =
      let root = self.trace_id in
      let (after, made) = found_none _ h in
      let (c, new, mark) =
        has_cycles_internal-Cleared root (suc (length all_traces)) root [] after
          (is_visited_self root []) made in
      (ancestors-visited root after (λ y k. c.closed y k refl) mark root a).1 refl
