-- ===== src/Reasoning/Trace/Cycles.antt =====
-- The search for cycles of trace.rs: that it ends, and what it takes for a cycle.
use sovereign_event_bus.Base.{
  ℕ, zero, suc, ◌==◌, ◌≤◌, ◌<◌, ◌≡◌, refl, subst, none, some, Bool, true, false, List, [], ◌∷◌,
  ◌++◌, length, find, keep, not, Bool-cases, Option-cases, ==_refl, inl, inr, arith, eq_of_beq,
  length-keep,
}
use sovereign_event_bus.Base.Text.{Text, text_eq, text_beq_iff}
use sovereign_event_bus.Reasoning.Trace.{
  ReasoningTrace, parent_ids, Visit, go_on, visit_all, is_visited, into_parents,
  has_cycles_internal, has_cycles,
}

-- The traces that are not visited yet.
abbrev fresh : {F64 : Type 0} → List (ReasoningTrace F64) → List Text → List (ReasoningTrace F64)
fresh all_traces visited = keep (λ t. not (is_visited t.trace_id visited)) all_traces

-- A result, with no more fresh traces than before and all marks kept.
record Returned {F64 : Type 0} (all_traces : List (ReasoningTrace F64)) (visited : List Text)
    (r : Visit) : Type 0 where
  found : Bool
  after : List Text
  made : r ≡ some (found, after)
  fewer : length (fresh all_traces after) ≤ length (fresh all_traces visited)
  keeps : (y : Text) → is_visited y visited ≡ true → is_visited y after ≡ true

pub is_visited_self : (id : Text) (visited : List Text) → is_visited id (id ∷ visited) ≡ true
unfolding is_visited
is_visited_self id visited = rw (==_refl id)

pub is_visited-later :
    (id : Text) (visited : List Text) (y : Text)
    → is_visited y visited ≡ true
    → is_visited y (id ∷ visited) ≡ true
unfolding is_visited
is_visited-later id visited y h = ground (arith, h)

module _ {F64 : Type 0} (all_traces : List (ReasoningTrace F64)) where
  -- A visit marks its trace.
  abbrev Marks : Text → List Text → Visit → Type 0
  Marks id visited r = (q : Returned all_traces visited r) × (is_visited id q.after ≡ true)

  -- A loop that finds no cycle marks all that it goes through.
  abbrev MarksAll : List Text → List Text → Visit → Type 0
  MarksAll ids visited r =
      (q : Returned all_traces visited r) × (q.found ≡ false
        → (y : Text) → is_visited y ids ≡ true
        → is_visited y q.after ≡ true)

  visit_all-MarksAll :
      (visit : Text → List Text → Visit) (n : ℕ)
      → ((id : Text) (visited : List Text)
          → length (fresh all_traces visited) ≤ n
          → Marks id visited (visit id visited))
      → (ids visited : List Text) → length (fresh all_traces visited) ≤ n
      → MarksAll ids visited (visit_all visit ids visited)
  unfolding visit_all is_visited
  visit_all-MarksAll visit n each [] visited bound = (
    record { found = false; after = visited; made = refl; fewer = omega arith; keeps = λ y h. h },
    λ e y h. cc,
  )
  visit_all-MarksAll visit n each (id ∷ ids) visited bound =
      let (q, mark) = each id visited bound in
      elim (Bool-cases q.found) [
        | inl cyclic ↦
            rw (q.made, cyclic)
              (
                record {
                  found = true;
                  after = q.after;
                  made = refl;
                  fewer = q.fewer;
                  keeps = q.keeps;
                },
                λ e. cc,
              )
        | inr clear ↦
            let (p, marks) =
              visit_all-MarksAll visit n each ids q.after (omega (arith, q.fewer, bound)) in
            rw (q.made, clear)
              (
                record {
                  found = p.found;
                  after = p.after;
                  made = p.made;
                  fewer = omega (arith, q.fewer, p.fewer);
                  keeps = λ y h. p.keeps y (q.keeps y h);
                },
                λ e y h. elim (Bool-cases (id == y)) [
                  | inl here ↦
                      subst (λ z. is_visited z p.after ≡ true) (eq_of_beq id y here)
                        (p.keeps id mark)
                  | inr there ↦ marks e y (rw there at h)
                ],
              )
      ]

  fresh-visit-le :
      (xs : List (ReasoningTrace F64)) (id : Text) (visited : List Text)
      → length (fresh xs (id ∷ visited)) ≤ length (fresh xs visited)
  unfolding is_visited
  fresh-visit-le [] id visited = omega arith
  fresh-visit-le (x ∷ xs) id visited = ground (arith, fresh-visit-le xs id visited)

  fresh-visit-lt :
      (xs : List (ReasoningTrace F64)) (id : Text) (visited : List Text) {t : ReasoningTrace F64}
      → find (λ u. u.trace_id == id) xs ≡ some t
      → is_visited id visited ≡ false
      → length (fresh xs (id ∷ visited)) < length (fresh xs visited)
  unfolding is_visited
  fresh-visit-lt [] id visited found new = cc
  fresh-visit-lt (x ∷ xs) id visited found new = elim (Bool-cases (x.trace_id == id)) [
    | inl same ↦
        let e = eq_of_beq x.trace_id id same in
        rw (e, ==_refl id, new) (omega (arith, fresh-visit-le xs id visited))
    | inr other ↦
        let rest = fresh-visit-lt xs id visited (rw other at found) new in
        let apart : (id == x.trace_id) ≡ false =
          ground (arith, other, text_beq_iff id x.trace_id, text_beq_iff x.trace_id id) in
        rw apart (ground (arith, rest))
  ]

  has_cycles_internal-Marks :
      (fuel : ℕ) (id : Text) (visited : List Text)
      → length (fresh all_traces visited) < fuel
      → Marks id visited (has_cycles_internal fuel all_traces id visited)
  unfolding has_cycles_internal into_parents
  has_cycles_internal-Marks zero id visited bound =
      let absurd : ⊥ = omega (arith, bound) in elim absurd [ ]
  has_cycles_internal-Marks (suc fuel) id visited bound =
      elim (Bool-cases (is_visited id visited)) [
        | inl old ↦ rw old (
          record {
            found = true;
            after = visited;
            made = refl;
            fewer = omega arith;
            keeps = λ y h. h;
          },
          old,
        )
        | inr new ↦ elim (Option-cases (find (λ t. t.trace_id == id) all_traces)) [
          | inl gone ↦
              rw (new, gone)
                (
                  record {
                    found = false;
                    after = id ∷ visited;
                    made = refl;
                    fewer = fresh-visit-le all_traces id visited;
                    keeps = is_visited-later id visited;
                  },
                  is_visited_self id visited,
                )
          | inr (t, there) ↦
              let less = fresh-visit-lt all_traces id visited there new in
              let (p, marks) =
                visit_all-MarksAll (has_cycles_internal fuel all_traces)
                  (length (fresh all_traces (id ∷ visited)))
                  (λ i vs k. has_cycles_internal-Marks fuel i vs (omega (arith, k, less, bound)))
                  (parent_ids t.parent_relations) (id ∷ visited) (omega arith) in
              rw (new, there)
                (
                  record {
                    found = p.found;
                    after = p.after;
                    made = p.made;
                    fewer = omega (arith, p.fewer, less);
                    keeps = λ y h. p.keeps y (is_visited-later id visited y h);
                  },
                  p.keeps id (is_visited_self id visited),
                )
        ]
      ]

  -- The search ends: one level of recursion more than there are traces is enough, whatever the
  -- relations between the traces are, cyclic ones included.
  pub has_cycles-returns :
      (self : ReasoningTrace F64) → (found : Bool) × (has_cycles all_traces self ≡ some found)
  unfolding has_cycles
  has_cycles-returns self =
      let (q, mark) =
        has_cycles_internal-Marks (suc (length all_traces)) self.trace_id []
          (omega (arith, length-keep (λ t. not (is_visited t.trace_id [])) all_traces)) in
      (q.found, rw q.made)

go_on-split :
    (f g h : List Text → Visit)
    → ((w : List Text) → f w ≡ go_on g (h w))
    → (r : Visit) → go_on f r ≡ go_on g (go_on h r)
go_on-split f g h same none = refl
go_on-split f g h same (some (true, w)) = refl
go_on-split f g h same (some (false, w)) = same w

visit_all-append :
    (visit : Text → List Text → Visit) (xs ys visited : List Text)
    → visit_all visit (xs ++ ys) visited ≡ go_on (visit_all visit ys) (visit_all visit xs visited)
unfolding visit_all
visit_all-append visit [] ys visited = refl
visit_all-append visit (x ∷ xs) ys visited =
    go_on-split (visit_all visit (xs ++ ys)) (visit_all visit ys) (visit_all visit xs)
      (visit_all-append visit xs ys) (visit x visited)

module _ {F64 : Type 0} (all_traces : List (ReasoningTrace F64)) where
  has_cycles_internal_again :
      (fuel : ℕ) (id : Text) (visited : List Text)
      → 0 < fuel
      → is_visited id visited ≡ true
      → has_cycles_internal fuel all_traces id visited ≡ some (true, visited)
  unfolding has_cycles_internal
  has_cycles_internal_again zero id visited positive old =
      let absurd : ⊥ = omega (arith, positive) in elim absurd [ ]
  has_cycles_internal_again (suc fuel) id visited positive old = rw old

  -- A stored trace that names a parent twice is reported as cyclic, whatever the parent is: the
  -- visited set is kept from one parent to the next, so that a shared ancestor counts as a cycle.
  pub has_cycles-shared :
      (self : ReasoningTrace F64) (x : Text) (xs ys : List Text)
      → find (λ t. t.trace_id == self.trace_id) all_traces ≡ some self
      → parent_ids self.parent_relations ≡ xs ++ x ∷ ys
      → is_visited x xs ≡ true
      → has_cycles all_traces self ≡ some true
  unfolding has_cycles has_cycles_internal into_parents is_visited visit_all
  has_cycles-shared self x xs ys there parents twice =
      let id = self.trace_id in
      let n = length all_traces in
      let into = has_cycles_internal n all_traces in
      let less = fresh-visit-lt all_traces all_traces id [] there refl in
      let most = length-keep (λ t. not (is_visited t.trace_id [])) all_traces in
      let (p, marks) =
        visit_all-MarksAll all_traces into (length (fresh all_traces (id ∷ [])))
          (λ i vs k. has_cycles_internal-Marks all_traces n i vs (omega (arith, k, less, most))) xs
          (id ∷ []) (omega arith) in
      elim (Bool-cases p.found) [
        | inl cyclic ↦
            rw (there, parents, visit_all-append into xs (x ∷ ys) (id ∷ []), p.made, cyclic)
        | inr clear ↦
            let again =
              has_cycles_internal_again n x p.after (omega (arith, less, most))
                (marks clear x twice) in
            rw (
              there,
              parents,
              visit_all-append into xs (x ∷ ys) (id ∷ []),
              p.made,
              clear,
              visit_all,
              again,
            )
      ]
