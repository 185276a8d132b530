-- ===== src/Reasoning/Streaming/Order.antt =====
-- The order in which the stream manager walks its map of traces, which the hash map leaves open,
-- makes no difference to what it counts.
use sovereign_event_bus.Base.{
  ℕ, suc, ◌+◌, ◌≡◌, refl, ap, ap₂, sym, ◌∙◌, Option, Bool, true, false, ◌||◌, Bool-cases, inl, inr,
  List, [], ◌∷◌, map, keep, length, any, if◌then◌else◌, ◌==◌, eq_of_beq, arith,
}
use mathlib.Core.List.{Permᴰ}
use mathlib.Core.List.Permᴰ
use sovereign_event_bus.Base.Perms.{any-Perm, map-Perm}
use sovereign_event_bus.Base.Text.{Text, codes, text_eq, text_beq, text_beq_iff}
use sovereign_event_bus.Base.Json.{Json}
use sovereign_event_bus.Base.Map.{get, insert}
use sovereign_event_bus.Reasoning.Trace.{ReasoningTrace}
use sovereign_event_bus.Reasoning.Streaming.{
  ReasoningStreamManager, get_traces, collect_set, count_steps, get_summary,
}

any-collect_set :
    (s : Text) (l : List Text) → any (λ t. t == s) (collect_set l) ≡ any (λ t. t == s) l
unfolding collect_set
any-collect_set s [] = refl
any-collect_set s (x ∷ l) = elim (Bool-cases (any (λ t. t == x) (collect_set l))) [
  | inl known ↦ elim (Bool-cases (x == s)) [
    | inl same ↦
        let there =
          ap (λ r. any (λ t. t == r) (collect_set l)) (sym (eq_of_beq x s same)) ∙ known in
        rw (known, same, there) refl
    | inr other ↦ rw (known, other) (any-collect_set s l)
  ]
  | inr fresh ↦ rw fresh (ap (λ b. text_beq x s || b) (any-collect_set s l))
]

length-if_cons :
    (b : Bool) (s : Text) (l : List Text)
    → length (if b then l else s ∷ l) ≡ (if b then length l else suc (length l))
length-if_cons true s l = refl
length-if_cons false s l = refl

-- The size of a set with one member more.
length-collect_set :
    (s : Text) (l : List Text)
    → length (collect_set (s ∷ l))
      ≡ (if any (λ t. t == s) l then length (collect_set l) else suc (length (collect_set l)))
unfolding collect_set
length-collect_set s l =
    rw (any-collect_set s l) (length-if_cons (any (λ t. t == s) l) s (collect_set l))

module _ {ℓ} {A : Type ℓ} where
  cons_if :
      (b c : Bool) {x y : A} {l m : List A}
      → b ≡ c
      → x ≡ y
      → Permᴰ l m
      → Permᴰ (if b then x ∷ l else l) (if c then y ∷ m else m)
  cons_if true true h e d = Permᴰ.cons e d
  cons_if true false h e d = cc
  cons_if false true h e d = cc
  cons_if false false h e d = d

  swap_if :
      (b c b' c' : Bool) {x y x' y' : A} (l : List A)
      → b ≡ c'
      → c ≡ b'
      → x ≡ y'
      → y ≡ x'
      → Permᴰ
          (if b then x ∷ (if c then y ∷ l else l) else (if c then y ∷ l else l))
          (if b' then x' ∷ (if c' then y' ∷ l else l) else (if c' then y' ∷ l else l))
  swap_if true true true true l h k e f = Permᴰ.swap e f
  swap_if true false false true l h k e f = Permᴰ.cons e (Permᴰ.refl _)
  swap_if false true true false l h k e f = Permᴰ.cons f (Permᴰ.refl _)
  swap_if false false false false l h k e f = Permᴰ.refl _
  swap_if _ _ _ _ l h k e f = cc

  pub keep-Perm : (p : A → Bool) {l m : List A} → Permᴰ l m → Permᴰ (keep p l) (keep p m)
  keep-Perm p Permᴰ.nil = Permᴰ.nil
  keep-Perm p (Permᴰ.cons e d) = cons_if _ _ (ap p e) e (keep-Perm p d)
  keep-Perm p (Permᴰ.swap {l = l} e f) = swap_if _ _ _ _ (keep p l) (ap p e) (ap p f) e f
  keep-Perm p (Permᴰ.trans d e) = Permᴰ.trans (keep-Perm p d) (keep-Perm p e)

length-Perm {ℓ} : {A : Type ℓ} {l m : List A} → Permᴰ l m → length l ≡ length m
length-Perm Permᴰ.nil = refl
length-Perm (Permᴰ.cons e d) = ap suc (length-Perm d)
length-Perm (Permᴰ.swap e f) = refl
length-Perm (Permᴰ.trans d e) = length-Perm d ∙ length-Perm e

if_swap :
    (b c : Bool) (n : ℕ)
    → (if b then (if c then n else suc n) else suc (if c then n else suc n))
      ≡ (if c then (if b then n else suc n) else suc (if b then n else suc n))
if_swap true true n = refl
if_swap true false n = refl
if_swap false true n = refl
if_swap false false n = refl

collect_set_swap :
    (a b : Text) (l : List Text)
    → length (collect_set (a ∷ b ∷ l)) ≡ length (collect_set (b ∷ a ∷ l))
collect_set_swap a b l = elim (Bool-cases (a == b)) [
  | inl same ↦ let e = eq_of_beq a b same in ap₂ (λ s t. length (collect_set (s ∷ t ∷ l))) e (sym e)
  | inr other ↦
      let turned : text_beq b a ≡ false = ground (arith, text_beq_iff b a, text_beq_iff a b) in
      rw
        (
          length-collect_set a (b ∷ l),
          length-collect_set b (a ∷ l),
          length-collect_set a l,
          length-collect_set b l,
          other,
          turned,
        )
        (if_swap (any (λ t. t == a) l) (any (λ t. t == b) l) (length (collect_set l)))
]

length-collect_set-Perm :
    {l m : List Text} → Permᴰ l m → length (collect_set l) ≡ length (collect_set m)
length-collect_set-Perm Permᴰ.nil = refl
length-collect_set-Perm (Permᴰ.cons {a = a} {b = b} {l₁ = l} {l₂ = m} e d) =
    let sizes = length-collect_set-Perm d in
    let known = any-Perm (λ t. t == a) d in
    length-collect_set a l
    ∙ rw (known, sizes) (sym (length-collect_set a m))
    ∙ ap (λ s. length (collect_set (s ∷ m))) e
length-collect_set-Perm (Permᴰ.swap {a = a} {b = b} {l = l} e f) =
    collect_set_swap a b l ∙ ap₂ (λ s t. length (collect_set (s ∷ t ∷ l))) f e
length-collect_set-Perm (Permᴰ.trans d e) = length-collect_set-Perm d ∙ length-collect_set-Perm e

module _ {F64 : Type 0} where
  count_steps-Perm : {l m : List (ReasoningTrace F64)} → Permᴰ l m → count_steps l ≡ count_steps m
  unfolding count_steps
  count_steps-Perm Permᴰ.nil = refl
  count_steps-Perm (Permᴰ.cons e d) = ap₂ (◌+◌) (ap (λ t. length t.steps) e) (count_steps-Perm d)
  count_steps-Perm (Permᴰ.swap {a = a} {b = b} {a' = a'} {b' = b'} e f) =
      let first : length a.steps ≡ length b'.steps = ap (λ t. length t.steps) e in
      let second : length b.steps ≡ length a'.steps = ap (λ t. length t.steps) f in
      omega (arith, first, second)
  count_steps-Perm (Permᴰ.trans d e) = count_steps-Perm d ∙ count_steps-Perm e

  -- What a summary counts.
  abbrev pub counts : ReasoningStreamManager F64 → List (Option Json)
  counts m =
      map (λ k. get k (get_summary m))
        (codes "total_traces" ∷ codes "total_steps" ∷ codes "unique_agents" ∷ [])

  pub get_summary-Perm :
      (m n : ReasoningStreamManager F64) → Permᴰ (get_traces m) (get_traces n) → counts m ≡ counts n
  unfolding get_summary get insert
  get_summary-Perm m n d =
      let traces : length (get_traces m) ≡ length (get_traces n) = length-Perm d in
      let steps = count_steps-Perm d in
      let agents = length-collect_set-Perm (map-Perm (λ t. t.agent_id) d) in
      rw (traces, steps, agents) refl
