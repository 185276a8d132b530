-- ===== src/HumanTouch/CommitGateway/RoundTrip.antt =====
-- `verify_commit_approval` reads back what `commit_with_approval` (commit_gateway.rs) wrote.
use sovereign_event_bus.Base.{
  ℕ, ◌≡◌, ◌≢◌, refl, ap, subst, ◌∙◌, none, some, false, List, [], ◌∷◌, ◌++◌, Result, ok, >>=-eq-ok,
  arith,
}
use sovereign_event_bus.Base.Text.{Text, codes, text_eq, text_beq_iff, starts_with}
use sovereign_event_bus.Base.Text.Lines.{
  newline, lines, IsLine, lines-append_newline, lines-cons, lines-last,
}
use sovereign_event_bus.Base.Text.Trim.{IsTrimmed, trim_space, trim_start_matches-append}
use sovereign_event_bus.HumanTouch.CommitGateway.{
  CommitGateway, Git, Fields, no_fields, unknown, value_after, read_field, read_fields, commit_body,
  approved_commit, message_or, commit_with_approval, verify_commit_approval, ok_or, no_head,
}

read_fields-append :
    (ls ms : List Text) (f : Fields) → read_fields (ls ++ ms) f ≡ read_fields ms (read_fields ls f)
unfolding read_fields
read_fields-append [] ms f = refl
read_fields-append (l ∷ ls) ms f = read_fields-append ls ms (read_field l f)

-- A label, a blank and a trimmed value.
value_after_label :
    (label v : Text)
    → starts_with (b' ' ∷ v) label ≡ false
    → IsTrimmed v
    → value_after label (label ++ b' ' ∷ v) ≡ v
unfolding value_after
value_after_label label v h trimmed =
    rw (trim_start_matches-append label (b' ' ∷ v) h) (trim_space v ∙ trimmed)

-- A value that stands on one line without blanks around it.
pub record IsValue (v : Text) : Type 0 where
  pub one_line : IsLine v
  pub trimmed : IsTrimmed v

IsLine-append : (s t : Text) → IsLine s → IsLine t → IsLine (s ++ t)
IsLine-append [] t h k = k
IsLine-append (c ∷ s) t h k = ground (arith, IsLine-append s t)

line_step :
    (s t : Text) {ls : List Text} → IsLine s → lines t ≡ ls → lines (s ++ newline ∷ t) ≡ s ∷ ls
line_step s t h e = lines-cons s t h ∙ ap (◌∷◌ s) e

module _ (message reviewer date evidence_url change_id : Text) (r : IsValue reviewer)
    (d : IsValue date) (e : IsValue evidence_url) (c : IsValue change_id) where
  labelled : List Text
  labelled =
      (codes "Approved-By: " ++ reviewer)
      ∷ (codes "Review-Date: " ++ date)
      ∷ (codes "Evidence: " ++ evidence_url)
      ∷ (codes "Change-ID: " ++ change_id)
      ∷ []
      ∷ codes "Co-Authored-By: Human-Touch Gateway <human-review@snapkitty.ai>"
      ∷ []

  lines-commit_body :
      lines (commit_body message reviewer date evidence_url change_id)
      ≡ lines (message ++ newline ∷ []) ++ ([] ∷ labelled)
  unfolding commit_body labelled
  lines-commit_body =
      let co_authored = codes "Co-Authored-By: Human-Touch Gateway <human-review@snapkitty.ai>" in
      lines-append_newline message _
      ∙ ap (λ (l : List Text). lines (message ++ newline ∷ []) ++ l)
          (line_step [] _ refl (
            line_step (codes "Approved-By: " ++ reviewer) _
              (IsLine-append (codes "Approved-By: ") reviewer refl r.one_line)
              (line_step (codes "Review-Date: " ++ date) _
                (IsLine-append (codes "Review-Date: ") date refl d.one_line)
                (line_step (codes "Evidence: " ++ evidence_url) _
                  (IsLine-append (codes "Evidence: ") evidence_url refl e.one_line)
                  (line_step (codes "Change-ID: " ++ change_id) _
                    (IsLine-append (codes "Change-ID: ") change_id refl c.one_line)
                    (line_step [] co_authored refl (lines-last _ _ refl)))))))

  written : Fields
  written = record {
    approved_by = reviewer;
    approval_date = date;
    evidence_url = evidence_url;
    change_id = change_id;
  }

  read-labelled : (f : Fields) → read_fields ([] ∷ labelled) f ≡ written
  unfolding read_fields read_field labelled written starts_with
  read-labelled f = λ i. record {
    approved_by = value_after_label (codes "Approved-By:") reviewer refl r.trimmed i;
    approval_date = value_after_label (codes "Review-Date:") date refl d.trimmed i;
    evidence_url = value_after_label (codes "Evidence:") evidence_url refl e.trimmed i;
    change_id = value_after_label (codes "Change-ID:") change_id refl c.trimmed i;
  }

  -- Whatever fields the message itself seems to have, the four that the gateway wrote are read.
  read-commit_body :
      read_fields (lines (commit_body message reviewer date evidence_url change_id)) no_fields
      ≡ written
  read-commit_body =
      rw
        (
          lines-commit_body,
          read_fields-append (lines (message ++ newline ∷ [])) ([] ∷ labelled) no_fields,
        )
        (read-labelled (read_fields (lines (message ++ newline ∷ [])) no_fields))

  -- The certificate of a commit with these values.
  pub approved-commit_body :
      reviewer ≢ unknown
      → approved_commit
          (read_fields (lines (commit_body message reviewer date evidence_url change_id)) no_fields)
        ≡ ok (record {
          change_id = change_id;
          approved_by = reviewer;
          approval_date = date;
          evidence_url = evidence_url;
          review_link = none;
        })
  approved-commit_body known =
      rw read-commit_body
        (unfold approved_commit written in ground (arith, known, text_beq_iff reviewer unknown))

-- A message that libgit2 keeps as it is: it drops newlines at the front.
abbrev pub IsKept : Text → Type 0
IsKept [] = ⊥
IsKept (c ∷ s) = c ≢ newline

IsKept-commit_body :
    (text reviewer date evidence_url change_id : Text)
    → IsKept text
    → IsKept (commit_body text reviewer date evidence_url change_id)
unfolding commit_body
IsKept-commit_body [] reviewer date evidence_url change_id h = elim h [ ]
IsKept-commit_body (c ∷ s) reviewer date evidence_url change_id h = h

ok_pair {ℓ κ} :
    {E : Type ℓ} {A B : Type κ} {a c : A} {b d : B}
    → ◌≡◌ {A = Result E (A × B)} (ok (a, b)) (ok (c, d))
    → (a ≡ c) × (b ≡ d)
ok_pair h = (cc, cc)

-- What git2 promises of a commit that it made.
pub record KeepsCommits (g : Git) : Type 0 where
  pub reopens :
      (path : Text) (sig : g.Signature) (body : Text) (tree oid : g.Oid) (parent : g.Commit)
      (store store' : g.Store)
      → g.open_repository path store ≡ ok tt
      → g.commit path sig body tree parent store ≡ ok (oid, store')
      → g.open_repository path store' ≡ ok tt
  pub reads_oid : (oid : g.Oid) → g.oid_from_str (g.oid_text oid) ≡ ok oid
  pub stores :
      (path : Text) (sig : g.Signature) (body : Text) (tree oid : g.Oid) (parent : g.Commit)
      (store store' : g.Store)
      → IsKept body
      → g.commit path sig body tree parent store ≡ ok (oid, store')
      → (c : g.Commit) × (g.find_commit path oid store' ≡ ok c) × (g.message c ≡ some body)

module _ (g : Git) (laws : KeepsCommits g) (gateway : CommitGateway) (rfc3339_secs : ℕ → Text)
    (now : ℕ) where
  -- The commit that a successful call made.
  made_commit :
      (change_id reviewer text evidence_url hash : Text) (store store' : g.Store)
      → commit_with_approval g gateway rfc3339_secs now change_id reviewer text evidence_url store
        ≡ ok (hash, store')
      → (sig : g.Signature) × (tree : g.Oid) × (parent : g.Commit) × (oid : g.Oid)
        × (g.open_repository gateway.repo_path store ≡ ok tt)
        × (g.commit gateway.repo_path sig
              (commit_body text reviewer (rfc3339_secs now) evidence_url change_id)
              tree
              parent
              store
            ≡ ok (oid, store'))
        × (g.oid_text oid ≡ hash)
  unfolding commit_with_approval
  made_commit change_id reviewer text evidence_url hash store store' h =
      let (_, opened, h1) = >>=-eq-ok (g.open_repository gateway.repo_path store) _ h in
      let (tree_id, _, h2) = >>=-eq-ok (g.write_tree gateway.repo_path store) _ h1 in
      let (tree, _, h3) = >>=-eq-ok (g.find_tree gateway.repo_path tree_id store) _ h2 in
      let (sig, _, h4) =
        >>=-eq-ok (g.signature_now reviewer (reviewer ++ codes "-review@snapkitty.ai") now) _ h3 in
      let (target, _, h5) = >>=-eq-ok (g.head gateway.repo_path store) _ h4 in
      let (parent_oid, _, h6) = >>=-eq-ok (ok_or target no_head) _ h5 in
      let (parent, _, h7) = >>=-eq-ok (g.find_commit gateway.repo_path parent_oid store) _ h6 in
      let ((oid, after), committed, h8) =
        >>=-eq-ok
          (g.commit gateway.repo_path sig
            (commit_body text reviewer (rfc3339_secs now) evidence_url change_id) tree parent store)
          _ h7 in
      let (same_hash, same_store) = ok_pair h8 in
      (
        sig,
        tree,
        parent,
        oid,
        opened,
        subst
            (λ (t : g.Store).
              g.commit gateway.repo_path sig
                (commit_body text reviewer (rfc3339_secs now) evidence_url change_id) tree parent
                store
              ≡ ok (oid, t))
            same_store committed,
        same_hash,
      )

  -- A commit that the gateway made for a reviewer other than `unknown` is verified by its hash,
  -- with the reviewer, the time, the evidence and the id of the change that were given, where
  -- libgit2 returns the message of a commit as it was given. Reviewer, time, evidence and id stand
  -- on one line without blanks around them; the message is any text that does not begin with a
  -- newline and is not empty.
  pub verify-commit_with_approval :
      (change_id reviewer text evidence_url hash : Text) (store store' : g.Store)
      → IsValue change_id
      → IsValue reviewer
      → IsValue evidence_url
      → IsValue (rfc3339_secs now)
      → IsKept text
      → reviewer ≢ unknown
      → commit_with_approval g gateway rfc3339_secs now change_id reviewer text evidence_url store
        ≡ ok (hash, store')
      → verify_commit_approval g gateway hash store'
        ≡ ok (record {
          change_id = change_id;
          approved_by = reviewer;
          approval_date = rfc3339_secs now;
          evidence_url = evidence_url;
          review_link = none;
        })
  unfolding verify_commit_approval
  verify-commit_with_approval change_id reviewer text evidence_url hash store store' vc vr ve vd
        kept known h =
      let (sig, tree, parent, oid, opened, committed, same) =
        made_commit change_id reviewer text evidence_url hash store store' h in
      let body = commit_body text reviewer (rfc3339_secs now) evidence_url change_id in
      let path = gateway.repo_path in
      let (c, found, says) =
        laws.stores path sig body tree oid parent store store'
          (IsKept-commit_body text reviewer (rfc3339_secs now) evidence_url change_id kept)
          committed in
      rw
        (
          laws.reopens path sig body tree oid parent store store' opened committed,
          ← same,
          laws.reads_oid oid,
          found,
          says,
        )
        (unfold message_or in
          approved-commit_body text reviewer (rfc3339_secs now) evidence_url change_id vr vd ve vc
            known)
