-- ===== src/HumanTouch/CommitGateway/Tests.antt =====
-- Runs and witnesses for commit_gateway.rs, over a repository that holds one commit.
use sovereign_event_bus.Base.{ℕ, ◌≡◌, refl, none, some, [], ok}
use sovereign_event_bus.Base.Text.{Text, codes}
use sovereign_event_bus.Base.Text.Trim.{trim}
use sovereign_event_bus.HumanTouch.CommitGateway.{
  CommitGateway, Git, commit_body, commit_with_approval, verify_commit_approval,
}
use sovereign_event_bus.HumanTouch.CommitGateway.RoundTrip.{
  KeepsCommits, verify-commit_with_approval,
}

-- The store is the message of the last commit.
abbrev last_commit : Git
last_commit = record {
  Store = Text;
  Oid = Unit {0};
  Signature = Unit {0};
  Commit = Text;
  open_repository = λ path store. ok tt;
  add_path = λ path file store. ok store;
  write_index = λ path store. ok store;
  write_tree = λ path store. ok tt;
  find_tree = λ path oid store. ok tt;
  signature_now = λ name email now. ok tt;
  head = λ path store. ok (some tt);
  find_commit = λ path oid store. ok store;
  commit = λ path sig body tree parent store. ok (tt, body);
  oid_text = λ oid. codes "abc";
  oid_from_str = λ t. ok tt;
  message = λ c. some c;
}

last_commit-KeepsCommits : KeepsCommits last_commit
last_commit-KeepsCommits = record {
  reopens = λ path sig body tree oid parent store store' h k. refl;
  reads_oid = λ oid. refl;
  stores = λ path sig body tree oid parent store store' kept made. (body, cc, refl);
}

abbrev seconds : ℕ → Text
seconds n = codes "2026-01-01T00:00:00Z"

abbrev gateway : CommitGateway
gateway = record { repo_path = codes "."; approval_timeout_secs = 3600; signing_key = none }

abbrev body : Text
body =
    unfold commit_body in
    commit_body (codes "fix") (codes "ann") (seconds 0) (codes "url") (codes "c1")

verify-commit_with_approval_example :
    verify_commit_approval last_commit gateway (codes "abc") body
    ≡ ok (record {
      change_id = codes "c1";
      approved_by = codes "ann";
      approval_date = codes "2026-01-01T00:00:00Z";
      evidence_url = codes "url";
      review_link = none;
    })
unfolding trim commit_with_approval commit_body
verify-commit_with_approval_example =
    verify-commit_with_approval last_commit last_commit-KeepsCommits gateway seconds 0 (codes "c1")
      (codes "ann") (codes "fix") (codes "url") (codes "abc") [] body
      (record { one_line = refl; trimmed = refl }) (record { one_line = refl; trimmed = refl })
      (record { one_line = refl; trimmed = refl }) (record { one_line = refl; trimmed = refl })
      (λ e. cc) (λ e. cc) refl
