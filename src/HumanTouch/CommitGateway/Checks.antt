-- ===== src/HumanTouch/CommitGateway/Checks.antt =====
-- The checks that commit_gateway.rs makes before a commit.
use sovereign_event_bus.Base.{
  ◌≡◌, refl, true, false, ◌++◌, ok, err, if◌then◌else◌, ◌||◌, append_assoc, is_empty,
}
use sovereign_event_bus.Base.Text.{Text, codes, contains}
use sovereign_event_bus.Base.Text.Search.{contains-middle, contains-append_right}
use sovereign_event_bus.Base.Text.Trim.{trim, trim-visible}
use sovereign_event_bus.HumanTouch.CommitGateway.{auto_commit, commit_body, check_no_auto_commit}

module _ (message reviewer date evidence_url change_id : Text) where
  contains-commit_body :
      contains (commit_body message reviewer date evidence_url change_id) (codes "Approved-By:")
      ≡ true
  unfolding commit_body
  contains-commit_body =
      contains-append_right message _ (codes "Approved-By:")
        (contains-middle (codes "\n\n") (codes "Approved-By:") _)

  trim-commit_body :
      is_empty (trim (commit_body message reviewer date evidence_url change_id)) ≡ false
  unfolding commit_body
  trim-commit_body =
      rw (← append_assoc message (codes "\n\n") _)
        (trim-visible (message ++ codes "\n\n") _ b'A' refl)

-- The message of every commit of the gateway passes the hook, unless some part of it spells one of
-- the two marks of an automatic commit: then the hook refuses it as such.
pub check_no_auto_commit-commit_body :
    (message reviewer date evidence_url change_id : Text)
    → check_no_auto_commit (commit_body message reviewer date evidence_url change_id) ≡ (
        if contains (commit_body message reviewer date evidence_url change_id) (codes "[auto]")
          || contains
              (commit_body message reviewer date evidence_url change_id)
              (codes "auto-commit")
        then err auto_commit
        else ok tt)
unfolding check_no_auto_commit
check_no_auto_commit-commit_body message reviewer date evidence_url change_id = rw (
  contains-commit_body message reviewer date evidence_url change_id,
  trim-commit_body message reviewer date evidence_url change_id,
)
