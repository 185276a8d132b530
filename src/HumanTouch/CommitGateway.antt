-- ===== src/HumanTouch/CommitGateway.antt =====
-- seb/human_touch/src/commit_gateway.rs: the gate in front of the repository. git2, blake3 and the
-- clock are parameters.
pub mod RoundTrip
pub mod Checks
pub mod Certificates
pub mod Tests
use sovereign_event_bus.Base.{
  ℕ, ◌+◌, Option, none, some, Bool, true, false, List, [], ◌∷◌, ◌++◌, Result, ok, err, ◌>>=◌, Eq,
  ◌==◌, if◌then◌else◌, is_empty, not, ◌||◌, replicate,
}
use sovereign_event_bus.Base.Text.{Text, codes, text_eq, contains, starts_with}
use sovereign_event_bus.Base.Text.Lines.{lines}
use sovereign_event_bus.Base.Text.Trim.{trim, trim_start_matches}

pub record ApprovalCertificate : Type 0 where
  pub change_id : Text
  pub reviewer : Text
  pub approval_time : Text
  pub evidence_hash : Text
  pub signature : Text

pub record HumanApprovedCommit : Type 0 where
  pub change_id : Text
  pub approved_by : Text
  pub approval_date : Text
  pub evidence_url : Text
  pub review_link : Option Text

-- A signing key is given by its bytes.
pub record CommitGateway : Type 0 where
  pub repo_path : Text
  pub approval_timeout_secs : ℕ
  pub signing_key : Option (List ℕ)

unfoldable pub new : Text → ℕ → CommitGateway
new repo_path approval_timeout_secs = record {
  repo_path = repo_path;
  approval_timeout_secs = approval_timeout_secs;
  signing_key = some (replicate 32 0);
}

pub data GatewayError : Type 0 where
  empty_change_id no_head missing_approved_by auto_commit empty_message no_approved_by :
      GatewayError
  git : Text → GatewayError

-- git2, over all that the repositories on the disk hold.
pub record Git : Type 1 where
  pub Store : Type 0
  pub Oid : Type 0
  pub Signature : Type 0
  pub Commit : Type 0
  pub open_repository : Text → Store → Result GatewayError (Unit {0})
  pub add_path : Text → Text → Store → Result GatewayError Store
  pub write_index : Text → Store → Result GatewayError Store
  pub write_tree : Text → Store → Result GatewayError Oid
  pub find_tree : Text → Oid → Store → Result GatewayError Oid
  pub signature_now : Text → Text → ℕ → Result GatewayError Signature
  pub head : Text → Store → Result GatewayError (Option Oid)
  pub find_commit : Text → Oid → Store → Result GatewayError Commit
  pub commit : Text → Signature → Text → Oid → Commit → Store → Result GatewayError (Oid × Store)
  pub oid_text : Oid → Text
  pub oid_from_str : Text → Result GatewayError Oid
  pub message : Commit → Option Text

-- `ok_or`.
abbrev pub ok_or {ℓ} : {A : Type ℓ} → Option A → GatewayError → Result GatewayError A
ok_or none e = err e
ok_or (some a) e = ok a

unfoldable pub verify_approval_required : Text → Result GatewayError (Unit {0})
verify_approval_required change_id = if is_empty change_id then err empty_change_id else ok tt

-- The four fields that `verify_commit_approval` reads.
pub record Fields : Type 0 where
  pub approved_by : Text
  pub approval_date : Text
  pub evidence_url : Text
  pub change_id : Text

abbrev pub unknown : Text
unknown = codes "unknown"

abbrev pub no_fields : Fields
no_fields = record {
  approved_by = unknown;
  approval_date = unknown;
  evidence_url = unknown;
  change_id = unknown;
}

-- `line.trim_start_matches(label).trim()`.
unfoldable pub value_after : Text → Text → Text
value_after label line = trim (trim_start_matches line label)

unfoldable pub read_field : Text → Fields → Fields
read_field line f =
    if starts_with line (codes "Approved-By:")
    then record f { approved_by = value_after (codes "Approved-By:") line }
    else if starts_with line (codes "Review-Date:")
    then record f { approval_date = value_after (codes "Review-Date:") line }
    else if starts_with line (codes "Evidence:")
    then record f { evidence_url = value_after (codes "Evidence:") line }
    else if starts_with line (codes "Change-ID:")
    then record f { change_id = value_after (codes "Change-ID:") line }
    else f

unfoldable pub read_fields : List Text → Fields → Fields
read_fields [] f = f
read_fields (line ∷ rest) f = read_fields rest (read_field line f)

-- The message of `commit_with_approval`.
unfoldable pub commit_body : Text → Text → Text → Text → Text → Text
commit_body message reviewer date evidence_url change_id =
    message
    ++ (codes "\n\nApproved-By: "
        ++ (reviewer
            ++ (codes "\nReview-Date: "
                ++ (date
                    ++ (codes "\nEvidence: "
                        ++ (evidence_url
                            ++ (codes "\nChange-ID: "
                                ++ (change_id
                                    ++ codes
                                        "\n\nCo-Authored-By: Human-Touch Gateway <human-review@snapkitty.ai>"))))))))

unfoldable pub check_no_auto_commit : Text → Result GatewayError (Unit {0})
check_no_auto_commit message =
    if contains message (codes "[auto]") || contains message (codes "auto-commit")
    then err auto_commit
    else if is_empty (trim message)
    then err empty_message
    else if not (contains message (codes "Approved-By:"))
    then err no_approved_by
    else ok tt

module _ (blake3_hex : Text → Text) (rfc3339_secs : ℕ → Text) where
  -- What is hashed for the signature.
  unfoldable pub signing_material : ℕ → Text → Text → Text
  signing_material now change_id reviewer =
      change_id ++ (codes "||" ++ (reviewer ++ (codes "||" ++ rfc3339_secs now)))

  unfoldable pub create_approval_certificate :
      CommitGateway → ℕ → Text → Text → Text → ApprovalCertificate
  unfolding signing_material
  create_approval_certificate gateway now change_id reviewer evidence_url = record {
    change_id = change_id;
    reviewer = reviewer;
    approval_time = rfc3339_secs now;
    evidence_hash = blake3_hex evidence_url;
    signature = blake3_hex (signing_material now change_id reviewer);
  }

-- The check of the fields that were read.
unfoldable pub approved_commit : Fields → Result GatewayError HumanApprovedCommit
approved_commit f =
    if f.approved_by == unknown
    then err missing_approved_by
    else ok (record {
      change_id = f.change_id;
      approved_by = f.approved_by;
      approval_date = f.approval_date;
      evidence_url = f.evidence_url;
      review_link = none;
    })

unfoldable pub message_or : Option Text → Text
message_or none = codes "(no message)"
message_or (some text) = text

module _ (g : Git) where
  open g use {
    Store, Oid, Commit, open_repository, add_path, write_index, write_tree, find_tree,
    signature_now, head, find_commit, commit, oid_text, oid_from_str, message,
  }

  unfoldable pub add_paths : Text → List Text → Store → Result GatewayError Store
  add_paths path [] store = ok store
  add_paths path (file ∷ files) store = do
    store' ← add_path path file store
    add_paths path files store'

  -- The index is written back only when every path was added.
  unfoldable pub stage_files : CommitGateway → List Text → Store → Result GatewayError Store
  stage_files gateway files store = do
    _ ← open_repository gateway.repo_path store
    index ← add_paths gateway.repo_path files store
    write_index gateway.repo_path index

  unfoldable pub commit_with_approval :
      CommitGateway
      → (ℕ → Text)
      → ℕ
      → Text
      → Text
      → Text
      → Text
      → Store
      → Result GatewayError (Text × Store)
  commit_with_approval gateway rfc3339_secs now change_id reviewer text evidence_url store = do
    let path = gateway.repo_path
    _ ← open_repository path store
    tree_id ← write_tree path store
    tree ← find_tree path tree_id store
    sig ← signature_now reviewer (reviewer ++ codes "-review@snapkitty.ai") now
    target ← head path store
    parent_oid ← ok_or target no_head
    parent ← find_commit path parent_oid store
    let body = commit_body text reviewer (rfc3339_secs now) evidence_url change_id
    (oid, store') ← commit path sig body tree parent store
    ok (oid_text oid, store')

  unfoldable pub verify_commit_approval :
      CommitGateway → Text → Store → Result GatewayError HumanApprovedCommit
  verify_commit_approval gateway commit_hash store = do
    _ ← open_repository gateway.repo_path store
    oid ← oid_from_str commit_hash
    c ← find_commit gateway.repo_path oid store
    approved_commit (read_fields (lines (message_or (message c))) no_fields)

-- `reject_commit` writes to the trace only.
unfoldable pub reject_commit : Text → Text → Result GatewayError (Unit {0})
reject_commit change_id reason = ok tt
