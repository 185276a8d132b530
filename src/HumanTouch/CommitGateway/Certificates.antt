-- ===== src/HumanTouch/CommitGateway/Certificates.antt =====
-- The approval certificates of commit_gateway.rs.
use sovereign_event_bus.Base.{ℕ, ◌≡◌, ap, ◌++◌, append_assoc}
use sovereign_event_bus.Base.Text.{Text, codes}
use sovereign_event_bus.HumanTouch.CommitGateway.{CommitGateway, create_approval_certificate}

-- The signature binds neither the key nor the border between the change and the reviewer: two
-- gateways, whatever their keys, give a change `a||b` reviewed by `c` and a change `a` reviewed by
-- `b||c` one and the same signature at one time, whatever the evidence is.
pub signature_ambiguous :
    (blake3_hex : Text → Text) (rfc3339_secs : ℕ → Text) (gateway other : CommitGateway) (now : ℕ)
    (a b c evidence_url other_url : Text)
    → (create_approval_certificate blake3_hex rfc3339_secs gateway now
        (a ++ (codes "||" ++ b))
        c
        evidence_url).signature
      ≡ (create_approval_certificate blake3_hex rfc3339_secs other now a
          (b ++ (codes "||" ++ c))
          other_url).signature
unfolding create_approval_certificate
signature_ambiguous blake3_hex rfc3339_secs gateway other now a b c evidence_url other_url =
    ap blake3_hex (simp append_assoc)
