-- ===== src/Policy/Message.antt =====
-- The message that the signature of an artifact covers, written out.
use policy_templates.Prelude.{
  ok_or-eq-ok, ◌≡◌, refl, ap, ◌∙◌, ◌↔◌, Bytes, text, eqb, eqb→eq, length, some, [], ◌∷◌, ok, ok_or,
  ok_inj, ensure-passed, >>=-eq-ok,
}
use policy_templates.External.{External}
use policy_templates.Canonical.{ce_v1_bytes, ce_v1_hash}
use policy_templates.Policy.{PolicyMetadata}
use policy_templates.Policy.Metadata.{
  decode_hex32, decode_metadata, metadata_records, canonical_policy_metadata_hash, signing_records,
  policy_artifact_signing_input,
}

-- The 32 bytes that a text in hexadecimal digits spells.
abbrev pub Spells32 : External → Bytes → Bytes → Type 0
Spells32 x value b = (x.hex_decode value ≡ some b) × (length b ≡ 32)

-- The CE-v1 encoding of the purpose, the hash of the metadata and the hash of the text. The metadata
-- are hashed with the bytes that their identifiers and hashes spell.
pub record Message (x : External) (m : PolicyMetadata) (rego_hash input : Bytes) : Type 0 where
  pub app_id : Bytes
  pub deploy_id : Bytes
  pub core_hash : Bytes
  pub pubkey : Bytes
  pub template_hash : Bytes
  pub agent_hash : Bytes
  pub app_id_is : x.uuid_parse m.app_id ≡ some app_id
  pub deploy_id_is : x.uuid_parse m.deploy_id ≡ some deploy_id
  pub core_hash_is : Spells32 x m.descriptor_core_hash core_hash
  pub pubkey_is : Spells32 x m.descriptor_signing_pubkey pubkey
  pub template_hash_is : Spells32 x m.policy_template_sha256 template_hash
  pub agent_hash_is : Spells32 x m.agent_policy_sha256 agent_hash
  pub metadata : Bytes
  pub metadata_is :
      ce_v1_bytes (
        (text "app_id", app_id)
        ∷ (text "deploy_id", deploy_id)
        ∷ (text "descriptor_core_hash", core_hash)
        ∷ (text "descriptor_signing_pubkey", pubkey)
        ∷ (text "platform_release_version", m.platform_release_version)
        ∷ (text "policy_template_id", m.policy_template_id)
        ∷ (text "policy_template_sha256", template_hash)
        ∷ (text "agent_policy_sha256", agent_hash)
        ∷ (text "genpolicy_version_pin", m.genpolicy_version_pin)
        ∷ (text "signed_at", m.signed_at)
        ∷ (text "key_id", m.key_id)
        ∷ [])
      ≡ ok metadata
  pub input_is :
      ce_v1_bytes (
        (text "purpose", text "enclava-policy-artifact-v1")
        ∷ (text "metadata", x.sha256 metadata)
        ∷ (text "rego_sha256", rego_hash)
        ∷ [])
      ≡ ok input

module _ (x : External) where
  decode_hex32_iff :
      (name value b : Bytes) → (decode_hex32 x name value ≡ ok b) ↔ Spells32 x value b
  unfolding decode_hex32
  decode_hex32_iff name value b = (
    λ h.
        let (a, e, k) = >>=-eq-ok (ok_or (x.hex_decode value) _) _ h in
        let (long, same) = ensure-passed (eqb (length a) 32) _ _ k in
        let is_b : a ≡ b = ok_inj same in
        (
          ok_or-eq-ok (x.hex_decode value) _ e ∙ ap some is_b,
          rw is_b at (eqb→eq (length a) 32 long),
        ),
    λ (read, long). rw (read, long) refl,
  )

  module _ (m : PolicyMetadata) (rego_hash input : Bytes) where
    Message-of_input :
        policy_artifact_signing_input x m rego_hash ≡ ok input → Message x m rego_hash input
    unfolding policy_artifact_signing_input canonical_policy_metadata_hash decode_metadata
        metadata_records signing_records ce_v1_hash
    Message-of_input h =
        let (hash, eh, k) = >>=-eq-ok (canonical_policy_metadata_hash x m) _ h in
        let (d, ed, k1) = >>=-eq-ok (decode_metadata x m) _ eh in
        let (bytes, eb, k2) = >>=-eq-ok (ce_v1_bytes (metadata_records x m d)) _ k1 in
        let (a, ea, h1) = >>=-eq-ok (ok_or (x.uuid_parse m.app_id) _) _ ed in
        let (p, ep, h2) = >>=-eq-ok (ok_or (x.uuid_parse m.deploy_id) _) _ h1 in
        let (c, ec, h3) = >>=-eq-ok (decode_hex32 x _ m.descriptor_core_hash) _ h2 in
        let (s, es, h4) = >>=-eq-ok (decode_hex32 x _ m.descriptor_signing_pubkey) _ h3 in
        let (t, et, h5) = >>=-eq-ok (decode_hex32 x _ m.policy_template_sha256) _ h4 in
        let (g, eg, h6) = >>=-eq-ok (decode_hex32 x _ m.agent_policy_sha256) _ h5 in
        record {
          app_id = a;
          deploy_id = p;
          core_hash = c;
          pubkey = s;
          template_hash = t;
          agent_hash = g;
          app_id_is = ok_or-eq-ok _ _ ea;
          deploy_id_is = ok_or-eq-ok _ _ ep;
          core_hash_is = (decode_hex32_iff _ _ c).0 ec;
          pubkey_is = (decode_hex32_iff _ _ s).0 es;
          template_hash_is = (decode_hex32_iff _ _ t).0 et;
          agent_hash_is = (decode_hex32_iff _ _ g).0 eg;
          metadata = bytes;
          metadata_is = rw (← (ok_inj h6)) at eb;
          input_is = rw (← (ok_inj k2)) at k;
        }

    input_of_Message :
        Message x m rego_hash input → policy_artifact_signing_input x m rego_hash ≡ ok input
    unfolding policy_artifact_signing_input canonical_policy_metadata_hash decode_metadata
        metadata_records signing_records ce_v1_hash
    input_of_Message p =
        rw
          (
            p.app_id_is,
            p.deploy_id_is,
            (decode_hex32_iff (text "descriptor_core_hash") _ p.core_hash).1 p.core_hash_is,
            (decode_hex32_iff (text "descriptor_signing_pubkey") _ p.pubkey).1 p.pubkey_is,
            (decode_hex32_iff (text "policy_template_sha256") _ p.template_hash).1
                p.template_hash_is,
            (decode_hex32_iff (text "agent_policy_sha256") _ p.agent_hash).1 p.agent_hash_is,
            p.metadata_is,
          )
          p.input_is

pub policy_artifact_signing_input_iff :
    (x : External) (m : PolicyMetadata) (rego_hash input : Bytes)
    → (policy_artifact_signing_input x m rego_hash ≡ ok input) ↔ Message x m rego_hash input
policy_artifact_signing_input_iff x m rego_hash input =
    (Message-of_input x m rego_hash input, input_of_Message x m rego_hash input)
