-- ===== src/Policy/Metadata.antt =====
-- The bytes that the signature of an artifact covers (policy.rs).
use policy_templates.Prelude.{
  Bytes, text, eqb, length, List, [], ◌∷◌, Result, ok, ensure, ok_or, ◌>>=◌, ◌>>◌, uuid_invalid,
  hex_invalid, not_32_bytes,
}
use policy_templates.External.{External}
use policy_templates.Canonical.{Tlv, ce_v1_bytes, ce_v1_hash}
use policy_templates.Policy.{PolicyMetadata}

-- The fields of the metadata that are text there and bytes in the hash.
pub record Decoded : Type 0 where
  pub app_id : Bytes
  pub deploy_id : Bytes
  pub descriptor_core_hash : Bytes
  pub descriptor_signing_pubkey : Bytes
  pub policy_template_sha256 : Bytes
  pub agent_policy_sha256 : Bytes

module _ (x : External) where
  unfoldable pub decode_hex32 : Bytes → Bytes → Result Bytes
  decode_hex32 name value = do
    bytes ← ok_or (x.hex_decode value) (hex_invalid name)
    ensure (eqb (length bytes) 32) (not_32_bytes name)
    ok bytes

  unfoldable pub decode_metadata : PolicyMetadata → Result Decoded
  unfolding decode_hex32
  decode_metadata metadata = do
    app_id ← ok_or (x.uuid_parse metadata.app_id) uuid_invalid
    deploy_id ← ok_or (x.uuid_parse metadata.deploy_id) uuid_invalid
    core_hash ← decode_hex32 (text "descriptor_core_hash") metadata.descriptor_core_hash
    pubkey ← decode_hex32 (text "descriptor_signing_pubkey") metadata.descriptor_signing_pubkey
    template ← decode_hex32 (text "policy_template_sha256") metadata.policy_template_sha256
    agent ← decode_hex32 (text "agent_policy_sha256") metadata.agent_policy_sha256
    ok (record {
      app_id = app_id;
      deploy_id = deploy_id;
      descriptor_core_hash = core_hash;
      descriptor_signing_pubkey = pubkey;
      policy_template_sha256 = template;
      agent_policy_sha256 = agent;
    })

  unfoldable pub metadata_records : PolicyMetadata → Decoded → List Tlv
  metadata_records metadata decoded =
      (text "app_id", decoded.app_id)
      ∷ (text "deploy_id", decoded.deploy_id)
      ∷ (text "descriptor_core_hash", decoded.descriptor_core_hash)
      ∷ (text "descriptor_signing_pubkey", decoded.descriptor_signing_pubkey)
      ∷ (text "platform_release_version", metadata.platform_release_version)
      ∷ (text "policy_template_id", metadata.policy_template_id)
      ∷ (text "policy_template_sha256", decoded.policy_template_sha256)
      ∷ (text "agent_policy_sha256", decoded.agent_policy_sha256)
      ∷ (text "genpolicy_version_pin", metadata.genpolicy_version_pin)
      ∷ (text "signed_at", metadata.signed_at)
      ∷ (text "key_id", metadata.key_id)
      ∷ []

  unfoldable pub canonical_policy_metadata_hash : PolicyMetadata → Result Bytes
  unfolding decode_metadata metadata_records
  canonical_policy_metadata_hash metadata = do
    decoded ← decode_metadata metadata
    ce_v1_hash x (metadata_records metadata decoded)

  unfoldable pub signing_records : Bytes → Bytes → List Tlv
  signing_records metadata_hash rego_hash =
      (text "purpose", text "enclava-policy-artifact-v1")
      ∷ (text "metadata", metadata_hash)
      ∷ (text "rego_sha256", rego_hash)
      ∷ []

  unfoldable pub policy_artifact_signing_input : PolicyMetadata → Bytes → Result Bytes
  unfolding canonical_policy_metadata_hash signing_records
  policy_artifact_signing_input metadata rego_hash = do
    metadata_hash ← canonical_policy_metadata_hash metadata
    ce_v1_bytes (signing_records metadata_hash rego_hash)
