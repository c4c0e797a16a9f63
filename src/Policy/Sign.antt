-- ===== src/Policy/Sign.antt =====
-- Signing a policy artifact, and verifying one (policy.rs).
use policy_templates.Prelude.{
  ℕ, Bytes, text, ◌==◌, eqb, length, Option, none, some, Result, ok, ensure, ok_or, ◌>>=◌, ◌>>◌,
  app_id_mismatch, deploy_id_mismatch, release_mismatch, schema_version_unsupported,
  template_id_mismatch, template_sha256_mismatch, kbs_policy_hash_mismatch,
  agent_policy_hash_mismatch, rego_sha256_mismatch, agent_policy_sha256_mismatch,
  metadata_agent_policy_mismatch, signature_encoding, signature_length, artifact_signature_invalid,
}
use policy_templates.External.{External}
use policy_templates.Policy.{
  SigningKeyMaterial, SignRequest, PolicyMetadata, SignedPolicyArtifact, VerifiedSigningInputs,
  GeneratedAgentPolicy, template_id,
}
use policy_templates.Policy.Floor.{validate_oci_security_floor}
use policy_templates.Policy.Render.{render_template, template_sha256}
use policy_templates.Policy.Metadata.{decode_hex32, policy_artifact_signing_input}

module _ (x : External) where
  -- `.try_into()` of the decoded signature
  abbrev pub signature_of : Bytes → Result Bytes
  signature_of bytes = do ensure (eqb (length bytes) 64) signature_length; ok bytes

  abbrev pub decode_signature_from : Bytes → Option Bytes → Result Bytes
  decode_signature_from value (some bytes) = signature_of bytes
  decode_signature_from value none = ok_or (x.b64_decode value) signature_encoding >>= signature_of

  unfoldable pub decode_signature : Bytes → Result Bytes
  decode_signature value = decode_signature_from value (x.hex_decode value)

  module _ {Value : Type 0} where
    -- The metadata of an artifact.
    unfoldable pub metadata_of :
        Bytes → VerifiedSigningInputs Value → GeneratedAgentPolicy → Bytes → ℕ → PolicyMetadata
    metadata_of template inputs generated key_id signed_at = record {
      app_id = x.uuid_to_string inputs.descriptor.app_id;
      deploy_id = x.uuid_to_string inputs.descriptor.deploy_id;
      descriptor_core_hash = x.hex_encode inputs.descriptor_core_hash;
      descriptor_signing_pubkey = x.hex_encode inputs.descriptor_signing_pubkey;
      platform_release_version = inputs.descriptor.platform_release_version;
      policy_template_id = template_id;
      policy_template_sha256 = x.hex_encode (template_sha256 x template);
      agent_policy_sha256 = x.hex_encode (x.sha256 generated.policy_text);
      genpolicy_version_pin = generated.invocation.version_pin;
      signed_at = x.to_rfc3339 signed_at;
      key_id = key_id;
    }

    unfoldable pub artifact_of :
        PolicyMetadata
        → Bytes
        → VerifiedSigningInputs Value
        → GeneratedAgentPolicy
        → SigningKeyMaterial
        → Bytes
        → SignedPolicyArtifact Value
    artifact_of metadata rego_text inputs generated key signing_input = record {
      metadata = metadata;
      rego_text = rego_text;
      rego_sha256 = x.hex_encode (x.sha256 rego_text);
      agent_policy_text = generated.policy_text;
      agent_policy_sha256 = x.hex_encode (x.sha256 generated.policy_text);
      signature = x.hex_encode (x.sign key.signing_key signing_input);
      verify_pubkey_b64 = x.b64_encode (x.verifying_key key.signing_key);
      org_keyring = some inputs.org_keyring;
    }

    unfoldable pub sign_verified_policy :
        Bytes
        → SignRequest
        → VerifiedSigningInputs Value
        → GeneratedAgentPolicy
        → SigningKeyMaterial
        → ℕ
        → Result (SignedPolicyArtifact Value)
    unfolding metadata_of artifact_of
    sign_verified_policy template req inputs generated key signed_at = do
      let d = inputs.descriptor
      ensure (req.app_id == d.app_id) app_id_mismatch
      ensure (req.deploy_id == d.deploy_id) deploy_id_mismatch
      ensure (req.platform_release_version == d.platform_release_version) release_mismatch
      ensure (d.schema_version == text "v1") schema_version_unsupported
      ensure (d.policy_template_id == template_id) template_id_mismatch
      ensure (d.policy_template_sha256 == template_sha256 x template) template_sha256_mismatch
      _ ← validate_oci_security_floor d
      rego_text ← render_template x template d
      ensure (d.expected_kbs_policy_hash == x.sha256 rego_text) kbs_policy_hash_mismatch
      ensure (d.expected_agent_policy_hash == x.sha256 generated.policy_text)
          agent_policy_hash_mismatch
      let metadata = metadata_of template inputs generated key.key_id signed_at
      signing_input ← policy_artifact_signing_input x metadata (x.sha256 rego_text)
      ok (artifact_of metadata rego_text inputs generated key signing_input)

    unfoldable pub verify_signed_artifact : SignedPolicyArtifact Value → Bytes → Result (Unit {0})
    unfolding decode_signature
    verify_signed_artifact artifact verify_key = do
      rego_hash ← decode_hex32 x (text "rego_sha256") artifact.rego_sha256
      ensure (rego_hash == x.sha256 artifact.rego_text) rego_sha256_mismatch
      agent_hash ← decode_hex32 x (text "agent_policy_sha256") artifact.agent_policy_sha256
      ensure (agent_hash == x.sha256 artifact.agent_policy_text) agent_policy_sha256_mismatch
      ensure (artifact.metadata.agent_policy_sha256 == artifact.agent_policy_sha256)
          metadata_agent_policy_mismatch
      signature ← decode_signature artifact.signature
      signing_input ← policy_artifact_signing_input x artifact.metadata rego_hash
      ensure (x.verify verify_key signing_input signature) artifact_signature_invalid
      ok tt
