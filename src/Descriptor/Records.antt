-- ===== src/Descriptor/Records.antt =====
-- The records that a descriptor's signature and core hash cover (descriptor.rs).
use policy_templates.Prelude.{
  Bytes, text, Bool, true, false, List, [], ◌∷◌, ◌++◌, Result, ok, ◌>>=◌, if◌then◌else◌,
}
use policy_templates.External.{External}
use policy_templates.Canonical.{Tlv, ce_v1_bytes}
use policy_templates.Descriptor.{DeploymentDescriptor, measurement_bytes}
use policy_templates.Descriptor.Canonical.{
  canonical_string_list_bytes, canonical_signer_bytes, canonical_oci_spec_bytes,
  canonical_sidecar_map_bytes,
}

pub record DescriptorSubHashes : Type 0 where
  pub created_at : Bytes
  pub custom_domains_hash : Bytes
  pub signer_hash : Bytes
  pub oci_hash : Bytes
  pub sidecar_hash : Bytes

-- DescriptorSubHashes::new
unfoldable pub new_sub_hashes : External → DeploymentDescriptor → Result DescriptorSubHashes
unfolding canonical_string_list_bytes canonical_signer_bytes canonical_oci_spec_bytes
    canonical_sidecar_map_bytes
new_sub_hashes x d = do
  custom_domains_hash ← canonical_string_list_bytes x d.custom_domains
  signer_hash ← canonical_signer_bytes x d.signer_identity
  oci_hash ← canonical_oci_spec_bytes x d.oci_runtime_spec
  sidecar_hash ← canonical_sidecar_map_bytes x d.sidecars
  ok (record {
    created_at = x.to_rfc3339 d.created_at;
    custom_domains_hash = custom_domains_hash;
    signer_hash = signer_hash;
    oci_hash = oci_hash;
    sidecar_hash = sidecar_hash;
  })

unfoldable pub fixed_records :
    DeploymentDescriptor → Bytes → DescriptorSubHashes → List Tlv → List Tlv
fixed_records d purpose sub more =
    (text "purpose", purpose)
    ∷ (text "schema_version", d.schema_version)
    ∷ (text "org_id", d.org_id)
    ∷ (text "org_slug", d.org_slug)
    ∷ (text "app_id", d.app_id)
    ∷ (text "app_name", d.app_name)
    ∷ (text "deploy_id", d.deploy_id)
    ∷ (text "created_at", sub.created_at)
    ∷ (text "nonce", d.nonce)
    ∷ (text "app_domain", d.app_domain)
    ∷ (text "tee_domain", d.tee_domain)
    ∷ (text "custom_domains", sub.custom_domains_hash)
    ∷ (text "namespace", d.namespace)
    ∷ (text "service_account", d.service_account)
    ∷ (text "identity_hash", d.identity_hash)
    ∷ (text "image_ref", d.image_ref)
    ∷ (text "image_digest", d.image_digest)
    ∷ (text "signer_identity", sub.signer_hash)
    ∷ (text "oci_runtime_spec", sub.oci_hash)
    ∷ (text "sidecars", sub.sidecar_hash)
    ∷ (text "api_signing_pubkey", d.api_signing_pubkey)
    ∷ (text "expected_firmware_measurement", measurement_bytes d.expected_firmware_measurement)
    ∷ (text "expected_runtime_class", d.expected_runtime_class)
    ∷ (text "kbs_resource_path", d.kbs_resource_path)
    ∷ (text "unlock_mode", d.unlock_mode)
    ∷ (text "policy_template_id", d.policy_template_id)
    ∷ (text "policy_template_sha256", d.policy_template_sha256)
    ∷ (text "platform_release_version", d.platform_release_version)
    ∷ more

unfoldable pub independent_records : DeploymentDescriptor → List Tlv
independent_records d =
    if d.independent_verification then (text "independent_verification", text "true") ∷ [] else []

unfoldable pub anchor_records : DeploymentDescriptor → List Tlv
anchor_records d =
    (text "expected_agent_policy_hash", d.expected_agent_policy_hash)
    ∷ (text "expected_cc_init_data_hash", d.expected_cc_init_data_hash)
    ∷ (text "expected_kbs_policy_hash", d.expected_kbs_policy_hash)
    ∷ []

unfoldable pub descriptor_records :
    DeploymentDescriptor → Bytes → Bool → DescriptorSubHashes → List Tlv
unfolding fixed_records independent_records anchor_records
descriptor_records d purpose include_chain_anchors sub =
    fixed_records d purpose sub
      (independent_records d ++ (if include_chain_anchors then anchor_records d else []))

unfoldable pub descriptor_canonical_bytes : External → DeploymentDescriptor → Result Bytes
unfolding new_sub_hashes descriptor_records
descriptor_canonical_bytes x d = do
  sub ← new_sub_hashes x d
  ce_v1_bytes (descriptor_records d (text "enclava-deployment-descriptor-v1") true sub)

unfoldable pub descriptor_core_canonical_bytes : External → DeploymentDescriptor → Result Bytes
unfolding new_sub_hashes descriptor_records
descriptor_core_canonical_bytes x d = do
  sub ← new_sub_hashes x d
  ce_v1_bytes (descriptor_records d (text "enclava-deployment-descriptor-core-v1") false sub)

unfoldable pub descriptor_core_hash : External → DeploymentDescriptor → Result Bytes
unfolding descriptor_core_canonical_bytes
descriptor_core_hash x d = do bytes ← descriptor_core_canonical_bytes x d; ok (x.sha256 bytes)
