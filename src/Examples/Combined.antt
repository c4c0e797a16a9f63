-- ===== src/Examples/Combined.antt =====
-- A request that is answered with a policy of the generator.
use policy_templates.Prelude.{
  ◌≡◌, refl, ap, ◌∙◌, Bytes, text, [], ◌∷◌, trim, ◌==◌, be16, be32, be64, traverse, lines,
  rsplit_once, sort_by_key, bytes_le, decimal, contains, replace, true, none, some, ok, Result, inl,
  inr,
}
use policy_templates.Descriptor.{DeploymentDescriptor}
use policy_templates.OwnerStore.{bootstrap_owner, require_owner, verifying_key_from_vec}
use policy_templates.OwnerStore.Table.{select_owner, insert_owner, insert_event}
use policy_templates.Descriptor.Records.{descriptor_canonical_bytes, descriptor_core_hash}
use policy_templates.Policy.{
  template_id, SigningKeyMaterial, SignedPolicyArtifact, GeneratedAgentPolicy,
}
use policy_templates.Policy.Inputs.{
  Json, decode_json_blob, decode_signing_blobs, verify_signing_inputs,
}
use policy_templates.Policy.Floor.{validate_oci_security_floor}
use policy_templates.Policy.Render.{template_sha256, validate_rego_string_slot, render_template}
use policy_templates.Policy.Metadata.{decode_hex32, policy_artifact_signing_input}
use policy_templates.Policy.Sign.{decode_signature, sign_verified_policy, verify_signed_artifact}
use policy_templates.Canonical.{ce_v1_bytes, ce_v1_hash}
use policy_templates.Keyring.{
  as_str, can_deploy, keyring_fingerprint, verify_keyring, find_deployer_pubkey,
  canonical_keyring_bytes,
}
use policy_templates.Descriptor.Verify.{verify_descriptor}
use policy_templates.Descriptor.Unique.{validate_unique_resource_names}
use policy_templates.Genpolicy.Value.{Value, json_object, put, put_all, get, get_field, set_key}
use policy_templates.Genpolicy.Rego.{
  pidns_check, rootfs_precheck, mount_options_check, storage_fs_group_check, storage_options_check,
  sandbox_storage_check, storage_count_check,
}
use policy_templates.Genpolicy.Settings.{Host, prepare_cap_settings_dir}
use policy_templates.Genpolicy.Normalize.Text.{
  normalize_cap_generated_policy, normalize_cap_sandbox_pidns, normalize_rootfs_propagation,
  normalize_cap_storage_mounts, normalize_cap_sandbox_storages, normalize_cap_extra_storages,
  normalize_privileged_caps_placeholder, insert_policy_helper, insert_after, volume_layout,
}
use policy_templates.Genpolicy.Normalize.Mounts.{
  platform_mounts, set_mounts, has_memory_shape, set_options, adjust_rows, separator,
  normalize_guest_memory_mount_propagation,
}
use policy_templates.Genpolicy.Manifest.Pod.{pod_manifest, render_pod_manifest}
use policy_templates.Genpolicy.Manifest.Renders.{pod_manifest_iff}
use policy_templates.Genpolicy.Run.{
  genpolicy_args, build_invocation_with_log_encryption, run_anonymously, run_genpolicy,
  run_with_log_encryption,
}
use policy_templates.Service.{sign_policy}
use policy_templates.Service.Generated.{Generated, sign_policy-Generated}
use policy_templates.Examples.Toy.{toy}
use policy_templates.Examples.Keyrings
use policy_templates.Examples.Policies.{template, signable, key}
use policy_templates.Examples.Services.{sent, always, owned}
use policy_templates.Examples.Mounts.{printer}
use policy_templates.Examples.Pods.{lengths, settings_of, pinned, no_tls_setting}
use policy_templates.Examples.Runs.{host, config}

-- An output of the generator without the rules that the passes change.
abbrev output : Bytes
output = text "r\npolicy_data := {}"

abbrev brief : Host
brief = record host {
  execute = λ disk binary args dir vars. some (record { success = true; stdout = output }, disk);
}

corrected :
    (r : Bytes) × (normalize_guest_memory_mount_propagation printer output ≡ ok r)
    × (normalize_cap_generated_policy r
        ≡ text "# enclava-cap-volume-layout: guest-memory-v2\nr\npolicy_data := {}")
unfolding normalize_guest_memory_mount_propagation separator platform_mounts adjust_rows
    has_memory_shape set_options set_mounts rsplit_once lines text ◌==◌ bytes_le json_object put_all
    put get get_field set_key contains replace normalize_cap_generated_policy
    normalize_cap_sandbox_pidns normalize_rootfs_propagation normalize_cap_storage_mounts
    normalize_cap_sandbox_storages normalize_cap_extra_storages
    normalize_privileged_caps_placeholder insert_policy_helper insert_after volume_layout
    pidns_check rootfs_precheck mount_options_check storage_fs_group_check storage_options_check
    sandbox_storage_check storage_count_check
corrected = (_, refl, refl)

abbrev policy : GeneratedAgentPolicy
policy = record {
  policy_text = text "# enclava-cap-volume-layout: guest-memory-v2\nr\npolicy_data := {}";
  invocation = record {
    binary = text "genpolicy";
    args = genpolicy_args (text "pod.yaml") (text "rules.rego") (some (text "/etc/genpolicy"));
    manifest_yaml = text "pod";
    version_pin = text "4.3.1";
  };
}

-- The descriptor expects the hash of this policy, and is unlocked by a password.
abbrev deployed : DeploymentDescriptor
deployed = record signable {
  app_name = text "shop";
  unlock_mode = text "password";
  expected_agent_policy_hash = toy.sha256 policy.policy_text;
}

unfoldable deployed_encodes : (b : Bytes) × (descriptor_canonical_bytes toy deployed ≡ ok b)
unfolding descriptor_canonical_bytes ce_v1_hash ce_v1_bytes text decimal sort_by_key bytes_le be32
deployed_encodes = (_, refl)

abbrev json : Json Bytes
json = record {
  parse_descriptor = λ blob. some (record {
    descriptor = deployed;
    signature = toy.sign (8 ∷ []) deployed_encodes.0;
    signing_key_id = [];
    signing_pubkey = toy.verifying_key (8 ∷ []);
  });
  parse_keyring = λ blob. some Keyrings.envelope;
  parse_value = some;
}

rendered : (pod : Value) × (pod_manifest toy lengths settings_of deployed none ≡ ok pod)
rendered =
    (pod_manifest_iff toy lengths settings_of deployed none).1
      (((λ h. h), tt), tt, inr (inr (inl refl)), inl no_tls_setting, (text "init@sha256:0", pinned))

ran :
    run_with_log_encryption toy lengths printer settings_of (λ b. true) brief config 0 deployed none
    ≡ ok policy
unfolding run_with_log_encryption build_invocation_with_log_encryption render_pod_manifest
    run_genpolicy run_anonymously prepare_cap_settings_dir
ran = rw (rendered.1, corrected.1, corrected.2) refl

signed :
    (a : SignedPolicyArtifact Bytes) × (sign_policy toy json template
        (λ d log. ok policy)
        (some key)
        always
        true
        owned
        sent
        7
      ≡ ok a)
unfolding sign_policy decode_signing_blobs decode_json_blob trim bootstrap_owner select_owner
    insert_owner insert_event require_owner verifying_key_from_vec Keyrings.keyring_encodes
    deployed_encodes verify_signing_inputs ◌==◌ verify_keyring canonical_keyring_bytes traverse
    sort_by_key bytes_le ce_v1_hash ce_v1_bytes text as_str be64 be32 be16 decimal
    find_deployer_pubkey verify_descriptor descriptor_canonical_bytes validate_unique_resource_names
    descriptor_core_hash keyring_fingerprint can_deploy sign_verified_policy template_id
    template_sha256 validate_oci_security_floor render_template validate_rego_string_slot contains
    replace policy_artifact_signing_input verify_signed_artifact decode_hex32 decode_signature
signed = (_, refl)

abbrev answer : (Result GeneratedAgentPolicy) → Result (SignedPolicyArtifact Bytes)
answer r = sign_policy toy json template (λ d log. r) (some key) always true owned sent 7

issued :
    sign_policy toy json template
      (run_with_log_encryption toy lengths printer settings_of (λ b. true) brief config 0)
      (some key)
      always
      true
      owned
      sent
      7
    ≡ ok signed.0
unfolding sign_policy deployed_encodes run_with_log_encryption validate_unique_resource_names ◌==◌
    json_object trim decode_signing_blobs require_owner select_owner bootstrap_owner insert_owner
    insert_event verify_signing_inputs verify_keyring canonical_keyring_bytes traverse signed
issued = ap answer ran ∙ signed.1

sign_policy-Generated_example :
    (k : SigningKeyMaterial) × (some key ≡ some k)
    × Generated toy lengths printer settings_of
        (λ b. true)
        brief
        config
        0
        json
        template
        k
        always
        owned
        sent
        7
        signed.0
sign_policy-Generated_example =
    sign_policy-Generated toy lengths printer settings_of (λ b. true) brief config 0 json template
      (some key) always true owned sent 7 signed.0 issued
