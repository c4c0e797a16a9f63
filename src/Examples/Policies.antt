-- ===== src/Examples/Policies.antt =====
-- A descriptor that is accepted, rendered, signed and verified.
use policy_templates.Prelude.{
  ◌≡◌, ◌≢◌, refl, ◌↔◌, Bytes, text, [], ◌∷◌, All, false, contains, replace, decimal, sort_by_key,
  bytes_le, traverse, be16, be32, be64, none, ok, ◌⊎◌, ◌==◌,
}
use policy_templates.External.{Collision}
use policy_templates.Canonical.{ce_v1_bytes, ce_v1_hash}
use policy_templates.Keyring.{
  as_str, can_deploy, keyring_fingerprint, verify_keyring, find_deployer_pubkey,
  canonical_keyring_bytes,
}
use policy_templates.Descriptor.Verify.{verify_descriptor}
use policy_templates.Descriptor.Unique.{validate_unique_resource_names}
use policy_templates.Descriptor.{DeploymentDescriptor}
use policy_templates.Descriptor.Records.{
  descriptor_core_hash, descriptor_canonical_bytes, descriptor_core_canonical_bytes,
}
use policy_templates.Policy.{
  SigningKeyMaterial, SignRequest, PolicyMetadata, SignedPolicyArtifact, DecodedSigningBlobs,
  VerifiedSigningInputs, GeneratedAgentPolicy, template_id,
}
use policy_templates.Policy.Inputs.{verify_signing_inputs}
use policy_templates.Policy.Floor.{validate_oci_security_floor}
use policy_templates.Policy.Render.{template_sha256, validate_rego_string_slot, render_template}
use policy_templates.Policy.Metadata.{policy_artifact_signing_input}
use policy_templates.Policy.Sign.{sign_verified_policy, verify_signed_artifact}
use policy_templates.Policy.Accept.{Trusted, verify_signing_inputs_iff}
use policy_templates.Policy.Slots.{IsSlotValue, slots, substitute, render_template_iff}
use policy_templates.Policy.Roundtrip.{verify_signed_artifact-sign_verified_policy}
use policy_templates.Policy.Checked.{Approved, sign_verified_policy_iff}
use policy_templates.Policy.Binding.{SameMetadata, policy_artifact_signing_input_binds}
use policy_templates.Policy.Purposes.{purposes_differ}
use policy_templates.Policy.Sudo.{RootfulSudo, validate_oci_security_floor_iff}
use policy_templates.Examples.Toy.{toy, zeros, toy-KeyLaws, toy-TextLaws, toy-HashLaw}
use policy_templates.Examples.Keyrings.{alice, keyring, keyring_encodes, envelope}
use policy_templates.Examples.Descriptors.{descriptor, descriptor_encodes}
use policy_templates.Examples.Descriptors

-- JSON values are byte strings here.
abbrev blobs : DecodedSigningBlobs Bytes
blobs = record {
  descriptor_envelope = Descriptors.envelope;
  keyring_envelope = envelope;
  keyring_envelope_value = 1 ∷ [];
}

accepted : (i : VerifiedSigningInputs Bytes) × (verify_signing_inputs toy blobs alice.pubkey ≡ ok i)
unfolding verify_signing_inputs ◌==◌ verify_keyring canonical_keyring_bytes traverse sort_by_key
    bytes_le ce_v1_hash ce_v1_bytes text as_str be64 keyring_encodes descriptor_encodes be32 be16
    decimal find_deployer_pubkey verify_descriptor descriptor_canonical_bytes
    validate_unique_resource_names descriptor_core_hash keyring_fingerprint can_deploy
accepted = (_, refl)

verify_signing_inputs_iff_example :
    (verify_signing_inputs toy blobs alice.pubkey ≡ ok accepted.0)
    ↔ Trusted toy blobs alice.pubkey accepted.0
verify_signing_inputs_iff_example = verify_signing_inputs_iff toy blobs alice.pubkey accepted.0

abbrev pub template : Bytes
template = text "ns {{namespace}}."

abbrev pub generated : GeneratedAgentPolicy
generated = record {
  policy_text = text "agent";
  invocation = record { binary = []; args = []; manifest_yaml = []; version_pin = 3 ∷ [] };
}

-- The sudo profile, with values in the slots and the hashes of what is made of it.
abbrev pub signable : DeploymentDescriptor
signable = record descriptor {
  schema_version = text "v1";
  app_id = 3 ∷ [];
  deploy_id = 4 ∷ [];
  image_digest = text "sha256";
  service_account = text "sa";
  kbs_resource_path = text "default";
  policy_template_id = text "trustee-resource-policy-v1.1";
  policy_template_sha256 = toy.sha256 template;
  expected_cc_init_data_hash = 1 ∷ [];
  expected_agent_policy_hash = toy.sha256 (text "agent");
  expected_kbs_policy_hash = toy.sha256 (text "ns n.");
  identity_hash = 1 ∷ [];
  signer_identity = record { subject = text "s"; issuer = text "i" };
}

abbrev inputs : VerifiedSigningInputs Bytes
inputs = record {
  descriptor = signable;
  descriptor_signing_pubkey = toy.verifying_key (8 ∷ []);
  descriptor_core_hash = zeros 32;
  org_keyring_fingerprint = zeros 32;
  org_keyring = 1 ∷ [];
}

abbrev pub request : SignRequest
request = record {
  app_id = 3 ∷ [];
  deploy_id = 4 ∷ [];
  platform_release_version = [];
  customer_descriptor_blob = [];
  org_keyring_blob = [];
  log_encryption = none;
}

abbrev pub key : SigningKeyMaterial
key = record { key_id = text "k"; signing_key = zeros 32 }

signed :
    (a : SignedPolicyArtifact Bytes) × (sign_verified_policy toy template request inputs generated
        key 7
      ≡ ok a)
unfolding sign_verified_policy ◌==◌ text template_id template_sha256 validate_oci_security_floor
    render_template validate_rego_string_slot contains replace policy_artifact_signing_input
    ce_v1_hash ce_v1_bytes
signed = (_, refl)

sign_verified_policy_iff_example :
    (sign_verified_policy toy template request inputs generated key 7 ≡ ok signed.0)
    ↔ Approved toy template request inputs generated key 7 signed.0
sign_verified_policy_iff_example =
    sign_verified_policy_iff toy template request inputs generated key 7 signed.0

verify_signed_artifact-sign_verified_policy_example :
    verify_signed_artifact toy signed.0 (toy.verifying_key (zeros 32)) ≡ ok tt
verify_signed_artifact-sign_verified_policy_example =
    verify_signed_artifact-sign_verified_policy toy template request inputs generated key 7 signed.0
      toy-KeyLaws toy-TextLaws toy-HashLaw signed.1

render_template_iff_example : (render_template toy template signable ≡ ok (text "ns n.")) ↔ (
    All (λ (slot : Bytes × Bytes). IsSlotValue slot.1) (slots toy signable)
    × (text "ns n." ≡ substitute template (slots toy signable))
    × (contains (text "{{") (text "ns n.") ≡ false))
render_template_iff_example = render_template_iff toy template signable (text "ns n.")

validate_oci_security_floor_iff_example : (validate_oci_security_floor signable ≡ ok tt) ↔ (
    (signable.oci_runtime_spec.security_context.privileged ≡ false)
    × ((signable.oci_runtime_spec.security_context.allow_privilege_escalation ≡ false)
        ⊎ RootfulSudo signable.oci_runtime_spec))
validate_oci_security_floor_iff_example = validate_oci_security_floor_iff signable

abbrev metadata : PolicyMetadata
metadata = record {
  app_id = 3 ∷ [];
  deploy_id = 4 ∷ [];
  descriptor_core_hash = zeros 32;
  descriptor_signing_pubkey = zeros 32;
  platform_release_version = [];
  policy_template_id = [];
  policy_template_sha256 = zeros 32;
  agent_policy_sha256 = zeros 32;
  genpolicy_version_pin = [];
  signed_at = [];
  key_id = [];
}

artifact_encodes : (b : Bytes) × (policy_artifact_signing_input toy metadata (zeros 32) ≡ ok b)
unfolding policy_artifact_signing_input ce_v1_hash ce_v1_bytes text
artifact_encodes = (_, refl)

core_encodes : (b : Bytes) × (descriptor_core_canonical_bytes toy descriptor ≡ ok b)
unfolding descriptor_core_canonical_bytes ce_v1_hash ce_v1_bytes text decimal sort_by_key bytes_le
    be32
core_encodes = (_, refl)

policy_artifact_signing_input_binds_example :
    (SameMetadata toy metadata metadata × (zeros 32 ≡ zeros 32)) ⊎ Collision toy
policy_artifact_signing_input_binds_example =
    policy_artifact_signing_input_binds toy metadata metadata (zeros 32) (zeros 32)
      artifact_encodes.0 artifact_encodes.1 artifact_encodes.1

purposes_differ_example :
    (keyring_encodes.0 ≢ descriptor_encodes.0)
    × (keyring_encodes.0 ≢ core_encodes.0)
    × (keyring_encodes.0 ≢ artifact_encodes.0)
    × (descriptor_encodes.0 ≢ core_encodes.0)
    × (descriptor_encodes.0 ≢ artifact_encodes.0)
    × (core_encodes.0 ≢ artifact_encodes.0)
purposes_differ_example =
    purposes_differ toy keyring descriptor descriptor metadata (zeros 32) keyring_encodes.0
      descriptor_encodes.0 core_encodes.0 artifact_encodes.0 keyring_encodes.1 descriptor_encodes.1
      core_encodes.1 artifact_encodes.1
