-- ===== src/Policy.antt =====
-- signing-service/src/policy.rs: the requests and artifacts of policy signing.
pub mod Inputs
pub mod Floor
pub mod Render
pub mod Metadata
pub mod Sign
pub mod Accept
pub mod Slots
pub mod Roundtrip
pub mod Message
pub mod Checked
pub mod Binding
pub mod Purposes
pub mod Sudo
use policy_templates.Prelude.{Bytes, text, List, Option}
use policy_templates.Descriptor.{
  LogEncryptionConfig, DeploymentDescriptor, DeploymentDescriptorEnvelope,
}
use policy_templates.Keyring.{OrgKeyringEnvelope}

-- A signing key is its 32-byte seed.
pub record SigningKeyMaterial : Type 0 where
  pub key_id : Bytes
  pub signing_key : Bytes

pub record SignRequest : Type 0 where
  pub app_id : Bytes
  pub deploy_id : Bytes
  pub platform_release_version : Bytes
  pub customer_descriptor_blob : Bytes
  pub org_keyring_blob : Bytes
  pub log_encryption : Option LogEncryptionConfig

pub record PolicyMetadata : Type 0 where
  pub app_id : Bytes
  pub deploy_id : Bytes
  pub descriptor_core_hash : Bytes
  pub descriptor_signing_pubkey : Bytes
  pub platform_release_version : Bytes
  pub policy_template_id : Bytes
  pub policy_template_sha256 : Bytes
  pub agent_policy_sha256 : Bytes
  pub genpolicy_version_pin : Bytes
  pub signed_at : Bytes
  pub key_id : Bytes

-- `Value` is the type of JSON values (serde_json).
pub record SignedPolicyArtifact (Value : Type 0) : Type 0 where
  pub metadata : PolicyMetadata
  pub rego_text : Bytes
  pub rego_sha256 : Bytes
  pub agent_policy_text : Bytes
  pub agent_policy_sha256 : Bytes
  pub signature : Bytes
  pub verify_pubkey_b64 : Bytes
  pub org_keyring : Option Value

pub record DecodedSigningBlobs (Value : Type 0) : Type 0 where
  pub descriptor_envelope : DeploymentDescriptorEnvelope
  pub keyring_envelope : OrgKeyringEnvelope
  pub keyring_envelope_value : Value

pub record VerifiedSigningInputs (Value : Type 0) : Type 0 where
  pub descriptor : DeploymentDescriptor
  pub descriptor_signing_pubkey : Bytes
  pub descriptor_core_hash : Bytes
  pub org_keyring_fingerprint : Bytes
  pub org_keyring : Value

-- genpolicy.rs: the call of the generator, and what it returned
pub record GenpolicyInvocation : Type 0 where
  pub binary : Bytes
  pub args : List Bytes
  pub manifest_yaml : Bytes
  pub version_pin : Bytes

pub record GeneratedAgentPolicy : Type 0 where
  pub policy_text : Bytes
  pub invocation : GenpolicyInvocation

-- lib.rs
unfoldable pub template_id : Bytes
template_id = text "trustee-resource-policy-v1.1"
