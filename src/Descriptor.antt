-- ===== src/Descriptor.antt =====
-- signing-service/src/descriptor.rs: the deployment descriptor. A fixed array of bytes, a string and
-- a key are byte strings, and an unsigned number is a natural number.
pub mod Canonical
pub mod Records
pub mod Unique
pub mod Verify
pub mod Parts
pub mod Spec
pub mod Binding
pub mod Signed
use policy_templates.Prelude.{ℕ, Bytes, Bool, List}

pub record SignerIdentity : Type 0 where
  pub subject : Bytes
  pub issuer : Bytes

pub record EnvVar : Type 0 where
  pub name : Bytes
  pub value : Bytes

pub record Port : Type 0 where
  pub container_port : ℕ
  pub protocol : Bytes

pub record Mount : Type 0 where
  pub source : Bytes
  pub destination : Bytes
  pub mount_type : Bytes
  pub options : List Bytes

pub record Capabilities : Type 0 where
  pub add : List Bytes
  pub drop : List Bytes

pub record SecurityContext : Type 0 where
  pub run_as_user : ℕ
  pub run_as_group : ℕ
  pub read_only_root_fs : Bool
  pub allow_privilege_escalation : Bool
  pub privileged : Bool

pub record Resources : Type 0 where
  pub requests : List EnvVar
  pub limits : List EnvVar

pub record OciRuntimeSpec : Type 0 where
  pub command : List Bytes
  pub args : List Bytes
  pub env : List EnvVar
  pub ports : List Port
  pub mounts : List Mount
  pub capabilities : Capabilities
  pub security_context : SecurityContext
  pub resources : Resources

pub record Sidecars : Type 0 where
  pub attestation_proxy_digest : Bytes
  pub caddy_digest : Bytes

-- 32 bytes or 48 bytes.
pub data FirmwareMeasurement : Type 0 where
  legacy full : Bytes → FirmwareMeasurement

-- FirmwareMeasurement::as_bytes
abbrev pub measurement_bytes : FirmwareMeasurement → Bytes
measurement_bytes (legacy bytes) = bytes
measurement_bytes (full bytes) = bytes

pub record LogEncryptionConfig : Type 0 where
  pub algorithm : Bytes
  pub key_id : Bytes
  pub public_key_base64url : Bytes
  pub public_key_sha256 : Bytes

pub record DeploymentDescriptor : Type 0 where
  pub schema_version : Bytes
  pub org_id : Bytes
  pub org_slug : Bytes
  pub app_id : Bytes
  pub app_name : Bytes
  pub deploy_id : Bytes
  pub created_at : ℕ
  pub nonce : Bytes
  pub app_domain : Bytes
  pub tee_domain : Bytes
  pub custom_domains : List Bytes
  pub namespace : Bytes
  pub service_account : Bytes
  pub identity_hash : Bytes
  pub image_ref : Bytes
  pub image_digest : Bytes
  pub signer_identity : SignerIdentity
  pub oci_runtime_spec : OciRuntimeSpec
  pub sidecars : Sidecars
  pub api_signing_pubkey : Bytes
  pub independent_verification : Bool
  pub expected_firmware_measurement : FirmwareMeasurement
  pub expected_runtime_class : Bytes
  pub kbs_resource_path : Bytes
  pub unlock_mode : Bytes
  pub policy_template_id : Bytes
  pub policy_template_sha256 : Bytes
  pub platform_release_version : Bytes
  pub expected_agent_policy_hash : Bytes
  pub expected_cc_init_data_hash : Bytes
  pub expected_kbs_policy_hash : Bytes

pub record DeploymentDescriptorEnvelope : Type 0 where
  pub descriptor : DeploymentDescriptor
  pub signature : Bytes
  pub signing_key_id : Bytes
  pub signing_pubkey : Bytes
