-- ===== src/Service.antt =====
-- signing-service/src/main.rs: the handlers of the HTTP service. A request is its decoded body; the
-- server, its routes and JSON (axum, tokio, serde_json) are not modelled. The database is passed and
-- returned.
pub mod Rotation
pub mod Auth
pub mod Tokens
pub mod Signing
pub mod Generated
use policy_templates.Prelude.{
  ℕ, Bytes, text, ◌==◌, trim, eqb, length, not, ◌||◌, Bool, true, false, Option, none, some, List,
  [], ◌∷◌, Result, ok, err, ensure, ok_or, ◌>>=◌, ◌>>◌, hex_invalid, base64_invalid, not_32_bytes,
  not_64_bytes, key_invalid, owner_pubkey_ambiguous, owner_pubkey_required,
  legacy_owner_api_disabled, rotation_reason_required, not_signed_by_current_owner,
  rotation_signature_invalid, platform_signing_disabled, schema_version_unsupported,
  org_id_mismatch,
}
use policy_templates.External.{External}
use policy_templates.Canonical.{Tlv, ce_v1_bytes}
use policy_templates.Descriptor.{LogEncryptionConfig, DeploymentDescriptor}
use policy_templates.OwnerStore.{
  BootstrapOutcome, created, already_exists, OwnerRecord, Storage, Reply, bootstrap_owner,
  get_owner, require_owner, rotate_owner,
}
use policy_templates.OwnerStore.Table.{Db}
use policy_templates.Policy.{
  SigningKeyMaterial, SignRequest, SignedPolicyArtifact, GeneratedAgentPolicy,
}
use policy_templates.Policy.Inputs.{Json, is_one, decode_signing_blobs, verify_signing_inputs}
use policy_templates.Policy.Sign.{sign_verified_policy, verify_signed_artifact}

pub record BootstrapOrgRequest : Type 0 where
  pub org_id : Bytes
  pub owner_pubkey_b64 : Option Bytes
  pub owner_pubkey_hex : Option Bytes

pub record BootstrapOrgResponse : Type 0 where
  pub org_id : Bytes
  pub state : Bytes
  pub owner_pubkey_fingerprint : Bytes

pub record RotateOwnerRequest : Type 0 where
  pub org_id : Bytes
  pub replacement_owner_pubkey_b64 : Bytes
  pub signed_at : ℕ
  pub reason : Bytes
  pub signing_pubkey_b64 : Bytes
  pub signature_b64 : Bytes

pub record RotateOwnerResponse : Type 0 where
  pub org_id : Bytes
  pub version : ℕ
  pub owner_pubkey_fingerprint : Bytes
  pub rotated_at : Bytes

pub record OwnerStatusResponse : Type 0 where
  pub org_id : Bytes
  pub state : Bytes
  pub version : Option ℕ
  pub owner_pubkey_hex : Option Bytes
  pub last_changed_at : Option Bytes

pub record AgentPolicyRequest : Type 0 where
  pub descriptor : DeploymentDescriptor
  pub log_encryption : Option LogEncryptionConfig

pub record AgentPolicyResponse : Type 0 where
  pub agent_policy_text : Bytes
  pub agent_policy_sha256 : Bytes
  pub genpolicy_version_pin : Bytes
  pub log_encryption : Option LogEncryptionConfig

-- GenpolicyConfig::run_with_log_encryption, which runs the generator
abbrev pub Generate : Type 0
Generate = DeploymentDescriptor → Option LogEncryptionConfig → Result GeneratedAgentPolicy

unfoldable pub rotation_authority_is_current_or_replay : Bytes → Bytes → Bytes → Bool
rotation_authority_is_current_or_replay current signer replacement =
    signer == current || replacement == current

abbrev pub state_label : BootstrapOutcome → Bytes
state_label created = text "bootstrapped"
state_label already_exists = text "already-bootstrapped"

-- Option::unwrap_or
abbrev pub or_else : Option ℕ → ℕ → ℕ
or_else none t = t
or_else (some t) default = t

module _ (x : External) where
  -- VerifyingKey::from_bytes of the decoded bytes
  abbrev pub key_of : Bytes → Bytes → Result Bytes
  key_of name bytes = do
    ensure (eqb (length bytes) 32) (not_32_bytes name)
    ensure (x.valid_key bytes) (key_invalid name)
    ok bytes

  unfoldable pub decode_pubkey_b64 : Bytes → Bytes → Result Bytes
  decode_pubkey_b64 name raw = do
    bytes ← ok_or (x.b64_decode raw) (base64_invalid name)
    key_of name bytes

  unfoldable pub decode_pubkey_hex : Bytes → Bytes → Result Bytes
  decode_pubkey_hex name raw = do
    bytes ← ok_or (x.hex_decode raw) (hex_invalid name)
    key_of name bytes

  unfoldable pub decode_signature_b64 : Bytes → Bytes → Result Bytes
  decode_signature_b64 name raw = do
    bytes ← ok_or (x.b64_decode raw) (base64_invalid name)
    ensure (eqb (length bytes) 64) (not_64_bytes name)
    ok bytes

  unfoldable pub recovery_records : Bytes → Bytes → Bytes → ℕ → Bytes → List Tlv
  recovery_records org_id revoked replacement signed_at reason =
      (text "purpose", text "enclava-recovery-v1")
      ∷ (text "org_id", org_id)
      ∷ (text "revoked_pubkey", revoked)
      ∷ (text "replacement_pubkey", replacement)
      ∷ (text "signed_at", x.to_rfc3339 signed_at)
      ∷ (text "reason", reason)
      ∷ []

  unfoldable pub recovery_directive_bytes : Bytes → Bytes → Bytes → ℕ → Bytes → Result Bytes
  unfolding recovery_records
  recovery_directive_bytes org_id revoked replacement signed_at reason =
      ce_v1_bytes (recovery_records org_id revoked replacement signed_at reason)

  -- The key of a bootstrap request.
  abbrev pub requested_owner : Option Bytes → Option Bytes → Result Bytes
  requested_owner (some raw) none = decode_pubkey_b64 (text "owner_pubkey_b64") raw
  requested_owner none (some raw) = decode_pubkey_hex (text "owner_pubkey_hex") raw
  requested_owner (some b64) (some hex) = err owner_pubkey_ambiguous
  requested_owner none none = err owner_pubkey_required

  abbrev pub bootstrap_response :
      Bytes → Bytes → Reply BootstrapOutcome → Reply BootstrapOrgResponse
  bootstrap_response org_id key (ok outcome, db) = (
    ok (record {
      org_id = org_id;
      state = state_label outcome;
      owner_pubkey_fingerprint = x.hex_encode key;
    }),
    db,
  )
  bootstrap_response org_id key (err e, db) = (err e, db)

  -- A handler that fails before it calls the store.
  abbrev pub with_store : {A B : Type 0} → Db → Result A → (A → Reply B) → Reply B
  with_store db (ok a) call = call a
  with_store db (err e) call = (err e, db)

  -- `enabled` says that the state has an owner store.
  unfoldable pub bootstrap_org :
      Storage → Bool → Db → BootstrapOrgRequest → ℕ → Reply BootstrapOrgResponse
  bootstrap_org works enabled db req now =
      with_store db
        (do
          key ← requested_owner req.owner_pubkey_b64 req.owner_pubkey_hex
          ensure enabled legacy_owner_api_disabled
          ok key)
        (λ key. bootstrap_response req.org_id key (bootstrap_owner x works db req.org_id key now))

  abbrev pub status_of : Bytes → Option OwnerRecord → OwnerStatusResponse
  status_of org_id none = record {
    org_id = org_id;
    state = text "not_configured";
    version = none;
    owner_pubkey_hex = none;
    last_changed_at = none;
  }
  status_of org_id (some owner) = record {
    org_id = org_id;
    state = text "ready";
    version = some owner.version;
    owner_pubkey_hex = some (x.hex_encode owner.owner_pubkey);
    last_changed_at = some (x.to_rfc3339 (or_else owner.rotated_at owner.bootstrapped_at));
  }

  unfoldable pub owner_status_response : Storage → Db → Bytes → Result OwnerStatusResponse
  owner_status_response works db org_id = do
    found ← get_owner x works db org_id
    ok (status_of org_id found)

  unfoldable pub owner_status : Storage → Bool → Db → Bytes → Result OwnerStatusResponse
  unfolding owner_status_response
  owner_status works enabled db org_id = do
    ensure enabled legacy_owner_api_disabled
    owner_status_response works db org_id

  -- What the handler finds out before it rotates: the current owner, and the replacement.
  unfoldable pub check_rotation :
      Storage → Bool → Db → RotateOwnerRequest → Result (OwnerRecord × Bytes)
  unfolding recovery_directive_bytes rotation_authority_is_current_or_replay
  check_rotation works enabled db req = do
    ensure (not (trim req.reason == [])) rotation_reason_required
    ensure enabled legacy_owner_api_disabled
    current ← require_owner x works db req.org_id
    signer ← decode_pubkey_b64 (text "signing_pubkey_b64") req.signing_pubkey_b64
    replacement ←
        decode_pubkey_b64 (text "replacement_owner_pubkey_b64") req.replacement_owner_pubkey_b64
    ensure (rotation_authority_is_current_or_replay current.owner_pubkey signer replacement)
        not_signed_by_current_owner
    signature ← decode_signature_b64 (text "signature_b64") req.signature_b64
    directive ← recovery_directive_bytes req.org_id signer replacement req.signed_at req.reason
    ensure (x.verify signer directive signature) rotation_signature_invalid
    ok (current, replacement)

  abbrev pub rotate_response : Bytes → ℕ → Reply OwnerRecord → Reply RotateOwnerResponse
  rotate_response org_id now (ok rotated, db) = (
    ok (record {
      org_id = org_id;
      version = rotated.version;
      owner_pubkey_fingerprint = x.hex_encode rotated.owner_pubkey;
      rotated_at = x.to_rfc3339 (or_else rotated.rotated_at now);
    }),
    db,
  )
  rotate_response org_id now (err e, db) = (err e, db)

  -- The handler `rotate_owner`. It reads the current owner from the database as it is at first, and
  -- rotates the database as it is then: other requests may have been served in between.
  unfoldable pub rotate_owner_request :
      Storage → Storage → Bool → Db → Db → RotateOwnerRequest → ℕ → ℕ → Reply RotateOwnerResponse
  unfolding check_rotation
  rotate_owner_request reads writes enabled before db req now later =
      with_store db (check_rotation reads enabled before req) (λ (current, replacement).
        rotate_response req.org_id later
          (rotate_owner x writes db req.org_id current.owner_pubkey replacement now))

  unfoldable pub generate_agent_policy : Generate → AgentPolicyRequest → Result AgentPolicyResponse
  generate_agent_policy generate req = do
    ensure (req.descriptor.schema_version == text "v1") schema_version_unsupported
    generated ← generate req.descriptor req.log_encryption
    ok (record {
      agent_policy_text = generated.policy_text;
      agent_policy_sha256 = x.hex_encode (x.sha256 generated.policy_text);
      genpolicy_version_pin = generated.invocation.version_pin;
      log_encryption = req.log_encryption;
    })

  module _ {Value : Type 0} where
    unfoldable pub sign_policy :
        Json Value
        → Bytes
        → Generate
        → Option SigningKeyMaterial
        → Storage
        → Bool
        → Db
        → SignRequest
        → ℕ
        → Result (SignedPolicyArtifact Value)
    sign_policy json template generate key_material works enabled db req now = do
      key ← ok_or key_material platform_signing_disabled
      blobs ← decode_signing_blobs x json req
      ensure (blobs.descriptor_envelope.descriptor.org_id == blobs.keyring_envelope.keyring.org_id)
          org_id_mismatch
      ensure enabled legacy_owner_api_disabled
      owner ← require_owner x works db blobs.descriptor_envelope.descriptor.org_id
      inputs ← verify_signing_inputs x blobs owner.owner_pubkey
      generated ← generate inputs.descriptor req.log_encryption
      artifact ← sign_verified_policy x template req inputs generated key now
      _ ← verify_signed_artifact x artifact (x.verifying_key key.signing_key)
      ok artifact
