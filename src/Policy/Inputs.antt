-- ===== src/Policy/Inputs.antt =====
-- What the service reads and verifies before it signs (policy.rs).
use policy_templates.Prelude.{
  Bytes, [], ◌∷◌, text, ◌==◌, trim, Bool, false, not, Option, none, some, Result, ok, err, ensure,
  ok_or, ◌>>=◌, ◌>>◌, eqb, length, raw_signing_key_disabled, signing_key_id_required,
  signing_key_base64, signing_key_length, signing_key_required, org_id_mismatch, blob_required,
  blob_invalid, if◌then◌else◌,
}
use policy_templates.External.{External}
use policy_templates.Keyring.{
  OrgKeyringEnvelope, keyring_fingerprint, verify_keyring, find_deployer_pubkey,
}
use policy_templates.Descriptor.{DeploymentDescriptorEnvelope}
use policy_templates.Descriptor.Records.{descriptor_core_hash}
use policy_templates.Descriptor.Unique.{validate_unique_resource_names}
use policy_templates.Descriptor.Verify.{verify_descriptor}
use policy_templates.Policy.{
  SigningKeyMaterial, SignRequest, DecodedSigningBlobs, VerifiedSigningInputs,
}

-- serde_json: what a JSON text means as an envelope, and as a value.
pub record Json (Value : Type 0) : Type 0 where
  pub parse_descriptor : Bytes → Option DeploymentDescriptorEnvelope
  pub parse_keyring : Bytes → Option OrgKeyringEnvelope
  pub parse_value : Bytes → Option Value

-- `var(name).as_deref() == Ok("1")`
abbrev pub is_one : Option Bytes → Bool
is_one none = false
is_one (some value) = value == (49 ∷ [])

-- Result::unwrap_or_else
abbrev pub unwrap_or : Option Bytes → Bytes → Bytes
unwrap_or none default = default
unwrap_or (some value) default = value

module _ (x : External) where
  -- The branch of a raw key. `env` holds the environment's variables.
  load_raw_key : (Bytes → Option Bytes) → Bytes → Result SigningKeyMaterial
  load_raw_key env raw = do
    ensure (is_one (env (text "ALLOW_RAW_POLICY_SIGNING_KEY_B64"))) raw_signing_key_disabled
    key_id ← ok_or (env (text "POLICY_SIGNING_KEY_ID")) signing_key_id_required
    bytes ← ok_or (x.b64_decode raw) signing_key_base64
    ensure (eqb (length bytes) 32) signing_key_length
    ok (record { key_id = key_id; signing_key = bytes })

  load_without_key : (Bytes → Option Bytes) → Bytes → Result SigningKeyMaterial
  load_without_key env fresh =
      if is_one (env (text "ALLOW_EPHEMERAL_SIGNING_KEY"))
      then ok (record {
        key_id = unwrap_or (env (text "POLICY_SIGNING_KEY_ID")) (text "ephemeral-dev");
        signing_key = fresh;
      })
      else err signing_key_required

  load_key : (Bytes → Option Bytes) → Bytes → Option Bytes → Result SigningKeyMaterial
  unfolding load_raw_key load_without_key
  load_key env fresh none = load_without_key env fresh
  load_key env fresh (some raw) = load_raw_key env raw

  -- `fresh` is the seed that the system's generator gives.
  unfoldable pub load_signing_key_material :
      (Bytes → Option Bytes) → Bytes → Result SigningKeyMaterial
  unfolding load_key
  load_signing_key_material env fresh = load_key env fresh (env (text "POLICY_SIGNING_KEY_B64"))

  -- The value that the decoded base64 text is read as, if it is base64 and reads.
  abbrev pub parse_decoded : {A : Type 0} → (Bytes → Option A) → Option Bytes → Option A
  parse_decoded parse none = none
  parse_decoded parse (some decoded) = parse decoded

  abbrev pub or_parse : {A : Type 0} → (Bytes → Option A) → Bytes → Bytes → Option A → Result A
  or_parse parse name trimmed none = ok_or (parse trimmed) (blob_invalid name)
  or_parse parse name trimmed (some parsed) = ok parsed

  unfoldable pub decode_json_blob : {A : Type 0} → (Bytes → Option A) → Bytes → Bytes → Result A
  decode_json_blob parse name blob = do
    let trimmed = trim blob
    ensure (not (trimmed == [])) (blob_required name)
    or_parse parse name trimmed (parse_decoded parse (x.b64_decode trimmed))

  module _ {Value : Type 0} where
    unfoldable pub decode_signing_blobs :
        Json Value → SignRequest → Result (DecodedSigningBlobs Value)
    unfolding decode_json_blob
    decode_signing_blobs json req = do
      descriptor_envelope ←
          decode_json_blob json.parse_descriptor (text "customer_descriptor_blob")
            req.customer_descriptor_blob
      keyring_envelope ←
          decode_json_blob json.parse_keyring (text "org_keyring_blob") req.org_keyring_blob
      keyring_envelope_value ←
          decode_json_blob json.parse_value (text "org_keyring_blob") req.org_keyring_blob
      ok (record {
        descriptor_envelope = descriptor_envelope;
        keyring_envelope = keyring_envelope;
        keyring_envelope_value = keyring_envelope_value;
      })

    unfoldable pub verify_signing_inputs :
        DecodedSigningBlobs Value → Bytes → Result (VerifiedSigningInputs Value)
    verify_signing_inputs blobs trusted_owner = do
      ensure (blobs.descriptor_envelope.descriptor.org_id == blobs.keyring_envelope.keyring.org_id)
          org_id_mismatch
      keyring ← verify_keyring x blobs.keyring_envelope trusted_owner
      deployer ← find_deployer_pubkey keyring blobs.descriptor_envelope.signing_pubkey
      descriptor ← verify_descriptor x blobs.descriptor_envelope deployer
      _ ← validate_unique_resource_names descriptor
      core_hash ← descriptor_core_hash x descriptor
      fingerprint ← keyring_fingerprint x keyring
      ok (record {
        descriptor = descriptor;
        descriptor_signing_pubkey = deployer;
        descriptor_core_hash = core_hash;
        org_keyring_fingerprint = fingerprint;
        org_keyring = blobs.keyring_envelope_value;
      })
