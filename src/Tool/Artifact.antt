-- ===== src/Tool/Artifact.antt =====
-- `main` of the tool: from the arguments to the artifact.
use policy_templates.Prelude.{
  ℕ, Bytes, ◌==◌, Option, none, some, List, Result, ok, ensure, ok_or, ◌>>=◌, ◌>>◌,
  request_unreadable, request_invalid, signing_key_mismatch, time_invalid,
}
use policy_templates.External.{External}
use policy_templates.Descriptor.{DeploymentDescriptor}
use policy_templates.Policy.{
  SigningKeyMaterial, SignRequest, SignedPolicyArtifact, GeneratedAgentPolicy,
}
use policy_templates.Policy.Inputs.{Json, decode_signing_blobs, verify_signing_inputs}
use policy_templates.Policy.Sign.{sign_verified_policy, verify_signed_artifact}
use policy_templates.Tool.Arguments.{Args, parse_args, decode_seed_hex, decode_owner_hex}

-- What `main` reads: a file, and a request in JSON.
pub record Reader : Type 0 where
  pub read : Bytes → Option Bytes
  pub parse_request : Bytes → Option SignRequest

-- An artifact, and the file that it is for.
pub record Written (Value : Type 0) : Type 0 where
  pub artifact : SignedPolicyArtifact Value
  pub out : Option Bytes

-- The time given, or the time of the clock.
unfoldable pub signing_time : External → ℕ → Option Bytes → Result ℕ
signing_time x now none = ok now
signing_time x now (some value) = ok_or (x.parse_rfc3339 value) time_invalid

module _ {Value : Type 0} (x : External) (json : Json Value) (template : Bytes) (reader : Reader)
    (generate : DeploymentDescriptor → Result GeneratedAgentPolicy) (now : ℕ) where
  unfoldable pub make_artifact : Args → Result (Written Value)
  unfolding signing_time
  make_artifact args = do
    content ← ok_or (reader.read args.request) request_unreadable
    request ← ok_or (reader.parse_request content) request_invalid
    owner_pubkey ← decode_owner_hex x args.owner_pubkey_hex
    seed ← decode_seed_hex x args.signing_seed_hex
    let key : SigningKeyMaterial = record { key_id = args.key_id; signing_key = seed }
    blobs ← decode_signing_blobs x json request
    inputs ← verify_signing_inputs x blobs owner_pubkey
    ensure (inputs.descriptor_signing_pubkey == x.verifying_key seed) signing_key_mismatch
    generated ← generate inputs.descriptor
    signed_at ← signing_time x now args.signed_at
    artifact ← sign_verified_policy x template request inputs generated key signed_at
    _ ← verify_signed_artifact x artifact (x.verifying_key seed)
    ok (record { artifact = artifact; out = args.out })

  abbrev pub run_args : Option Args → Result (Option (Written Value))
  run_args none = ok none
  run_args (some args) = do written ← make_artifact args; ok (some written)

  -- `ok none` is an exit with the usage.
  unfoldable pub policy_artifact_main :
      (Bytes → Option Bytes) → List Bytes → Result (Option (Written Value))
  unfolding parse_args make_artifact
  policy_artifact_main env raw = parse_args env raw >>= run_args
