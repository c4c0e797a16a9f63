-- ===== src/Service/Signing.antt =====
-- What the service signs on a request.
use policy_templates.Prelude.{
  ℕ, ◌≡◌, sym, ap, ◌∙◌, Bytes, ◌==◌, Bool, Option, some, none, ok, ok_or, ok_inj, ensure-passed,
  >>=-eq-ok, platform_signing_disabled,
}
use policy_templates.External.{External}
use policy_templates.OwnerStore.{OwnerRecord, Storage, require_owner}
use policy_templates.OwnerStore.Table.{Db}
use policy_templates.Policy.{
  SigningKeyMaterial, SignRequest, SignedPolicyArtifact, DecodedSigningBlobs, VerifiedSigningInputs,
  GeneratedAgentPolicy,
}
use policy_templates.Policy.Inputs.{Json, decode_signing_blobs, verify_signing_inputs}
use policy_templates.Policy.Sign.{sign_verified_policy, verify_signed_artifact}
use policy_templates.Policy.Accept.{Trusted, verify_signing_inputs_iff}
use policy_templates.Policy.Checked.{Approved, sign_verified_policy_iff}
use policy_templates.Service.{Generate, sign_policy}

-- The whole chain from the request to the artifact.
pub record Issued {Value : Type 0} (x : External) (json : Json Value) (template : Bytes)
    (generate : Generate) (key : SigningKeyMaterial) (works : Storage) (db : Db) (req : SignRequest)
    (now : ℕ) (a : SignedPolicyArtifact Value) : Type 0 where
  pub blobs : DecodedSigningBlobs Value
  pub owner : OwnerRecord
  pub inputs : VerifiedSigningInputs Value
  pub generated : GeneratedAgentPolicy
  pub decoded : decode_signing_blobs x json req ≡ ok blobs
  pub owned : require_owner x works db blobs.descriptor_envelope.descriptor.org_id ≡ ok owner
  pub trusted : Trusted x blobs owner.owner_pubkey inputs
  pub policy : generate inputs.descriptor req.log_encryption ≡ ok generated
  pub approved : Approved x template req inputs generated key now a
  pub verified : verify_signed_artifact x a (x.verifying_key key.signing_key) ≡ ok tt

key-eq-ok :
    (k : Option SigningKeyMaterial) {key : SigningKeyMaterial}
    → ok_or k platform_signing_disabled ≡ ok key
    → k ≡ some key
key-eq-ok none h = cc
key-eq-ok (some k) h = ap some (ok_inj h)

-- If the service answers a request with an artifact, then it has a key, and the artifact is approved
-- for a descriptor that a deployer signed, in a keyring that the stored owner of the descriptor's
-- organisation signed; the artifact verifies under the service's key.
pub sign_policy-Issued :
    {Value : Type 0} (x : External) (json : Json Value) (template : Bytes) (generate : Generate)
    (material : Option SigningKeyMaterial) (works : Storage) (enabled : Bool) (db : Db)
    (req : SignRequest) (now : ℕ) (a : SignedPolicyArtifact Value)
    → sign_policy x json template generate material works enabled db req now ≡ ok a
    → (key : SigningKeyMaterial) × (material ≡ some key)
      × Issued x json template generate key works db req now a
unfolding sign_policy
sign_policy-Issued x json template generate material works enabled db req now a h =
    let (key, ek, h1) = >>=-eq-ok (ok_or material platform_signing_disabled) _ h in
    let (blobs, eb, h2) = >>=-eq-ok (decode_signing_blobs x json req) _ h1 in
    let (_, h3) =
      ensure-passed
        (blobs.descriptor_envelope.descriptor.org_id == blobs.keyring_envelope.keyring.org_id) _ _
        h2 in
    let (_, h4) = ensure-passed enabled _ _ h3 in
    let (owner, eo, h5) =
      >>=-eq-ok (require_owner x works db blobs.descriptor_envelope.descriptor.org_id) _ h4 in
    let (inputs, ei, h6) = >>=-eq-ok (verify_signing_inputs x blobs owner.owner_pubkey) _ h5 in
    let (generated, eg, h7) = >>=-eq-ok (generate inputs.descriptor req.log_encryption) _ h6 in
    let (b, es, h8) =
      >>=-eq-ok (sign_verified_policy x template req inputs generated key now) _ h7 in
    let (_, ev, h9) =
      >>=-eq-ok (verify_signed_artifact x b (x.verifying_key key.signing_key)) _ h8 in
    let same : b ≡ a = ok_inj h9 in
    (
      key,
      key-eq-ok material ek,
      record {
        blobs = blobs;
        owner = owner;
        inputs = inputs;
        generated = generated;
        decoded = eb;
        owned = eo;
        trusted = (verify_signing_inputs_iff x blobs owner.owner_pubkey inputs).0 ei;
        policy = eg;
        approved =
            (sign_verified_policy_iff x template req inputs generated key now a).0
              (es ∙ ap ok same);
        verified =
            ap (λ c. verify_signed_artifact x c (x.verifying_key key.signing_key)) (sym same) ∙ ev;
      },
    )
