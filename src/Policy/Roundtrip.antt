-- ===== src/Policy/Roundtrip.antt =====
-- A signed artifact, verified.
use policy_templates.Prelude.{ℕ, ◌≡◌, refl, Bytes, text, ==_refl, ok}
use policy_templates.External.{External, KeyLaws, TextLaws, HashLaw}
use policy_templates.Policy.{
  SigningKeyMaterial, SignRequest, SignedPolicyArtifact, VerifiedSigningInputs,
  GeneratedAgentPolicy,
}
use policy_templates.Policy.Metadata.{decode_hex32}
use policy_templates.Policy.Sign.{decode_signature, sign_verified_policy, verify_signed_artifact}
use policy_templates.Policy.Message.{policy_artifact_signing_input_iff}
use policy_templates.Policy.Checked.{Approved, shown, sign_verified_policy_iff}

module _ (x : External) (keys : KeyLaws x) (texts : TextLaws x) (digests : HashLaw x) where
  decode_hex32-sha256 :
      (name b : Bytes) → decode_hex32 x name (x.hex_encode (x.sha256 b)) ≡ ok (x.sha256 b)
  unfolding decode_hex32
  decode_hex32-sha256 name b = rw (texts.hex_decode-hex_encode (x.sha256 b), digests b) refl

  decode_signature-sign :
      (seed b : Bytes) → decode_signature x (x.hex_encode (x.sign seed b)) ≡ ok (x.sign seed b)
  unfolding decode_signature
  decode_signature-sign seed b =
      rw (texts.hex_decode-hex_encode (x.sign seed b), keys.length-sign seed b) refl

  verify_signed_artifact-shown :
      {Value : Type 0} (template : Bytes) {req : SignRequest} (inputs : VerifiedSigningInputs Value)
      (generated : GeneratedAgentPolicy) (key : SigningKeyMaterial) (now : ℕ)
      {a : SignedPolicyArtifact Value} (p : Approved x template req inputs generated key now a)
      → verify_signed_artifact x
          (shown x template inputs generated key now p.rego_text p.signing_input)
          (x.verifying_key key.signing_key)
        ≡ ok tt
  unfolding verify_signed_artifact
  verify_signed_artifact-shown template inputs generated key now p =
      let agent = x.hex_encode (x.sha256 generated.policy_text) in
      rw
        (
          decode_hex32-sha256 (text "rego_sha256") p.rego_text,
          ==_refl (x.sha256 p.rego_text),
          decode_hex32-sha256 (text "agent_policy_sha256") generated.policy_text,
          ==_refl (x.sha256 generated.policy_text),
          ==_refl agent,
          decode_signature-sign key.signing_key p.signing_input,
          (policy_artifact_signing_input_iff x _ _ _).1 p.input,
          keys.verify-sign key.signing_key p.signing_input,
        )
        refl

-- Every artifact that `sign_verified_policy` returns passes `verify_signed_artifact` under the public
-- key of the signing key.
pub verify_signed_artifact-sign_verified_policy :
    {Value : Type 0} (x : External) (template : Bytes) (req : SignRequest)
    (inputs : VerifiedSigningInputs Value) (generated : GeneratedAgentPolicy)
    (key : SigningKeyMaterial) (now : ℕ) (a : SignedPolicyArtifact Value)
    → KeyLaws x
    → TextLaws x
    → HashLaw x
    → sign_verified_policy x template req inputs generated key now ≡ ok a
    → verify_signed_artifact x a (x.verifying_key key.signing_key) ≡ ok tt
verify_signed_artifact-sign_verified_policy x template req inputs generated key now a keys texts
      digests h =
    let p = (sign_verified_policy_iff x template req inputs generated key now a).0 h in
    rw p.artifact
      (verify_signed_artifact-shown x keys texts digests template inputs generated key now p)
