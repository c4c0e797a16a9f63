-- ===== src/Tool/Made.antt =====
-- What a successful run of the tool made.
use policy_templates.Prelude.{
  some_inj, ok_or-eq-ok, ℕ, ◌≡◌, sym, ap, ◌∙◌, Bytes, ◌==◌, ==_sound, Option, some, none, List, ok,
  ok_or, ok_inj, ensure-passed, >>=-eq-ok, Result, request_unreadable, request_invalid,
  signing_key_mismatch,
}
use policy_templates.External.{External}
use policy_templates.Descriptor.{DeploymentDescriptor}
use policy_templates.Policy.{
  SigningKeyMaterial, SignRequest, DecodedSigningBlobs, VerifiedSigningInputs, GeneratedAgentPolicy,
}
use policy_templates.Policy.Inputs.{Json, decode_signing_blobs, verify_signing_inputs}
use policy_templates.Policy.Sign.{sign_verified_policy, verify_signed_artifact}
use policy_templates.Policy.Accept.{Trusted, verify_signing_inputs_iff}
use policy_templates.Policy.Checked.{Approved, sign_verified_policy_iff}
use policy_templates.Tool.Arguments.{Args, parse_args, decode_seed_hex, decode_owner_hex}
use policy_templates.Tool.Artifact.{
  Reader, Written, signing_time, make_artifact, run_args, policy_artifact_main,
}

module _ {Value : Type 0} (x : External) (json : Json Value) (template : Bytes) (reader : Reader)
    (generate : DeploymentDescriptor → Result GeneratedAgentPolicy) (now : ℕ) where
  -- The chain from the arguments to the artifact.
  pub record Made (args : Args) (w : Written Value) : Type 0 where
    pub content : Bytes
    pub request : SignRequest
    pub owner : Bytes
    pub seed : Bytes
    pub blobs : DecodedSigningBlobs Value
    pub inputs : VerifiedSigningInputs Value
    pub generated : GeneratedAgentPolicy
    pub time : ℕ
    pub read : reader.read args.request ≡ some content
    pub parsed : reader.parse_request content ≡ some request
    pub owner_given : decode_owner_hex x args.owner_pubkey_hex ≡ ok owner
    pub seed_given : decode_seed_hex x args.signing_seed_hex ≡ ok seed
    pub decoded : decode_signing_blobs x json request ≡ ok blobs
    pub trusted : Trusted x blobs owner inputs
    pub same_key : inputs.descriptor_signing_pubkey ≡ x.verifying_key seed
    pub policy : generate inputs.descriptor ≡ ok generated
    pub timed : signing_time x now args.signed_at ≡ ok time
    pub approved :
        Approved x template request inputs generated
          (record { key_id = args.key_id; signing_key = seed })
          time
          w.artifact
    pub verified : verify_signed_artifact x w.artifact (x.verifying_key seed) ≡ ok tt
    pub out : w.out ≡ args.out

  make_artifact-Made :
      (args : Args) (w : Written Value)
      → make_artifact x json template reader generate now args ≡ ok w
      → Made args w
  unfolding make_artifact
  make_artifact-Made args w h =
      let (content, e1, h1) = >>=-eq-ok (ok_or (reader.read args.request) request_unreadable) _ h in
      let (request, e2, h2) =
        >>=-eq-ok (ok_or (reader.parse_request content) request_invalid) _ h1 in
      let (owner, e3, h3) = >>=-eq-ok (decode_owner_hex x args.owner_pubkey_hex) _ h2 in
      let (seed, e4, h4) = >>=-eq-ok (decode_seed_hex x args.signing_seed_hex) _ h3 in
      let key : SigningKeyMaterial = record { key_id = args.key_id; signing_key = seed } in
      let (blobs, e5, h5) = >>=-eq-ok (decode_signing_blobs x json request) _ h4 in
      let (inputs, e6, h6) = >>=-eq-ok (verify_signing_inputs x blobs owner) _ h5 in
      let (same_key, h7) =
        ensure-passed (inputs.descriptor_signing_pubkey == x.verifying_key seed)
          signing_key_mismatch _ h6 in
      let (generated, e8, h8) = >>=-eq-ok (generate inputs.descriptor) _ h7 in
      let (time, e9, h9) = >>=-eq-ok (signing_time x now args.signed_at) _ h8 in
      let (a, e10, h10) =
        >>=-eq-ok (sign_verified_policy x template request inputs generated key time) _ h9 in
      let (_, e11, h11) = >>=-eq-ok (verify_signed_artifact x a (x.verifying_key seed)) _ h10 in
      let same = ok_inj h11 in
      let artifact : a ≡ w.artifact = ap (λ (v : Written Value). v.artifact) same in
      record {
        content = content;
        request = request;
        owner = owner;
        seed = seed;
        blobs = blobs;
        inputs = inputs;
        generated = generated;
        time = time;
        read = ok_or-eq-ok _ _ e1;
        parsed = ok_or-eq-ok _ _ e2;
        owner_given = e3;
        seed_given = e4;
        decoded = e5;
        trusted = (verify_signing_inputs_iff x blobs owner inputs).0 e6;
        same_key = ==_sound _ _ same_key;
        policy = e8;
        timed = e9;
        approved =
            (sign_verified_policy_iff x template request inputs generated key time w.artifact).0
              (e10 ∙ ap ok artifact);
        verified = ap (λ c. verify_signed_artifact x c (x.verifying_key seed)) (sym artifact) ∙ e11;
        out = ap (λ (v : Written Value). v.out) (sym same);
      }

  -- If the tool makes an artifact, then the arguments were complete; the artifact is approved for a
  -- descriptor that a deployer signed, in a keyring that the given owner signed; the key of the given
  -- seed is the key that signed the descriptor; and the artifact verifies under it.
  pub policy_artifact_main-Made :
      (env : Bytes → Option Bytes) (raw : List Bytes) (w : Written Value)
      → policy_artifact_main x json template reader generate now env raw ≡ ok (some w)
      → (args : Args) × (parse_args env raw ≡ ok (some args)) × Made args w
  unfolding policy_artifact_main
  policy_artifact_main-Made env raw w h =
      let (parsed, e, h1) = >>=-eq-ok (parse_args env raw) _ h in found parsed e h1
    where
      found :
          (parsed : Option Args)
          → parse_args env raw ≡ ok parsed
          → run_args x json template reader generate now parsed ≡ ok (some w)
          → (args : Args) × (parse_args env raw ≡ ok (some args)) × Made args w
      found none e k = absurd (cc)
      found (some args) e k =
          let (v, ev, kv) =
            >>=-eq-ok (make_artifact x json template reader generate now args) _ k in
          let same : v ≡ w = some_inj (ok_inj kv) in
          (args, e, make_artifact-Made args w (ev ∙ ap ok same))
