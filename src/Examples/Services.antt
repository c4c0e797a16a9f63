-- ===== src/Examples/Services.antt =====
-- A rotation, and a request for a policy, from the first step to the last.
use policy_templates.Prelude.{
  ◌≡◌, ◌≢◌, refl, ◌↔◌, Any, map, ap, Bytes, text, [], ◌∷◌, length, trim, ◌==◌, be16, be32, be64,
  traverse, sort_by_key, bytes_le, decimal, contains, replace, true, some, ok, arith,
}
use policy_templates.Descriptor.{DeploymentDescriptorEnvelope}
use policy_templates.OwnerStore.{
  OwnerRecord, Storage, bootstrap_owner, require_owner, rotate_owner, verifying_key_from_vec,
  rotated_record,
}
use policy_templates.OwnerStore.Table.{
  OwnerRow, Db, empty, select_owner, select_event, insert_owner, insert_event, update_owner,
}
use policy_templates.Descriptor.Records.{descriptor_canonical_bytes, descriptor_core_hash}
use policy_templates.Policy.{template_id, SigningKeyMaterial, SignRequest, SignedPolicyArtifact}
use policy_templates.Policy.Inputs.{
  Json, decode_json_blob, decode_signing_blobs, verify_signing_inputs,
}
use policy_templates.Policy.Floor.{validate_oci_security_floor}
use policy_templates.Policy.Render.{template_sha256, validate_rego_string_slot, render_template}
use policy_templates.Policy.Metadata.{decode_hex32, policy_artifact_signing_input}
use policy_templates.Policy.Sign.{decode_signature, sign_verified_policy, verify_signed_artifact}
use policy_templates.Canonical.{ce_v1_bytes, ce_v1_hash}
use policy_templates.Keyring.{
  as_str, can_deploy, keyring_fingerprint, verify_keyring, find_deployer_pubkey,
  canonical_keyring_bytes,
}
use policy_templates.Descriptor.Verify.{verify_descriptor}
use policy_templates.Descriptor.Unique.{validate_unique_resource_names}
use policy_templates.Service.{
  Generate, RotateOwnerRequest, RotateOwnerResponse, recovery_directive_bytes, decode_pubkey_b64,
  decode_signature_b64, rotation_authority_is_current_or_replay, rotate_owner_request, sign_policy,
}
use policy_templates.Service.Rotation.{
  Directed, rotate_owner_request_authorised, rotate_owner_request-current,
}
use policy_templates.Service.Signing.{Issued, sign_policy-Issued}
use policy_templates.Service.Auth.{authorizes, bearer_token}
use policy_templates.Service.Tokens.{authorizes_iff}
use policy_templates.Examples.Toy.{toy, toy-HashLaw, toy-ByteLaw}
use policy_templates.Examples.Keyrings
use policy_templates.Examples.Keyrings.{alice}
use policy_templates.Examples.Policies.{template, generated, signable, request, key}

abbrev pub always : Storage
always s = true

abbrev pub owned : Db
owned = (bootstrap_owner toy always empty (5 ∷ []) alice.pubkey 3).1

abbrev replacement : Bytes
replacement = toy.verifying_key (2 ∷ [])

directive :
    (b : Bytes) × (recovery_directive_bytes toy (5 ∷ []) alice.pubkey replacement 9 (text "lost")
      ≡ ok b)
unfolding recovery_directive_bytes ce_v1_bytes text
directive = (_, refl)

abbrev rotation : RotateOwnerRequest
rotation = record {
  org_id = 5 ∷ [];
  replacement_owner_pubkey_b64 = replacement;
  signed_at = 9;
  reason = text "lost";
  signing_pubkey_b64 = alice.pubkey;
  signature_b64 = toy.sign (7 ∷ []) directive.0;
}

rotated :
    (r : RotateOwnerResponse) × ((rotate_owner_request toy always always true owned owned rotation
        10 11).0
      ≡ ok r)
unfolding rotate_owner_request directive bootstrap_owner rotate_owner select_owner insert_owner
    insert_event update_owner select_event require_owner ce_v1_bytes text trim ◌==◌ be16 be32
    recovery_directive_bytes decode_pubkey_b64 decode_signature_b64
    rotation_authority_is_current_or_replay verifying_key_from_vec rotated_record
rotated = (_, refl)

events_after :
    length (rotate_owner_request toy always always true owned owned rotation 10 11).1.events ≡ 2
unfolding rotate_owner_request directive bootstrap_owner rotate_owner select_owner insert_owner
    insert_event update_owner select_event require_owner ce_v1_bytes text trim ◌==◌ be16 be32
    recovery_directive_bytes decode_pubkey_b64 decode_signature_b64
    rotation_authority_is_current_or_replay verifying_key_from_vec rotated_record
events_after = refl

events_before : length owned.events ≡ 1
unfolding bootstrap_owner select_owner insert_owner insert_event
events_before = refl

database_changes :
    (rotate_owner_request toy always always true owned owned rotation 10 11).1 ≢ owned
database_changes e =
    omega (arith, events_after, events_before, ap (λ (db : Db). length db.events) e)

rotate_owner_request_authorised_example :
    (row : OwnerRow) × (to : Bytes) × (select_owner (5 ∷ []) owned ≡ some row)
    × (to ≢ row.owner_pubkey)
    × Directed toy rotation row.owner_pubkey to
rotate_owner_request_authorised_example =
    rotate_owner_request_authorised toy always always true owned owned rotation 10 11
      database_changes

rotate_owner_request-current_example :
    (current : OwnerRecord) × (to : Bytes) × (require_owner toy always owned (5 ∷ []) ≡ ok current)
    × (to ≢ current.owner_pubkey)
    × Directed toy rotation current.owner_pubkey to
rotate_owner_request-current_example =
    rotate_owner_request-current toy always always true owned owned rotation 10 11 rotated.0
      rotated.1

unfoldable pub signable_encodes : (b : Bytes) × (descriptor_canonical_bytes toy signable ≡ ok b)
unfolding descriptor_canonical_bytes ce_v1_hash ce_v1_bytes text decimal sort_by_key bytes_le be32
signable_encodes = (_, refl)

abbrev pub signed_descriptor : DeploymentDescriptorEnvelope
signed_descriptor = record {
  descriptor = signable;
  signature = toy.sign (8 ∷ []) signable_encodes.0;
  signing_key_id = [];
  signing_pubkey = toy.verifying_key (8 ∷ []);
}

-- Every text means this descriptor, this keyring and itself.
abbrev pub json : Json Bytes
json = record {
  parse_descriptor = λ blob. some signed_descriptor;
  parse_keyring = λ blob. some Keyrings.envelope;
  parse_value = some;
}

abbrev generate : Generate
generate descriptor log_encryption = ok generated

abbrev pub sent : SignRequest
sent = record request { customer_descriptor_blob = text "d"; org_keyring_blob = text "k" }

issued :
    (a : SignedPolicyArtifact Bytes) × (sign_policy toy json template generate
        (some key)
        always
        true
        owned
        sent
        7
      ≡ ok a)
unfolding sign_policy decode_signing_blobs decode_json_blob trim bootstrap_owner select_owner
    insert_owner insert_event require_owner verifying_key_from_vec Keyrings.keyring_encodes
    signable_encodes verify_signing_inputs ◌==◌ verify_keyring canonical_keyring_bytes traverse
    sort_by_key bytes_le ce_v1_hash ce_v1_bytes text as_str be64 be32 be16 decimal
    find_deployer_pubkey verify_descriptor descriptor_canonical_bytes validate_unique_resource_names
    descriptor_core_hash keyring_fingerprint can_deploy sign_verified_policy template_id
    template_sha256 validate_oci_security_floor render_template validate_rego_string_slot contains
    replace policy_artifact_signing_input verify_signed_artifact decode_hex32 decode_signature
issued = (_, refl)

sign_policy-Issued_example :
    (k : SigningKeyMaterial) × (some key ≡ some k)
    × Issued toy json template generate k always owned sent 7 issued.0
sign_policy-Issued_example =
    sign_policy-Issued toy json template generate (some key) always true owned sent 7 issued.0
      issued.1

authorizes_iff_example :
    (authorizes toy
        (record { token_hashes = map toy.sha256 (text "secret" ∷ []) })
        (some (text "Bearer secret"))
      ≡ true)
    ↔ ((given : Bytes) × (bearer_token (some (text "Bearer secret")) ≡ some given)
        × Any (λ t. toy.sha256 t ≡ toy.sha256 given) (text "secret" ∷ []))
authorizes_iff_example =
    authorizes_iff toy (text "secret") [] (some (text "Bearer secret")) toy-HashLaw toy-ByteLaw
