-- ===== src/Examples/Runs.antt =====
-- A run of the generator that succeeds at the second attempt, and a run of the tool.
use policy_templates.Prelude.{
  trim, traverse, sort_by_key, bytes_le, be64, be32, be16, decimal, contains, replace, ◌==◌, ℕ, suc,
  ◌≡◌, refl, ◌↔◌, Bytes, text, true, false, none, some, ok, Option, List, [], ◌∷◌, Result,
}
use policy_templates.Descriptor.{DeploymentDescriptor}
use policy_templates.Policy.{GeneratedAgentPolicy}
use policy_templates.Genpolicy.Settings.{Host, Output, finished}
use policy_templates.Genpolicy.Run.{GenpolicyConfig}
use policy_templates.Genpolicy.Ran.{Ran}
use policy_templates.Descriptor.Records.{descriptor_canonical_bytes, descriptor_core_hash}
use policy_templates.Policy.{template_id}
use policy_templates.Policy.Inputs.{decode_json_blob, decode_signing_blobs, verify_signing_inputs}
use policy_templates.Policy.Floor.{validate_oci_security_floor}
use policy_templates.Policy.Render.{template_sha256, validate_rego_string_slot, render_template}
use policy_templates.Policy.Metadata.{decode_hex32, policy_artifact_signing_input}
use policy_templates.Policy.Sign.{decode_signature, sign_verified_policy, verify_signed_artifact}
use policy_templates.Canonical.{ce_v1_bytes, ce_v1_hash}
use policy_templates.Keyring.{
  as_str, can_deploy, keyring_fingerprint, verify_keyring, find_deployer_pubkey,
  canonical_keyring_bytes,
}
use policy_templates.Descriptor.Verify.{verify_descriptor}
use policy_templates.Descriptor.Unique.{validate_unique_resource_names}
use policy_templates.Tool.Arguments.{
  Args, parse_args, parse_flags, set_flag, decode_owner_hex, decode_seed_hex,
}
use policy_templates.Tool.Artifact.{
  Reader, Written, signing_time, make_artifact, policy_artifact_main,
}
use policy_templates.Tool.Parsed.{
  Flag, request, owner_pubkey_hex, signing_seed_hex, key_id, name, spelled, last_values, Reads,
  parse_args-spelled_iff,
}
use policy_templates.Tool.Made.{Made, policy_artifact_main-Made}
use policy_templates.Examples.Toy.{toy, zeros}
use policy_templates.Examples.Keyrings.{alice}
use policy_templates.Examples.Keyrings
use policy_templates.Examples.Policies.{template, generated}
use policy_templates.Examples.Services.{json, sent, signable_encodes}
use policy_templates.Examples.Mounts.{generated_policy}
use policy_templates.Examples.Pods.{settings_of}

-- The disk counts the operations. The first run fails, and the one with variables succeeds.
abbrev run_of : ℕ → List (Bytes × Bytes) → Option (Output × ℕ)
run_of disk [] = some (record { success = false; stdout = [] }, suc disk)
run_of disk (v ∷ vars) = some (record { success = true; stdout = generated_policy }, suc disk)

abbrev pub host : Host
host = record {
  Disk = ℕ;
  tempdir = λ disk. some (text "/tmp/x", suc disk);
  write = λ disk path bytes. some (suc disk);
  create_dir_all = λ disk path. some (suc disk);
  copy = λ disk source dest. some (suc disk);
  read_to_string = λ disk path. some (text "{}");
  is_dir = λ disk path. false;
  entries = λ disk path. finished;
  execute = λ disk binary args dir vars. run_of disk vars;
}

abbrev pub config : GenpolicyConfig
config = record {
  binary = text "genpolicy";
  version_pin = text "4.3.1";
  rules_path = text "rules.rego";
  settings_dir = some (text "/etc/genpolicy");
}

abbrev reader : Reader
reader = record { read = λ path. some path; parse_request = λ content. some sent }

abbrev generate : DeploymentDescriptor → Result GeneratedAgentPolicy
generate d = ok generated

abbrev raw : List Bytes
raw =
    text "--request"
    ∷ text "request.json"
    ∷ text "--owner-pubkey-hex"
    ∷ alice.pubkey
    ∷ text "--signing-seed-hex"
    ∷ (8 ∷ zeros 31)
    ∷ text "--key-id"
    ∷ text "k"
    ∷ []

written :
    (w : Written Bytes) × (policy_artifact_main toy json template reader generate 7 settings_of raw
      ≡ ok (some w))
unfolding policy_artifact_main parse_args parse_flags set_flag make_artifact signing_time
    decode_owner_hex decode_seed_hex decode_signing_blobs decode_json_blob trim
    Keyrings.keyring_encodes signable_encodes verify_signing_inputs ◌==◌ verify_keyring
    canonical_keyring_bytes traverse sort_by_key bytes_le ce_v1_hash ce_v1_bytes text as_str be64
    be32 be16 decimal find_deployer_pubkey verify_descriptor descriptor_canonical_bytes
    validate_unique_resource_names descriptor_core_hash keyring_fingerprint can_deploy
    sign_verified_policy template_id template_sha256 validate_oci_security_floor render_template
    validate_rego_string_slot contains replace policy_artifact_signing_input verify_signed_artifact
    decode_hex32 decode_signature
written = (_, refl)

policy_artifact_main-Made_example :
    (args : Args) × (parse_args settings_of raw ≡ ok (some args))
    × Made toy json template reader generate 7 args written.0
policy_artifact_main-Made_example =
    policy_artifact_main-Made toy json template reader generate 7 settings_of raw written.0
      written.1

-- A key id is given twice, and the seed before the request.
abbrev flags : List (Flag × Bytes)
flags =
    (key_id, text "old")
    ∷ (signing_seed_hex, 8 ∷ zeros 31)
    ∷ (request, text "request.json")
    ∷ (key_id, text "k")
    ∷ (owner_pubkey_hex, alice.pubkey)
    ∷ []

abbrev flag_args : Args
flag_args = record {
  request = text "request.json";
  owner_pubkey_hex = alice.pubkey;
  signing_seed_hex = 8 ∷ zeros 31;
  key_id = text "k";
  signed_at = none;
  out = none;
}

parse_args-spelled_iff_example :
    (parse_args settings_of (spelled flags) ≡ ok (some flag_args))
    ↔ Reads settings_of (last_values flags) flag_args
parse_args-spelled_iff_example = parse_args-spelled_iff settings_of flags flag_args

flags_read : parse_args settings_of (spelled flags) ≡ ok (some flag_args)
unfolding parse_args parse_flags set_flag spelled name text ◌==◌
flags_read = refl
