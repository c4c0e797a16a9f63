-- ===== src/Tool/Arguments.antt =====
-- The arguments of the tool.
use policy_templates.Prelude.{
  Bytes, text, ◌==◌, trim, ◌||◌, eqb, length, Bool, Option, none, some, List, [], ◌∷◌,
  if◌then◌else◌, Result, ok, err, ensure, ok_or, ◌>>=◌, ◌>>◌, value_required, argument_unknown,
  argument_required, seed_invalid, owner_key_invalid,
}
use policy_templates.External.{External}
use policy_templates.Service.Auth.{or_option}

pub record Args : Type 0 where
  pub request : Bytes
  pub owner_pubkey_hex : Bytes
  pub signing_seed_hex : Bytes
  pub key_id : Bytes
  pub signed_at : Option Bytes
  pub out : Option Bytes

-- The variables of `parse`: what the flags so far have set.
pub record Given : Type 0 where
  pub request : Option Bytes
  pub owner_pubkey_hex : Option Bytes
  pub signing_seed_hex : Option Bytes
  pub key_id : Option Bytes
  pub signed_at : Option Bytes
  pub out : Option Bytes

abbrev pub nothing_given : Given
nothing_given = record {
  request = none;
  owner_pubkey_hex = none;
  signing_seed_hex = none;
  key_id = none;
  signed_at = none;
  out = none;
}

abbrev pub is_help : Bytes → Bool
is_help flag = flag == text "--help" || flag == text "-h"

-- What a flag does with the value after it; `none` is a flag that is not known.
unfoldable pub set_flag : Bytes → Bytes → Given → Option Given
set_flag flag value given =
    if flag == text "--request"
    then some (record given { request = some value })
    else if flag == text "--owner-pubkey-hex"
    then some (record given { owner_pubkey_hex = some value })
    else if flag == text "--signing-seed-hex"
    then some (record given { signing_seed_hex = some value })
    else if flag == text "--key-id"
    then some (record given { key_id = some value })
    else if flag == text "--signed-at"
    then some (record given { signed_at = some value })
    else if flag == text "--out"
    then some (record given { out = some value })
    else none

-- A flag that stands last: it has no value.
abbrev pub last_flag : Bytes → Option Given → Result (Option Given)
last_flag flag none = err (argument_unknown flag)
last_flag flag (some given) = err (value_required flag)

-- The loop over the arguments. `ok none` is an exit with the usage.
unfoldable pub parse_flags : List Bytes → Given → Result (Option Given)
unfolding set_flag
parse_flags [] given = ok (some given)
parse_flags (flag ∷ []) given =
    if is_help flag then ok none else last_flag flag (set_flag flag [] given)
parse_flags (flag ∷ (value ∷ rest)) given =
    let further = λ (g : Given). parse_flags rest g in
    if is_help flag then ok none else elim (set_flag flag value given) [
      | none ↦ err (argument_unknown flag)
      | some g ↦ further g
    ]

module _ (env : Bytes → Option Bytes) where
  abbrev pub complete : Option Given → Result (Option Args)
  complete none = ok none
  complete (some given) = do
    request ← ok_or given.request (argument_required (text "--request"))
    owner_pubkey_hex ←
        ok_or (or_option given.owner_pubkey_hex (env (text "ENCLAVA_OWNER_PUBKEY_HEX")))
          (argument_required (text "--owner-pubkey-hex"))
    signing_seed_hex ←
        ok_or
          (or_option given.signing_seed_hex (env (text "ENCLAVA_POLICY_ARTIFACT_SIGNING_SEED_HEX")))
          (argument_required (text "--signing-seed-hex"))
    key_id ←
        ok_or (or_option given.key_id (env (text "ENCLAVA_POLICY_ARTIFACT_KEY_ID")))
          (argument_required (text "--key-id"))
    ok (
        some (record {
          request = request;
          owner_pubkey_hex = owner_pubkey_hex;
          signing_seed_hex = signing_seed_hex;
          key_id = key_id;
          signed_at = given.signed_at;
          out = given.out;
        }))

  -- Args::parse
  unfoldable pub parse_args : List Bytes → Result (Option Args)
  unfolding parse_flags
  parse_args raw = parse_flags raw nothing_given >>= complete

module _ (x : External) where
  unfoldable pub decode_seed_hex : Bytes → Result Bytes
  decode_seed_hex value = do
    bytes ← ok_or (x.hex_decode (trim value)) seed_invalid
    ensure (eqb (length bytes) 32) seed_invalid
    ok bytes

  -- decode_pubkey_hex of the tool
  unfoldable pub decode_owner_hex : Bytes → Result Bytes
  decode_owner_hex value = do
    raw ← ok_or (x.hex_decode (trim value)) owner_key_invalid
    ensure (eqb (length raw) 32) owner_key_invalid
    ensure (x.valid_key raw) owner_key_invalid
    ok raw
