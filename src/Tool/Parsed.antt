-- ===== src/Tool/Parsed.antt =====
-- What the tool reads from flags with values.
use policy_templates.Prelude.{
  ◌≡◌, refl, ap, ◌∙◌, ◌↔◌, >>=-eq-ok, ok_or-eq-ok, ok_inj, ok_or, some_inj, argument_required,
  Bytes, text, ◌==◌, false, Option, none, some, List, [], ◌∷◌, if◌then◌else◌, ok, ◌>>=◌,
}
use policy_templates.Service.Auth.{or_option}
use policy_templates.Tool.Arguments.{
  Args, Given, nothing_given, is_help, set_flag, parse_flags, complete, parse_args,
}

pub data Flag : Type 0 where
  request : Flag
  owner_pubkey_hex : Flag
  signing_seed_hex : Flag
  key_id : Flag
  signed_at : Flag
  out : Flag

unfoldable pub name : Flag → Bytes
name request = text "--request"
name owner_pubkey_hex = text "--owner-pubkey-hex"
name signing_seed_hex = text "--signing-seed-hex"
name key_id = text "--key-id"
name signed_at = text "--signed-at"
name out = text "--out"

unfoldable pub spelled : List (Flag × Bytes) → List Bytes
unfolding name
spelled [] = []
spelled ((flag, value) ∷ rest) = name flag ∷ (value ∷ spelled rest)

abbrev pub value_for : Flag → Flag × Bytes → Option Bytes
value_for flag (g, value) = if name flag == name g then some value else none

-- The last value that is given for a flag.
unfoldable pub last : Flag → List (Flag × Bytes) → Option Bytes
unfolding name
last flag [] = none
last flag (p ∷ rest) = or_option (last flag rest) (value_for flag p)

abbrev over : (Flag → Option Bytes) → Given → Given
over given_for given = record {
  request = or_option (given_for request) given.request;
  owner_pubkey_hex = or_option (given_for owner_pubkey_hex) given.owner_pubkey_hex;
  signing_seed_hex = or_option (given_for signing_seed_hex) given.signing_seed_hex;
  key_id = or_option (given_for key_id) given.key_id;
  signed_at = or_option (given_for signed_at) given.signed_at;
  out = or_option (given_for out) given.out;
}

or_option_assoc : (a b c : Option Bytes) → or_option (or_option a b) c ≡ or_option a (or_option b c)
or_option_assoc none b c = refl
or_option_assoc (some v) b c = refl

or_option-none : (a : Option Bytes) → or_option a none ≡ a
or_option-none none = refl
or_option-none (some v) = refl

is_help-name : (flag : Flag) → is_help (name flag) ≡ false
unfolding name text ◌==◌
is_help-name request = refl
is_help-name owner_pubkey_hex = refl
is_help-name signing_seed_hex = refl
is_help-name key_id = refl
is_help-name signed_at = refl
is_help-name out = refl

set_flag-name :
    (flag : Flag) (value : Bytes) (given : Given)
    → set_flag (name flag) value given ≡ some (over (λ f. value_for f (flag, value)) given)
unfolding set_flag name text ◌==◌
set_flag-name request value given = refl
set_flag-name owner_pubkey_hex value given = refl
set_flag-name signing_seed_hex value given = refl
set_flag-name key_id value given = refl
set_flag-name signed_at value given = refl
set_flag-name out value given = refl

over_twice :
    (later earlier : Flag → Option Bytes) (given : Given)
    → over later (over earlier given) ≡ over (λ f. or_option (later f) (earlier f)) given
over_twice later earlier given =
    rw
      (
        or_option_assoc (later request) (earlier request) given.request,
        or_option_assoc (later owner_pubkey_hex) (earlier owner_pubkey_hex) given.owner_pubkey_hex,
        or_option_assoc (later signing_seed_hex) (earlier signing_seed_hex) given.signing_seed_hex,
        or_option_assoc (later key_id) (earlier key_id) given.key_id,
        or_option_assoc (later signed_at) (earlier signed_at) given.signed_at,
        or_option_assoc (later out) (earlier out) given.out,
      )
      refl

parse_flags-spelled :
    (pairs : List (Flag × Bytes)) (given : Given)
    → parse_flags (spelled pairs) given ≡ ok (some (over (λ f. last f pairs) given))
unfolding parse_flags spelled last
parse_flags-spelled [] given = refl
parse_flags-spelled ((flag, value) ∷ rest) given =
    let here : Flag → Option Bytes = λ f. value_for f (flag, value) in
    rw (is_help-name flag, set_flag-name flag value given)
      (parse_flags-spelled rest (over here given)
        ∙ ap (λ g. ok (some g)) (over_twice (λ f. last f rest) here given))

-- A text that is given, or else set in the environment.
abbrev Chosen : Option Bytes → Option Bytes → Bytes → Type 0
Chosen given set value = or_option given set ≡ some value

-- What the tool's arguments are read from: the values of the flags, and the environment.
pub Reads : (Bytes → Option Bytes) → Given → Args → Type 0
Reads env given args =
    (given.request ≡ some args.request)
    × Chosen given.owner_pubkey_hex (env (text "ENCLAVA_OWNER_PUBKEY_HEX")) args.owner_pubkey_hex
    × Chosen given.signing_seed_hex (env (text "ENCLAVA_POLICY_ARTIFACT_SIGNING_SEED_HEX"))
        args.signing_seed_hex
    × Chosen given.key_id (env (text "ENCLAVA_POLICY_ARTIFACT_KEY_ID")) args.key_id
    × (given.signed_at ≡ args.signed_at)
    × (given.out ≡ args.out)

complete_iff :
    (env : Bytes → Option Bytes) (given : Given) (args : Args)
    → (complete env (some given) ≡ ok (some args)) ↔ Reads env given args
unfolding Reads
complete_iff env given args = (
  λ e.
      let (r, er, k1) =
        >>=-eq-ok (ok_or given.request (argument_required (text "--request"))) _ e in
      let (o, eo, k2) =
        >>=-eq-ok
          (ok_or (or_option given.owner_pubkey_hex (env (text "ENCLAVA_OWNER_PUBKEY_HEX")))
            (argument_required (text "--owner-pubkey-hex")))
          _ k1 in
      let (s, es, k3) =
        >>=-eq-ok
          (ok_or
            (or_option given.signing_seed_hex
              (env (text "ENCLAVA_POLICY_ARTIFACT_SIGNING_SEED_HEX")))
            (argument_required (text "--signing-seed-hex")))
          _ k2 in
      let (k, ek, k4) =
        >>=-eq-ok
          (ok_or (or_option given.key_id (env (text "ENCLAVA_POLICY_ARTIFACT_KEY_ID")))
            (argument_required (text "--key-id")))
          _ k3 in
      let is_read = some_inj (ok_inj k4) in
      (
        ok_or-eq-ok _ _ er ∙ ap (λ (a : Args). some a.request) is_read,
        ok_or-eq-ok _ _ eo ∙ ap (λ (a : Args). some a.owner_pubkey_hex) is_read,
        ok_or-eq-ok _ _ es ∙ ap (λ (a : Args). some a.signing_seed_hex) is_read,
        ok_or-eq-ok _ _ ek ∙ ap (λ (a : Args). some a.key_id) is_read,
        ap (λ (a : Args). a.signed_at) is_read,
        ap (λ (a : Args). a.out) is_read,
      ),
  λ (e1, e2, e3, e4, e5, e6). rw (e1, e2, e3, e4, e5, e6) refl,
)

-- The last values of the flags.
abbrev pub last_values : List (Flag × Bytes) → Given
last_values pairs = record {
  request = last request pairs;
  owner_pubkey_hex = last owner_pubkey_hex pairs;
  signing_seed_hex = last signing_seed_hex pairs;
  key_id = last key_id pairs;
  signed_at = last signed_at pairs;
  out = last out pairs;
}

over_nothing :
    (given_for : Flag → Option Bytes)
    → over given_for nothing_given ≡ record {
      request = given_for request;
      owner_pubkey_hex = given_for owner_pubkey_hex;
      signing_seed_hex = given_for signing_seed_hex;
      key_id = given_for key_id;
      signed_at = given_for signed_at;
      out = given_for out;
    }
over_nothing given_for =
    rw
      (
        or_option-none (given_for request),
        or_option-none (given_for owner_pubkey_hex),
        or_option-none (given_for signing_seed_hex),
        or_option-none (given_for key_id),
        or_option-none (given_for signed_at),
        or_option-none (given_for out),
      )
      refl

-- The six flags may be given with values in any order and more than once, or left out. Then the tool
-- reads arguments exactly when the request is given, and each of the owner key, the seed and the key
-- id is given or set in the environment: each argument is the last value of its flag, and where the
-- flag is left out, the environment's for these three, and none for the time and the output file.
pub parse_args-spelled_iff :
    (env : Bytes → Option Bytes) (pairs : List (Flag × Bytes)) (args : Args)
    → (parse_args env (spelled pairs) ≡ ok (some args)) ↔ Reads env (last_values pairs) args
unfolding parse_args
parse_args-spelled_iff env pairs args =
    let read : parse_args env (spelled pairs) ≡ complete env (some (last_values pairs)) =
      ap (λ r. r >>= complete env)
        (parse_flags-spelled pairs nothing_given
          ∙ ap (λ g. ok (some g)) (over_nothing (λ f. last f pairs))) in
    rw read (complete_iff env (last_values pairs) args)
