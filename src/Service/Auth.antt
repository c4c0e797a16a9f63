-- ===== src/Service/Auth.antt =====
-- The bearer tokens and the switches of the service (main.rs). `env` holds the environment's variables.
use Prim.Native.Nat.{bit_or, bit_xor}
use policy_templates.Prelude.{
  ℕ, Bytes, text, ◌==◌, trim, eqb, ◌&&◌, ◌||◌, any, map, Bool, true, false, Option, none, some,
  List, [], ◌∷◌, ◌++◌, Result, ok, err, if◌then◌else◌, bearer_token_required, split, strip_prefix,
}
use policy_templates.External.{External}

pub record ServiceAuth : Type 0 where
  pub token_hashes : List Bytes

abbrev pub is_set : Option Bytes → Bool
is_set none = false
is_set (some value) =
    value == text "1"
    || (value == text "true"
        || (value == text "TRUE" || (value == text "yes" || value == text "YES")))

unfoldable pub env_flag : (Bytes → Option Bytes) → Bytes → Bool
env_flag env name = is_set (env name)

unfoldable pub legacy_owner_api_enabled : (Bytes → Option Bytes) → Bool → Bool
legacy_owner_api_enabled env platform_policy_signing_enabled =
    platform_policy_signing_enabled && env_flag env (text "SIGNING_SERVICE_ENABLE_LEGACY_OWNER_API")

-- `c == ',' || c.is_ascii_whitespace()`
abbrev pub is_separator : ℕ → Bool
is_separator c = eqb c 44 || (eqb c 32 || (eqb c 9 || (eqb c 10 || (eqb c 12 || eqb c 13))))

-- `.map(str::trim).filter(|token| !token.is_empty())`
unfoldable pub trimmed_words : List Bytes → List Bytes
trimmed_words [] = []
trimmed_words (word ∷ words) =
    let rest = trimmed_words words in if trim word == [] then rest else trim word ∷ rest

unfoldable pub push_tokens : List Bytes → Option Bytes → List Bytes
unfolding split trimmed_words
push_tokens tokens none = tokens
push_tokens tokens (some raw) = tokens ++ trimmed_words (split is_separator raw)

-- Option::or_else, and the trimmed token that is not empty
abbrev pub or_option : Option Bytes → Option Bytes → Option Bytes
or_option none other = other
or_option (some s) other = some s

abbrev pub trimmed_token : Option Bytes → Option Bytes
trimmed_token none = none
trimmed_token (some s) = if trim s == [] then none else some (trim s)

-- `header` is the Authorization header as a string, if there is one.
unfoldable pub bearer_token : Option Bytes → Option Bytes
bearer_token none = none
bearer_token (some raw) =
    trimmed_token
      (or_option (strip_prefix (text "Bearer ") raw) (strip_prefix (text "bearer ") raw))

-- The loop over the zipped bytes; `diff` is a u8.
unfoldable pub difference : ℕ → Bytes → Bytes → ℕ
difference diff [] right = diff
difference diff (a ∷ left) [] = diff
difference diff (a ∷ left) (b ∷ right) = difference (bit_or diff (bit_xor a b)) left right

unfoldable pub constant_time_eq : Bytes → Bytes → Bool
unfolding difference
constant_time_eq left right = eqb (difference 0 left right) 0

module _ (x : External) where
  abbrev pub auth_of : Bool → List Bytes → Result ServiceAuth
  auth_of allowed [] =
      if allowed then ok (record { token_hashes = [] }) else err bearer_token_required
  auth_of allowed (token ∷ tokens) = ok (record { token_hashes = map x.sha256 (token ∷ tokens) })

  -- ServiceAuth::from_env
  unfoldable pub from_env : (Bytes → Option Bytes) → Result ServiceAuth
  unfolding push_tokens env_flag
  from_env env = auth_of (env_flag env (text "SIGNING_SERVICE_ALLOW_UNAUTHENTICATED")) (
      push_tokens (push_tokens [] (env (text "SIGNING_SERVICE_BEARER_TOKEN")))
        (env (text "SIGNING_SERVICE_BEARER_TOKENS")))

  -- The test of the candidate in `authorizes`.
  abbrev pub trusts : List Bytes → Option Bytes → Bool
  trusts hashes none = false
  trusts hashes (some token) = any (λ trusted. constant_time_eq trusted (x.sha256 token)) hashes

  -- ServiceAuth::authorizes
  unfoldable pub authorizes : ServiceAuth → Option Bytes → Bool
  unfolding bearer_token constant_time_eq
  authorizes auth header = elim auth.token_hashes [
    | [] ↦ true
    | hash ∷ hashes ↦ trusts (hash ∷ hashes) (bearer_token header)
  ]
