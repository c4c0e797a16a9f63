-- ===== src/Genpolicy/Environment.antt =====
-- The settings that genpolicy.rs reads from the environment. `env` holds the environment's variables.
use policy_templates.Prelude.{
  ℕ, Bytes, text, ◌==◌, trim, trim_end_matches, replace, strip_prefix, to_ascii_lowercase, map, leb,
  ltb, eqb, ◌&&◌, ◌||◌, Bool, Option, none, some, [], ◌∷◌, ◌++◌, Result, ok, err, if◌then◌else◌,
  tls_mode_invalid,
}
use policy_templates.Descriptor.{LogEncryptionConfig}
use policy_templates.Policy.Inputs.{unwrap_or}

abbrev pub is_ascii_alphabetic : ℕ → Bool
is_ascii_alphabetic c = (leb 65 c && leb c 90) || (leb 97 c && leb c 122)

abbrev pub is_ascii_alphanumeric : ℕ → Bool
is_ascii_alphanumeric c = is_ascii_alphabetic c || (leb 48 c && leb c 57)

-- The characters of a digest in a file name: one that is not allowed becomes a dash. The later bytes
-- of a character belong to its first.
unfoldable pub spool_name : Bytes → Bytes
spool_name [] = []
spool_name (b ∷ s) =
    let rest = spool_name s in
    if leb 128 b && ltb b 192
    then rest
    else if is_ascii_alphanumeric b || (eqb b 95 || eqb b 45)
    then b ∷ rest
    else 45 ∷ rest

unfoldable pub log_spool_dir : Bytes
log_spool_dir = text "/run/enclava-logs"

unfoldable pub log_spool_path : LogEncryptionConfig → Bytes
unfolding spool_name log_spool_dir
log_spool_path log_encryption =
    let digest =
      unwrap_or (strip_prefix (text "sha256:") log_encryption.public_key_sha256)
        log_encryption.public_key_sha256 in
    log_spool_dir ++ (text "/web-" ++ (spool_name digest ++ text ".jsonl"))

pub data CaddyTlsMode : Type 0 where
  acme dns01_broker internal : CaddyTlsMode

abbrev pub mode_of : Bytes → Result CaddyTlsMode
mode_of value =
    if value == [] || value == text "acme"
    then ok acme
    else if value == text "dns01-broker"
        || (value == text "dns-01-broker" || value == text "broker")
    then ok dns01_broker
    else if value == text "internal"
    then ok internal
    else err (tls_mode_invalid value)

-- CaddyTlsMode::from_str
unfoldable pub tls_mode_from_str : Bytes → Result CaddyTlsMode
tls_mode_from_str value = mode_of (map to_ascii_lowercase (trim value))

-- `.filter(|value| !value.is_empty())`
abbrev pub non_empty : Bytes → Option Bytes
non_empty [] = none
non_empty (c ∷ s) = some (c ∷ s)

abbrev pub mapped_non_empty : (Bytes → Bytes) → Option Bytes → Option Bytes
mapped_non_empty f none = none
mapped_non_empty f (some value) = non_empty (f value)

module _ (env : Bytes → Option Bytes) where
  unfoldable pub tenant_caddy_tls_mode : Result CaddyTlsMode
  unfolding tls_mode_from_str
  tenant_caddy_tls_mode = tls_mode_from_str (unwrap_or (env (text "TENANT_CADDY_TLS_MODE")) [])

  unfoldable pub trustee_kbs_url : Bytes
  trustee_kbs_url =
      unwrap_or (mapped_non_empty trim (env (text "TRUSTEE_KBS_URL")))
        (text "http://kbs-service.trustee-operator-system.svc.cluster.local:8080")

  abbrev pub trim_slashes : Bytes → Bytes
  trim_slashes value = trim_end_matches 47 (trim value)

  unfoldable pub attestation_proxy_image_repo : Bytes
  attestation_proxy_image_repo =
      unwrap_or (mapped_non_empty trim_slashes (env (text "ATTESTATION_PROXY_IMAGE_REPO")))
        (text "ghcr.io/enclava-labs/attestation-proxy")

  unfoldable pub trustee_kbs_resource_url : Bytes
  unfolding trustee_kbs_url
  trustee_kbs_resource_url = trim_end_matches 47 trustee_kbs_url ++ text "/kbs/v0/resource"

  abbrev pub unescaped_lines : Bytes → Bytes
  unescaped_lines value = trim (replace value (text "\\n") (text "\n"))

  unfoldable pub trustee_kbs_ca_cert_pem : Option Bytes
  trustee_kbs_ca_cert_pem = mapped_non_empty unescaped_lines (env (text "TRUSTEE_KBS_CA_CERT_PEM"))

  unfoldable pub amd_kds_base_url : Option Bytes
  amd_kds_base_url = mapped_non_empty trim_slashes (env (text "AMD_KDS_BASE_URL"))

  unfoldable pub kubernetes_service_host : Bytes
  kubernetes_service_host =
      unwrap_or (env (text "GENPOLICY_KUBERNETES_SERVICE_HOST")) (text "10.43.0.1")
