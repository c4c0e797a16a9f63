-- ===== src/External.antt =====
-- What the service calls and this repository does not hold: SHA-256 (sha2), Ed25519
-- (ed25519_dalek), hex, base64, uuid and chrono. The operations are a parameter of the model, and
-- the documented behaviour that the code relies on is a record of laws about them.
use policy_templates.Prelude.{ℕ, Bytes, ◌≡◌, Bool, true, Option, some, length, All, ◌<◌}

-- An Ed25519 key is its 32 bytes, and a signing key is its seed; a UUID is its 16 bytes; an instant
-- (DateTime<Utc>) is a number.
pub record External : Type 0 where
  -- sha2: Sha256::digest
  pub sha256 : Bytes → Bytes
  -- ed25519_dalek: VerifyingKey::from_bytes succeeds; Verifier::verify of a key, a message and a
  -- signature; SigningKey::verifying_key; Signer::sign
  pub valid_key : Bytes → Bool
  pub verify : Bytes → Bytes → Bytes → Bool
  pub verifying_key : Bytes → Bytes
  pub sign : Bytes → Bytes → Bytes
  -- hex and base64 (STANDARD)
  pub hex_encode : Bytes → Bytes
  pub hex_decode : Bytes → Option Bytes
  pub b64_encode : Bytes → Bytes
  pub b64_decode : Bytes → Option Bytes
  -- uuid: to_string and Uuid::parse_str
  pub uuid_to_string : Bytes → Bytes
  pub uuid_parse : Bytes → Option Bytes
  -- chrono: to_rfc3339 and DateTime::parse_from_rfc3339
  pub to_rfc3339 : ℕ → Bytes
  pub parse_rfc3339 : Bytes → Option ℕ

-- A signature made with a key verifies under its public key; keys and signatures have their sizes.
pub record KeyLaws (x : External) : Type 0 where
  pub verify-sign :
      (seed message : Bytes) → x.verify (x.verifying_key seed) message (x.sign seed message) ≡ true
  pub length-verifying_key : (seed : Bytes) → length (x.verifying_key seed) ≡ 32
  pub length-sign : (seed message : Bytes) → length (x.sign seed message) ≡ 64

-- What is printed reads back.
pub record TextLaws (x : External) : Type 0 where
  pub hex_decode-hex_encode : (b : Bytes) → x.hex_decode (x.hex_encode b) ≡ some b
  pub uuid_parse-uuid_to_string : (u : Bytes) → x.uuid_parse (x.uuid_to_string u) ≡ some u
  pub parse_rfc3339-to_rfc3339 : (t : ℕ) → x.parse_rfc3339 (x.to_rfc3339 t) ≡ some t

abbrev pub HashLaw : External → Type 0
HashLaw x = (b : Bytes) → length (x.sha256 b) ≡ 32

-- A digest is made of bytes.
abbrev pub ByteLaw : External → Type 0
ByteLaw x = (b : Bytes) → All (λ n. n < 256) (x.sha256 b)

-- Two messages with one digest.
abbrev pub Collision : External → Type 0
Collision x = (a : Bytes) × (b : Bytes) × (a ≡ b → ⊥) × (x.sha256 a ≡ x.sha256 b)
