-- ===== src/Examples/Toy.antt =====
-- A concrete instance of the external operations, which satisfies all their laws: for the examples.
use policy_templates.Prelude.{
  ℕ, zero, suc, ◌+◌, All, ◌%◌, ◌<◌, arith, Bytes, ◌==◌, ==_refl, refl, true, Option, some, none, [],
  ◌∷◌,
}
use policy_templates.External.{External, KeyLaws, TextLaws, HashLaw, ByteLaw}

abbrev total : Bytes → ℕ
total [] = 0
total (b ∷ bytes) = b + total bytes

abbrev pub zeros : ℕ → Bytes
zeros zero = []
zeros (suc n) = 0 ∷ zeros n

-- A digest of 32 numbers: the sum of the bytes, and zeros.
abbrev digest : Bytes → Bytes
digest bytes = (total bytes % 256) ∷ zeros 31

-- A signature of 64 numbers that shows the key and the message.
abbrev mark : Bytes → Bytes → Bytes
mark key message = (total key + total message) ∷ zeros 63

abbrev read_stamp : Bytes → Option ℕ
read_stamp (t ∷ []) = some t
read_stamp _ = none

abbrev pub toy : External
toy = record {
  sha256 = digest;
  valid_key = λ key. true;
  verify = λ key message signature. signature == mark key message;
  verifying_key = digest;
  sign = λ seed message. mark (digest seed) message;
  hex_encode = λ b. b;
  hex_decode = some;
  b64_encode = λ b. b;
  b64_decode = some;
  uuid_to_string = λ u. u;
  uuid_parse = some;
  to_rfc3339 = λ t. t ∷ [];
  parse_rfc3339 = read_stamp;
}

pub toy-KeyLaws : KeyLaws toy
toy-KeyLaws = record {
  verify-sign = λ seed message. ==_refl (mark (digest seed) message);
  length-verifying_key = λ seed. refl;
  length-sign = λ seed message. refl;
}

pub toy-TextLaws : TextLaws toy
toy-TextLaws = record {
  hex_decode-hex_encode = λ b. refl;
  uuid_parse-uuid_to_string = λ u. refl;
  parse_rfc3339-to_rfc3339 = λ t. refl;
}

pub toy-HashLaw : HashLaw toy
toy-HashLaw b = refl

zeros-bytes : (n : ℕ) → All (λ b. b < 256) (zeros n)
zeros-bytes zero = tt
zeros-bytes (suc n) = (omega arith, zeros-bytes n)

pub toy-ByteLaw : ByteLaw toy
toy-ByteLaw b = (omega arith, zeros-bytes 31)
