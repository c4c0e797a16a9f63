-- ===== src/Canonical.antt =====
-- signing-service/src/canonical.rs: the CE-v1 encoding of labelled records, and its hash.
-- A record is the pair of its label's bytes and its value.
pub mod Layout
pub mod Decode
pub mod Binds
pub mod Binding
use policy_templates.Prelude.{
  ℕ, ◌+◌, ◌^◌, Bytes, be16, be32, List, [], ◌∷◌, ◌++◌, length, ltb, Result, ok, err, if◌then◌else◌,
  ◌>>=◌, label_exceeds_u16, value_exceeds_u32,
}
use policy_templates.External.{External}

abbrev pub Tlv : Type 0
Tlv = Bytes × Bytes

-- u16::try_from(label.len()).expect(..) and u32::try_from(value.len()).expect(..)
abbrev pub label_length : Bytes → Result ℕ
label_length label = if ltb (length label) 65536 then ok (length label) else err label_exceeds_u16

abbrev pub value_length : Bytes → Result ℕ
value_length value =
    if ltb (length value) 4294967296 then ok (length value) else err value_exceeds_u32

-- The loop over the records; `out` is what is written so far.
pub extend : Bytes → List Tlv → Result Bytes
extend out [] = ok out
extend out ((label, value) ∷ records) = do
  label_len ← label_length label
  value_len ← value_length value
  extend (out ++ (be16 label_len ++ (label ++ (be32 value_len ++ value)))) records

unfoldable pub ce_v1_bytes : List Tlv → Result Bytes
unfolding extend
ce_v1_bytes records = extend [] records

-- The `total` that the buffer is allocated with.
pub capacity : List Tlv → ℕ
capacity [] = 0
capacity ((label, value) ∷ records) = 2 + length label + 4 + length value + capacity records

unfoldable pub ce_v1_hash : External → List Tlv → Result Bytes
ce_v1_hash x records = do bytes ← ce_v1_bytes records; ok (x.sha256 bytes)
