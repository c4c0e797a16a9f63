-- ===== src/Canonical/Binding.antt =====
-- What the bytes and the hash of an encoding say about the records.
use policy_templates.Prelude.{
  ◌≡◌, refl, ◌++◌, be16, be32, Bytes, Bytes-dec, List, length, ok, >>=-eq-ok, ◌⊎◌, inl, inr, arith,
  [], ◌∷◌, length-append,
}
use policy_templates.External.{External, Collision}
use policy_templates.Canonical.{Tlv, ce_v1_bytes, ce_v1_hash, capacity}
use policy_templates.Canonical.Layout.{layout, eq-layout}
use policy_templates.Canonical.Decode.{decode-ce_v1_bytes}

-- Different lists of records have different encodings.
pub ce_v1_bytes_inj :
    (rs ss : List Tlv) {b : Bytes} → ce_v1_bytes rs ≡ ok b → ce_v1_bytes ss ≡ ok b → rs ≡ ss
ce_v1_bytes_inj rs ss {b} e f = cc (decode-ce_v1_bytes rs e, decode-ce_v1_bytes ss f)

-- Two messages with one digest are one message, or a collision.
pub sha256_binds : (x : External) (a b : Bytes) → x.sha256 a ≡ x.sha256 b → (a ≡ b) ⊎ Collision x
sha256_binds x a b e = elim (Bytes-dec a b) [
  | inl same ↦ inl same
  | inr differ ↦ inr (a, b, differ, e)
]

-- If two lists of records hash to one digest, they are the same list, or SHA-256 has a collision.
pub ce_v1_hash_binds :
    (x : External) (rs ss : List Tlv) {h : Bytes}
    → ce_v1_hash x rs ≡ ok h
    → ce_v1_hash x ss ≡ ok h
    → (rs ≡ ss) ⊎ Collision x
unfolding ce_v1_hash
ce_v1_hash_binds x rs ss e f =
    let (a, ea, ha) = >>=-eq-ok (ce_v1_bytes rs) (λ b. ok (x.sha256 b)) e in
    let (b, eb, hb) = >>=-eq-ok (ce_v1_bytes ss) (λ b. ok (x.sha256 b)) f in
    elim (sha256_binds x a b (cc (ha, hb))) [
      | inl same ↦ inl (ce_v1_bytes_inj rs ss ea (rw same eb))
      | inr c ↦ inr c
    ]

layout-capacity : (rs : List Tlv) → length (layout rs) ≡ capacity rs
unfolding layout capacity be16 be32
layout-capacity [] = refl
layout-capacity ((label, value) ∷ rs) = omega (
  arith,
  length-append label (be32 (length value) ++ (value ++ layout rs)),
  length-append value (layout rs),
  layout-capacity rs,
)

-- The encoding fills the buffer that was allocated for it, exactly.
pub length-ce_v1_bytes :
    (rs : List Tlv) {b : Bytes} → ce_v1_bytes rs ≡ ok b → length b ≡ capacity rs
length-ce_v1_bytes rs e = rw (eq-layout rs e) (layout-capacity rs)
