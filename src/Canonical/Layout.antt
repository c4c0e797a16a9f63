-- ===== src/Canonical/Layout.antt =====
-- What `ce_v1_bytes` writes: the records one after the other, or a panic.
use mathlib.Core.List.{append-nil, append_assoc}
use policy_templates.Prelude.{
  ◌<◌, ◌≡◌, ◌∙◌, sym, ap, Bytes, be16, be32, List, [], ◌∷◌, ◌++◌, length, All, ltb, ltb→lt, lt→ltb,
  ok, Bool-cases, inl, inr,
}
use policy_templates.Canonical.{Tlv, extend, ce_v1_bytes}

abbrev pub Fits : Tlv → Type 0
Fits (label, value) = (length label < 65536) × (length value < 4294967296)

unfoldable pub layout : List Tlv → Bytes
layout [] = []
layout ((label, value) ∷ records) =
    be16 (length label) ++ (label ++ (be32 (length value) ++ (value ++ layout records)))

module _ (label value : Bytes) (records : List Tlv) (out : Bytes) where
  -- One round of the loop.
  extend_cons :
      Fits (label, value)
      → extend out ((label, value) ∷ records)
        ≡ extend (out ++ (be16 (length label) ++ (label ++ (be32 (length value) ++ value)))) records
  unfolding extend
  extend_cons (hl, hv) = rw (lt→ltb _ _ hl, lt→ltb _ _ hv)

  extend-Fits : {b : Bytes} → extend out ((label, value) ∷ records) ≡ ok b → Fits (label, value)
  unfolding extend
  extend-Fits h = elim (Bool-cases (ltb (length label) 65536)) [
    | inl hl ↦ elim (Bool-cases (ltb (length value) 4294967296)) [
      | inl hv ↦ (ltb→lt _ _ hl, ltb→lt _ _ hv)
      | inr hv ↦ let h' = rw (hl, hv) at h in cc
    ]
    | inr hl ↦ let h' = rw hl at h in cc
  ]

  layout_step :
      (out ++ (be16 (length label) ++ (label ++ (be32 (length value) ++ value)))) ++ layout records
      ≡ out ++ layout ((label, value) ∷ records)
  unfolding layout
  layout_step = simp append_assoc

extend-layout :
    (records : List Tlv) (out : Bytes)
    → All Fits records
    → extend out records ≡ ok (out ++ layout records)
extend-layout [] out h = unfold extend layout in rw append-nil
extend-layout ((label, value) ∷ records) out (h, hs) =
    extend_cons label value records out h
    ∙ extend-layout records _ hs
    ∙ ap ok (layout_step label value records out)

extend-All-Fits :
    (records : List Tlv) (out : Bytes) {b : Bytes} → extend out records ≡ ok b → All Fits records
extend-All-Fits [] out e = tt
extend-All-Fits ((label, value) ∷ records) out e =
    let fits = extend-Fits label value records out e in
    (fits, extend-All-Fits records _ (sym (extend_cons label value records out fits) ∙ e))

-- The encoding of records that fit, and that records which encode fit.
pub ce_v1_bytes-layout :
    (records : List Tlv) → All Fits records → ce_v1_bytes records ≡ ok (layout records)
unfolding ce_v1_bytes
ce_v1_bytes-layout records h = extend-layout records [] h

pub ce_v1_bytes-All-Fits :
    (records : List Tlv) {b : Bytes} → ce_v1_bytes records ≡ ok b → All Fits records
unfolding ce_v1_bytes
ce_v1_bytes-All-Fits records e = extend-All-Fits records [] e

pub eq-layout : (records : List Tlv) {b : Bytes} → ce_v1_bytes records ≡ ok b → b ≡ layout records
eq-layout records {b} e = cc (e, ce_v1_bytes-layout records (ce_v1_bytes-All-Fits records e))
