-- ===== src/Canonical/Decode.antt =====
-- A reader of CE-v1 bytes, which the repository does not have: it states what the encoding of
-- canonical.rs means.
use mathlib.Core.Option
use policy_templates.Prelude.{
  ℕ, zero, suc, ◌+◌, ◌*◌, ◌/◌, ◌%◌, ◌<◌, ◌≤◌, ◌≡◌, refl, Bytes, be16, be32, List, [], ◌∷◌, ◌++◌,
  length, length-append, All, Option, some, none, ok, arith,
}
use policy_templates.Canonical.{Tlv, ce_v1_bytes}
use policy_templates.Canonical.Layout.{Fits, layout, ce_v1_bytes-All-Fits, eq-layout}

-- The first n bytes and the rest.
split_at : ℕ → Bytes → Option (Bytes × Bytes)
split_at zero bytes = some ([], bytes)
split_at (suc n) [] = none
split_at (suc n) (b ∷ bytes) = Option.map (λ (p : Bytes × Bytes). (b ∷ p.0, p.1)) (split_at n bytes)

-- A number of two or of four bytes, highest first, then as many bytes, and the rest.
read_label : Bytes → Option (Bytes × Bytes)
read_label (a ∷ b ∷ bytes) = split_at (a * 256 + b) bytes
read_label _ = none

read_value : Bytes → Option (Bytes × Bytes)
read_value (a ∷ b ∷ c ∷ d ∷ bytes) = split_at (((a * 256 + b) * 256 + c) * 256 + d) bytes
read_value _ = none

infixl 5 ◌>>=◌
abbrev ◌>>=◌ {ℓ κ} : {A : Type ℓ} {B : Type κ} → Option A → (A → Option B) → Option B
none >>= f = none
some a >>= f = f a

-- Every record takes six bytes at least, so the number of bytes is fuel enough.
decode_from : ℕ → Bytes → Option (List Tlv)
decode_from fuel [] = some []
decode_from zero (b ∷ bytes) = none
decode_from (suc fuel) (b ∷ bytes) = do
  (label, r) ← read_label (b ∷ bytes)
  (value, rest) ← read_value r
  records ← decode_from fuel rest
  some ((label, value) ∷ records)

unfoldable pub decode : Bytes → Option (List Tlv)
unfolding decode_from read_label read_value split_at
decode bytes = decode_from (length bytes) bytes

split_at-append : (b rest : Bytes) → split_at (length b) (b ++ rest) ≡ some (b, rest)
unfolding split_at
split_at-append [] rest = refl
split_at-append (x ∷ b) rest = rw (split_at-append b rest) refl

read_label-append :
    (label rest : Bytes)
    → length label < 65536
    → read_label (be16 (length label) ++ (label ++ rest)) ≡ some (label, rest)
unfolding read_label be16
read_label-append label rest h =
    let n : length label / 256 % 256 * 256 + length label % 256 ≡ length label = omega arith in
    rw n (split_at-append label rest)

read_value-append :
    (value rest : Bytes)
    → length value < 4294967296
    → read_value (be32 (length value) ++ (value ++ rest)) ≡ some (value, rest)
unfolding read_value be32
read_value-append value rest h =
    let v = length value in
    let n : ((v / 16777216 % 256 * 256 + v / 65536 % 256) * 256 + v / 256 % 256) * 256 + v % 256
        ≡ v =
      omega arith in
    rw n (split_at-append value rest)

decode_from-record :
    (bytes r rest label value : Bytes) (fuel : ℕ) (records : List Tlv)
    → read_label bytes ≡ some (label, r)
    → read_value r ≡ some (value, rest)
    → decode_from fuel rest ≡ some records
    → decode_from (suc fuel) bytes ≡ some ((label, value) ∷ records)
decode_from-record [] r rest label value fuel records el ev er = unfold read_label in cc
decode_from-record (b ∷ bytes) r rest label value fuel records el ev er =
    unfold decode_from in rw (el, ev, er) refl

-- A record's six bytes of lengths come on top of the rest.
layout_shrinks :
    (label value : Bytes) (records : List Tlv)
    → length (layout records) + 6 ≤ length (layout ((label, value) ∷ records))
unfolding layout be16 be32
layout_shrinks label value records = omega (
  arith,
  length-append label (be32 (length value) ++ (value ++ layout records)),
  length-append value (layout records),
)

decode_from-layout :
    (records : List Tlv) (fuel : ℕ)
    → All Fits records
    → length (layout records) ≤ fuel
    → decode_from fuel (layout records) ≡ some records
decode_from-layout [] fuel h hf = unfold decode_from layout in refl
decode_from-layout ((label, value) ∷ records) zero h hf =
    absurd (omega (arith, layout_shrinks label value records))
decode_from-layout ((label, value) ∷ records) (suc fuel) ((hl, hv), hs) hf =
    decode_from-record (layout ((label, value) ∷ records))
      (be32 (length value) ++ (value ++ layout records)) (layout records) label value fuel records
      (unfold layout in
        read_label-append label (be32 (length value) ++ (value ++ layout records)) hl)
      (read_value-append value (layout records) hv)
      (decode_from-layout records fuel hs (omega (arith, layout_shrinks label value records)))

-- The reader gets back, from whatever `ce_v1_bytes` wrote, the records that it was given.
pub decode-ce_v1_bytes :
    (records : List Tlv) {bytes : Bytes}
    → ce_v1_bytes records ≡ ok bytes
    → decode bytes ≡ some records
unfolding decode
decode-ce_v1_bytes records {bytes} e =
    rw (eq-layout records e)
      (decode_from-layout records _ (ce_v1_bytes-All-Fits records e) (omega arith))
