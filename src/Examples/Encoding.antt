-- ===== src/Examples/Encoding.antt =====
-- CE-v1 at small inputs, the source's own tests among them.
use policy_templates.Prelude.{◌≡◌, refl, Bytes, text, List, [], ◌∷◌, ok, ◌⊎◌, some, be16, be32}
use policy_templates.External.{Collision}
use policy_templates.Canonical.{Tlv, ce_v1_bytes, ce_v1_hash, capacity}
use policy_templates.Canonical.Decode.{decode, decode-ce_v1_bytes}
use policy_templates.Canonical.Binding.{ce_v1_hash_binds, length-ce_v1_bytes}
use policy_templates.Examples.Toy.{toy}

abbrev ab_cd : List Tlv
ab_cd = (text "ab", text "cd") ∷ []

-- record_layout_matches_d11 of canonical.rs
record_layout : ce_v1_bytes ab_cd ≡ ok (0 ∷ 2 ∷ 97 ∷ 98 ∷ 0 ∷ 0 ∷ 0 ∷ 2 ∷ 99 ∷ 100 ∷ [])
unfolding ce_v1_bytes text be16 be32
record_layout = refl

decode-ce_v1_bytes_example : decode (0 ∷ 2 ∷ 97 ∷ 98 ∷ 0 ∷ 0 ∷ 0 ∷ 2 ∷ 99 ∷ 100 ∷ []) ≡ some ab_cd
decode-ce_v1_bytes_example = decode-ce_v1_bytes ab_cd record_layout

length-ce_v1_bytes_example : 10 ≡ capacity ab_cd
length-ce_v1_bytes_example = length-ce_v1_bytes ab_cd record_layout

abbrev ab_cd_bytes : Bytes
ab_cd_bytes = 0 ∷ 2 ∷ 97 ∷ 98 ∷ 0 ∷ 0 ∷ 0 ∷ 2 ∷ 99 ∷ 100 ∷ []

ab_cd_hash : ce_v1_hash toy ab_cd ≡ ok (toy.sha256 ab_cd_bytes)
unfolding ce_v1_hash ce_v1_bytes text be16 be32
ab_cd_hash = refl

ce_v1_hash_binds_example : (ab_cd ≡ ab_cd) ⊎ Collision toy
ce_v1_hash_binds_example = ce_v1_hash_binds toy ab_cd ab_cd ab_cd_hash ab_cd_hash
