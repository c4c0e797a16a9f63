-- ===== src/Descriptor/Signed.antt =====
-- What the signed bytes and the core hash of a descriptor say about it.
use policy_templates.Prelude.{◌≡◌, ap, Bytes, text, true, false, ok, >>=-eq-ok, ◌⊎◌, inl}
use policy_templates.External.{External, Collision, TextLaws}
use policy_templates.Canonical.Binding.{ce_v1_bytes_inj, sha256_binds}
use policy_templates.Canonical.Binds.{◌>>=◌}
use policy_templates.Descriptor.{DeploymentDescriptor}
use policy_templates.Descriptor.Records.{
  new_sub_hashes, descriptor_records, descriptor_canonical_bytes, descriptor_core_canonical_bytes,
  descriptor_core_hash,
}
use policy_templates.Descriptor.Binding.{
  IsTyped, SameCore, SameAnchors, sub_hashes_of, records_bind, from_place, anchors_inj,
}

abbrev pub signed_purpose : Bytes
signed_purpose = text "enclava-deployment-descriptor-v1"

abbrev pub core_purpose : Bytes
core_purpose = text "enclava-deployment-descriptor-core-v1"

-- Two well-typed descriptors with the same signed bytes are the same in every field, the order of
-- variables with different names in lists of variables apart, unless SHA-256 has a collision.
pub descriptor_canonical_bytes_binds :
    (x : External) (d e : DeploymentDescriptor) (b : Bytes)
    → TextLaws x
    → IsTyped d
    → IsTyped e
    → descriptor_canonical_bytes x d ≡ ok b
    → descriptor_canonical_bytes x e ≡ ok b
    → (SameCore d e × SameAnchors d e) ⊎ Collision x
unfolding descriptor_canonical_bytes
descriptor_canonical_bytes_binds x d e b laws td te hd he =
    let (s, es, bs) = >>=-eq-ok (new_sub_hashes x d) _ hd in
    let (t, et, bt) = >>=-eq-ok (new_sub_hashes x e) _ he in
    let same =
      ce_v1_bytes_inj (descriptor_records d signed_purpose true s)
        (descriptor_records e signed_purpose true t) bs bt in
    do
      core ←
          records_bind x laws d e td te signed_purpose true s t (sub_hashes_of x d s es)
            (sub_hashes_of x e t et) same
      inl (core, unfold descriptor_records in anchors_inj d e (ap (from_place 28) same))

-- Two well-typed descriptors with the same core hash are the same in every field but the hashes of
-- the generated policies and of the init data, and the order of variables with different names,
-- unless SHA-256 has a collision.
pub descriptor_core_hash_binds :
    (x : External) (d e : DeploymentDescriptor) (h : Bytes)
    → TextLaws x
    → IsTyped d
    → IsTyped e
    → descriptor_core_hash x d ≡ ok h
    → descriptor_core_hash x e ≡ ok h
    → SameCore d e ⊎ Collision x
unfolding descriptor_core_hash descriptor_core_canonical_bytes
descriptor_core_hash_binds x d e h laws td te hd he =
    let (b, eb, kb) = >>=-eq-ok (descriptor_core_canonical_bytes x d) (λ b. ok (x.sha256 b)) hd in
    let (c, ec, kc) = >>=-eq-ok (descriptor_core_canonical_bytes x e) (λ b. ok (x.sha256 b)) he in
    let (s, es, bs) = >>=-eq-ok (new_sub_hashes x d) _ eb in
    let (t, et, bt) = >>=-eq-ok (new_sub_hashes x e) _ ec in
    do
      bytes ← sha256_binds x b c (cc (kb, kc))
      records_bind x laws d e td te core_purpose false s t (sub_hashes_of x d s es)
          (sub_hashes_of x e t et)
          (ce_v1_bytes_inj (descriptor_records d core_purpose false s)
            (descriptor_records e core_purpose false t) bs (cc (bt, bytes)))
