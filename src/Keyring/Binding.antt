-- ===== src/Keyring/Binding.antt =====
-- What the canonical bytes of a keyring say about it.
use mathlib.Core.List.{Perm}
use mathlib.Core.List.Perm
use policy_templates.Prelude.{
  ◌≡◌, refl, ap, ◌^◌, ◌<◌, Bytes, text, List, ok, >>=-eq-ok, ◌⊎◌, inl, sort_by_key,
  sort_by_key-perm, traverse, arith,
}
use policy_templates.External.{External, Collision, TextLaws}
use policy_templates.Canonical.{ce_v1_bytes, ce_v1_hash}
use policy_templates.Canonical.Binding.{ce_v1_bytes_inj, ce_v1_hash_binds}
use policy_templates.Canonical.Binds.{
  ◌>>=◌, Binds, nth, value_at, traverse-Binds, to_rfc3339_inj, be64_inj,
}
use policy_templates.Keyring.{
  Role, owner, admin, deployer, as_str, Member, OrgKeyring, member_records, canonical_member_hash,
  member_entry, canonical_members_hash, keyring_records, canonical_keyring_bytes,
}

pub as_str_inj : (r s : Role) → as_str r ≡ as_str s → r ≡ s
unfolding as_str text
as_str_inj owner owner e = refl
as_str_inj owner admin e = absurd (omega (arith, ap (nth 0) e))
as_str_inj owner deployer e = absurd (omega (arith, ap (nth 0) e))
as_str_inj admin owner e = absurd (omega (arith, ap (nth 0) e))
as_str_inj admin admin e = refl
as_str_inj admin deployer e = absurd (omega (arith, ap (nth 0) e))
as_str_inj deployer owner e = absurd (omega (arith, ap (nth 0) e))
as_str_inj deployer admin e = absurd (omega (arith, ap (nth 0) e))
as_str_inj deployer deployer e = refl

module _ {x : External} (laws : TextLaws x) where
  member_records_inj : (m n : Member) → member_records x m ≡ member_records x n → m ≡ n
  unfolding member_records
  member_records_inj m n e = λ i. record {
    user_id = ap (value_at 0) e i;
    pubkey = ap (value_at 1) e i;
    role = as_str_inj m.role n.role (ap (value_at 2) e) i;
    added_at = to_rfc3339_inj laws m.added_at n.added_at (ap (value_at 3) e) i;
  }

  canonical_member_hash-Binds : Binds x (canonical_member_hash x)
  unfolding canonical_member_hash
  canonical_member_hash-Binds m n h e e' = do
    same ← ce_v1_hash_binds x (member_records x m) (member_records x n) e e'
    inl (member_records_inj m n same)

  member_entry-Binds : Binds x (member_entry x)
  unfolding member_entry
  member_entry-Binds m n t e e' =
      let (h, eh, p) =
        >>=-eq-ok (canonical_member_hash x m) (λ h. ok (x.uuid_to_string m.user_id, h)) e in
      let (h', eh', p') =
        >>=-eq-ok (canonical_member_hash x n) (λ h. ok (x.uuid_to_string n.user_id, h)) e' in
      canonical_member_hash-Binds m n h eh (cc (eh', p, p'))

  -- The hash of the members forgets only the order of the list.
  canonical_members_hash-Binds :
      (ms ns : List Member) (h : Bytes)
      → canonical_members_hash x ms ≡ ok h
      → canonical_members_hash x ns ≡ ok h
      → Perm ms ns ⊎ Collision x
  unfolding canonical_members_hash
  canonical_members_hash-Binds ms ns h e e' =
      let key = λ (m : Member). m.user_id in
      let (rs, ers, p) =
        >>=-eq-ok (traverse (member_entry x) (sort_by_key key ms)) (ce_v1_hash x) e in
      let (ss, ess, q) =
        >>=-eq-ok (traverse (member_entry x) (sort_by_key key ns)) (ce_v1_hash x) e' in
      do
        records ← ce_v1_hash_binds x rs ss p q
        sorted ←
            traverse-Binds x (member_entry x) member_entry-Binds (sort_by_key key ms)
              (sort_by_key key ns) rs ers (cc (ess, records))
        inl (Perm.trans (Perm.symm (sort_by_key-perm key ms)) (rw sorted (sort_by_key-perm key ns)))

abbrev pub SameKeyring : OrgKeyring → OrgKeyring → Type 0
SameKeyring k l =
    (k.org_id ≡ l.org_id)
    × (k.version ≡ l.version)
    × Perm k.members l.members
    × (k.updated_at ≡ l.updated_at)

-- Two keyrings with 64-bit versions whose canonical bytes are the same agree in organisation,
-- version, time of update and, up to their order, members, unless SHA-256 has a collision.
pub canonical_keyring_bytes_binds :
    (x : External) (k l : OrgKeyring) (b : Bytes)
    → TextLaws x
    → k.version < 2 ^ 64
    → l.version < 2 ^ 64
    → canonical_keyring_bytes x k ≡ ok b
    → canonical_keyring_bytes x l ≡ ok b
    → SameKeyring k l ⊎ Collision x
unfolding canonical_keyring_bytes
canonical_keyring_bytes_binds x k l b laws hk hl e e' =
    let (h, eh, p) =
      >>=-eq-ok (canonical_members_hash x k.members) (λ h. ce_v1_bytes (keyring_records x k h)) e in
    let (h', eh', q) =
      >>=-eq-ok (canonical_members_hash x l.members) (λ h. ce_v1_bytes (keyring_records x l h))
        e' in
    let same = ce_v1_bytes_inj (keyring_records x k h) (keyring_records x l h') p q in
    do
      members ←
          canonical_members_hash-Binds laws k.members l.members h eh
            (unfold keyring_records in cc (eh', ap (value_at 3) same))
      inl (
          unfold keyring_records in
          (
            ap (value_at 1) same,
            be64_inj k.version l.version hk hl (ap (value_at 2) same),
            members,
            to_rfc3339_inj laws k.updated_at l.updated_at (ap (value_at 4) same),
          ))
