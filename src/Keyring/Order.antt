-- ===== src/Keyring/Order.antt =====
-- The order of the members of a keyring, and its canonical bytes.
use mathlib.Core.List.{Perm, Permᴰ, Mem, mem-cons_self, mem-cons_of_mem}
use mathlib.Core.Logic.{∥∥₁_elim}
use policy_templates.Prelude.{
  ◌≡◌, ap, Bytes, List, [], ◌∷◌, Result, All, sort_by_key-permᴰ, traverse, ◌>>=◌,
}
use policy_templates.External.{External}
use policy_templates.Canonical.{ce_v1_hash, ce_v1_bytes}
use policy_templates.Keyring.{
  Member, OrgKeyring, member_entry, canonical_members_hash, canonical_keyring_bytes,
  keyring_records,
}

All-Mem : (ms : List Member) (P : Member → Type 0) → ((m : Member) → Mem m ms → P m) → All P ms
All-Mem [] P h = tt
All-Mem (m ∷ ms) P h = (h m mem-cons_self, All-Mem ms P (λ n k. h n (mem-cons_of_mem m k)))

-- No two members have one user id.
abbrev pub UniqueIds : List Member → Type 0
UniqueIds ms = (m n : Member) → Mem m ms → Mem n ms → m.user_id ≡ n.user_id → m ≡ n

module _ (x : External) {ms ns : List Member} (unique : UniqueIds ms) where
  canonical_members_hash-permᴰ :
      Permᴰ ms ns → canonical_members_hash x ms ≡ canonical_members_hash x ns
  unfolding canonical_members_hash
  canonical_members_hash-permᴰ p =
      ap (λ (sorted : List Member). traverse (member_entry x) sorted >>= ce_v1_hash x)
        (sort_by_key-permᴰ (λ m. m.user_id) (λ m. Mem m ms) unique p
          (All-Mem ms (λ m. Mem m ms) (λ m h. h)))

IsSet-Bytes-Result : IsSet (Result Bytes)
IsSet-Bytes-Result = hlevel

-- Two keyrings that differ only in the order of members with distinct user ids have the same
-- canonical bytes.
pub canonical_keyring_bytes-perm :
    (x : External) (k : OrgKeyring) (members : List Member)
    → UniqueIds k.members
    → Perm k.members members
    → canonical_keyring_bytes x k ≡ canonical_keyring_bytes x (record k { members = members })
unfolding canonical_keyring_bytes
canonical_keyring_bytes-perm x k members unique p = ∥∥₁_elim p (IsSet-Bytes-Result _ _) (λ d.
    ap (λ (h : Result Bytes). h >>= λ hash. ce_v1_bytes (keyring_records x k hash))
      (canonical_members_hash-permᴰ x unique d))
