-- ===== src/Examples/Keyrings.antt =====
-- A keyring of an owner and a deployer.
use mathlib.Core.List.{Mem, not-mem-nil, eq-or-mem_of_mem-cons}
use mathlib.Core.List.Perm
use mathlib.Core.Logic.Or
use policy_templates.Prelude.{
  ◌≡◌, refl, ap, sym, ◌∙◌, ◌↔◌, Bytes, text, be16, be32, be64, [], ◌∷◌, ok, ◌⊎◌, arith, bytes_le,
  sort_by_key, traverse,
}
use policy_templates.External.{Collision}
use policy_templates.Canonical.Binds.{nth}
use policy_templates.Canonical.{ce_v1_bytes, ce_v1_hash}
use policy_templates.Keyring.{
  owner, deployer, Member, OrgKeyring, OrgKeyringEnvelope, as_str, canonical_keyring_bytes,
  verify_keyring,
}
use policy_templates.Keyring.Binding.{SameKeyring, canonical_keyring_bytes_binds}
use policy_templates.Keyring.Order.{UniqueIds, canonical_keyring_bytes-perm}
use policy_templates.Keyring.Verify.{verify_keyring_iff, Authentic}
use policy_templates.Examples.Toy.{toy, toy-TextLaws}

abbrev pub alice : Member
alice = record { user_id = 1 ∷ []; pubkey = toy.verifying_key (7 ∷ []); role = owner; added_at = 3 }

abbrev pub bob : Member
bob = record {
  user_id = 2 ∷ [];
  pubkey = toy.verifying_key (8 ∷ []);
  role = deployer;
  added_at = 4;
}

abbrev pub keyring : OrgKeyring
keyring = record { org_id = 5 ∷ []; version = 1; members = alice ∷ bob ∷ []; updated_at = 6 }

abbrev reversed : OrgKeyring
reversed = record { org_id = 5 ∷ []; version = 1; members = bob ∷ alice ∷ []; updated_at = 6 }

unfoldable pub keyring_encodes : (b : Bytes) × (canonical_keyring_bytes toy keyring ≡ ok b)
unfolding canonical_keyring_bytes text be16 be32 be64 ce_v1_bytes ce_v1_hash sort_by_key traverse
    bytes_le as_str
keyring_encodes = (_, refl)

IsSet-Member : IsSet Member
IsSet-Member = hlevel

of_pair :
    {a m n : Member} {P : Type 0} → IsProp P → Mem a (m ∷ n ∷ []) → (a ≡ m → P) → (a ≡ n → P) → P
of_pair prop h first second =
    Or.elim prop (eq-or-mem_of_mem-cons h) first
      λ more. Or.elim prop (eq-or-mem_of_mem-cons more) second λ none'. absurd (not-mem-nil none')

unique_of_pair : (m n : Member) → (m.user_id ≡ n.user_id → m ≡ n) → UniqueIds (m ∷ n ∷ [])
unique_of_pair m n h a b ha hb e =
    let id = λ (k : Member). k.user_id in
    of_pair (IsSet-Member a b) ha
      (λ am. of_pair (IsSet-Member a b) hb (λ bm. cc) (λ bn. cc (h (cc (e, ap id am, ap id bn)))))
      (λ an. of_pair (IsSet-Member a b) hb (λ bm. cc (h (cc (e, ap id an, ap id bm)))) (λ bn. cc))

unique : UniqueIds (alice ∷ bob ∷ [])
unique = unique_of_pair alice bob (λ e. absurd (omega (arith, ap (nth 0) e)))

same_bytes : canonical_keyring_bytes toy keyring ≡ canonical_keyring_bytes toy reversed
same_bytes =
    canonical_keyring_bytes-perm toy keyring (bob ∷ alice ∷ []) unique (Perm.swap bob alice [])

canonical_keyring_bytes-perm_example :
    canonical_keyring_bytes toy keyring ≡ canonical_keyring_bytes toy reversed
canonical_keyring_bytes-perm_example =
    canonical_keyring_bytes-perm toy keyring (bob ∷ alice ∷ []) unique (Perm.swap bob alice [])

canonical_keyring_bytes_binds_example : SameKeyring keyring reversed ⊎ Collision toy
canonical_keyring_bytes_binds_example =
    canonical_keyring_bytes_binds toy keyring reversed keyring_encodes.0 toy-TextLaws (omega arith)
      (omega arith) keyring_encodes.1 (sym same_bytes ∙ keyring_encodes.1)

abbrev pub envelope : OrgKeyringEnvelope
envelope = record {
  keyring = keyring;
  signature = toy.sign (7 ∷ []) keyring_encodes.0;
  signing_pubkey = alice.pubkey;
}

verify_keyring_iff_example :
    (verify_keyring toy envelope alice.pubkey ≡ ok keyring)
    ↔ (Authentic toy envelope alice.pubkey × (keyring ≡ keyring))
verify_keyring_iff_example = verify_keyring_iff toy envelope alice.pubkey keyring
