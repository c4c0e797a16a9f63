-- ===== src/Genpolicy/Required.antt =====
-- The list of required configuration keys in its normal form.
use policy_templates.Prelude.{
  ℕ, suc, ◌≡◌, refl, ap, ◌∙◌, Bytes, ◌==◌, trim, trim_from, trim_end, space_length, split, Bool,
  true, false, not, ◌||◌, Bool-cases, any, all, All, eqb, length, none, some, List, [], ◌∷◌, ◌++◌,
  if◌then◌else◌, inl, inr, arith, ◌≤◌, ◌⊎◌,
}
use policy_templates.Policy.Sudo.{and_true}
use policy_templates.Genpolicy.Environment.{is_ascii_alphabetic, is_ascii_alphanumeric}
use policy_templates.Genpolicy.Keys.{
  is_empty, is_valid_config_key, trimmed_keys, join_keys, normalize_required_config_keys,
}

abbrev is_comma : ℕ → Bool
is_comma c = eqb c 44

-- A byte of a key.
abbrev is_key_byte : ℕ → Bool
is_key_byte b = is_ascii_alphanumeric b || eqb b 95

abbrev Valid : Bytes → Type 0
Valid key = is_valid_config_key key ≡ true

all-key_byte : (key : Bytes) → Valid key → all is_key_byte key ≡ true
unfolding is_valid_config_key
all-key_byte [] h = cc
all-key_byte (c ∷ key) h = ground arith

key_byte-comma : (b : ℕ) → is_key_byte b ≡ true → is_comma b ≡ false
key_byte-comma b h = ground arith

key_byte-space : (b : ℕ) (s : Bytes) → is_key_byte b ≡ true → space_length (b ∷ s) ≡ 0
unfolding space_length
key_byte-space b [] h = ground arith
key_byte-space b (c ∷ []) h = ground arith
key_byte-space b (c ∷ (d ∷ s)) h = ground arith

trim_from-key : (s : Bytes) → all is_key_byte s ≡ true → trim_from 0 s ≡ s
unfolding trim_from
trim_from-key [] h = refl
trim_from-key (b ∷ s) h = rw (key_byte-space b s ((and_true _ _).0 h).0) refl

suc-zero : (n : ℕ) → eqb (suc n) 0 ≡ false
suc-zero n = ground arith

trim_end-key : (s : Bytes) → all is_key_byte s ≡ true → trim_end s ≡ s
unfolding trim_end
trim_end-key [] h = refl
trim_end-key (b ∷ s) h =
    rw
      (
        trim_from-key (b ∷ s) h,
        trim_end-key s ((and_true (is_key_byte b) _).0 h).1,
        suc-zero (length s),
      )
      refl

trim-key : (key : Bytes) → Valid key → trim key ≡ key
unfolding trim
trim-key key h =
    let bytes = all-key_byte key h in rw (trim_from-key key bytes) (trim_end-key key bytes)

key-not_empty : (key : Bytes) → Valid key → (key == []) ≡ false
unfolding is_valid_config_key ◌==◌
key-not_empty [] h = cc
key-not_empty (c ∷ key) h = refl

trimmed_keys-Valid : (keys : List Bytes) → All Valid keys → trimmed_keys keys ≡ keys
unfolding trimmed_keys
trimmed_keys-Valid [] h = refl
trimmed_keys-Valid (key ∷ keys) (valid, h) =
    rw (trim-key key valid, key-not_empty key valid)
      (ap (λ ks. key ∷ ks) (trimmed_keys-Valid keys h))

split-last : (key : Bytes) → all is_key_byte key ≡ true → split is_comma key ≡ key ∷ []
unfolding split
split-last [] h = refl
split-last (b ∷ key) h =
    let (here, rest) = (and_true (is_key_byte b) _).0 h in
    rw (key_byte-comma b here, split-last key rest) refl

split-comma :
    (key rest : Bytes)
    → all is_key_byte key ≡ true
    → split is_comma (key ++ (44 ∷ rest)) ≡ key ∷ split is_comma rest
unfolding split
split-comma [] rest h = refl
split-comma (b ∷ key) rest h =
    let (here, more) = (and_true (is_key_byte b) _).0 h in
    rw (key_byte-comma b here, split-comma key rest more) refl

split-join_keys :
    (key : Bytes) (keys : List Bytes)
    → All Valid (key ∷ keys)
    → split is_comma (join_keys (key ∷ keys)) ≡ key ∷ keys
unfolding join_keys
split-join_keys key [] (valid, h) = split-last key (all-key_byte key valid)
split-join_keys key (next ∷ keys) (valid, h) =
    split-comma key (join_keys (next ∷ keys)) (all-key_byte key valid)
    ∙ ap (λ ks. key ∷ ks) (split-join_keys next keys h)

any-Valid :
    (keys : List Bytes) → (any (λ k. not (is_valid_config_key k)) keys ≡ false) → All Valid keys
any-Valid [] h = tt
any-Valid (key ∷ keys) h = elim (Bool-cases (is_valid_config_key key)) [
  | inl e ↦ (e, any-Valid keys (rw e at h))
  | inr e ↦ absurd (let h' = rw e at h in cc)
]

Valid-any :
    (keys : List Bytes) → All Valid keys → any (λ k. not (is_valid_config_key k)) keys ≡ false
Valid-any [] h = refl
Valid-any (key ∷ keys) (valid, h) = rw valid (Valid-any keys h)

abbrev pub IsLetter : ℕ → Type 0
IsLetter c = (65 ≤ c × c ≤ 90) ⊎ (97 ≤ c × c ≤ 122)

abbrev pub IsDigit : ℕ → Type 0
IsDigit c = 48 ≤ c × c ≤ 57

-- An ASCII letter or an underscore, and then ASCII letters, digits and underscores.
abbrev pub IsKey : Bytes → Type 0
IsKey [] = ⊥
IsKey (c ∷ key) = (IsLetter c ⊎ (c ≡ 95)) × All (λ b. IsLetter b ⊎ (IsDigit b ⊎ (b ≡ 95))) key

IsLetter-of_test : (c : ℕ) → (is_ascii_alphabetic c || eqb c 95) ≡ true → IsLetter c ⊎ (c ≡ 95)
IsLetter-of_test c h = ground arith

IsKeyByte-of_test : (b : ℕ) → is_key_byte b ≡ true → IsLetter b ⊎ (IsDigit b ⊎ (b ≡ 95))
IsKeyByte-of_test b h = ground arith

IsKeyBytes-of_test :
    (key : Bytes) → all is_key_byte key ≡ true → All (λ b. IsLetter b ⊎ (IsDigit b ⊎ (b ≡ 95))) key
IsKeyBytes-of_test [] h = tt
IsKeyBytes-of_test (b ∷ key) h =
    let (here, rest) = (and_true (is_key_byte b) _).0 h in
    (IsKeyByte-of_test b here, IsKeyBytes-of_test key rest)

IsKey-of_test : (key : Bytes) → Valid key → IsKey key
unfolding is_valid_config_key
IsKey-of_test [] h = cc
IsKey-of_test (c ∷ key) h =
    let (first, rest) = (and_true (is_ascii_alphabetic c || eqb c 95) _).0 h in
    (IsLetter-of_test c first, IsKeyBytes-of_test key rest)

All-IsKey : (keys : List Bytes) → All Valid keys → All IsKey keys
All-IsKey [] h = tt
All-IsKey (key ∷ keys) (valid, h) = (IsKey-of_test key valid, All-IsKey keys h)

-- The keys of a value that normalises.
normalize-Valid :
    (keys : List Bytes) {r : Bytes}
    → (if is_empty keys || any (λ k. not (is_valid_config_key k)) keys
        then none
        else some (join_keys keys))
      ≡ some r
    → All Valid keys × (is_empty keys ≡ false) × (r ≡ join_keys keys)
normalize-Valid [] h = absurd (cc)
normalize-Valid (key ∷ keys) h =
    elim (Bool-cases (any (λ k. not (is_valid_config_key k)) (key ∷ keys))) [
      | inl e ↦ absurd (let h' = rw e at h in cc)
      | inr e ↦ (any-Valid (key ∷ keys) e, refl, let h' = rw e at h in cc)
    ]

normalize-join_keys :
    (keys : List Bytes)
    → All Valid keys
    → is_empty keys ≡ false
    → All Valid (split is_comma (join_keys keys))
      × (normalize_required_config_keys (join_keys keys) ≡ some (join_keys keys))
unfolding normalize_required_config_keys
normalize-join_keys [] valid h = absurd (cc)
normalize-join_keys (key ∷ keys) valid h =
    let parts = split-join_keys key keys valid in
    (
      rw parts valid,
      rw (parts, trimmed_keys-Valid (key ∷ keys) valid, Valid-any (key ∷ keys) valid) refl,
    )

-- If a value normalises, then the parts of the result between commas are keys, each of an ASCII letter
-- or an underscore and then ASCII letters, digits and underscores, and the result normalises to
-- itself.
pub normalize_required_config_keys-Valid :
    (value : Bytes) {result : Bytes}
    → normalize_required_config_keys value ≡ some result
    → All IsKey (split (λ c. eqb c 44) result)
      × (normalize_required_config_keys result ≡ some result)
unfolding normalize_required_config_keys
normalize_required_config_keys-Valid value h =
    let keys = trimmed_keys (split is_comma value) in
    let (valid, some_keys, same) = normalize-Valid keys h in
    let (parts, again) = normalize-join_keys keys valid some_keys in
    rw same (All-IsKey _ parts, again)
