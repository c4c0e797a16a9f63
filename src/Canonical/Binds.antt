-- ===== src/Canonical/Binds.antt =====
-- Encodings that bind what they encode, up to a collision: composed by `do`.
use policy_templates.Prelude.{
  ℕ, zero, suc, ◌≡◌, refl, Bytes, List, [], ◌∷◌, Result, ok, ◌⊎◌, inl, inr, traverse, traverse_cons,
  ap, be64, ◌^◌, ◌<◌, arith,
}
use policy_templates.External.{External, Collision, TextLaws}
use policy_templates.Canonical.{Tlv}

infixl 5 ◌>>=◌
abbrev pub ◌>>=◌ : {P Q C : Type 0} → P ⊎ C → (P → Q ⊎ C) → Q ⊎ C
inl p >>= f = f p
inr c >>= f = inr c

-- `f` gives different things different results, or there is a collision.
abbrev pub Binds : {A B : Type 0} → External → (A → Result B) → Type 0
Binds {A} {B} x f = (a a' : A) (b : B) → f a ≡ ok b → f a' ≡ ok b → (a ≡ a') ⊎ Collision x

-- The value of the record at a place.
abbrev pub value_at : ℕ → List Tlv → Bytes
value_at i [] = []
value_at zero ((label, value) ∷ records) = value
value_at (suc i) ((label, value) ∷ records) = value_at i records

abbrev pub label_at : ℕ → List Tlv → Bytes
label_at i [] = []
label_at zero ((label, value) ∷ records) = label
label_at (suc i) ((label, value) ∷ records) = label_at i records

abbrev pub others : List Tlv → List Tlv
others [] = []
others (record' ∷ records) = records

-- The byte at a place.
abbrev pub nth : ℕ → Bytes → ℕ
nth i [] = 0
nth zero (b ∷ bytes) = b
nth (suc i) (b ∷ bytes) = nth i bytes

module _ {A B : Type 0} (x : External) (f : A → Result B) (binds : Binds x f) where
  pub traverse-Binds : Binds x (traverse f)
  unfolding traverse
  traverse-Binds [] [] ts e e' = inl refl
  traverse-Binds [] (b ∷ bs) ts e e' = let (y, ys, _, _, g) = traverse_cons f b bs e' in cc
  traverse-Binds (a ∷ as') [] ts e e' = let (y, ys, _, _, g) = traverse_cons f a as' e in cc
  traverse-Binds (a ∷ as') (b ∷ bs) ts e e' =
      let (y, ys, h, hs, g) = traverse_cons f a as' e in
      let (y', ys', h', hs', g') = traverse_cons f b bs e' in
      do
        p ← binds a b y h (cc (h', g, g'))
        q ← traverse-Binds as' bs ys hs (cc (hs', g, g'))
        inl (cc (p, q))

-- What is printed and read back is not confused.
module _ {x : External} (laws : TextLaws x) where
  pub to_rfc3339_inj : (s t : ℕ) → x.to_rfc3339 s ≡ x.to_rfc3339 t → s ≡ t
  to_rfc3339_inj s t e = cc (laws.parse_rfc3339-to_rfc3339 s, laws.parse_rfc3339-to_rfc3339 t, e)

  pub uuid_to_string_inj : (u v : Bytes) → x.uuid_to_string u ≡ x.uuid_to_string v → u ≡ v
  uuid_to_string_inj u v e =
      cc (laws.uuid_parse-uuid_to_string u, laws.uuid_parse-uuid_to_string v, e)

  pub hex_encode_inj : (a b : Bytes) → x.hex_encode a ≡ x.hex_encode b → a ≡ b
  hex_encode_inj a b e = cc (laws.hex_decode-hex_encode a, laws.hex_decode-hex_encode b, e)

pub be64_inj : (m n : ℕ) → m < 2 ^ 64 → n < 2 ^ 64 → be64 m ≡ be64 n → m ≡ n
unfolding be64
be64_inj m n hm hn e =
    let at = λ (i : ℕ). ap (nth i) e in
    omega (arith, at 0, at 1, at 2, at 3, at 4, at 5, at 6, at 7)
