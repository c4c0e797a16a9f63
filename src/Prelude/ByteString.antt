-- ===== src/Prelude/ByteString.antt =====
-- Byte strings. A Rust `String`, `Vec<u8>` or fixed array is the list of its bytes.
use Prim.Native.Nat.{ℕ, ◌/◌, ◌%◌}
use Prim.Native.Char.{code}
use Prim.Native.String.{String}
use mathlib.Core.Path.{◌≡◌, refl}
use mathlib.Core.Logic.{◌≢◌, ◌↔◌, ◌⊎◌, inl, inr}
use mathlib.Core.Bool.{Bool, true, false, ◌&&◌}
use mathlib.Core.List.{List, [], ◌∷◌}
use native.Mathlib.Omega.{arith}
use policy_templates.Prelude.Tests.{eqb, Bool-cases}

abbrev pub Bytes : Type 0
Bytes = List ℕ

-- The bytes of an ASCII literal of the source.
unfoldable pub text : String → Bytes
text String.[] = []
text (String.◌∷◌ c s) = code c ∷ text s

infix 50 ◌==◌
unfoldable pub ◌==◌ : Bytes → Bytes → Bool
[] == [] = true
[] == (y ∷ ys) = false
(x ∷ xs) == [] = false
(x ∷ xs) == (y ∷ ys) = eqb x y && xs == ys

pub ==_sound : (a b : Bytes) → (a == b) ≡ true → a ≡ b
unfolding ◌==◌
==_sound [] [] h = refl
==_sound [] (y ∷ ys) h = cc
==_sound (x ∷ xs) [] h = cc
==_sound (x ∷ xs) (y ∷ ys) h = ground (arith, ==_sound xs ys)

pub ==_refl : (a : Bytes) → (a == a) ≡ true
unfolding ◌==◌
==_refl [] = refl
==_refl (x ∷ xs) = ground (arith, ==_refl xs)

pub ==_iff : (a b : Bytes) → ((a == b) ≡ true) ↔ (a ≡ b)
==_iff a b = (==_sound a b, λ e. rw e (==_refl b))

pub Bytes-dec : (a b : Bytes) → (a ≡ b) ⊎ (a ≢ b)
Bytes-dec a b = elim (Bool-cases (a == b)) [
  | inl h ↦ inl (==_sound a b h)
  | inr h ↦ inr (λ e. cc (h, (==_iff a b).1 e))
]

-- u16::to_be_bytes, u32::to_be_bytes and u64::to_be_bytes
unfoldable pub be16 : ℕ → Bytes
be16 n = (n / 256 % 256) ∷ (n % 256) ∷ []

unfoldable pub be32 : ℕ → Bytes
be32 n = (n / 16777216 % 256) ∷ (n / 65536 % 256) ∷ (n / 256 % 256) ∷ (n % 256) ∷ []

unfoldable pub be64 : ℕ → Bytes
be64 n =
    (n / 72057594037927936 % 256)
    ∷ (n / 281474976710656 % 256)
    ∷ (n / 1099511627776 % 256)
    ∷ (n / 4294967296 % 256)
    ∷ (n / 16777216 % 256)
    ∷ (n / 65536 % 256)
    ∷ (n / 256 % 256)
    ∷ (n % 256)
    ∷ []
