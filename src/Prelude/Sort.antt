-- ===== src/Prelude/Sort.antt =====
-- `sort_by_key` and `sort_by` of the standard library: stable sorting by a byte-string key.
use mathlib.Core.Path.{◌≡◌, refl, ◌∙◌}
use mathlib.Core.Logic.{inl, inr}
use mathlib.Core.Bool.{Bool, true, false, ◌&&◌, ◌||◌}
use mathlib.Core.List.{List, [], ◌∷◌, Perm, Permᴰ}
use mathlib.Core.List.Perm
use native.Mathlib.Omega.{arith}
use policy_templates.Prelude.Tests.{ltb, eqb, if◌then◌else◌, Bool-cases}
use policy_templates.Prelude.Lists.{All}
use policy_templates.Prelude.ByteString.{Bytes}

-- Lexicographic order: `Ord` of String, str and [u8; 16].
unfoldable pub bytes_le : Bytes → Bytes → Bool
bytes_le [] ys = true
bytes_le (x ∷ xs) [] = false
bytes_le (x ∷ xs) (y ∷ ys) = ltb x y || (eqb x y && bytes_le xs ys)

pub bytes_le_refl : (a : Bytes) → bytes_le a a ≡ true
unfolding bytes_le
bytes_le_refl [] = refl
bytes_le_refl (x ∷ xs) = ground (arith, bytes_le_refl xs)

bytes_le_total : (a b : Bytes) → bytes_le a b ≡ false → bytes_le b a ≡ true
unfolding bytes_le
bytes_le_total [] ys h = cc
bytes_le_total (x ∷ xs) [] h = refl
bytes_le_total (x ∷ xs) (y ∷ ys) h = ground (arith, bytes_le_total xs ys)

bytes_le_antisym : (a b : Bytes) → bytes_le a b ≡ true → bytes_le b a ≡ true → a ≡ b
unfolding bytes_le
bytes_le_antisym [] [] h k = refl
bytes_le_antisym [] (y ∷ ys) h k = cc
bytes_le_antisym (x ∷ xs) [] h k = cc
bytes_le_antisym (x ∷ xs) (y ∷ ys) h k = ground (arith, bytes_le_antisym xs ys)

bytes_le_trans : (a b c : Bytes) → bytes_le a b ≡ true → bytes_le b c ≡ true → bytes_le a c ≡ true
unfolding bytes_le
bytes_le_trans [] b c h k = refl
bytes_le_trans (x ∷ xs) [] c h k = cc
bytes_le_trans (x ∷ xs) (y ∷ ys) [] h k = cc
bytes_le_trans (x ∷ xs) (y ∷ ys) (z ∷ zs) h k = ground (arith, bytes_le_trans xs ys zs)

module _ {A : Type 0} (key : A → Bytes) where
  -- An element goes before the later ones of the same key.
  unfoldable pub insert : A → List A → List A
  insert a [] = a ∷ []
  insert a (b ∷ bs) = if bytes_le (key a) (key b) then a ∷ (b ∷ bs) else b ∷ insert a bs

  unfoldable pub sort_by_key : List A → List A
  unfolding insert
  sort_by_key [] = []
  sort_by_key (a ∷ as') = insert a (sort_by_key as')

  insert-perm : (a : A) (bs : List A) → Perm (insert a bs) (a ∷ bs)
  unfolding insert
  insert-perm a [] = Perm.rfl
  insert-perm a (b ∷ bs) = elim (Bool-cases (bytes_le (key a) (key b))) [
    | inl h ↦ rw h Perm.rfl
    | inr h ↦ rw h (Perm.trans (Perm.cons b (insert-perm a bs)) (Perm.swap a b bs))
  ]

  pub sort_by_key-perm : (l : List A) → Perm (sort_by_key l) l
  unfolding sort_by_key
  sort_by_key-perm [] = Perm.rfl
  sort_by_key-perm (a ∷ l) =
      Perm.trans (insert-perm a (sort_by_key l)) (Perm.cons a (sort_by_key-perm l))

  insert_comm :
      (a b : A) (l : List A)
      → (key a ≡ key b → a ≡ b)
      → insert a (insert b l) ≡ insert b (insert a l)
  unfolding insert
  insert_comm a b [] h =
      ground (arith, bytes_le_total (key a) (key b), bytes_le_antisym (key a) (key b))
  insert_comm a b (c ∷ l) h = ground (
    arith,
    bytes_le_total (key a) (key b),
    bytes_le_antisym (key a) (key b),
    bytes_le_trans (key a) (key b) (key c),
    bytes_le_trans (key b) (key a) (key c),
    insert_comm a b l h,
  )

  module _ (P : A → Type 0) (inj : (a b : A) → P a → P b → key a ≡ key b → a ≡ b) where
    All-permᴰ : {xs ys : List A} → Permᴰ xs ys → All P xs → All P ys
    All-permᴰ Permᴰ.nil h = h
    All-permᴰ (Permᴰ.cons e p) h = (rw e at h.0, All-permᴰ p h.1)
    All-permᴰ (Permᴰ.swap e f) h = (rw f at h.1.0, (rw e at h.0, h.1.1))
    All-permᴰ (Permᴰ.trans p q) h = All-permᴰ q (All-permᴰ p h)

    -- Where a key has one element, the order of the input does not matter.
    pub sort_by_key-permᴰ :
        {xs ys : List A} → Permᴰ xs ys → All P xs → sort_by_key xs ≡ sort_by_key ys
    unfolding sort_by_key
    sort_by_key-permᴰ Permᴰ.nil h = refl
    sort_by_key-permᴰ (Permᴰ.cons e p) h = cc (e, sort_by_key-permᴰ p h.1)
    sort_by_key-permᴰ (Permᴰ.swap {a = a} {b = b} {l = l} e f) h =
        cc (e, f, insert_comm a b (sort_by_key l) (inj a b h.0 h.1.0))
    sort_by_key-permᴰ (Permᴰ.trans p q) h =
        sort_by_key-permᴰ p h ∙ sort_by_key-permᴰ q (All-permᴰ p h)
