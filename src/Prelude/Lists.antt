-- ===== src/Prelude/Lists.antt =====
-- Lists measured by native numbers, and predicates on lists by recursion.
use Prim.Native.Nat.{ℕ, suc, ◌+◌}
use mathlib.Core.Path.{◌≡◌, refl, ap}
use mathlib.Core.Bool.{Bool, true, false, ◌||◌, ◌&&◌, false≢true}
use mathlib.Core.List.{List, [], ◌∷◌, ◌++◌, map}
use mathlib.Core.Logic.{◌⊎◌, inl, inr, ◌↔◌}
use mathlib.Core.Option.{Option, none, some}
use native.Mathlib.Omega.{arith}
use policy_templates.Prelude.Tests.{if◌then◌else◌, Bool-cases}

module _ {ℓ} {A : Type ℓ} where
  abbrev pub length : List A → ℕ
  length [] = 0
  length (x ∷ xs) = suc (length xs)

  abbrev pub All {κ} : (A → Type κ) → List A → Type κ
  All P [] = Unit {κ}
  All P (x ∷ xs) = P x × All P xs

  -- Iterator::any and Iterator::all
  abbrev pub any : (A → Bool) → List A → Bool
  any p [] = false
  any p (x ∷ xs) = p x || any p xs

  abbrev pub all : (A → Bool) → List A → Bool
  all p [] = true
  all p (x ∷ xs) = p x && all p xs

  -- Iterator::find
  abbrev pub find : (A → Bool) → List A → Option A
  find p [] = none
  find p (x ∷ xs) = if p x then some x else find p xs

  pub length-append : (xs ys : List A) → length (xs ++ ys) ≡ length xs + length ys
  length-append [] ys = omega arith
  length-append (x ∷ xs) ys = omega (arith, length-append xs ys)

module _ {ℓ κ} {A : Type ℓ} {B : Type κ} where
  pub length-map : (f : A → B) (xs : List A) → length (map f xs) ≡ length xs
  length-map f [] = refl
  length-map f (x ∷ xs) = ap suc (length-map f xs)

module _ {A : Type 0} where
  -- Some element satisfies the predicate.
  abbrev pub Any : (A → Type 0) → List A → Type 0
  Any P [] = ⊥
  Any P (x ∷ xs) = P x ⊎ Any P xs

  pub any_iff : (p : A → Bool) (xs : List A) → (any p xs ≡ true) ↔ Any (λ x. p x ≡ true) xs
  any_iff p [] = (λ h. false≢true h, λ h. absurd h)
  any_iff p (x ∷ xs) =
      let ih = any_iff p xs in
      (
        λ h. elim (Bool-cases (p x)) [ inl e ↦ inl e | inr e ↦ inr (ih.0 (rw e at h)) ],
        λ h. elim h [
          | inl e ↦ rw e
          | inr e ↦ elim (Bool-cases (p x)) [ inl f ↦ rw f | inr f ↦ rw f (ih.1 e) ]
        ],
      )

  pub find-some :
      (p : A → Bool) (xs : List A) (a : A) → find p xs ≡ some a → (p a ≡ true) × Any (λ x. x ≡ a) xs
  find-some p [] a h = absurd (cc)
  find-some p (x ∷ xs) a h = elim (Bool-cases (p x)) [
    | inl e ↦ let same : x ≡ a = let h' = rw e at h in cc in (rw same at e, inl same)
    | inr e ↦ let ih = find-some p xs a (rw e at h) in (ih.0, inr ih.1)
  ]

pub Any-map :
    {A : Type 0} (P Q : A → Type 0) (l : List A) → ((a : A) → P a → Q a) → Any P l → Any Q l
Any-map P Q [] f h = h
Any-map P Q (a ∷ l) f (inl h) = inl (f a h)
Any-map P Q (a ∷ l) f (inr h) = inr (Any-map P Q l f h)
