-- ===== src/Prelude/Search.antt =====
-- Searching and splitting strings as Rust's `str` does, for a needle that is not empty.
use mathlib.Core.Path.{◌≡◌, refl, ap, subst}
use mathlib.Core.Logic.{◌⊎◌, inl, inr}
use Prim.Native.Nat.{ℕ, zero, suc}
use Prim.Native.String.{String}
use mathlib.Core.Bool.{true, false, ◌&&◌}
use mathlib.Core.Option.{Option, none, some}
use mathlib.Core.List.{List, [], ◌∷◌, ◌++◌}
use native.Mathlib.Omega.{arith}
use policy_templates.Prelude.Tests.{eqb, if◌then◌else◌, Bool-cases}
use policy_templates.Prelude.Lists.{length}
use policy_templates.Prelude.ByteString.{Bytes, text}
use policy_templates.Prelude.Strings.{starts_with, contains, strip_prefix}

-- A literal of several lines; each ends in a line feed.
unfoldable pub lines : List String → Bytes
lines [] = []
lines (l ∷ ls) = text l ++ (10 ∷ lines ls)

module _ {ℓ} {A : Type ℓ} where
  -- The slices `s[..n]` and `s[n..]`.
  abbrev pub take : ℕ → List A → List A
  take zero s = []
  take (suc n) [] = []
  take (suc n) (b ∷ s) = b ∷ take n s

  abbrev pub drop : ℕ → List A → List A
  drop zero s = s
  drop (suc n) [] = []
  drop (suc n) (b ∷ s) = drop n s

  pub take-drop : (n : ℕ) (s : List A) → take n s ++ drop n s ≡ s
  take-drop zero s = refl
  take-drop (suc n) [] = refl
  take-drop (suc n) (b ∷ s) = ap (λ t. b ∷ t) (take-drop n s)

module _ {A : Type 0} where
  pub take-append : (s t : List A) → take (length s) (s ++ t) ≡ s
  take-append [] t = refl
  take-append (b ∷ s) t = ap (λ r. b ∷ r) (take-append s t)

  pub drop-append : (s t : List A) → drop (length s) (s ++ t) ≡ t
  drop-append [] t = refl
  drop-append (b ∷ s) t = drop-append s t

abbrev pub next_index : Option ℕ → Option ℕ
next_index none = none
next_index (some i) = some (suc i)

-- str::find
unfoldable pub find_str : Bytes → Bytes → Option ℕ
find_str needle [] = if starts_with needle [] then some 0 else none
find_str needle (b ∷ s) =
    let later = next_index (find_str needle s) in
    if starts_with needle (b ∷ s) then some 0 else later

abbrev pub longer_first : ℕ → Option (Bytes × Bytes) → Option (Bytes × Bytes)
longer_first b none = none
longer_first b (some (first, second)) = some (b ∷ first, second)

abbrev pub empty_first : Option Bytes → Option (Bytes × Bytes)
empty_first none = none
empty_first (some rest) = some ([], rest)

-- str::split_once
unfoldable pub split_once : Bytes → Bytes → Option (Bytes × Bytes)
split_once separator [] = empty_first (strip_prefix separator [])
split_once separator (b ∷ s) =
    let later = longer_first b (split_once separator s) in
    elim (strip_prefix separator (b ∷ s)) [ none ↦ later | some rest ↦ some ([], rest) ]

-- str::rsplit_once
unfoldable pub rsplit_once : Bytes → Bytes → Option (Bytes × Bytes)
rsplit_once separator [] = empty_first (strip_prefix separator [])
rsplit_once separator (b ∷ s) = elim (longer_first b (rsplit_once separator s)) [
  | none ↦ empty_first (strip_prefix separator (b ∷ s))
  | some pair ↦ some pair
]

-- str::trim_end_matches and str::trim_matches by one character
unfoldable pub trim_end_matches : ℕ → Bytes → Bytes
trim_end_matches c [] = []
trim_end_matches c (b ∷ s) =
    let rest = trim_end_matches c s in if eqb b c && eqb (length rest) 0 then [] else b ∷ rest

unfoldable pub trim_start_matches : ℕ → Bytes → Bytes
trim_start_matches c [] = []
trim_start_matches c (b ∷ s) = let rest = trim_start_matches c s in if eqb b c then rest else b ∷ s

abbrev pub trim_matches : ℕ → Bytes → Bytes
trim_matches c s = trim_end_matches c (trim_start_matches c s)

-- str::strip_suffix
unfoldable pub strip_suffix : Bytes → Bytes → Option Bytes
strip_suffix suffix [] = elim suffix [ [] ↦ some [] | c ∷ cs ↦ none ]
strip_suffix suffix (b ∷ s) = elim (strip_prefix suffix (b ∷ s)) [
  | some [] ↦ some []
  | _ ↦ elim (strip_suffix suffix s) [ none ↦ none | some first ↦ some (b ∷ first) ]
]

pub starts_with-append : (n s : Bytes) → starts_with n (n ++ s) ≡ true
starts_with-append [] s = refl
starts_with-append (b ∷ n) s = ground (arith, starts_with-append n s)

starts_with-left : (n s t : Bytes) → starts_with n s ≡ true → starts_with n (s ++ t) ≡ true
starts_with-left [] s t h = refl
starts_with-left (b ∷ n) [] t h = cc
starts_with-left (b ∷ n) (c ∷ s) t h = ground (arith, starts_with-left n s t)

pub starts_with-split : (n s : Bytes) → starts_with n s ≡ true → s ≡ n ++ drop (length n) s
starts_with-split [] s h = refl
starts_with-split (b ∷ n) [] h = cc
starts_with-split (b ∷ n) (c ∷ s) h = ground (arith, starts_with-split n s)

contains-here : (n s : Bytes) → starts_with n s ≡ true → contains n s ≡ true
unfolding contains
contains-here n [] h = h
contains-here n (b ∷ s) h = rw h refl

contains-left : (n s t : Bytes) → contains n s ≡ true → contains n (s ++ t) ≡ true
unfolding contains
contains-left n [] t h = contains-here n t (starts_with-left n [] t h)
contains-left n (b ∷ s) t h = elim (Bool-cases (starts_with n (b ∷ s))) [
  | inl e ↦ contains-here n ((b ∷ s) ++ t) (starts_with-left n (b ∷ s) t e)
  | inr e ↦ ground (arith, contains-left n s t, e, h)
]

contains-right : (n s t : Bytes) → contains n t ≡ true → contains n (s ++ t) ≡ true
unfolding contains
contains-right n [] t h = h
contains-right n (b ∷ s) t h = ground (arith, contains-right n s t h)

-- What a part contains, the whole contains.
pub contains-middle : (n a s b : Bytes) → contains n s ≡ true → contains n (a ++ (s ++ b)) ≡ true
contains-middle n a s b h = contains-right n a (s ++ b) (contains-left n s b h)

-- The index of a needle splits the string around it, and there is none exactly without the needle.
pub find_str-cases :
    (n s : Bytes)
    → ((contains n s ≡ false) × (find_str n s ≡ none))
      ⊎ ((a : Bytes) × (b : Bytes) × (contains n s ≡ true)
          × (find_str n s ≡ some (length a))
          × (s ≡ a ++ (n ++ b)))
unfolding contains find_str
find_str-cases n [] = elim (Bool-cases (starts_with n [])) [
  | inl e ↦ inr ([], drop (length n) [], e, rw e refl, starts_with-split n [] e)
  | inr e ↦ inl (e, rw e refl)
]
find_str-cases n (c ∷ s) = elim (Bool-cases (starts_with n (c ∷ s))) [
  | inl e ↦ inr ([], drop (length n) (c ∷ s), rw e refl, rw e refl, starts_with-split n (c ∷ s) e)
  | inr e ↦ elim (find_str-cases n s) [
    | inl (absent, f) ↦ inl (rw e absent, rw e (ap next_index f))
    | inr (a, b, present, f, split) ↦
        inr (c ∷ a, b, rw e present, rw e (ap next_index f), ap (λ t. c ∷ t) split)
  ]
]

strip_prefix-some : (p s r : Bytes) → strip_prefix p s ≡ some r → s ≡ p ++ r
strip_prefix-some [] s r h = cc
strip_prefix-some (c ∷ p) [] r h = cc
strip_prefix-some (c ∷ p) (b ∷ s) r h = ground (arith, strip_prefix-some p s r, h)

-- The parts of a split, with the separator between them, are the string.
abbrev Splits : Bytes → Bytes → Option (Bytes × Bytes) → Type 0
Splits separator s none = Unit
Splits separator s (some (x, y)) = s ≡ x ++ (separator ++ y)

longer_first-Splits :
    (separator s : Bytes) (b : ℕ) (o : Option (Bytes × Bytes))
    → Splits separator s o
    → Splits separator (b ∷ s) (longer_first b o)
longer_first-Splits separator s b none h = tt
longer_first-Splits separator s b (some (x, y)) h = ap (λ t. b ∷ t) h

empty_first-Splits :
    (separator s : Bytes) (o : Option Bytes)
    → strip_prefix separator s ≡ o
    → Splits separator s (empty_first o)
empty_first-Splits separator s none h = tt
empty_first-Splits separator s (some r) h = strip_prefix-some separator s r h

or_first-Splits :
    (separator s : Bytes) (o other : Option (Bytes × Bytes))
    → Splits separator s o
    → Splits separator s other
    → Splits separator s (elim o [ none ↦ other | some pair ↦ some pair ])
or_first-Splits separator s none other h k = k
or_first-Splits separator s (some pair) other h k = h

rsplit_once-Splits : (separator s : Bytes) → Splits separator s (rsplit_once separator s)
unfolding rsplit_once
rsplit_once-Splits separator [] = empty_first-Splits separator [] (strip_prefix separator []) refl
rsplit_once-Splits separator (b ∷ s) =
    or_first-Splits separator (b ∷ s) (longer_first b (rsplit_once separator s))
      (empty_first (strip_prefix separator (b ∷ s)))
      (longer_first-Splits separator s b (rsplit_once separator s) (rsplit_once-Splits separator s))
      (empty_first-Splits separator (b ∷ s) (strip_prefix separator (b ∷ s)) refl)

pub rsplit_once-some :
    (separator s x y : Bytes) → rsplit_once separator s ≡ some (x, y) → s ≡ x ++ (separator ++ y)
rsplit_once-some separator s x y h = subst (Splits separator s) h (rsplit_once-Splits separator s)
