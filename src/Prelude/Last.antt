-- ===== src/Prelude/Last.antt =====
-- The split of a string at its last separator.
use mathlib.Core.Path.{◌≡◌, refl, sym, ap, ◌∙◌, subst}
use Prim.Native.Nat.{ℕ, ◌≤◌}
use mathlib.Core.Option.{Option, none, some}
use mathlib.Core.List.{[], ◌∷◌, ◌++◌}
use native.Mathlib.Omega.{arith}
use policy_templates.Prelude.Tests.{eqb_refl}
use policy_templates.Prelude.Lists.{length}
use policy_templates.Prelude.ByteString.{Bytes}
use policy_templates.Prelude.Strings.{strip_prefix}
use policy_templates.Prelude.Search.{empty_first, longer_first, rsplit_once}

abbrev tail : Bytes → Bytes
tail [] = []
tail (b ∷ s) = s

strip_prefix-append : (p r : Bytes) → strip_prefix p (p ++ r) ≡ some r
strip_prefix-append [] r = refl
strip_prefix-append (c ∷ p) r = rw (eqb_refl c) (strip_prefix-append p r)

-- No split of the string has its separator after that of a split.
abbrev LastSplit : Bytes → Bytes → Option (Bytes × Bytes) → Type 0
LastSplit separator s none = (x y : Bytes) → s ≡ x ++ (separator ++ y) → ⊥
LastSplit separator s (some (before, after)) =
    (x y : Bytes) → s ≡ x ++ (separator ++ y) → length x ≤ length before

-- No split has a part before its separator.
abbrev OnlyFirst : Bytes → Bytes → Type 0
OnlyFirst separator s = (c : ℕ) (x y : Bytes) → s ≡ (c ∷ x) ++ (separator ++ y) → ⊥

LastSplit-none :
    (separator s : Bytes)
    → strip_prefix separator s ≡ none
    → OnlyFirst separator s
    → LastSplit separator s none
LastSplit-none separator s h short [] y e =
    let found = strip_prefix-append separator y in
    let same = ap (strip_prefix separator) e in
    let impossible : none ≡ some y = sym h ∙ same ∙ found in absurd (cc)
LastSplit-none separator s h short (c ∷ x) y e = short c x y e

LastSplit-first :
    (separator s r : Bytes) → OnlyFirst separator s → LastSplit separator s (some ([], r))
LastSplit-first separator s r short [] y e = omega arith
LastSplit-first separator s r short (c ∷ x) y e = absurd (short c x y e)

empty_first-LastSplit :
    (separator s : Bytes) (o : Option Bytes)
    → strip_prefix separator s ≡ o
    → OnlyFirst separator s
    → LastSplit separator s (empty_first o)
empty_first-LastSplit separator s none h short = LastSplit-none separator s h short
empty_first-LastSplit separator s (some r) h short = LastSplit-first separator s r short

LastSplit-longer :
    (separator s : Bytes) (b : ℕ) (before after : Bytes)
    → LastSplit separator s (some (before, after))
    → LastSplit separator (b ∷ s) (some (b ∷ before, after))
LastSplit-longer separator s b before after last [] y e = omega arith
LastSplit-longer separator s b before after last (c ∷ x) y e =
    let shorter = last x y (ap tail e) in omega (arith, shorter)

longer_first-LastSplit :
    (separator s : Bytes) (b : ℕ) (o : Option (Bytes × Bytes))
    → LastSplit separator s o
    → LastSplit separator (b ∷ s) (elim (longer_first b o) [
      | none ↦ empty_first (strip_prefix separator (b ∷ s))
      | some pair ↦ some pair
    ])
longer_first-LastSplit separator s b none last =
    empty_first-LastSplit separator (b ∷ s) (strip_prefix separator (b ∷ s)) refl
      (λ c x y e. last x y (ap tail e))
longer_first-LastSplit separator s b (some (before, after)) last =
    LastSplit-longer separator s b before after last

rsplit_once-LastSplit : (separator s : Bytes) → LastSplit separator s (rsplit_once separator s)
unfolding rsplit_once
rsplit_once-LastSplit separator [] =
    empty_first-LastSplit separator [] (strip_prefix separator []) refl (λ c x y e. cc)
rsplit_once-LastSplit separator (b ∷ s) =
    longer_first-LastSplit separator s b (rsplit_once separator s)
      (rsplit_once-LastSplit separator s)

pub rsplit_once-last :
    (separator s before after : Bytes)
    → rsplit_once separator s ≡ some (before, after)
    → (x y : Bytes) → s ≡ x ++ (separator ++ y)
    → length x ≤ length before
rsplit_once-last separator s before after h =
    subst (LastSplit separator s) h (rsplit_once-LastSplit separator s)
