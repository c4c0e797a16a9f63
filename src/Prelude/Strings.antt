-- ===== src/Prelude/Strings.antt =====
-- The functions of Rust's `str` that the service calls, on bytes of UTF-8.
use Prim.Native.Nat.{ℕ, zero, suc, ◌+◌, ◌-◌}
use mathlib.Core.Bool.{Bool, true, false, ◌&&◌, ◌||◌}
use mathlib.Core.Option.{Option, none, some}
use mathlib.Core.List.{List, [], ◌∷◌, ◌++◌}
use policy_templates.Prelude.Tests.{eqb, leb, if◌then◌else◌}
use policy_templates.Prelude.Lists.{length}
use policy_templates.Prelude.ByteString.{Bytes}

abbrev pub starts_with : Bytes → Bytes → Bool
starts_with [] s = true
starts_with (n ∷ needle) [] = false
starts_with (n ∷ needle) (b ∷ s) = eqb n b && starts_with needle s

-- str::contains
unfoldable pub contains : Bytes → Bytes → Bool
contains needle [] = starts_with needle []
contains needle (b ∷ s) = starts_with needle (b ∷ s) || contains needle s

-- The rest of a replacement; the first `skip` bytes belong to the match before.
unfoldable pub replace_from : ℕ → Bytes → Bytes → Bytes → Bytes
replace_from skip needle value [] = []
replace_from (suc skip) needle value (b ∷ s) = replace_from skip needle value s
replace_from zero needle value (b ∷ s) =
    let hit = starts_with needle (b ∷ s) in
    let rest = replace_from (if hit then length needle - 1 else 0) needle value s in
    if hit then value ++ rest else b ∷ rest

-- str::replace by a needle that is not empty
unfoldable pub replace : Bytes → Bytes → Bytes → Bytes
unfolding replace_from
replace s needle value = replace_from 0 needle value s

abbrev pub to_ascii_lowercase : ℕ → ℕ
to_ascii_lowercase b = if leb 65 b && leb b 90 then b + 32 else b

-- str::eq_ignore_ascii_case
unfoldable pub eq_ignore_ascii_case : Bytes → Bytes → Bool
eq_ignore_ascii_case [] [] = true
eq_ignore_ascii_case [] (c ∷ t) = false
eq_ignore_ascii_case (b ∷ s) [] = false
eq_ignore_ascii_case (b ∷ s) (c ∷ t) =
    eqb (to_ascii_lowercase b) (to_ascii_lowercase c) && eq_ignore_ascii_case s t

-- The number of bytes of the white space character that the bytes start with, or 0: a character of
-- one byte, U+0085 and U+00A0, U+1680, U+2000 to U+200A, U+2028, U+2029, U+202F, U+205F and U+3000.
unfoldable pub space_length : Bytes → ℕ
space_length (a ∷ b ∷ c ∷ s) =
    if (leb 9 a && leb a 13) || eqb a 32
    then 1
    else if eqb a 194 && (eqb b 133 || eqb b 160)
    then 2
    else if eqb a 225 && (eqb b 154 && eqb c 128)
    then 3
    else if eqb a 226
        && (eqb b 128 && ((leb 128 c && leb c 138) || (eqb c 168 || (eqb c 169 || eqb c 175))))
    then 3
    else if eqb a 226 && (eqb b 129 && eqb c 159)
    then 3
    else if eqb a 227 && (eqb b 128 && eqb c 128)
    then 3
    else 0
space_length (a ∷ b ∷ []) =
    if (leb 9 a && leb a 13) || eqb a 32
    then 1
    else if eqb a 194 && (eqb b 133 || eqb b 160)
    then 2
    else 0
space_length (a ∷ []) = if (leb 9 a && leb a 13) || eqb a 32 then 1 else 0
space_length [] = 0

-- The bytes from the first one on that belongs to no leading white space.
unfoldable pub trim_from : ℕ → Bytes → Bytes
unfolding space_length
trim_from skip [] = []
trim_from (suc skip) (b ∷ s) = trim_from skip s
trim_from zero (b ∷ s) =
    let rest = trim_from (space_length (b ∷ s) - 1) s in
    if eqb (space_length (b ∷ s)) 0 then b ∷ s else rest

-- The bytes up to the last one that belongs to no trailing white space.
unfoldable pub trim_end : Bytes → Bytes
unfolding trim_from
trim_end [] = []
trim_end (b ∷ s) =
    let rest = trim_end s in if eqb (length (trim_from 0 (b ∷ s))) 0 then [] else b ∷ rest

-- str::trim
unfoldable pub trim : Bytes → Bytes
unfolding trim_from trim_end
trim s = trim_end (trim_from 0 s)

abbrev pub cons_first : ℕ → List Bytes → List Bytes
cons_first c [] = (c ∷ []) ∷ []
cons_first c (word ∷ words) = (c ∷ word) ∷ words

-- str::split
unfoldable pub split : (ℕ → Bool) → Bytes → List Bytes
split p [] = [] ∷ []
split p (c ∷ s) = let words = split p s in if p c then [] ∷ words else cons_first c words

-- str::strip_prefix
abbrev pub strip_prefix : Bytes → Bytes → Option Bytes
strip_prefix [] s = some s
strip_prefix (p ∷ prefix) [] = none
strip_prefix (p ∷ prefix) (c ∷ s) = if eqb p c then strip_prefix prefix s else none
