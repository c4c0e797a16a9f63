-- ===== src/Service/Tokens.antt =====
-- Which requests are authorised.
use Prim.Native.Nat.{bit_or, bit_xor}
use mathlib.Core.Bool.{false≢true}
use policy_templates.Prelude.{
  ℕ, zero, suc, ◌<◌, ◌≡◌, refl, sym, ap, ap₂, subst, ◌∙◌, ◌↔◌, Bytes, ltb, ltb→lt, eqb, eqb→eq,
  eqb_refl, Bool, true, false, ◌&&◌, not, Bool-cases, any, Any, All, map, length, Option, some,
  List, [], ◌∷◌, inl, inr, arith, Option-cases,
}
use policy_templates.External.{External, HashLaw, ByteLaw}
use policy_templates.Service.Auth.{bearer_token, difference, constant_time_eq, authorizes}

-- The test holds for every number below a bound: computed by trying them all.
holds_below : (ℕ → Bool) → ℕ → Bool
holds_below test zero = true
holds_below test (suc bound) = holds_below test bound && test bound

both_true : (a b : Bool) → (a && b) ≡ true → (a ≡ true) × (b ≡ true)
both_true true b h = (refl, h)
both_true false b h = absurd (false≢true h)

tried :
    (test : ℕ → Bool) (bound : ℕ) {n : ℕ}
    → n < bound
    → holds_below test bound ≡ true
    → test n ≡ true
unfolding holds_below
tried test zero small h = absurd (omega arith)
tried test (suc bound) {n} small h =
    let (before, last) = both_true (holds_below test bound) (test bound) h in
    elim (Bool-cases (eqb n bound)) [
      | inl e ↦ rw (eqb→eq n bound e) last
      | inr e ↦ tried test bound (ground (arith, e)) before
    ]

-- The two Booleans agree.
abbrev iff : Bool → Bool → Bool
iff true b = b
iff false b = not b

abbrev or_agrees : ℕ → ℕ → Bool
or_agrees d v = ltb (bit_or d v) 256 && iff (eqb (bit_or d v) 0) (eqb d 0 && eqb v 0)

abbrev xor_agrees : ℕ → ℕ → Bool
xor_agrees a b = ltb (bit_xor a b) 256 && iff (eqb (bit_xor a b) 0) (eqb a b)

or_table : holds_below (λ d. holds_below (or_agrees d) 256) 256 ≡ true
unfolding holds_below
or_table = refl

xor_table : holds_below (λ a. holds_below (xor_agrees a) 256) 256 ≡ true
unfolding holds_below
xor_table = refl

iff-true : (a b : Bool) → iff a b ≡ true → a ≡ b
iff-true true true h = refl
iff-true true false h = absurd (false≢true h)
iff-true false true h = absurd (false≢true h)
iff-true false false h = refl

bit_or-zero :
    (d v : ℕ) → d < 256 → v < 256 → (bit_or d v < 256) × (eqb (bit_or d v) 0 ≡ (eqb d 0 && eqb v 0))
bit_or-zero d v hd hv =
    let cell =
      tried (or_agrees d) 256 hv (tried (λ d. holds_below (or_agrees d) 256) 256 hd or_table) in
    let (small, same) = both_true _ _ cell in (ltb→lt _ _ small, iff-true _ _ same)

bit_xor-zero : (a b : ℕ) → a < 256 → b < 256 → (bit_xor a b < 256) × (eqb (bit_xor a b) 0 ≡ eqb a b)
bit_xor-zero a b ha hb =
    let cell =
      tried (xor_agrees a) 256 hb (tried (λ a. holds_below (xor_agrees a) 256) 256 ha xor_table) in
    let (small, same) = both_true _ _ cell in (ltb→lt _ _ small, iff-true _ _ same)

abbrev AreBytes : Bytes → Type 0
AreBytes = All (λ n. n < 256)

difference-zero :
    (diff : ℕ) (left right : Bytes)
    → diff < 256
    → AreBytes left
    → AreBytes right
    → length left ≡ length right
    → (eqb (difference diff left right) 0 ≡ true) ↔ ((diff ≡ 0) × (left ≡ right))
unfolding difference
difference-zero diff [] [] hd hl hr e = (λ h. (eqb→eq diff 0 h, refl), λ (z, _). rw z refl)
difference-zero diff [] (b ∷ right) hd hl hr e = absurd (omega (arith, e))
difference-zero diff (a ∷ left) [] hd hl hr e = absurd (omega (arith, e))
difference-zero diff (a ∷ left) (b ∷ right) hd (ha, hl) (hb, hr) e =
    let (xor_small, xor_same) = bit_xor-zero a b ha hb in
    let (or_small, or_same) = bit_or-zero diff (bit_xor a b) hd xor_small in
    let ih =
      difference-zero (bit_or diff (bit_xor a b)) left right or_small hl hr (omega (arith, e)) in
    (
      λ h.
          let (z, same) = ih.0 h in
          let (d, v) = both_true _ _ (sym or_same ∙ ap (λ n. eqb n 0) z) in
          (eqb→eq diff 0 d, ap₂ (λ n ns. n ∷ ns) (eqb→eq a b (sym xor_same ∙ v)) same),
      λ (z, same).
          let first : a ≡ b = cc in
          let rest : left ≡ right = cc in
          let equal : eqb a b ≡ true = rw first (eqb_refl b) in
          let zero' : eqb diff 0 ≡ true = rw z refl in
          ih.1 (eqb→eq _ 0 (or_same ∙ ap₂ (λ p q. p && q) zero' (xor_same ∙ equal)), rest),
    )

constant_time_eq_iff :
    (left right : Bytes)
    → AreBytes left
    → AreBytes right
    → length left ≡ length right
    → (constant_time_eq left right ≡ true) ↔ (left ≡ right)
unfolding constant_time_eq
constant_time_eq_iff left right hl hr e =
    let zero_iff = difference-zero 0 left right (omega arith) hl hr e in
    (λ h. (zero_iff.0 h).1, λ same. zero_iff.1 (refl, same))

module _ (x : External) (sizes : HashLaw x) (bytes : ByteLaw x) where
  trusted_iff :
      (tokens : List Bytes) (token : Bytes)
      → (any (λ trusted. constant_time_eq trusted (x.sha256 token)) (map x.sha256 tokens) ≡ true)
        ↔ Any (λ t. x.sha256 t ≡ x.sha256 token) tokens
  trusted_iff [] token = (λ h. false≢true h, λ h. absurd h)
  trusted_iff (t ∷ tokens) token =
      let ih = trusted_iff tokens token in
      let here =
        constant_time_eq_iff (x.sha256 t) (x.sha256 token) (bytes t) (bytes token)
          (sizes t ∙ sym (sizes token)) in
      elim (Bool-cases (constant_time_eq (x.sha256 t) (x.sha256 token))) [
        | inl e ↦ (λ h. inl (here.0 e), λ h. rw e refl)
        | inr e ↦ (
          λ h. inr (ih.0 (rw e at h)),
          λ h. rw e (elim h [ inl f ↦ absurd (false≢true (sym e ∙ here.1 f)) | inr f ↦ ih.1 f ]),
        )
      ]

-- With one configured token or more, a request is authorised exactly when its header has a bearer
-- token whose digest is that of a configured one.
pub authorizes_iff :
    (x : External) (token : Bytes) (tokens : List Bytes) (header : Option Bytes)
    → HashLaw x
    → ByteLaw x
    → (authorizes x (record { token_hashes = map x.sha256 (token ∷ tokens) }) header ≡ true) ↔ (
        (given : Bytes) × (bearer_token header ≡ some given)
        × Any (λ t. x.sha256 t ≡ x.sha256 given) (token ∷ tokens))
unfolding authorizes
authorizes_iff x token tokens header sizes bytes = elim (Option-cases (bearer_token header)) [
  | inl e ↦ (λ h. let h' = rw e at h in absurd (false≢true h'), λ (given, f, _). absurd (cc (e, f)))
  | inr (given, e) ↦ (
    λ h. (given, e, (trusted_iff x sizes bytes (token ∷ tokens) given).0 (rw e at h)),
    λ (g, f, found).
        let same : g ≡ given = cc (e, f) in
        rw e (
          (trusted_iff x sizes bytes (token ∷ tokens) given).1
            (subst (λ k. Any (λ t. x.sha256 t ≡ x.sha256 k) (token ∷ tokens)) same found)),
  )
]
