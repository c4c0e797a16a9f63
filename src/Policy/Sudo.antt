-- ===== src/Policy/Sudo.antt =====
-- The security floor, and the profile that may escalate privileges.
use mathlib.Core.Bool.{false≢true}
use mathlib.Core.List.{Perm, Permᴰ}
use mathlib.Core.List.Perm
use mathlib.Core.List.Permᴰ
use mathlib.Core.Logic.{∥∥₁_elim}
use policy_templates.Prelude.{
  ℕ, suc, ◌≡◌, ◌≢◌, refl, sym, ap, ap₂, subst, ◌∙◌, ◌↔◌, ◌⊎◌, inl, inr, Bytes, text, ◌==◌, ==_iff,
  eq_ignore_ascii_case, to_ascii_lowercase, Bool, true, false, not, ◌&&◌, Bool-cases, not-true, any,
  all, any_iff, Any, Any-map, All, eqb, eqb→eq, eqb_refl, length, length-map, map, List, [], ◌∷◌,
  ok, arith, ensure, privileged_forbidden, privilege_escalation_forbidden, ◌>>◌,
}
use policy_templates.Descriptor.{Capabilities, OciRuntimeSpec, DeploymentDescriptor}
use policy_templates.Descriptor.Unique.{Distinct}
use policy_templates.Policy.Floor.{
  rootful_sudo_caps, capabilities_match_rootful_sudo, descriptor_uses_rootful_sudo,
  validate_oci_security_floor,
}

abbrev pub lowercase : Bytes → Bytes
lowercase = map to_ascii_lowercase

eq_ignore_ascii_case_iff :
    (a b : Bytes) → (eq_ignore_ascii_case a b ≡ true) ↔ (lowercase a ≡ lowercase b)
unfolding eq_ignore_ascii_case
eq_ignore_ascii_case_iff [] [] = (λ h. refl, λ h. refl)
eq_ignore_ascii_case_iff [] (c ∷ b) = (λ h. cc, λ h. cc)
eq_ignore_ascii_case_iff (c ∷ a) [] = (λ h. cc, λ h. cc)
eq_ignore_ascii_case_iff (c ∷ a) (d ∷ b) =
    let ih = eq_ignore_ascii_case_iff a b in
    let c' = to_ascii_lowercase c in
    let d' = to_ascii_lowercase d in
    elim (Bool-cases (eqb c' d')) [
      | inl e ↦ (
        λ h. let h' = rw e at h in ap₂ (λ x xs. x ∷ xs) (eqb→eq c' d' e) (ih.0 h'),
        λ h. rw e (ih.1 (cc)),
      )
      | inr e ↦ (
        λ h. let h' = rw e at h in absurd (false≢true h'),
        λ h.
            let same : c' ≡ d' = cc in
            absurd (false≢true (sym e ∙ ap (eqb c') (sym same) ∙ eqb_refl c')),
      )
    ]

-- A list without the element that a proof points at.
without : (r : Bytes) (cs : List Bytes) → Any (λ c. c ≡ r) cs → List Bytes
without r [] h = []
without r (c ∷ cs) (inl h) = cs
without r (c ∷ cs) (inr h) = c ∷ without r cs h

without-perm :
    (r : Bytes) (cs : List Bytes) (h : Any (λ c. c ≡ r) cs) → Perm cs (r ∷ without r cs h)
unfolding without
without-perm r [] h = absurd h
without-perm r (c ∷ cs) (inl h) = rw h (Perm.refl (r ∷ cs))
without-perm r (c ∷ cs) (inr h) =
    Perm.trans (Perm.cons c (without-perm r cs h)) (Perm.swap r c (without r cs h))

Any-without :
    (r s : Bytes) (cs : List Bytes) (h : Any (λ c. c ≡ r) cs)
    → r ≢ s
    → Any (λ c. c ≡ s) cs
    → Any (λ c. c ≡ s) (without r cs h)
unfolding without
Any-without r s [] h differ found = found
Any-without r s (c ∷ cs) (inl h) differ (inl found) = absurd (differ (sym h ∙ found))
Any-without r s (c ∷ cs) (inl h) differ (inr found) = found
Any-without r s (c ∷ cs) (inr h) differ (inl found) = inl found
Any-without r s (c ∷ cs) (inr h) differ (inr found) = inr (Any-without r s cs h differ found)

length-without :
    (r : Bytes) (cs : List Bytes) (h : Any (λ c. c ≡ r) cs)
    → length cs ≡ suc (length (without r cs h))
unfolding without
length-without r [] h = absurd h
length-without r (c ∷ cs) (inl h) = refl
length-without r (c ∷ cs) (inr h) = ap suc (length-without r cs h)

All-Any-without :
    (r : Bytes) (rs cs : List Bytes) (h : Any (λ c. c ≡ r) cs)
    → (Any (λ m. m ≡ r) rs → ⊥)
    → All (λ s. Any (λ c. c ≡ s) cs) rs
    → All (λ s. Any (λ c. c ≡ s) (without r cs h)) rs
All-Any-without r [] cs h new found = tt
All-Any-without r (s ∷ rs) cs h new (f, found) = (
  Any-without r s cs h (λ e. new (inl (sym e))) f,
  All-Any-without r rs cs h (λ a. new (inr a)) found,
)

-- As many elements as distinct ones that all occur are those, in some order.
distinct-perm :
    (rs cs : List Bytes)
    → length cs ≡ length rs
    → Distinct rs
    → All (λ r. Any (λ c. c ≡ r) cs) rs
    → Perm cs rs
distinct-perm [] [] e d h = Perm.refl []
distinct-perm [] (c ∷ cs) e d h = absurd (omega (arith, e))
distinct-perm (r ∷ rs) cs e (new, d) (h, hs) = Perm.trans (without-perm r cs h) (
    Perm.cons r (
      distinct-perm rs (without r cs h) (omega (arith, e, length-without r cs h)) d
        (All-Any-without r rs cs h new hs)))

any-lowercase :
    (r : Bytes) (cs : List Bytes)
    → (any (λ c. eq_ignore_ascii_case c r) cs ≡ true)
      ↔ Any (λ c. c ≡ lowercase r) (map lowercase cs)
any-lowercase r [] = (λ h. false≢true h, λ h. absurd h)
any-lowercase r (c ∷ cs) =
    let ih = any-lowercase r cs in
    let here = eq_ignore_ascii_case_iff c r in
    elim (Bool-cases (eq_ignore_ascii_case c r)) [
      | inl e ↦ (λ h. inl (here.0 e), λ h. rw e refl)
      | inr e ↦ (
        λ h. inr (ih.0 (rw e at h)),
        λ h. rw e (elim h [ inl f ↦ absurd (false≢true (sym e ∙ here.1 f)) | inr f ↦ ih.1 f ]),
      )
    ]

all-lowercase :
    (rs cs : List Bytes)
    → (all (λ r. any (λ c. eq_ignore_ascii_case c r) cs) rs ≡ true)
      ↔ All (λ r. Any (λ c. c ≡ r) (map lowercase cs)) (map lowercase rs)
all-lowercase [] cs = (λ h. tt, λ h. refl)
all-lowercase (r ∷ rs) cs =
    let ih = all-lowercase rs cs in
    let here = any-lowercase r cs in
    elim (Bool-cases (any (λ c. eq_ignore_ascii_case c r) cs)) [
      | inl e ↦ (λ h. (here.0 e, ih.0 (rw e at h)), λ h. rw e (ih.1 h.1))
      | inr e ↦ (
        λ h. let h' = rw e at h in absurd (false≢true h'),
        λ h. absurd (false≢true (sym e ∙ here.1 h.0)),
      )
    ]

-- The computed test that no name stands twice.
unfoldable pub distinct : List Bytes → Bool
distinct [] = true
distinct (n ∷ ns) = not (any (λ m. m == n) ns) && distinct ns

pub distinct-Distinct : (ns : List Bytes) → distinct ns ≡ true → Distinct ns
unfolding distinct
distinct-Distinct [] h = tt
distinct-Distinct (n ∷ ns) h = elim (Bool-cases (any (λ m. m == n) ns)) [
  | inl e ↦ absurd (false≢true (rw e at h))
  | inr e ↦ (
    λ a. false≢true (sym e ∙ (any_iff (λ m. m == n) ns).1 (Any-map _ _ ns (λ m. (==_iff m n).1) a)),
    distinct-Distinct ns (rw e at h),
  )
]

rootful_sudo_caps-Distinct : Distinct (map lowercase rootful_sudo_caps)
unfolding rootful_sudo_caps text ◌==◌ distinct
rootful_sudo_caps-Distinct = distinct-Distinct (map lowercase rootful_sudo_caps) refl

Any-permᴰ : (P : Bytes → Type 0) {cs ds : List Bytes} → Permᴰ cs ds → Any P cs → Any P ds
Any-permᴰ P Permᴰ.nil h = h
Any-permᴰ P (Permᴰ.cons e p) h = elim h [
  | inl here ↦ inl (subst P e here)
  | inr there ↦ inr (Any-permᴰ P p there)
]
Any-permᴰ P (Permᴰ.swap e f) h = elim h [
  | inl a ↦ inr (inl (subst P e a))
  | inr more ↦ elim more [ inl b ↦ inl (subst P f b) | inr there ↦ inr (inr there) ]
]
Any-permᴰ P (Permᴰ.trans p q) h = Any-permᴰ P q (Any-permᴰ P p h)

length-permᴰ : {cs ds : List Bytes} → Permᴰ cs ds → length cs ≡ length ds
length-permᴰ Permᴰ.nil = refl
length-permᴰ (Permᴰ.cons e p) = ap suc (length-permᴰ p)
length-permᴰ (Permᴰ.swap e f) = refl
length-permᴰ (Permᴰ.trans p q) = length-permᴰ p ∙ length-permᴰ q

-- Everything is dropped, and the capabilities of sudo are added and no others, in whatever case.
abbrev pub SudoCapabilities : Capabilities → Type 0
SudoCapabilities caps =
    Any (λ c. c ≡ lowercase (text "ALL")) (map lowercase caps.drop)
    × Perm (map lowercase caps.add) (map lowercase rootful_sudo_caps)

occurrences :
    (ds cs : List Bytes)
    → ((r : Bytes) → Any (λ c. c ≡ r) ds → Any (λ c. c ≡ r) cs)
    → All (λ r. Any (λ c. c ≡ r) cs) ds
occurrences [] cs f = tt
occurrences (d ∷ ds) cs f = (f d (inl refl), occurrences ds cs (λ r h. f r (inr h)))

pub and_true : (a b : Bool) → ((a && b) ≡ true) ↔ ((a ≡ true) × (b ≡ true))
and_true true b = (λ h. (refl, h), λ h. h.1)
and_true false b = (λ h. absurd (false≢true h), λ h. h.0)

IsSet-Bool : IsSet Bool
IsSet-Bool = hlevel

module _ (caps : Capabilities) where
  SudoCapabilities-of_match : capabilities_match_rootful_sudo caps ≡ true → SudoCapabilities caps
  unfolding capabilities_match_rootful_sudo
  SudoCapabilities-of_match h =
      let (drops, h1) = (and_true _ _).0 h in
      let (lengths, adds) = (and_true _ _).0 h1 in
      (
        (any-lowercase (text "ALL") caps.drop).0 drops,
        distinct-perm (map lowercase rootful_sudo_caps) (map lowercase caps.add)
            (length-map lowercase caps.add
              ∙ eqb→eq _ _ lengths
              ∙ sym (length-map lowercase rootful_sudo_caps))
            rootful_sudo_caps-Distinct ((all-lowercase rootful_sudo_caps caps.add).0 adds),
      )

  match_of_Perm :
      Any (λ c. c ≡ lowercase (text "ALL")) (map lowercase caps.drop)
      → Permᴰ (map lowercase caps.add) (map lowercase rootful_sudo_caps)
      → capabilities_match_rootful_sudo caps ≡ true
  unfolding capabilities_match_rootful_sudo
  match_of_Perm drops adds =
      let lengths =
        sym (length-map lowercase caps.add)
        ∙ length-permᴰ adds
        ∙ length-map lowercase rootful_sudo_caps in
      (and_true _ _).1 (
        (any-lowercase (text "ALL") caps.drop).1 drops,
        (and_true _ _).1 (
          rw lengths (eqb_refl (length rootful_sudo_caps)),
          (all-lowercase rootful_sudo_caps caps.add).1 (
              occurrences (map lowercase rootful_sudo_caps) (map lowercase caps.add)
                (λ r. Any-permᴰ (λ c. c ≡ r) (Permᴰ.symm adds))),
        ),
      )

  capabilities_match_iff : (capabilities_match_rootful_sudo caps ≡ true) ↔ SudoCapabilities caps
  capabilities_match_iff = (
    SudoCapabilities-of_match,
    λ (drops, adds). ∥∥₁_elim adds (IsSet-Bool _ _) (match_of_Perm drops),
  )

-- The profile that may escalate: root, a writable file system, and the capabilities of sudo.
pub record RootfulSudo (oci : OciRuntimeSpec) : Type 0 where
  pub user : oci.security_context.run_as_user ≡ 0
  pub group : oci.security_context.run_as_group ≡ 0
  pub writable : oci.security_context.read_only_root_fs ≡ false
  pub capabilities : SudoCapabilities oci.capabilities

eqb_iff : (m n : ℕ) → (eqb m n ≡ true) ↔ (m ≡ n)
eqb_iff m n = (eqb→eq m n, λ e. rw e (eqb_refl n))

module _ (oci : OciRuntimeSpec) where
  RootfulSudo-of_test : descriptor_uses_rootful_sudo oci ≡ true → RootfulSudo oci
  unfolding descriptor_uses_rootful_sudo
  RootfulSudo-of_test h =
      let (user, h1) = (and_true _ _).0 h in
      let (group, h2) = (and_true _ _).0 h1 in
      let (writable, h3) = (and_true _ _).0 h2 in
      let (_, h4) = (and_true _ _).0 h3 in
      let (_, caps) = (and_true _ _).0 h4 in
      record {
        user = eqb→eq _ _ user;
        group = eqb→eq _ _ group;
        writable = (not-true _).0 writable;
        capabilities = (capabilities_match_iff oci.capabilities).0 caps;
      }

  test_of_RootfulSudo :
      oci.security_context.privileged ≡ false
      → oci.security_context.allow_privilege_escalation ≡ true
      → RootfulSudo oci
      → descriptor_uses_rootful_sudo oci ≡ true
  unfolding descriptor_uses_rootful_sudo
  test_of_RootfulSudo safe allows p = (and_true _ _).1 (
    (eqb_iff _ _).1 p.user,
    (and_true _ _).1 (
      (eqb_iff _ _).1 p.group,
      (and_true _ _).1 (
        (not-true _).1 p.writable,
        (and_true _ _).1 (
          allows,
          (and_true _ _).1
              ((not-true _).1 safe, (capabilities_match_iff oci.capabilities).1 p.capabilities),
        ),
      ),
    ),
  )

floor_iff :
    (privileged allow sudo : Bool)
    → ((ensure (not privileged) privileged_forbidden
          >> (ensure (not (allow && not sudo)) privilege_escalation_forbidden >> ok (tt {0})))
        ≡ ok tt)
      ↔ ((privileged ≡ false) × ((allow ≡ false) ⊎ (sudo ≡ true)))
floor_iff true allow sudo = (λ h. absurd (cc), λ h. absurd (false≢true (sym h.0)))
floor_iff false true true = (λ h. (refl, inr refl), λ h. refl)
floor_iff false true false =
    (λ h. absurd (cc), λ h. absurd (elim h.1 [ inl e ↦ false≢true (sym e) | inr e ↦ false≢true e ]))
floor_iff false false sudo = (λ h. (refl, inl refl), λ h. refl)

-- A descriptor is above the floor exactly when it is not privileged, and does not allow the
-- escalation of privileges or has the profile of sudo: user and group 0, a writable root file
-- system, all capabilities dropped, and exactly the six of sudo added.
pub validate_oci_security_floor_iff :
    (d : DeploymentDescriptor)
    → (validate_oci_security_floor d ≡ ok tt) ↔ (
        (d.oci_runtime_spec.security_context.privileged ≡ false)
        × ((d.oci_runtime_spec.security_context.allow_privilege_escalation ≡ false)
            ⊎ RootfulSudo d.oci_runtime_spec))
unfolding validate_oci_security_floor
validate_oci_security_floor_iff d =
    let oci = d.oci_runtime_spec in
    let allow = oci.security_context.allow_privilege_escalation in
    let test = floor_iff oci.security_context.privileged allow (descriptor_uses_rootful_sudo oci) in
    (
      λ h.
          let (safe, profile) = test.0 h in
          (safe, elim profile [ inl e ↦ inl e | inr e ↦ inr (RootfulSudo-of_test oci e) ]),
      λ (safe, profile). test.1 (
        safe,
        elim (Bool-cases allow) [
          | inl e ↦ elim profile [ inl f ↦ inl f | inr p ↦ inr (test_of_RootfulSudo oci safe e p) ]
          | inr e ↦ inl e
        ],
      ),
    )
