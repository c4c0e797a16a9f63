-- ===== src/Genpolicy/Normalize/Update.antt =====
-- Reading back what is written to a container and to a mount.
use mathlib.Core.Bool.{false≢true}
use policy_templates.Prelude.{
  ◌≡◌, ◌≢◌, refl, sym, ap, ◌∙◌, Bytes, text, ◌==◌, ==_iff, Bool, true, false, Bool-cases,
  Option-cases, some, List, [], ◌∷◌, map, inl, inr,
}
use policy_templates.Genpolicy.Value.{
  Value, elements-items, get, json_array, set_key, get-set_key, get-set_key_other, set_key-set_key,
}
use policy_templates.Genpolicy.Normalize.Mounts.{
  Row, row_options, container_name, mounts_of, destination_of, set_mounts, set_options, select,
  update,
}

pub other_key : (j k : Bytes) → (j == k) ≡ false → j ≢ k
other_key j k h e = false≢true (sym h ∙ (==_iff j k).1 e)

mounts-annotations : text "Mounts" ≢ text "Annotations"
unfolding text ◌==◌
mounts-annotations = other_key (text "Mounts") (text "Annotations") refl

options-destination : text "options" ≢ text "destination"
unfolding text ◌==◌
options-destination = other_key (text "options") (text "destination") refl

module _ (mounts : List Value) where
  pub container_name-set_mounts :
      (c : Value) → container_name (set_mounts mounts c) ≡ container_name c
  unfolding set_mounts
  container_name-set_mounts c = elim (Option-cases (get (text "OCI") c)) [
    | inl e ↦ rw (e, e) refl
    | inr (oci, e) ↦
        rw
          (
            e,
            get-set_key (text "OCI") (set_key (text "Mounts") (json_array mounts) oci) c oci e,
            get-set_key_other (text "Mounts") (text "Annotations") (json_array mounts) oci
                mounts-annotations,
          )
          refl
  ]

  pub mounts_of-set_mounts :
      (c : Value) (old : List Value)
      → mounts_of c ≡ some old
      → mounts_of (set_mounts mounts c) ≡ some mounts
  unfolding set_mounts
  mounts_of-set_mounts c old h = elim (Option-cases (get (text "OCI") c)) [
    | inl e ↦ absurd (let h' = rw e at h in cc)
    | inr (oci, e) ↦ elim (Option-cases (get (text "Mounts") oci)) [
      | inl f ↦ absurd (let h' = rw (e, f) at h in cc)
      | inr (w, f) ↦
          let written = set_key (text "Mounts") (json_array mounts) oci in
          rw
            (
              e,
              get-set_key (text "OCI") written c oci e,
              get-set_key (text "Mounts") (json_array mounts) oci w f,
            )
            (ap some (elements-items mounts))
    ]
  ]

pub set_mounts-set_mounts :
    (mounts old : List Value) (c : Value)
    → set_mounts mounts (set_mounts old c) ≡ set_mounts mounts c
unfolding set_mounts
set_mounts-set_mounts mounts old c = elim (Option-cases (get (text "OCI") c)) [
  | inl e ↦ rw (e, e) refl
  | inr (oci, e) ↦
      let written = set_key (text "Mounts") (json_array old) oci in
      rw (e, get-set_key (text "OCI") written c oci e)
        (set_key-set_key (text "OCI") _ written c
          ∙ ap (λ (o : Value). set_key (text "OCI") o c) (set_key-set_key (text "Mounts") _ _ oci))
]

pub destination_of-set_options :
    (r : Row) (m : Value) → destination_of (set_options r m) ≡ destination_of m
unfolding set_options
destination_of-set_options r m =
    rw
      (get-set_key_other (text "options") (text "destination") (row_options r) m
        options-destination)
      refl

module _ (p : Value → Bool) (f : Value → Value) where
  pub select-update_self :
      ((v : Value) → p (f v) ≡ p v)
      → (vs : List Value) → select p (update p f vs) ≡ map f (select p vs)
  select-update_self keep [] = refl
  select-update_self keep (v ∷ vs) = elim (Bool-cases (p v)) [
    | inl e ↦ rw (e, keep v, e) (ap (λ ws. f v ∷ ws) (select-update_self keep vs))
    | inr e ↦ rw (e, e) (select-update_self keep vs)
  ]

  pub select-update_other :
      (q : Value → Bool)
      → ((v : Value) → q (f v) ≡ q v)
      → ((v : Value) → p v ≡ true → q v ≡ false)
      → (vs : List Value) → select q (update p f vs) ≡ select q vs
  select-update_other q keep apart [] = refl
  select-update_other q keep apart (v ∷ vs) =
      let ih = select-update_other q keep apart vs in
      elim (Bool-cases (p v)) [ inl e ↦ rw (e, keep v, apart v e) ih | inr e ↦ rw (e, ih) refl ]
