-- ===== src/Descriptor/Unique.antt =====
-- `validate_unique_resource_names` of descriptor.rs.
use policy_templates.Prelude.{
  ◌≡◌, refl, ◌↔◌, Bytes, text, ◌==◌, ==_iff, true, any, any_iff, Any, Any-map, sym, ◌∙◌, map, List,
  [], ◌∷◌, Result, ok, err, ◌>>◌, >>=-eq-ok, if◌then◌else◌, inl, inr, duplicate_resource,
  Bool-cases,
}
use mathlib.Core.Bool.{false≢true}
use policy_templates.Descriptor.{EnvVar, DeploymentDescriptor}

-- The loop of `check`: `seen` holds the names of the entries before.
pub check : Bytes → List Bytes → List EnvVar → Result (Unit {0})
check field seen [] = ok tt
check field seen (entry ∷ entries) =
    let more = check field (entry.name ∷ seen) entries in
    if any (λ name. name == entry.name) seen
    then err (duplicate_resource field entry.name)
    else more

unfoldable pub validate_unique_resource_names : DeploymentDescriptor → Result (Unit {0})
unfolding check
validate_unique_resource_names d =
    check (text "requests") [] d.oci_runtime_spec.resources.requests
    >> check (text "limits") [] d.oci_runtime_spec.resources.limits

-- No name stands twice.
abbrev pub Distinct : List Bytes → Type 0
Distinct [] = Unit
Distinct (n ∷ names) = (Any (λ m. m ≡ n) names → ⊥) × Distinct names

abbrev pub names : List EnvVar → List Bytes
names = map (λ (e : EnvVar). e.name)

-- None of the names is among those seen.
abbrev Fresh : List Bytes → List Bytes → Type 0
Fresh seen [] = Unit
Fresh seen (n ∷ ns) = (Any (λ m. m ≡ n) seen → ⊥) × Fresh seen ns

Fresh-nil : (ns : List Bytes) → Fresh [] ns
Fresh-nil [] = tt
Fresh-nil (n ∷ ns) = (λ h. h, Fresh-nil ns)

Fresh-cons :
    (n : Bytes) (seen ns : List Bytes)
    → Fresh (n ∷ seen) ns ↔ (Fresh seen ns × (Any (λ m. m ≡ n) ns → ⊥))
Fresh-cons n seen [] = (λ h. (tt, λ e. e), λ h. tt)
Fresh-cons n seen (k ∷ ns) =
    let ih = Fresh-cons n seen ns in
    (
      λ h.
          let rest = ih.0 h.1 in
          (
            (λ a. h.0 (inr a), rest.0),
            λ a. elim a [ inl e ↦ h.0 (inl (sym e)) | inr b ↦ rest.1 b ],
          ),
      λ h. (
        λ a. elim a [ inl e ↦ h.1 (inl (sym e)) | inr b ↦ h.0.0 b ],
        ih.1 (h.0.1, λ b. h.1 (inr b)),
      ),
    )

seen_iff : (n : Bytes) (seen : List Bytes) → (any (λ m. m == n) seen ≡ true) ↔ Any (λ m. m ≡ n) seen
seen_iff n seen =
    let h = any_iff (λ m. m == n) seen in
    (
      λ e. Any-map _ _ seen (λ m. (==_iff m n).0) (h.0 e),
      λ a. h.1 (Any-map _ _ seen (λ m. (==_iff m n).1) a),
    )

check_iff :
    (field : Bytes) (seen : List Bytes) (entries : List EnvVar)
    → (check field seen entries ≡ ok tt) ↔ (Distinct (names entries) × Fresh seen (names entries))
unfolding check
check_iff field seen [] = (λ h. (tt, tt), λ h. refl)
check_iff field seen (e ∷ es) =
    let ih = check_iff field (e.name ∷ seen) es in
    let cons = Fresh-cons e.name seen (names es) in
    elim (Bool-cases (any (λ n. n == e.name) seen)) [
      | inl dup ↦ (
        λ h. let h' = rw dup at h in absurd (cc),
        λ h. absurd (h.1.0 ((seen_iff e.name seen).0 dup)),
      )
      | inr new ↦ (
        λ h.
            let (distinct, fresh) = ih.0 (rw new at h) in
            let (others, unseen) = cons.0 fresh in
            ((unseen, distinct), (λ a. false≢true (sym new ∙ (seen_iff e.name seen).1 a), others)),
        λ h. rw new (ih.1 (h.0.1, cons.1 (h.1.1, h.0.0))),
      )
    ]

-- A descriptor passes exactly when no name stands twice among its resource requests, and none twice
-- among its resource limits.
pub validate_unique_resource_names_iff :
    (d : DeploymentDescriptor)
    → (validate_unique_resource_names d ≡ ok tt) ↔ (
        Distinct (names d.oci_runtime_spec.resources.requests)
        × Distinct (names d.oci_runtime_spec.resources.limits))
unfolding validate_unique_resource_names
validate_unique_resource_names_iff d =
    let requests = check_iff (text "requests") [] d.oci_runtime_spec.resources.requests in
    let limits = check_iff (text "limits") [] d.oci_runtime_spec.resources.limits in
    (
      λ h.
          let (u, e, k) =
            >>=-eq-ok (check (text "requests") [] d.oci_runtime_spec.resources.requests) _ h in
          ((requests.0 e).0, (limits.0 k).0),
      λ h. rw (requests.1 (h.0, Fresh-nil _)) (limits.1 (h.1, Fresh-nil _)),
    )
