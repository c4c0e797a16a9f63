-- ===== src/Policy/Slots.antt =====
-- What `render_template` returns, and when.
use mathlib.Core.Bool.{false≢true}
use policy_templates.Prelude.{
  ◌≡◌, ◌≢◌, refl, sym, ◌∙◌, ◌↔◌, Bytes, text, ◌==◌, ==_iff, contains, replace, false, not, Bool,
  true, ◌||◌, ℕ, arith, Bool-cases, not-true, any, All, List, [], ◌∷◌, ok, ok_inj, ensure-passed,
  >>=-eq-ok, inl, inr,
}
use policy_templates.External.{External}
use policy_templates.Descriptor.{DeploymentDescriptor}
use policy_templates.Policy.Render.{
  is_invalid_byte, validate_rego_string_slot, replacements, render, render_template,
}

-- A value that is not empty and has no quotation mark, line feed, carriage return or zero byte.
abbrev pub IsSlotValue : Bytes → Type 0
IsSlotValue value = (value ≢ []) × All (λ b. (b ≢ 34) × (b ≢ 10) × (b ≢ 13) × (b ≢ 0)) value

-- The eight slots of a template and their values, in the order of replacement.
abbrev pub slots : External → DeploymentDescriptor → List (Bytes × Bytes)
slots x d =
    (text "{{init_data_hash}}", x.hex_encode d.expected_cc_init_data_hash)
    ∷ (text "{{image_digest}}", d.image_digest)
    ∷ (text "{{signer_subject}}", d.signer_identity.subject)
    ∷ (text "{{signer_issuer}}", d.signer_identity.issuer)
    ∷ (text "{{namespace}}", d.namespace)
    ∷ (text "{{service_account}}", d.service_account)
    ∷ (text "{{identity_hash}}", x.hex_encode d.identity_hash)
    ∷ (text "{{kbs_resource_path}}", d.kbs_resource_path)
    ∷ []

-- The needles replaced one after the other.
abbrev pub substitute : Bytes → List (Bytes × Bytes) → Bytes
substitute s [] = s
substitute s ((needle, value) ∷ rest) = substitute (replace s needle value) rest

clean_byte_iff : (b : ℕ) → (is_invalid_byte b ≡ false) ↔ ((b ≢ 34) × (b ≢ 10) × (b ≢ 13) × (b ≢ 0))
clean_byte_iff b = (
  λ h. ((λ e. ground arith), (λ e. ground arith), (λ e. ground arith), (λ e. ground arith)),
  λ (quote, line, return, zero). ground arith,
)

or_false : (a b : Bool) → ((a || b) ≡ false) ↔ ((a ≡ false) × (b ≡ false))
or_false true b = (λ h. absurd (cc), λ h. absurd (false≢true (sym h.0)))
or_false false b = (λ h. (refl, h), λ h. h.1)

clean_bytes_iff :
    (value : Bytes)
    → (any is_invalid_byte value ≡ false)
      ↔ All (λ b. (b ≢ 34) × (b ≢ 10) × (b ≢ 13) × (b ≢ 0)) value
clean_bytes_iff [] = (λ h. tt, λ h. refl)
clean_bytes_iff (b ∷ value) =
    let ih = clean_bytes_iff value in
    let here = clean_byte_iff b in
    let parts = or_false (is_invalid_byte b) (any is_invalid_byte value) in
    (
      λ h. let (first, rest) = parts.0 h in (here.0 first, ih.0 rest),
      λ h. parts.1 (here.1 h.0, ih.1 h.1),
    )

validate_rego_string_slot_iff :
    (name value : Bytes) → (validate_rego_string_slot name value ≡ ok tt) ↔ IsSlotValue value
unfolding validate_rego_string_slot
validate_rego_string_slot_iff name value = (
  λ h.
      let (filled, h1) = ensure-passed (not (value == [])) _ _ h in
      let (clean, _) = ensure-passed (not (any is_invalid_byte value)) _ _ h1 in
      (
        λ e. false≢true (sym ((not-true _).0 filled) ∙ (==_iff value []).1 e),
        (clean_bytes_iff value).0 ((not-true _).0 clean),
      ),
  λ (filled, clean). elim (Bool-cases (value == [])) [
    | inl e ↦ absurd (filled ((==_iff value []).0 e))
    | inr e ↦ rw (e, (clean_bytes_iff value).1 clean) refl
  ],
)

render_iff :
    (s : Bytes) (slots : List (Bytes × Bytes)) (r : Bytes)
    → (render s slots ≡ ok r)
      ↔ (All (λ (slot : Bytes × Bytes). IsSlotValue slot.1) slots × (r ≡ substitute s slots))
unfolding render
render_iff s [] r = (λ h. (tt, sym (ok_inj h)), λ h. rw h.1 refl)
render_iff s ((needle, value) ∷ rest) r =
    let ih = render_iff (replace s needle value) rest r in
    (
      λ h.
          let (u, e, k) = >>=-eq-ok (validate_rego_string_slot needle value) _ h in
          let (valid, same) = ih.0 k in
          (((validate_rego_string_slot_iff needle value).0 e, valid), same),
      λ ((first, others), same).
          rw ((validate_rego_string_slot_iff needle value).1 first) (ih.1 (others, same)),
    )

-- Rendering succeeds exactly when the eight values of the slots, written out for the descriptor, are
-- not empty and have no quotation mark, line feed, carriage return or zero byte, and no `{{` is left;
-- the result is the template with the eight slots replaced by them one after the other.
pub render_template_iff :
    (x : External) (template : Bytes) (d : DeploymentDescriptor) (r : Bytes)
    → (render_template x template d ≡ ok r) ↔ (
        All (λ (slot : Bytes × Bytes). IsSlotValue slot.1) (slots x d)
        × (r ≡ substitute template (slots x d))
        × (contains (text "{{") r ≡ false))
unfolding render_template replacements
render_template_iff x template d r = (
  λ h.
      let (s, e, k) = >>=-eq-ok (render template (slots x d)) _ h in
      let (done, same) = ensure-passed (not (contains (text "{{") s)) _ _ k in
      let (valid, value) = (render_iff template (slots x d) s).0 e in
      let is_r = ok_inj same in (valid, sym is_r ∙ value, rw is_r at ((not-true _).0 done)),
  λ (valid, value, done). rw ((render_iff template (slots x d) r).1 (valid, value), done) refl,
)
