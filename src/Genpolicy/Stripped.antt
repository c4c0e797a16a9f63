-- ===== src/Genpolicy/Stripped.antt =====
-- The settings without the mounts of service account tokens.
use mathlib.Core.Bool.{false≢true}
use policy_templates.Prelude.{
  some_inj, ◌≡◌, ◌≢◌, refl, sym, ap, ◌∙◌, Bytes, text, ◌==◌, ==_iff, not, not-true, Bool, true,
  Bool-cases, Option, Option-cases, none, some, List, [], ◌∷◌, any_iff, any, false, Any, Any-map,
  inl, inr,
}
use policy_templates.Genpolicy.Value.{
  Value, elements-items, json_array, get, get_in, as_array, as_string, get-set_key,
  get-set_key_other,
}
use policy_templates.Genpolicy.Normalize.Mounts.{select}
use policy_templates.Genpolicy.Normalize.Update.{other_key}
use policy_templates.Genpolicy.Settings.{
  token_mount_destinations, is_token_destination, keeps_mount, keeps_destination, retain_at,
  remove_token_mounts, remove_service_account_token_mounts,
}

-- The array at a key, and the mounts and the mount destinations of the settings.
abbrev pub mounts_in : Value → Option (List Value)
mounts_in settings = as_array (get_in (text "Mounts") (get (text "other_container") settings))

abbrev pub destinations_in : Value → Option (List Value)
destinations_in settings = as_array (get (text "mount_destinations") settings)

abbrev pub kept : (Value → Bool) → Option (List Value) → Option (List Value)
kept keep none = none
kept keep (some vs) = some (select keep vs)

array-retain_at :
    (keep : Value → Bool) (key : Bytes) (v : Value)
    → as_array (get key (retain_at keep key v)) ≡ kept keep (as_array (get key v))
unfolding retain_at
array-retain_at keep key v = elim (Option-cases (as_array (get key v))) [
  | inl e ↦ rw (e, e) refl
  | inr (vs, e) ↦ elim (Option-cases (get key v)) [
    | inl f ↦ absurd (let e' = rw f at e in cc)
    | inr (w, f) ↦
        rw (e, get-set_key key (json_array (select keep vs)) v w f)
          (ap some (elements-items (select keep vs)))
  ]
]

get-retain_at :
    (keep : Value → Bool) (key other : Bytes) (v : Value)
    → key ≢ other
    → get other (retain_at keep key v) ≡ get other v
unfolding retain_at
get-retain_at keep key other v differ = elim (Option-cases (as_array (get key v))) [
  | inl e ↦ rw e refl
  | inr (vs, e) ↦ rw e (get-set_key_other key other (json_array (select keep vs)) v differ)
]

mounts-remove :
    (settings : Value)
    → mounts_in (remove_token_mounts settings) ≡ kept keeps_mount (mounts_in settings)
unfolding remove_token_mounts
mounts-remove settings = elim (Option-cases (get (text "other_container") settings)) [
  | inl e ↦ rw (e, e) refl
  | inr (c, e) ↦
      rw
        (
          e,
          get-set_key (text "other_container") (retain_at keeps_mount (text "Mounts") c) settings c
              e,
        )
        (array-retain_at keeps_mount (text "Mounts") c)
]

get-remove :
    (settings : Value) (other : Bytes)
    → text "other_container" ≢ other
    → get other (remove_token_mounts settings) ≡ get other settings
unfolding remove_token_mounts
get-remove settings other differ = elim (Option-cases (get (text "other_container") settings)) [
  | inl e ↦ rw e refl
  | inr (c, e) ↦ rw e (get-set_key_other (text "other_container") other _ settings differ)
]

destinations-container : text "mount_destinations" ≢ text "other_container"
unfolding text ◌==◌
destinations-container = other_key (text "mount_destinations") (text "other_container") refl

-- The directories of service account tokens.
abbrev pub IsTokenDestination : Bytes → Type 0
IsTokenDestination d =
    Any (λ t. t ≡ d)
      (text "/var/run/secrets/kubernetes.io/serviceaccount"
        ∷ text "/var/run/secrets/azure/tokens"
        ∷ [])

-- A text that is not one of them.
abbrev NoToken : Option Bytes → Type 0
NoToken o = (d : Bytes) → o ≡ some d → IsTokenDestination d → ⊥

NoToken-of_test : (o : Option Bytes) → not (is_token_destination o) ≡ true → NoToken o
unfolding token_mount_destinations
NoToken-of_test none h d e token = absurd (cc (e))
NoToken-of_test (some s) h d e token =
    let clean = (not-true (is_token_destination (some s))).0 h in
    let same : s ≡ d = some_inj e in
    false≢true (
      sym clean
      ∙ (any_iff (λ t. t == s) token_mount_destinations).1
          (Any-map _ _ token_mount_destinations (λ t p. (==_iff t s).1 (p ∙ sym same)) token))

-- A value that names one of them.
abbrev pub NamesToken : (Value → Option Bytes) → Value → Type 0
NamesToken name v = (d : Bytes) × (name v ≡ some d) × IsTokenDestination d

token_of_test :
    (o : Option Bytes)
    → not (is_token_destination o) ≡ false
    → (d : Bytes) × (o ≡ some d) × IsTokenDestination d
unfolding token_mount_destinations
token_of_test none h = absurd (cc)
token_of_test (some s) h =
    let named = any (λ t. t == s) token_mount_destinations in
    elim (Bool-cases named) [
      | inl e ↦ (
        s,
        refl,
        Any-map _ _ token_mount_destinations (λ t. (==_iff t s).0)
            ((any_iff (λ t. t == s) token_mount_destinations).0 e),
      )
      | inr e ↦ absurd (false≢true (sym h ∙ rw e refl))
    ]

-- A list without the values of a predicate: each other value is kept, in its place.
pub data Without (P : Value → Type 0) : List Value → List Value → Type 0 where
  ends : Without P [] []
  stays :
      {v : Value} {vs ws : List Value} → (P v → ⊥) → Without P vs ws → Without P (v ∷ vs) (v ∷ ws)
  goes : {v : Value} {vs ws : List Value} → P v → Without P vs ws → Without P (v ∷ vs) ws

Without-select :
    (name : Value → Option Bytes) (vs : List Value)
    → Without (NamesToken name) vs (select (λ v. not (is_token_destination (name v))) vs)
Without-select name [] = ends
Without-select name (v ∷ vs) = elim (Bool-cases (not (is_token_destination (name v)))) [
  | inl e ↦ rw e (
      stays (λ (d, named, token). NoToken-of_test (name v) e d named token)
        (Without-select name vs))
  | inr e ↦ rw e (goes (token_of_test (name v) e) (Without-select name vs))
]

-- A value in which an array loses what names a token directory, and anything else is left.
abbrev pub Stripped : (Value → Option Bytes) → Option Value → Option Value → Type 0
Stripped name before after =
    (as_array before ≡ none → after ≡ before)
    × ((vs : List Value)
        → as_array before ≡ some vs
        → (ws : List Value) × (as_array after ≡ some ws) × Without (NamesToken name) vs ws)

retain_at-not_array :
    (keep : Value → Bool) (key : Bytes) (v : Value)
    → as_array (get key v) ≡ none
    → retain_at keep key v ≡ v
unfolding retain_at
retain_at-not_array keep key v e = rw e refl

Stripped-of_kept :
    (name : Value → Option Bytes) (before after : Option Value)
    → (as_array before ≡ none → after ≡ before)
    → as_array after ≡ kept (λ v. not (is_token_destination (name v))) (as_array before)
    → Stripped name before after
Stripped-of_kept name before after same removed = (
  same,
  λ vs e. (
    select (λ v. not (is_token_destination (name v))) vs,
    removed ∙ ap (kept (λ v. not (is_token_destination (name v)))) e,
    Without-select name vs,
  ),
)

-- The field of the container in the settings.
abbrev pub container_field : Bytes → Value → Option Value
container_field key settings = get_in key (get (text "other_container") settings)

module _ (settings : Value) where
  container_field-other :
      (key : Bytes)
      → text "Mounts" ≢ key
      → container_field key (remove_token_mounts settings) ≡ container_field key settings
  unfolding remove_token_mounts
  container_field-other key differ = elim (Option-cases (get (text "other_container") settings)) [
    | inl e ↦ rw (e, e) refl
    | inr (c, e) ↦
        rw
          (
            e,
            get-set_key (text "other_container") (retain_at keeps_mount (text "Mounts") c) settings
                c e,
          )
          (get-retain_at keeps_mount (text "Mounts") key c differ)
  ]

  container_field-not_array :
      as_array (container_field (text "Mounts") settings) ≡ none
      → container_field (text "Mounts") (remove_token_mounts settings)
        ≡ container_field (text "Mounts") settings
  unfolding remove_token_mounts
  container_field-not_array h = elim (Option-cases (get (text "other_container") settings)) [
    | inl e ↦ rw (e, e) refl
    | inr (c, e) ↦
        rw
          (
            e,
            get-set_key (text "other_container") (retain_at keeps_mount (text "Mounts") c) settings
                c e,
          )
          (ap (get (text "Mounts")) (retain_at-not_array keeps_mount (text "Mounts") c (rw e at h)))
  ]

-- After the removal the mounts of the container and the mount destinations are what they were
-- without those, and only those, that name a directory of service account tokens, in their order;
-- what is no array is as it was; and so are the other fields of the container and the settings at
-- every other key.
pub remove_service_account_token_mounts-Clean :
    (settings : Value)
    → Stripped
        (λ m. as_string (get (text "destination") m))
        (container_field (text "Mounts") settings)
        (container_field (text "Mounts") (remove_service_account_token_mounts settings))
      × Stripped
          (λ v. as_string (some v))
          (get (text "mount_destinations") settings)
          (get (text "mount_destinations") (remove_service_account_token_mounts settings))
      × ((key : Bytes)
          → text "Mounts" ≢ key
          → container_field key (remove_service_account_token_mounts settings)
            ≡ container_field key settings)
      × ((key : Bytes)
          → text "other_container" ≢ key
          → text "mount_destinations" ≢ key
          → get key (remove_service_account_token_mounts settings) ≡ get key settings)
unfolding remove_service_account_token_mounts
remove_service_account_token_mounts-Clean settings =
    let removed = remove_token_mounts settings in
    let key = text "mount_destinations" in
    let field : (k : Bytes)
        → container_field k (remove_service_account_token_mounts settings)
          ≡ container_field k removed =
      λ k. ap (get_in k) (
        get-retain_at keeps_destination key (text "other_container") removed
          destinations-container) in
    let same : get key removed ≡ get key settings =
      get-remove settings key (λ e. destinations-container (sym e)) in
    (
      Stripped-of_kept (λ m. as_string (get (text "destination") m)) _ _
          (λ h. field (text "Mounts") ∙ container_field-not_array settings h)
          (ap as_array (field (text "Mounts")) ∙ mounts-remove settings),
      Stripped-of_kept (λ v. as_string (some v)) _ _
          (λ h.
            ap (get key) (retain_at-not_array keeps_destination key removed (ap as_array same ∙ h))
            ∙ same)
          (array-retain_at keeps_destination key removed
            ∙ ap (λ o. kept keeps_destination (as_array o)) same),
      λ other p. field other ∙ container_field-other settings other p,
      λ other p q.
          get-retain_at keeps_destination key other removed q ∙ get-remove settings other p,
    )
