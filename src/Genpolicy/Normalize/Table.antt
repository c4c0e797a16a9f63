-- ===== src/Genpolicy/Normalize/Table.antt =====
-- What the loop over the table of the platform's mounts does to their options.
use mathlib.Core.Bool.{false≢true}
use policy_templates.Prelude.{
  arith, ◌≡◌, ◌≢◌, refl, sym, ap, ◌∙◌, Bytes, text, ◌==◌, ==_iff, Bool, true, false, ◌&&◌,
  Bool-cases, Option, Option-cases, none, some, List, [], ◌∷◌, if◌then◌else◌, inl, inr, All, ok,
  ensure-passed, ok_inj, >>=-eq-ok, mount_shape_unexpected,
}
use policy_templates.Genpolicy.Value.{
  Value, string, get, get_in, as_array, as_string, json_array, get-set_key,
}
use policy_templates.Genpolicy.Normalize.Mounts.{
  Row, row_options, is_named, mounted_at, is_some_of, container_name, mounts_of, destination_of,
  set_mounts, set_options, select, update, corrected_containers, has_memory_shape, adjust_matching,
  adjust_container, adjust_row, adjust_rows,
}
use policy_templates.Genpolicy.Normalize.Update.{
  container_name-set_mounts, mounts_of-set_mounts, destination_of-set_options, select-update_self,
  select-update_other,
}

-- The element of a list of one.
abbrev pub the : List Value → Option Value
the (v ∷ []) = some v
the _ = none

-- A value that is a given text.
abbrev pub names_text : Bytes → Option Bytes → Bool
names_text expected none = false
names_text expected (some s) = s == expected

-- The container of a name, its mounts, and a mount at a destination.
abbrev pub called : Bytes → Value → Bool
called name c = names_text name (
    as_string (
      get_in (text "io.kubernetes.cri.container-name")
        (get_in (text "Annotations") (get (text "OCI") c))))

abbrev pub mounts_in_container : Value → Option (List Value)
mounts_in_container c = as_array (get_in (text "Mounts") (get (text "OCI") c))

abbrev pub placed : Bytes → Value → Bool
placed destination m = names_text destination (as_string (get (text "destination") m))

-- The options that a row asks for.
abbrev pub asked : Row → Value
asked r = json_array (string (text "rbind") ∷ string r.propagation ∷ string (text "rw") ∷ [])

abbrev pub options_at : Bytes → Option (List Value) → Option Value
options_at destination none = none
options_at destination (some mounts) =
    get_in (text "options") (the (select (placed destination) mounts))

abbrev pub options_in : Bytes → Option Value → Option Value
options_in destination none = none
options_in destination (some c) = options_at destination (mounts_in_container c)

-- The options of the one mount at a destination in the one container of a name.
unfoldable pub mount_options : List Value → Bytes → Bytes → Option Value
mount_options cs name destination = options_in destination (the (select (called name) cs))

abbrev pub is_row : Row → Bytes → Bytes → Bool
is_row r name destination = r.container == name && r.destination == destination

-- The options of a row in place of those that are there.
abbrev pub override : Row → Option Value → Option Value
override r none = none
override r (some options) = some (asked r)

abbrev pub override_row : Row → Bytes → Bytes → Option Value → Option Value
override_row r name destination o = if is_row r name destination then override r o else o

-- The options that the rows of a table leave at a place.
unfoldable pub override_rows : List Row → Bytes → Bytes → Option Value → Option Value
override_rows [] name destination o = o
override_rows (r ∷ rows) name destination o =
    override_rows rows name destination (override_row r name destination o)

is_some_of_sound : (s : Bytes) (o : Option Bytes) → is_some_of s o ≡ true → o ≡ some s
is_some_of_sound s none h = cc
is_some_of_sound s (some t) h = ap some ((==_iff t s).0 h)

is_some_of-apart :
    (s t : Bytes) (o : Option Bytes)
    → (s == t) ≡ false
    → is_some_of s o ≡ true
    → is_some_of t o ≡ false
is_some_of-apart s t o apart h = rw (is_some_of_sound s o h) apart

has_options :
    (r : Row) (m : Value)
    → has_memory_shape r m ≡ true
    → (w : Value) × (get (text "options") m ≡ some w)
unfolding has_memory_shape
has_options r m shape = elim (Option-cases (get (text "options") m)) [
  | inr found ↦ found
  | inl e ↦ absurd (let h = rw e at shape in ground arith)
]

module _ (r : Row) (mounts : List Value) where
  -- The options at a destination in the corrected mounts of the row's container.
  abbrev new_mounts : List Value
  new_mounts = update (mounted_at r.destination) (set_options r) mounts

  mounted_at-set_options : (d : Bytes) (m : Value) → mounted_at d (set_options r m) ≡ mounted_at d m
  mounted_at-set_options d m = ap (is_some_of d) (destination_of-set_options r m)

  options_at-other :
      (d : Bytes)
      → (r.destination == d) ≡ false
      → options_at d (some new_mounts) ≡ options_at d (some mounts)
  options_at-other d apart =
      rw
        (select-update_other (mounted_at r.destination) (set_options r) (mounted_at d)
          (mounted_at-set_options d)
          (λ m. is_some_of-apart r.destination d (destination_of m) apart) mounts)
        refl

  options_at-row :
      (m : Value)
      → select (mounted_at r.destination) mounts ≡ m ∷ []
      → has_memory_shape r m ≡ true
      → options_at r.destination (some new_mounts)
        ≡ override r (options_at r.destination (some mounts))
  unfolding set_options
  options_at-row m one shape =
      let (w, private) = has_options r m shape in
      rw
        (
          select-update_self (mounted_at r.destination) (set_options r)
              (mounted_at-set_options r.destination) mounts,
          one,
          private,
        )
        (get-set_key (text "options") (row_options r) m w private)

module _ (r : Row) (cs mounts : List Value) (c : Value)
    (one : select (is_named r.container) cs ≡ c ∷ []) (old : mounts_of c ≡ some mounts) where
  abbrev new_containers : List Value
  new_containers = corrected_containers r mounts cs

  named-set_mounts :
      (n : Bytes) (d : Value) → is_named n (set_mounts (new_mounts r mounts) d) ≡ is_named n d
  named-set_mounts n d = ap (is_some_of n) (container_name-set_mounts (new_mounts r mounts) d)

  mount_options-same :
      (d : Bytes)
      → (mount_options new_containers r.container d ≡ options_at d (some (new_mounts r mounts)))
        × (mount_options cs r.container d ≡ options_at d (some mounts))
  unfolding mount_options
  mount_options-same d = (
    rw
        (
          select-update_self (is_named r.container) (set_mounts (new_mounts r mounts))
              (named-set_mounts r.container) cs,
          one,
        )
        (ap (options_at d) (mounts_of-set_mounts (new_mounts r mounts) c mounts old)),
    rw one (ap (options_at d) old),
  )

  mount_options-other :
      (n d : Bytes)
      → (r.container == n) ≡ false
      → mount_options new_containers n d ≡ mount_options cs n d
  unfolding mount_options
  mount_options-other n d apart =
      rw
        (select-update_other (is_named r.container) (set_mounts (new_mounts r mounts)) (is_named n)
          (named-set_mounts n) (λ v. is_some_of-apart r.container n (container_name v) apart) cs)
        refl

  mount_options-corrected_containers :
      (m : Value)
      → select (mounted_at r.destination) mounts ≡ m ∷ []
      → has_memory_shape r m ≡ true
      → (n d : Bytes) → mount_options new_containers n d ≡ override_row r n d (mount_options cs n d)
  mount_options-corrected_containers m here shape n d = elim (Bool-cases (r.container == n)) [
    | inr e ↦ rw e (mount_options-other n d e)
    | inl e ↦ elim (Bool-cases (r.destination == d)) [
      | inl f ↦
          rw (e, f, ← ((==_iff r.container n).0 e), ← ((==_iff r.destination d).0 f))
            ((mount_options-same r.destination).0
              ∙ options_at-row r mounts m here shape
              ∙ ap (override r) (sym (mount_options-same r.destination).1))
      | inr f ↦
          rw (e, f, ← ((==_iff r.container n).0 e))
            ((mount_options-same d).0
              ∙ options_at-other r mounts d f
              ∙ sym (mount_options-same d).1)
    ]
  ]

-- The options of a container's mounts at a row's place.
mount_options-at :
    (r : Row) (cs mounts : List Value) (c : Value)
    → select (is_named r.container) cs ≡ c ∷ []
    → mounts_of c ≡ some mounts
    → mount_options cs r.container r.destination ≡ options_at r.destination (some mounts)
unfolding mount_options
mount_options-at r cs mounts c one old = rw one (ap (options_at r.destination) old)

-- What one row does to the options, and that a row that is required finds its mount.
abbrev RowDone : Row → List Value → List Value → Type 0
RowDone r cs cs' =
    ((n d : Bytes) → mount_options cs' n d ≡ override_row r n d (mount_options cs n d))
    × (r.required ≡ true → mount_options cs r.container r.destination ≢ none)

override_row-absent :
    (r : Row) (cs : List Value) (n d : Bytes)
    → mount_options cs r.container r.destination ≡ none
    → mount_options cs n d ≡ override_row r n d (mount_options cs n d)
override_row-absent r cs n d absent = elim (Bool-cases (r.container == n)) [
  | inr e ↦ rw e refl
  | inl e ↦ elim (Bool-cases (r.destination == d)) [
    | inr f ↦ rw (e, f) refl
    | inl f ↦
        rw (e, f, ← ((==_iff r.container n).0 e), ← ((==_iff r.destination d).0 f), absent) refl
  ]
]

adjust_matching-RowDone :
    (r : Row) (cs mounts : List Value) (c : Value)
    → select (is_named r.container) cs ≡ c ∷ []
    → mounts_of c ≡ some mounts
    → (found : List Value) → select (mounted_at r.destination) mounts ≡ found
    → {cs' : List Value} → adjust_matching r cs mounts found ≡ ok cs'
    → RowDone r cs cs'
unfolding adjust_matching
adjust_matching-RowDone r cs mounts c one old [] e h =
    let there = mount_options-at r cs mounts c one old in
    let absent : mount_options cs r.container r.destination ≡ none = there ∙ rw e refl in
    elim (Bool-cases r.required) [
      | inl needed ↦ absurd (let h' = rw needed at h in cc)
      | inr optional ↦
          let same = ok_inj (rw optional at h) in
          (
            λ n d. rw (← same) (override_row-absent r cs n d absent),
            λ needed. absurd (false≢true (sym optional ∙ needed)),
          )
    ]
adjust_matching-RowDone r cs mounts c one old (m ∷ []) e h =
    let (shape, done) = ensure-passed (has_memory_shape r m) mount_shape_unexpected _ h in
    let (w, private) = has_options r m shape in
    (
      λ n d.
          rw (← (ok_inj done))
            (mount_options-corrected_containers r cs mounts c one old m e shape n d),
      λ _ absent.
          let there : mount_options cs r.container r.destination ≡ some w =
            mount_options-at r cs mounts c one old ∙ rw (e, private) refl in
          absurd (cc (there, absent)),
    )
adjust_matching-RowDone r cs mounts c one old (m ∷ (n ∷ ms)) e h = absurd (cc)

adjust_container-RowDone :
    (r : Row) (cs found : List Value)
    → select (is_named r.container) cs ≡ found
    → {cs' : List Value} → adjust_container r cs found ≡ ok cs'
    → RowDone r cs cs'
unfolding adjust_container
adjust_container-RowDone r cs [] one h = absurd (cc)
adjust_container-RowDone r cs (c ∷ []) one h = elim (Option-cases (mounts_of c)) [
  | inl e ↦ absurd (let h' = rw e at h in cc)
  | inr (mounts, e) ↦
      adjust_matching-RowDone r cs mounts c one e (select (mounted_at r.destination) mounts) refl
        (rw e at h)
]
adjust_container-RowDone r cs (c ∷ (d ∷ ds)) one h = absurd (cc)

override_row-none : (r : Row) (n d : Bytes) → override_row r n d none ≡ none
override_row-none r n d = elim (Bool-cases (is_row r n d)) [ inl e ↦ rw e refl | inr e ↦ rw e refl ]

-- The mounts of the rows that are required are there.
abbrev pub Present : List Row → List Value → Type 0
Present rows cs =
    All (λ r. r.required ≡ true → mount_options cs r.container r.destination ≢ none) rows

Present-before :
    (r : Row) (rows : List Row) (cs cs' : List Value)
    → ((n d : Bytes) → mount_options cs' n d ≡ override_row r n d (mount_options cs n d))
    → Present rows cs'
    → Present rows cs
Present-before r [] cs cs' step all = tt
Present-before r (s ∷ rows) cs cs' step (here, all) = (
  λ needed absent. here needed (
      step s.container s.destination
      ∙ ap (override_row r s.container s.destination) absent
      ∙ override_row-none r s.container s.destination),
  Present-before r rows cs cs' step all,
)

-- The loop leaves at each place the options that the table says, and the rest as it was.
pub adjust_rows-Present :
    (rows : List Row) (cs : List Value) {cs' : List Value}
    → adjust_rows rows cs ≡ ok cs'
    → ((n d : Bytes) → mount_options cs' n d ≡ override_rows rows n d (mount_options cs n d))
      × Present rows cs
unfolding adjust_rows adjust_row override_rows
adjust_rows-Present [] cs h = (λ n d. rw (ok_inj h) refl, tt)
adjust_rows-Present (r ∷ rows) cs {cs'} h =
    let (cs1, first, rest) = >>=-eq-ok (adjust_row r cs) (adjust_rows rows) h in
    let (step, needed) =
      adjust_container-RowDone r cs (select (is_named r.container) cs) refl first in
    let (steps, all) = adjust_rows-Present rows cs1 rest in
    (
      λ n d. steps n d ∙ ap (override_rows rows n d) (step n d),
      (needed, Present-before r rows cs cs1 step all),
    )
