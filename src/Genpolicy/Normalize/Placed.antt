-- ===== src/Genpolicy/Normalize/Placed.antt =====
-- The containers that the correction leaves, each from the container before.
use policy_templates.Prelude.{
  ◌≡◌, refl, sym, ap, ◌∙◌, Bool, true, false, any, Bool-cases, Option, Option-cases, none, some,
  List, [], ◌∷◌, map, inl, inr, if◌then◌else◌, text, ok, ensure-passed, ok_inj, >>=-eq-ok,
  mount_shape_unexpected,
}
use policy_templates.Genpolicy.Value.{Value, get, json_array, set_key}
use policy_templates.Genpolicy.Normalize.Mounts.{
  Row, is_named, mounted_at, mounts_of, set_mounts, set_options, select, update,
  corrected_containers, has_memory_shape, adjust_matching, adjust_container, adjust_row,
  adjust_rows,
}
use policy_templates.Genpolicy.Normalize.Table.{called, placed, asked, mounts_in_container}

-- A container with other mounts.
abbrev pub with_mounts_in : List Value → Value → Option Value → Value
with_mounts_in mounts c none = c
with_mounts_in mounts c (some oci) =
    set_key (text "OCI") (set_key (text "Mounts") (json_array mounts) oci) c

abbrev pub with_mounts : List Value → Value → Value
with_mounts mounts c = with_mounts_in mounts c (get (text "OCI") c)

-- A mount at the destination of a row has the options of the row, and any other is as it was.
abbrev pub placed_mount : Row → Value → Value
placed_mount r m = if placed r.destination m then set_key (text "options") (asked r) m else m

abbrev pub placed_in : Row → Value → Option (List Value) → Value
placed_in r c none = c
placed_in r c (some mounts) =
    if any (placed r.destination) mounts then with_mounts (map (placed_mount r) mounts) c else c

-- A container with the name of a row has its mounts at the row's destination changed, and any other
-- container is as it was.
abbrev pub placed_container : Row → Value → Value
placed_container r c = if called r.container c then placed_in r c (mounts_in_container c) else c

unfoldable pub placed_rows : List Row → Value → Value
placed_rows [] c = c
placed_rows (r ∷ rows) c = placed_rows rows (placed_container r c)

module _ (p : Value → Bool) where
  any-select : (vs : List Value) → select p vs ≡ [] → any p vs ≡ false
  any-select [] h = refl
  any-select (v ∷ vs) h = elim (Bool-cases (p v)) [
    | inl e ↦ absurd (let h' = rw e at h in cc)
    | inr e ↦ rw e (any-select vs (rw e at h))
  ]

  any-select_some :
      (vs : List Value) (m : Value) (ms : List Value) → select p vs ≡ m ∷ ms → any p vs ≡ true
  any-select_some [] m ms h = absurd (cc)
  any-select_some (v ∷ vs) m ms h = elim (Bool-cases (p v)) [
    | inl e ↦ rw e refl
    | inr e ↦ rw e (any-select_some vs m ms (rw e at h))
  ]

  map-update :
      (f : Value → Value) (vs : List Value) → map (λ v. if p v then f v else v) vs ≡ update p f vs
  map-update f [] = refl
  map-update f (v ∷ vs) = ap (λ ws. (if p v then f v else v) ∷ ws) (map-update f vs)

  update-none : (f : Value → Value) (vs : List Value) → select p vs ≡ [] → update p f vs ≡ vs
  update-none f [] h = refl
  update-none f (v ∷ vs) h = elim (Bool-cases (p v)) [
    | inl e ↦ absurd (let h' = rw e at h in cc)
    | inr e ↦ rw e (ap (λ ws. v ∷ ws) (update-none f vs (rw e at h)))
  ]

  module _ (g : Value → Value) (other : (v : Value) → p v ≡ false → g v ≡ v) where
    map-none : (vs : List Value) → select p vs ≡ [] → map g vs ≡ vs
    map-none [] h = refl
    map-none (v ∷ vs) h = elim (Bool-cases (p v)) [
      | inl e ↦ absurd (let h' = rw e at h in cc)
      | inr e ↦ rw (other v e) (ap (λ ws. v ∷ ws) (map-none vs (rw e at h)))
    ]

    -- A change of the one selected element.
    map-one :
        (f : Value → Value) (vs : List Value) (c : Value)
        → select p vs ≡ c ∷ []
        → (p c ≡ true → g c ≡ f c)
        → map g vs ≡ update p f vs
    map-one f [] c one same = absurd (cc)
    map-one f (v ∷ vs) c one same = elim (Bool-cases (p v)) [
      | inl e ↦
          let one' = rw e at one in
          let here : v ≡ c = cc in
          let rest : select p vs ≡ [] = cc in
          let changed : g v ≡ f v = rw here (same (rw here at e)) in
          rw (e, changed, map-none vs rest, update-none f vs rest) refl
      | inr e ↦ rw (e, other v e) (ap (λ ws. v ∷ ws) (map-one f vs c (rw e at one) same))
    ]

  update-same : (vs : List Value) → update p (λ v. v) vs ≡ vs
  update-same [] = refl
  update-same (v ∷ vs) =
      let ih = update-same vs in
      elim (Bool-cases (p v)) [ inl e ↦ rw (e, ih) refl | inr e ↦ rw (e, ih) refl ]

module _ (r : Row) (cs mounts : List Value) (c : Value)
    (one : select (is_named r.container) cs ≡ c ∷ []) (old : mounts_of c ≡ some mounts) where
  other_container : (v : Value) → is_named r.container v ≡ false → placed_container r v ≡ v
  other_container v e = rw e refl

  containers-absent :
      select (mounted_at r.destination) mounts ≡ [] → map (placed_container r) cs ≡ cs
  containers-absent absent =
      map-one (is_named r.container) (placed_container r) other_container (λ v. v) cs c one
        (λ e. rw (e, old, any-select (mounted_at r.destination) mounts absent) refl)
      ∙ update-same (is_named r.container) cs

  containers-found :
      (m : Value) (ms : List Value)
      → select (mounted_at r.destination) mounts ≡ m ∷ ms
      → map (placed_container r) cs ≡ corrected_containers r mounts cs
  unfolding set_options set_mounts
  containers-found m ms found =
      map-one (is_named r.container) (placed_container r) other_container
        (set_mounts (update (mounted_at r.destination) (set_options r) mounts)) cs c one
        (λ e.
          rw (e, old, any-select_some (mounted_at r.destination) mounts m ms found)
            (ap (λ ws. with_mounts ws c)
              (map-update (mounted_at r.destination) (set_options r) mounts)))

  matching-placed :
      (found : List Value)
      → select (mounted_at r.destination) mounts ≡ found
      → {cs' : List Value} → adjust_matching r cs mounts found ≡ ok cs'
      → cs' ≡ map (placed_container r) cs
  unfolding adjust_matching
  matching-placed [] e h = elim (Bool-cases r.required) [
    | inl needed ↦ absurd (let h' = rw needed at h in cc)
    | inr optional ↦ sym (ok_inj (rw optional at h)) ∙ sym (containers-absent e)
  ]
  matching-placed (m ∷ []) e h =
      let (_, done) = ensure-passed (has_memory_shape r m) mount_shape_unexpected _ h in
      sym (ok_inj done) ∙ sym (containers-found m [] e)
  matching-placed (m ∷ (n ∷ ms)) e h = absurd (cc)

container-placed :
    (r : Row) (cs found : List Value)
    → select (is_named r.container) cs ≡ found
    → {cs' : List Value} → adjust_container r cs found ≡ ok cs'
    → cs' ≡ map (placed_container r) cs
unfolding adjust_container
container-placed r cs [] one h = absurd (cc)
container-placed r cs (c ∷ []) one h = elim (Option-cases (mounts_of c)) [
  | inl e ↦ absurd (let h' = rw e at h in cc)
  | inr (mounts, e) ↦
      matching-placed r cs mounts c one e (select (mounted_at r.destination) mounts) refl
        (rw e at h)
]
container-placed r cs (c ∷ (d ∷ ds)) one h = absurd (cc)

map-placed_rows :
    (r : Row) (rows : List Row) (cs : List Value)
    → map (placed_rows rows) (map (placed_container r) cs) ≡ map (placed_rows (r ∷ rows)) cs
unfolding placed_rows
map-placed_rows r rows [] = refl
map-placed_rows r rows (c ∷ cs) =
    ap (λ ws. placed_rows rows (placed_container r c) ∷ ws) (map-placed_rows r rows cs)

map-same : (cs : List Value) → cs ≡ map (placed_rows []) cs
unfolding placed_rows
map-same [] = refl
map-same (c ∷ cs) = ap (λ ws. c ∷ ws) (map-same cs)

-- What the loop over a table leaves.
pub adjust_rows-placed_rows :
    (rows : List Row) (cs : List Value) {cs' : List Value}
    → adjust_rows rows cs ≡ ok cs'
    → cs' ≡ map (placed_rows rows) cs
unfolding adjust_rows adjust_row
adjust_rows-placed_rows [] cs h = sym (ok_inj h) ∙ map-same cs
adjust_rows-placed_rows (r ∷ rows) cs h =
    let (cs1, first, rest) = >>=-eq-ok (adjust_row r cs) (adjust_rows rows) h in
    adjust_rows-placed_rows rows cs1 rest
    ∙ ap (map (placed_rows rows))
        (container-placed r cs (select (is_named r.container) cs) refl first)
    ∙ map-placed_rows r rows cs
