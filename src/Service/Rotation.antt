-- ===== src/Service/Rotation.antt =====
-- Who can rotate an owner key.
use policy_templates.Prelude.{
  ℕ, ◌≡◌, ◌≢◌, refl, sym, ap, ◌∙◌, subst, ◌⊎◌, inl, inr, Bytes, text, trim, ◌==◌, ==_sound, Bool,
  true, not, Bool-cases, some, [], Result, ok, err, Error, ok_inj, ensure-passed, >>=-eq-ok,
}
use policy_templates.External.{External}
use policy_templates.OwnerStore.{OwnerRecord, Storage, Reply, require_owner, rotate_owner}
use policy_templates.OwnerStore.Table.{OwnerRow, Db, select_owner}
use policy_templates.OwnerStore.Cases.{rotate_cases, rotate_owner-refuses}
use policy_templates.Service.{
  RotateOwnerRequest, RotateOwnerResponse, rotation_authority_is_current_or_replay,
  decode_pubkey_b64, decode_signature_b64, recovery_directive_bytes, rotate_response,
  check_rotation, rotate_owner_request,
}

-- The directive of the request is signed with a key for a replacement.
pub record Directed (x : External) (req : RotateOwnerRequest) (key replacement : Bytes)
    : Type 0 where
  pub named :
      decode_pubkey_b64 x (text "replacement_owner_pubkey_b64") req.replacement_owner_pubkey_b64
      ≡ ok replacement
  pub directive : Bytes
  pub signature : Bytes
  pub decoded : decode_signature_b64 x (text "signature_b64") req.signature_b64 ≡ ok signature
  pub encoded :
      recovery_directive_bytes x req.org_id key replacement req.signed_at req.reason ≡ ok directive
  pub verified : x.verify key directive signature ≡ true

authority_cases :
    (current signer replacement : Bytes)
    → rotation_authority_is_current_or_replay current signer replacement ≡ true
    → (signer ≡ current) ⊎ (replacement ≡ current)
unfolding rotation_authority_is_current_or_replay
authority_cases current signer replacement h = elim (Bool-cases (signer == current)) [
  | inl e ↦ inl (==_sound signer current e)
  | inr e ↦ inr (==_sound replacement current (rw e at h))
]

Result-cases : {A : Type 0} (m : Result A) → ((a : A) × (m ≡ ok a)) ⊎ ((e : Error) × (m ≡ err e))
Result-cases (ok a) = inl (a, refl)
Result-cases (err e) = inr (e, refl)

module _ (x : External) (reads : Storage) (enabled : Bool) (before : Db) (req : RotateOwnerRequest)
    (current : OwnerRecord) (replacement : Bytes) where
  check_rotation-Directed :
      check_rotation x reads enabled before req ≡ ok (current, replacement)
      → (signer : Bytes) × (require_owner x reads before req.org_id ≡ ok current)
        × (decode_pubkey_b64 x (text "signing_pubkey_b64") req.signing_pubkey_b64 ≡ ok signer)
        × Directed x req signer replacement
        × ((signer ≡ current.owner_pubkey) ⊎ (replacement ≡ current.owner_pubkey))
  unfolding check_rotation
  check_rotation-Directed h =
      let (_, h1) = ensure-passed (not (trim req.reason == [])) _ _ h in
      let (_, h2) = ensure-passed enabled _ _ h1 in
      let (c, ec, h3) = >>=-eq-ok (require_owner x reads before req.org_id) _ h2 in
      let (s, es, h4) =
        >>=-eq-ok (decode_pubkey_b64 x (text "signing_pubkey_b64") req.signing_pubkey_b64) _ h3 in
      let (r, er, h5) =
        >>=-eq-ok
          (decode_pubkey_b64 x (text "replacement_owner_pubkey_b64")
            req.replacement_owner_pubkey_b64)
          _ h4 in
      let (authority, h6) =
        ensure-passed (rotation_authority_is_current_or_replay c.owner_pubkey s r) _ _ h5 in
      let (g, eg, h7) =
        >>=-eq-ok (decode_signature_b64 x (text "signature_b64") req.signature_b64) _ h6 in
      let (d, ed, h8) =
        >>=-eq-ok (recovery_directive_bytes x req.org_id s r req.signed_at req.reason) _ h7 in
      let (verified, h9) = ensure-passed (x.verify s d g) _ _ h8 in
      let same = ok_inj h9 in
      let same_c : c ≡ current = ap (λ (p : OwnerRecord × Bytes). p.0) same in
      let same_r : r ≡ replacement = ap (λ (p : OwnerRecord × Bytes). p.1) same in
      (
        s,
        ec ∙ ap ok same_c,
        es,
        record {
          named = er ∙ ap ok same_r;
          directive = d;
          signature = g;
          decoded = eg;
          encoded =
              subst (λ k. recovery_directive_bytes x req.org_id s k req.signed_at req.reason ≡ ok d)
                same_r ed;
          verified = verified;
        },
        elim (authority_cases c.owner_pubkey s r authority) [
          | inl e ↦ inl (e ∙ ap (λ (o : OwnerRecord). o.owner_pubkey) same_c)
          | inr e ↦ inr (sym same_r ∙ e ∙ ap (λ (o : OwnerRecord). o.owner_pubkey) same_c)
        ],
      )

rotate_response-db :
    (x : External) (org_id : Bytes) (later : ℕ) (reply : Reply OwnerRecord)
    → (rotate_response x org_id later reply).1 ≡ reply.1
rotate_response-db x org_id later (ok r, db) = refl
rotate_response-db x org_id later (err e, db) = refl

rotate_response-ok :
    (x : External) (org_id : Bytes) (later : ℕ) (reply : Reply OwnerRecord)
    {response : RotateOwnerResponse}
    → (rotate_response x org_id later reply).0 ≡ ok response
    → (r : OwnerRecord) × (reply.0 ≡ ok r)
rotate_response-ok x org_id later (ok r, db) h = (r, refl)
rotate_response-ok x org_id later (err e, db) h = absurd (cc)

-- If a request for rotation changes the database, then the organisation has an owner there, and the
-- request's directive for another key is signed with that owner's key, whichever call of SQLite
-- fails and whatever other requests did since the handler read the owner.
pub rotate_owner_request_authorised :
    (x : External) (reads writes : Storage) (enabled : Bool) (before db : Db)
    (req : RotateOwnerRequest) (now later : ℕ)
    → (rotate_owner_request x reads writes enabled before db req now later).1 ≢ db
    → (row : OwnerRow) × (replacement : Bytes) × (select_owner (x.uuid_to_string req.org_id) db
        ≡ some row)
      × (replacement ≢ row.owner_pubkey)
      × Directed x req row.owner_pubkey replacement
unfolding rotate_owner_request
rotate_owner_request_authorised x reads writes enabled before db req now later changed =
    elim (Result-cases (check_rotation x reads enabled before req)) [
      | inr (e, failed) ↦ absurd (changed (rw failed refl))
      | inl ((current, replacement), passed) ↦
          let (signer, _, _, directed, authority) =
            check_rotation-Directed x reads enabled before req current replacement passed in
          elim (rotate_cases x writes db req.org_id current.owner_pubkey replacement now) [
            | inl same ↦
                absurd (changed (rw passed (rotate_response-db x req.org_id later _ ∙ same)))
            | inr (row, found, owner, differs, _, _) ↦ (
              row,
              replacement,
              found,
              (λ e. differs (e ∙ owner)),
              elim authority [
                | inl e ↦ subst (λ k. Directed x req k replacement) (e ∙ sym owner) directed
                | inr e ↦ absurd (differs e)
              ],
            )
          ]
    ]

-- A request for rotation that is answered with success is signed with the key of the owner that the
-- handler read, for another key than that owner's: a request whose replacement is the owner that the
-- handler read is not answered with success.
pub rotate_owner_request-current :
    (x : External) (reads writes : Storage) (enabled : Bool) (before db : Db)
    (req : RotateOwnerRequest) (now later : ℕ) (response : RotateOwnerResponse)
    → (rotate_owner_request x reads writes enabled before db req now later).0 ≡ ok response
    → (current : OwnerRecord) × (replacement : Bytes) × (require_owner x reads before req.org_id
        ≡ ok current)
      × (replacement ≢ current.owner_pubkey)
      × Directed x req current.owner_pubkey replacement
unfolding rotate_owner_request
rotate_owner_request-current x reads writes enabled before db req now later response done =
    elim (Result-cases (check_rotation x reads enabled before req)) [
      | inr (e, failed) ↦ let impossible = rw failed at done in absurd (cc)
      | inl ((current, replacement), passed) ↦
          let (signer, read, _, directed, authority) =
            check_rotation-Directed x reads enabled before req current replacement passed in
          let differs : replacement ≢ current.owner_pubkey = λ e.
            let answer = rw passed at done in
            let reply = rotate_owner x writes db req.org_id current.owner_pubkey replacement now in
            let (r, rotated) = rotate_response-ok x req.org_id later reply answer in
            rotate_owner-refuses x writes db req.org_id current.owner_pubkey now r (
              subst (λ k. (rotate_owner x writes db req.org_id current.owner_pubkey k now).0 ≡ ok r)
                e rotated) in
          (
            current,
            replacement,
            read,
            differs,
            elim authority [
              | inl e ↦ subst (λ k. Directed x req k replacement) e directed
              | inr e ↦ absurd (differs e)
            ],
          )
    ]
