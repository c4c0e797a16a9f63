-- ===== src/Genpolicy/Normalize/Insert.antt =====
-- Where a helper is put into a policy.
use mathlib.Core.Bool.{false≢true}
use mathlib.Core.List.{append_assoc}
use policy_templates.Prelude.{
  ℕ, ◌+◌, ◌≡◌, refl, sym, ◌∙◌, Bytes, contains, find_str-cases, take, drop, length, length-append,
  take-append, drop-append, true, false, ◌∷◌, ◌++◌, some, inl, inr,
}
use policy_templates.Genpolicy.Normalize.Text.{insert_after, insert_at, insert_policy_helper}

-- The text before and after the first line that marks the place.
pub record Around (policy : Bytes) : Type 0 where
  pub before : Bytes
  pub after : Bytes
  pub parts : policy ≡ before ++ (insert_after ++ after)

insert_at-length :
    (a n b helper : Bytes)
    → insert_at (some (length a + length n)) (a ++ (n ++ b)) helper ≡ a ++ (n ++ (helper ++ b))
insert_at-length a n b helper =
    let past : (f : ℕ → Bytes → Bytes)
        → f (length a + length n) (a ++ (n ++ b)) ≡ f (length (a ++ n)) ((a ++ n) ++ b) =
      λ f. rw (length-append a n, append_assoc a n b) refl in
    rw (past take, past drop, take-append (a ++ n) b, drop-append (a ++ n) b)
      (append_assoc a n (helper ++ b))

-- A helper goes directly after the line that sets the default of AllowRequestsFailingPolicy, if the
-- policy has the line, and in front of the policy with a line feed if not. Nothing else changes.
pub insert_policy_helper_lem :
    (policy helper : Bytes)
    → (contains insert_after policy ≡ true
        → (a : Around policy) × (insert_policy_helper policy helper
            ≡ a.before ++ (insert_after ++ (helper ++ a.after))))
      × (contains insert_after policy ≡ false
          → insert_policy_helper policy helper ≡ helper ++ (10 ∷ policy))
unfolding insert_policy_helper
insert_policy_helper_lem policy helper = elim (find_str-cases insert_after policy) [
  | inl (absent, e) ↦ (λ h. absurd (false≢true (sym absent ∙ h)), λ h. rw e refl)
  | inr (a, b, present, e, split) ↦ (
    λ h. (
      record { before = a; after = b; parts = split },
      rw (e, split) (insert_at-length a insert_after b helper),
    ),
    λ h. absurd (false≢true (sym h ∙ present)),
  )
]
