-- ===== src/Auth/Verify/Answers.antt =====
-- Every answer that GET /api/auth/verify can give.
use temporal_cloud_offering.Prelude.{
  ◌≡◌, refl, sym, ◌∙◌, suc, subst, ◌⊎◌, inl, inr, true, not, ◌||◌, arith, Bool-cases,
}
use temporal_cloud_offering.Text.{Text, codes, non_empty}
use temporal_cloud_offering.Platform.{Platform}
use temporal_cloud_offering.Platform.Exec.{
  Exec, World, done, pure, Outcome-cases, kv_get, kv_delete, date_now, ◌>>◌,
}
use temporal_cloud_offering.Auth.{Response, Env, error_response, verification_key, magic_link_key}
use temporal_cloud_offering.Auth.Verify.{
  Kind, signup_kind, magic_link_kind, check_token, other_email, get_verify, signed_in,
  email_verified, accept_signup, accept_magic_link, activate,
}
use temporal_cloud_offering.Auth.Verify.Laws.{is_signup}
use temporal_cloud_offering.Auth.Verify.Token.{check_token_cases, check_token_lem}

last_result :
    {S A B : Type 0} (m : Exec S A) (b c : B) (v w : World S)
    → (m >> pure b) v ≡ (done c, w)
    → c ≡ b
last_result m b c v w e = elim (Outcome-cases (m v)) [
  | inl (a, v', ran) ↦ ground arith
  | inr (x, v', threw) ↦ ground arith
]

later_result :
    {S A B C : Type 0} (m : Exec S A) (n : Exec S B) (b c : C) (v w : World S)
    → (m >> (n >> pure b)) v ≡ (done c, w)
    → c ≡ b
later_result m n b c v w e = elim (Outcome-cases (m v)) [
  | inl (a, v', ran) ↦ elim (Outcome-cases (n v')) [
    | inl (a', v'', ran') ↦ ground arith
    | inr (x, v'', threw) ↦ ground arith
  ]
  | inr (x, v', threw) ↦ ground arith
]

-- What an answer can be: a refusal, a signed-in user, or for a link of a signup a verified email.
abbrev pub IsAnswer : Text → Text → Response → Type 0
IsAnswer email type r =
    ((message : Text) × (r ≡ error_response 400 message))
    ⊎ (r ≡ signed_in email)
    ⊎ ((r ≡ email_verified email) × (is_signup type ≡ true))

module _ (p : Platform) (token email : Text) where
  check_token_answers :
      (P : Response → Type 0) (kind : Kind) (accept : Exec p.Store Response)
      → ((v v' : World p.Store) (r : Response) → accept v ≡ (done r, v') → P r)
      → P kind.unknown
      → P kind.expired
      → P other_email
      → (w w' : World p.Store) (r : Response)
      → check_token p kind token email accept w ≡ (done r, w')
      → P r
  unfolding check_token kv_get kv_delete date_now
  check_token_answers P kind accept good unknown expired other w w' r e =
      elim (check_token_cases p kind token email accept w w' r e) [
        | inl same ↦ subst P (sym same) unknown
        | inr (inl same) ↦ subst P (sym same) other
        | inr (inr (inl same)) ↦ subst P (sym same) expired
        | inr (inr (inr token_is_good)) ↦ elim (Bool-cases (p.fault w.calls)) [
          | inl failed ↦ absurd (ground arith)
          | inr ok ↦
              good (record w { calls = suc (suc w.calls) }) w' r
                (sym (check_token_lem p kind token email accept w token_is_good ok) ∙ e)
        ]
      ]

  signup_answer :
      (v v' : World p.Store) (r : Response)
      → accept_signup p token email v ≡ (done r, v')
      → r ≡ email_verified email
  unfolding accept_signup
  signup_answer v v' r e =
      later_result (activate p email) (kv_delete p (verification_key token)) (email_verified email)
        r v v' e

  magic_link_answer :
      (v v' : World p.Store) (r : Response)
      → accept_magic_link p token email v ≡ (done r, v')
      → r ≡ signed_in email
  unfolding accept_magic_link
  magic_link_answer v v' r e =
      last_result (kv_delete p (magic_link_key token)) (signed_in email) r v v' e

  pub get_verify_answers :
      (env : Env) (type : Text) (w w' : World p.Store) (r : Response)
      → get_verify p env token email type w ≡ (done r, w')
      → IsAnswer email type r
  unfolding get_verify
  get_verify_answers env type w w' r e =
      elim (Bool-cases (not (non_empty token) || not (non_empty email))) [
        | inl invalid ↦ inl (codes "Invalid verification link", ground arith)
        | inr valid ↦ elim (Bool-cases env.kv) [
          | inr without ↦ inr (inl (ground arith))
          | inl kv ↦ elim (Bool-cases (is_signup type)) [
            | inl signup ↦
                check_token_answers (IsAnswer email type) signup_kind (accept_signup p token email)
                  (λ v v' r e. inr (inr (signup_answer v v' r e, signup))) (inl (_, refl))
                  (inl (_, refl)) (inl (_, refl)) w w' r (ground arith)
            | inr other ↦
                check_token_answers (IsAnswer email type) magic_link_kind
                  (accept_magic_link p token email)
                  (λ v v' r e. inr (inl (magic_link_answer v v' r e))) (inl (_, refl))
                  (inl (_, refl)) (inl (_, refl)) w w' r (ground arith)
          ]
        ]
      ]
