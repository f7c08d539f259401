-- ===== src/Auth/Verify/Token.antt =====
-- The checks of a token, without their code: when a stored token is good, and that the code behind
-- the checks runs exactly for a good token.
use temporal_cloud_offering.Prelude.{suc, ◌≡◌, ◌⊎◌, inl, inr, false, none, some, arith, Bool-cases}
use temporal_cloud_offering.Text.{Text, codes}
use temporal_cloud_offering.Text.Laws.{==_iff}
use temporal_cloud_offering.Json.{
  Json, str, fine, Value, member, below, is_text, is_text-eq, Try-cases,
}
use temporal_cloud_offering.Json.Doc.{printed, doc-cases}
use temporal_cloud_offering.Platform.{Platform}
use temporal_cloud_offering.Platform.Exec.{World, Exec, done}
use temporal_cloud_offering.Auth.{Response}
use temporal_cloud_offering.Auth.Verify.{Kind, check_token, other_email}

module _ (p : Platform) (kind : Kind) (token email : Text) where
  -- The KV holds, at the next call, a token record for that email that has not expired at the
  -- call after it.
  pub record IsGoodToken (w : World p.Store) : Type 0 where
    pub token_data : Json
    pub found : p.get (p.clock w.calls) (kind.key token) w.store ≡ some (printed token_data)
    pub owner : member (some token_data) (codes "email") ≡ fine (some (str email))
    pub expires_at : Value
    pub expiry : member (some token_data) (codes "expiresAt") ≡ fine expires_at
    pub fresh : below p.text_below expires_at (p.clock (suc w.calls)) ≡ false

  pub check_token_lem :
      (accept : Exec p.Store Response) (w : World p.Store)
      → IsGoodToken w
      → p.fault w.calls ≡ false
      → check_token p kind token email accept w ≡ accept (record w { calls = suc (suc w.calls) })
  unfolding check_token
  check_token_lem accept w g ok =
      ground (arith, g.found, g.owner, g.expiry, g.fresh, ==_iff email email)

  -- A run that is answered met one of the three refusals, or a good token.
  pub check_token_cases :
      (accept : Exec p.Store Response) (w w' : World p.Store) (r : Response)
      → check_token p kind token email accept w ≡ (done r, w')
      → (r ≡ kind.unknown) ⊎ (r ≡ other_email) ⊎ (r ≡ kind.expired) ⊎ IsGoodToken w
  unfolding check_token
  check_token_cases accept w w' r e = elim (Bool-cases (p.fault w.calls)) [
    | inl f ↦ ground arith
    | inr f ↦ elim (doc-cases (p.get (p.clock w.calls) (kind.key token) w.store)) [
      | inl missing ↦ ground arith
      | inr (inl malformed) ↦ ground arith
      | inr (inr (j, found)) ↦ elim (Try-cases (member (some j) (codes "email"))) [
        | inl bad ↦ ground arith
        | inr (o, owner) ↦ elim (Bool-cases (is_text o email)) [
          | inr other ↦ ground arith
          | inl same ↦ elim (Try-cases (member (some j) (codes "expiresAt"))) [
            | inl bad ↦ ground arith
            | inr (x, expiry) ↦ elim (Bool-cases (below p.text_below x (p.clock (suc w.calls)))) [
              | inl late ↦ ground arith
              | inr fresh ↦ inr (
                  inr (
                    inr (record {
                      token_data = j;
                      found = found;
                      owner = rw (← is_text-eq o email same) owner;
                      expires_at = x;
                      expiry = expiry;
                      fresh = fresh;
                    })))
            ]
          ]
        ]
      ]
    ]
  ]

  -- Without a token record the link is refused.
  pub check_token_unknown :
      (accept : Exec p.Store Response) (w : World p.Store)
      → p.get (p.clock w.calls) (kind.key token) w.store ≡ none
      → p.fault w.calls ≡ false
      → (check_token p kind token email accept w).0 ≡ done kind.unknown
  unfolding check_token
  check_token_unknown accept w missing ok = ground arith
