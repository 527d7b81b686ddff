-- ===== src/Query/Gateway/Refused.antt =====
-- What the gateway does with a request that it does not let through.
use runtime_ops.Base.{
  Text, codes, text_eq, text_eq_iff, lower, split, ℕ, ◌≡◌, refl, ◌↔◌, ◌≢◌, ◌⊎◌, Bool, true, Option,
  none, some, List, [], ◌∷◌, arith, text_eq_refl, inl, inr, Bool-cases, ◌&&◌,
}
use runtime_ops.Redis.Counters.{Counters}
use runtime_ops.Query.Gateway.{
  Limits, Link, Claim, text, null, other, Claims, Decoded, payload, expired_signature, invalid_jwt,
  Verified, valid, authentication_error, invalid_token_error, attribute_error, check_repo_id,
  check_payload, check_parts, verify_token, http_error, unhandled, present, admitted,
  authenticate_request,
}
use runtime_ops.Query.Gateway.Tokens.{no_parts, Vouches, org_present, and_true, verify_token_iff}

-- A header "Bearer <token>" whose token decodes to claims with an expiry and an organisation, but with
-- a repository that is neither a text nor null.
pub record HasOddRepo (decode : Text → Decoded) (header : Text) : Type 0 where
  pub scheme : Text
  pub token : Text
  pub parts : split header ≡ scheme ∷ token ∷ []
  pub bearer : lower scheme ≡ codes "bearer"
  pub claims : Claims
  pub decoded : decode token ≡ payload claims
  pub value : Text
  pub repo_is : claims.repo_id ≡ some (other value)
  pub org : Claim
  pub org_is : claims.org_id ≡ some org
  pub expires : claims.has_exp ≡ true

module _ (decode : Text → Decoded) (is_uuid : Text → Bool) where
  repo_odd :
      (claims : Claims) (o : Option Claim)
      → check_repo_id decode is_uuid claims o ≡ attribute_error
      → (v : Text) × (o ≡ some (other v))
  unfolding check_repo_id
  repo_odd claims none h = cc
  repo_odd claims (some null) h = cc
  repo_odd claims (some (other s)) h = (s, refl)
  repo_odd claims (some (text r)) h = elim (Bool-cases (is_uuid r)) [
    | inl e ↦ absurd (cc (rw e at h))
    | inr e ↦ absurd (cc (rw e at h))
  ]

  payload_odd :
      (d : Decoded)
      → check_payload decode is_uuid d ≡ attribute_error
      → (c : Claims) × (d ≡ payload c)
        × (v : Text) × (c.repo_id ≡ some (other v))
        × (org : Claim) × (c.org_id ≡ some org)
        × (c.has_exp ≡ true)
  unfolding check_payload
  payload_odd (payload claims) h =
      elim (Bool-cases (present claims.repo_id && present claims.org_id && claims.has_exp)) [
        | inl e ↦
            let (v, repo_is) = repo_odd claims claims.repo_id (rw e at h) in
            let (_, org_there, exp_there) =
              and_true (present claims.repo_id) (present claims.org_id) claims.has_exp e in
            let (org, org_is) = org_present claims.org_id org_there in
            (claims, refl, v, repo_is, org, org_is, exp_there)
        | inr e ↦ absurd (cc (rw e at h))
      ]
  payload_odd expired_signature h = cc
  payload_odd invalid_jwt h = cc

  parts_odd :
      (parts : List Text)
      → check_parts decode is_uuid parts ≡ attribute_error
      → (scheme token : Text) × (parts ≡ scheme ∷ token ∷ [])
        × (lower scheme ≡ codes "bearer")
        × (check_payload decode is_uuid (decode token) ≡ attribute_error)
  unfolding check_parts
  parts_odd [] h = cc
  parts_odd (a ∷ []) h = cc
  parts_odd (a ∷ b ∷ d ∷ r) h = cc
  parts_odd (a ∷ b ∷ []) h =
      (a, b, refl, (text_eq_iff (lower a) (codes "bearer")).0 (ground arith), ground arith)

  odd_payload :
      (c : Claims) (v : Text) (org : Claim)
      → c.repo_id ≡ some (other v)
      → c.org_id ≡ some org
      → c.has_exp ≡ true
      → check_payload decode is_uuid (payload c) ≡ attribute_error
  unfolding check_payload check_repo_id
  odd_payload c v org r o x = ground arith

  odd_parts :
      (scheme token : Text)
      → lower scheme ≡ codes "bearer"
      → check_payload decode is_uuid (decode token) ≡ attribute_error
      → check_parts decode is_uuid (scheme ∷ token ∷ []) ≡ attribute_error
  unfolding check_parts
  odd_parts scheme token b h = rw (b, text_eq_refl (codes "bearer")) h

  attribute_error_iff :
      (header : Text)
      → (verify_token decode is_uuid (some header) ≡ attribute_error) ↔ HasOddRepo decode header
  unfolding verify_token
  attribute_error_iff header = (sound, complete)
    where
      sound : verify_token decode is_uuid (some header) ≡ attribute_error → HasOddRepo decode header
      sound h =
          let (scheme, token, parts, bearer, rest) = parts_odd (split header) (ground arith) in
          let (claims, decoded, value, repo_is, org, org_is, expires) =
            payload_odd (decode token) rest in
          record {
            scheme = scheme;
            token = token;
            parts = parts;
            bearer = bearer;
            claims = claims;
            decoded = decoded;
            value = value;
            repo_is = repo_is;
            org = org;
            org_is = org_is;
            expires = expires;
          }

      complete :
          HasOddRepo decode header → verify_token decode is_uuid (some header) ≡ attribute_error
      complete o = elim (Bool-cases (text_eq header [])) [
        | inl e ↦ absurd (cc (o.parts, no_parts header e))
        | inr e ↦
            rw (e, o.parts)
              (odd_parts o.scheme o.token o.bearer
                (rw o.decoded (odd_payload o.claims o.value o.org o.repo_is o.org_is o.expires)))
      ]

module _ (redis : Counters) (decode : Text → Decoded) (is_uuid : Text → Bool) where
  open redis use {Store}

  refusal :
      (limits : Limits) (t : ℕ) (link : Link) (s : Store) (v : Verified)
      → ((c : Claims) → v ≢ valid c)
      → let (reply, s') = admitted redis decode is_uuid limits t link s v in
        (s' ≡ s)
        × ((reply ≡ unhandled) ↔ (v ≡ attribute_error))
        × ((reply ≡ unhandled) ⊎ (reply ≡ http_error 401))
  unfolding admitted
  refusal limits t link s (valid c) h = absurd (h c refl)
  refusal limits t link s authentication_error h =
      (refl, (λ e. absurd (cc e), λ e. absurd (cc e)), inr refl)
  refusal limits t link s invalid_token_error h =
      (refl, (λ e. absurd (cc e), λ e. absurd (cc e)), inr refl)
  refusal limits t link s attribute_error h = (refl, (λ e. refl, λ e. refl), inl refl)

  no_header :
      (limits : Limits) (t : ℕ) (link : Link) (s : Store)
      → authenticate_request redis decode is_uuid limits t link none s ≡ (http_error 401, s)
  unfolding authenticate_request admitted verify_token
  no_header limits t link s = refl

  -- A request whose header vouches for no claims is not counted, so it never uses up a limit. It is
  -- answered 401, but ends in an error that is not handled exactly where the token of a proper header
  -- decodes to complete claims whose `repo_id` is neither a text nor null. One without a header is
  -- answered 401.
  pub refused_not_counted :
      (limits : Limits) (t : ℕ) (link : Link) (header : Text) (s : Store)
      → ((c : Claims) → ¬ Vouches decode is_uuid header c)
      → let (reply, s') = authenticate_request redis decode is_uuid limits t link (some header) s in
        (s' ≡ s)
        × ((reply ≡ unhandled) ↔ HasOddRepo decode header)
        × ((reply ≡ unhandled) ⊎ (reply ≡ http_error 401))
        × (authenticate_request redis decode is_uuid limits t link none s ≡ (http_error 401, s))
  unfolding authenticate_request
  refused_not_counted limits t link header s h =
      let (same, odd, reply) =
        refusal limits t link s (verify_token decode is_uuid (some header))
          (λ c e. h c ((verify_token_iff decode is_uuid header c).0 e)) in
      let (there, back) = attribute_error_iff decode is_uuid header in
      (same, (λ u. there (odd.0 u), λ o. odd.1 (back o)), reply, no_header limits t link s)
