-- ===== src/Query/Gateway/Tokens.antt =====
-- Which requests the gateway lets through, and what it does with the others.
use runtime_ops.Base.{
  Text, codes, text_eq, text_eq_iff, lower, split, ℕ, ◌≡◌, refl, ◌↔◌, Bool, true, Option, none,
  some, List, [], ◌∷◌, arith, text_eq_refl, ap, inl, inr, Bool-cases, ◌&&◌,
}
use runtime_ops.Redis.Counters.{Counters}
use runtime_ops.Query.Gateway.{
  Limits, Link, Verdict, pass, exceeded, check_rate_limit, Claim, text, null, other, Claims,
  Decoded, payload, expired_signature, invalid_jwt, Verified, valid, authentication_error,
  invalid_token_error, attribute_error, check_repo_id, check_payload, check_parts, verify_token,
  claims_of, agent_id, present, limited, admitted, authenticate_request,
}

pub no_parts : (header : Text) → text_eq header [] ≡ true → split header ≡ []
unfolding split
no_parts header e = rw ((text_eq_iff header []).0 e)

-- A header "Bearer <token>", in any case, whose token decodes to these claims, with an expiry, an
-- organisation and a repository that is a UUID.
pub record Vouches (decode : Text → Decoded) (is_uuid : Text → Bool) (header : Text) (c : Claims)
    : Type 0 where
  pub scheme : Text
  pub token : Text
  pub parts : split header ≡ scheme ∷ token ∷ []
  pub bearer : lower scheme ≡ codes "bearer"
  pub decoded : decode token ≡ payload c
  pub repo : Text
  pub repo_is : c.repo_id ≡ some (text repo)
  pub uuid : is_uuid repo ≡ true
  pub org : Claim
  pub org_is : c.org_id ≡ some org
  pub expires : c.has_exp ≡ true

pub org_present : (o : Option Claim) → present o ≡ true → (org : Claim) × (o ≡ some org)
org_present none h = cc
org_present (some org) h = (org, refl)

pub and_true : (a b c : Bool) → (a && b && c) ≡ true → (a ≡ true) × (b ≡ true) × (c ≡ true)
and_true a b c h = ground arith

module _ (decode : Text → Decoded) (is_uuid : Text → Bool) where
  repo_valid :
      (claims : Claims) (o : Option Claim) (c : Claims)
      → check_repo_id decode is_uuid claims o ≡ valid c
      → (claims ≡ c) × (repo : Text) × (o ≡ some (text repo)) × (is_uuid repo ≡ true)
  unfolding check_repo_id
  repo_valid claims none c h = cc
  repo_valid claims (some null) c h = cc
  repo_valid claims (some (other s)) c h = cc
  repo_valid claims (some (text r)) c h = (ground arith, r, refl, ground arith)

  payload_valid :
      (d : Decoded) (c : Claims)
      → check_payload decode is_uuid d ≡ valid c
      → (d ≡ payload c)
        × (repo : Text) × (c.repo_id ≡ some (text repo))
        × (is_uuid repo ≡ true)
        × (org : Claim) × (c.org_id ≡ some org)
        × (c.has_exp ≡ true)
  unfolding check_payload
  payload_valid (payload claims) c h =
      elim (Bool-cases (present claims.repo_id && present claims.org_id && claims.has_exp)) [
        | inl e ↦
            let (same, repo, repo_is, uuid) = repo_valid claims claims.repo_id c (rw e at h) in
            let (_, org_there, exp_there) =
              and_true (present claims.repo_id) (present claims.org_id) claims.has_exp e in
            let (org, org_is) = org_present claims.org_id org_there in
            (
              ap payload same,
              repo,
              rw (← same) repo_is,
              uuid,
              org,
              rw (← same) org_is,
              rw (← same) exp_there,
            )
        | inr e ↦ absurd (cc (rw e at h))
      ]
  payload_valid expired_signature c h = cc
  payload_valid invalid_jwt c h = cc

  parts_valid :
      (parts : List Text) (c : Claims)
      → check_parts decode is_uuid parts ≡ valid c
      → (scheme token : Text) × (parts ≡ scheme ∷ token ∷ [])
        × (lower scheme ≡ codes "bearer")
        × (check_payload decode is_uuid (decode token) ≡ valid c)
  unfolding check_parts
  parts_valid [] c h = cc
  parts_valid (a ∷ []) c h = cc
  parts_valid (a ∷ b ∷ d ∷ r) c h = cc
  parts_valid (a ∷ b ∷ []) c h =
      (a, b, refl, (text_eq_iff (lower a) (codes "bearer")).0 (ground arith), ground arith)

  payload_accepts :
      (c : Claims) (repo : Text) (org : Claim)
      → c.repo_id ≡ some (text repo)
      → is_uuid repo ≡ true
      → c.org_id ≡ some org
      → c.has_exp ≡ true
      → check_payload decode is_uuid (payload c) ≡ valid c
  unfolding check_payload check_repo_id
  payload_accepts c repo org r u o x = ground arith

  parts_accept :
      (scheme token : Text) (c : Claims)
      → lower scheme ≡ codes "bearer"
      → check_payload decode is_uuid (decode token) ≡ valid c
      → check_parts decode is_uuid (scheme ∷ token ∷ []) ≡ valid c
  unfolding check_parts
  parts_accept scheme token c b h = rw (b, text_eq_refl (codes "bearer")) h

  -- `verify_token` returns claims exactly for a header that vouches for them.
  pub verify_token_iff :
      (header : Text) (c : Claims)
      → (verify_token decode is_uuid (some header) ≡ valid c) ↔ Vouches decode is_uuid header c
  unfolding verify_token
  verify_token_iff header c = (sound, complete)
    where
      sound : verify_token decode is_uuid (some header) ≡ valid c → Vouches decode is_uuid header c
      sound h =
          let (scheme, token, parts, bearer, rest) = parts_valid (split header) c (ground arith) in
          let (decoded, repo, repo_is, uuid, org, org_is, expires) =
            payload_valid (decode token) c rest in
          record {
            scheme = scheme;
            token = token;
            parts = parts;
            bearer = bearer;
            decoded = decoded;
            repo = repo;
            repo_is = repo_is;
            uuid = uuid;
            org = org;
            org_is = org_is;
            expires = expires;
          }

      complete :
          Vouches decode is_uuid header c → verify_token decode is_uuid (some header) ≡ valid c
      complete v = elim (Bool-cases (text_eq header [])) [
        | inl e ↦ absurd (cc (v.parts, no_parts header e))
        | inr e ↦ rw (e, v.parts) accepts
      ]
        where
          accepts : check_parts decode is_uuid (v.scheme ∷ v.token ∷ []) ≡ valid c
          accepts =
              parts_accept v.scheme v.token c v.bearer
                (rw v.decoded (payload_accepts c v.repo v.org v.repo_is v.uuid v.org_is v.expires))

module _ (redis : Counters) (decode : Text → Decoded) (is_uuid : Text → Bool) where
  open redis use {Store}

  limited_iff :
      (claims c : Claims) (r : Verdict × Store)
      → ((limited redis decode is_uuid claims r).0 ≡ claims_of c) ↔ ((claims ≡ c) × (r.0 ≡ pass))
  unfolding limited
  limited_iff claims c (pass, s) = (λ h. (cc h, refl), λ h. ap claims_of h.0)
  limited_iff claims c (exceeded l w n, s) = (λ h. absurd (cc h), λ h. absurd (cc (h.1)))

  admitted_sound :
      (limits : Limits) (t : ℕ) (link : Link) (s : Store) (v : Verified) (c : Claims)
      → (admitted redis decode is_uuid limits t link s v).0 ≡ claims_of c
      → (v ≡ valid c) × ((check_rate_limit redis limits (agent_id c.org_id) t link s).0 ≡ pass)
  unfolding admitted
  admitted_sound limits t link s (valid d) c h =
      let (same, passes) =
        (limited_iff d c (check_rate_limit redis limits (agent_id d.org_id) t link s)).0 h in
      (ap valid same, rw same at passes)
  admitted_sound limits t link s authentication_error c h = cc
  admitted_sound limits t link s invalid_token_error c h = cc
  admitted_sound limits t link s attribute_error c h = cc

  -- A request is let through with these claims exactly when its header vouches for them and the
  -- rate limit of their organisation passes it.
  pub authenticate_iff :
      (limits : Limits) (t : ℕ) (link : Link) (header : Text) (c : Claims) (s : Store)
      → ((authenticate_request redis decode is_uuid limits t link (some header) s).0 ≡ claims_of c)
        ↔ (Vouches decode is_uuid header c
            × ((check_rate_limit redis limits (agent_id c.org_id) t link s).0 ≡ pass))
  unfolding authenticate_request admitted
  authenticate_iff limits t link header c s = (
    λ h.
        let (v, passes) =
          admitted_sound limits t link s (verify_token decode is_uuid (some header)) c h in
        ((verify_token_iff decode is_uuid header c).0 v, passes),
    λ (vouch, passes). rw ((verify_token_iff decode is_uuid header c).1 vouch) (
        (limited_iff c c (check_rate_limit redis limits (agent_id c.org_id) t link s)).1
          (refl, passes)),
  )
