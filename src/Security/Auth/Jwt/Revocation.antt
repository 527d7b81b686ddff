-- ===== src/Security/Auth/Jwt/Revocation.antt =====
-- What a revocation changes.
use runtime_ops.Base.{
  Text, codes, sym, ◌∙◌, ℕ, ◌-◌, ◌≤◌, ◌<◌, ◌≡◌, ◌≢◌, refl, true, false, Option, some, [], ◌∷◌, ◌++◌,
  leb, Bool-cases, inl, inr, if◌then◌else◌, arith,
}
use runtime_ops.Redis.Strings.{Strings}
use runtime_ops.Security.Auth.Jwt.{
  Payload, payload, expired_signature, Library, Outcome, ok, invalid_token, blacklist_key,
  is_blacklisted, check_blacklist, check_decoded, verify_token, blacklist, revoke_decoded,
  revoke_token,
}

strip_common : (a i j : Text) → a ++ i ≡ a ++ j → i ≡ j
strip_common [] i j e = e
strip_common (c ∷ a) i j e = strip_common a i j (tails e)
  where
    tails : c ∷ (a ++ i) ≡ c ∷ (a ++ j) → a ++ i ≡ a ++ j
    tails e = cc e

module _ (jwt : Library) (redis : Strings) (access_seconds : ℕ) where
  open jwt use {decode, decode_exp}
  open redis use {Store, get, setex, setex_zero, setex_stores, get-setex, setex_ne}

  abbrev verify : ℕ → Option Store → Text → Outcome Payload
  verify = verify_token jwt redis access_seconds

  abbrev revoke : ℕ → Option Store → Text → Outcome (Unit {0}) × Option Store
  revoke = revoke_token jwt redis access_seconds

  -- A revocation before the expiry is one write.
  revoke_writes :
      (t : ℕ) (s : Store) (token jti : Text) (p : Payload)
      → decode t false token ≡ payload p
      → p.jti ≡ some jti
      → t < p.exp
      → (s' : Store) × (revoke t (some s) token ≡ (ok tt, some s'))
        × (setex t (blacklist_key jti) (p.exp - t) (codes "1") s ≡ some s')
  unfolding revoke_token revoke_decoded blacklist
  revoke_writes t s token jti p d i h =
      let (s', e) = setex_stores t (blacklist_key jti) (p.exp - t) (codes "1") s (omega arith) in
      (s', rw (d, i) (rw (blacklist, e) refl), e)

  -- The blacklist decides on a token that the library accepts.
  verify_accepted :
      (u : ℕ) (s : Store) (token jti : Text) (p : Payload)
      → decode u true token ≡ payload p
      → p.jti ≡ some jti
      → verify u (some s) token
        ≡ (if is_blacklisted jwt redis access_seconds u s jti then invalid_token else ok p)
  unfolding verify_token check_decoded check_blacklist
  verify_accepted u s token jti p d i = rw (d, i) refl

  verify_expired :
      (u : ℕ) (client : Option Store) (token : Text)
      → decode u true token ≡ expired_signature
      → verify u client token ≡ invalid_token
  unfolding verify_token check_decoded
  verify_expired u client token d = rw d refl

  refused_after :
      (t u : ℕ) (s s' : Store) (token jti : Text) (p : Payload)
      → decode t false token ≡ payload p
      → p.jti ≡ some jti
      → setex t (blacklist_key jti) (p.exp - t) (codes "1") s ≡ some s'
      → t < p.exp
      → t ≤ u
      → verify u (some s') token ≡ invalid_token
  refused_after t u s s' token jti p d i w h g = elim (Bool-cases (leb p.exp u)) [
    | inl e ↦ verify_expired u (some s') token (decode_exp t u token p d g ∙ rw e refl)
    | inr e ↦
        verify_accepted u s' token jti p (decode_exp t u token p d g ∙ rw e refl) i
        ∙ rw (get-setex t (blacklist_key jti) (p.exp - t) (codes "1") s s' u w g)
            (ground (arith, e))
  ]

  -- A token that is revoked before its expiry is refused at every later instant, on which tokens of
  -- other identifiers are verified as before.
  pub revoked_refused :
      (t u : ℕ) (s : Store) (token jti : Text) (p : Payload) (other jti' : Text) (q : Payload)
      → decode t false token ≡ payload p
      → p.jti ≡ some jti
      → t < p.exp
      → t ≤ u
      → decode u true other ≡ payload q
      → q.jti ≡ some jti'
      → jti ≢ jti'
      → let (o, client) = revoke t (some s) token in
        (o ≡ ok tt)
        × (verify u client token ≡ invalid_token)
        × (verify u client other ≡ verify u (some s) other)
  revoked_refused t u s token jti p other jti' q d i h g d' i' ne =
      let (s', r, w) = revoke_writes t s token jti p d i h in
      rw r (
        refl,
        refused_after t u s s' token jti p d i w h g,
        verify_accepted u s' other jti' q d' i'
            ∙ (rw
                  (setex_ne t (blacklist_key jti) (p.exp - t) (codes "1") s s' u
                    (blacklist_key jti') w (λ e. ne (strip_common (codes "blacklist:") jti jti' e)))
                  refl
                ∙ sym (verify_accepted u s other jti' q d' i')),
      )

  -- From its expiry on, a token cannot be revoked: the attempt raises, and nothing is stored.
  pub expired_not_revocable :
      (t : ℕ) (s : Store) (token jti : Text) (p : Payload)
      → decode t false token ≡ payload p
      → p.jti ≡ some jti
      → p.exp ≤ t
      → revoke t (some s) token ≡ (invalid_token, some s)
  unfolding revoke_token revoke_decoded blacklist
  expired_not_revocable t s token jti p d i h =
      let e : p.exp - t ≡ 0 = omega arith in
      rw (d, i) (rw (blacklist, e, setex_zero t (blacklist_key jti) (codes "1") s) refl)
