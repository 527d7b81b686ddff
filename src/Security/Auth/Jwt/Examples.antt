-- ===== src/Security/Auth/Jwt/Examples.antt =====
-- Tokens at concrete inputs, over the reference library and store.
use runtime_ops.Base.{
  Text, codes, text_eq, text_eq_iff, ℕ, ◌≤◌, ◌<◌, ◌≡◌, ◌≢◌, refl, true, false, none, some, [], ◌∷◌,
  arith,
}
use runtime_ops.Redis.StringReference.{strings}
use runtime_ops.Security.Auth.Jwt.{
  Payload, payload, ok, invalid_token, default_scopes, access_payload, refresh_payload,
  verify_token, create_access_token, create_refresh_token, refresh_access_token, revoke_token,
}
use runtime_ops.Security.Auth.Jwt.Reference.{library, encode, decode, decode-encode}
use runtime_ops.Security.Auth.Jwt.Revocation.{revoked_refused, expired_not_revocable}
use runtime_ops.Security.Auth.Jwt.Refresh.{verify-create, refresh_lem}

abbrev token_of : Text → Payload
token_of jti = access_payload library strings 900 100 jti (codes "ada") (codes "code:read" ∷ []) 60

abbrev first : Text
first = encode (token_of (codes "j1"))

abbrev second : Text
second = encode (token_of (codes "j2"))

decoded :
    (u : ℕ) (jti : Text)
    → 100 ≤ u
    → u < 160
    → decode u true (encode (token_of jti)) ≡ payload (token_of jti)
decoded u jti h k = ground (arith, decode-encode u true (token_of jti) h)

different : codes "j1" ≢ codes "j2"
unfolding text_eq
different e = cc ((text_eq_iff (codes "j1") (codes "j2")).1 e)

revoked_refused_example :
    let (o, client) = revoke_token library strings 900 130 (some []) first in
    (o ≡ ok tt)
    × (verify_token library strings 900 140 client first ≡ invalid_token)
    × (verify_token library strings 900 140 client second
        ≡ verify_token library strings 900 140 (some []) second)
revoked_refused_example =
    revoked_refused library strings 900 130 140 [] first (codes "j1") (token_of (codes "j1")) second
      (codes "j2") (token_of (codes "j2"))
      (decode-encode 130 false (token_of (codes "j1")) (omega arith)) refl (omega arith)
      (omega arith) (decoded 140 (codes "j2") (omega arith) (omega arith)) refl different

expired_not_revocable_example :
    revoke_token library strings 900 160 (some []) first ≡ (invalid_token, some [])
expired_not_revocable_example =
    expired_not_revocable library strings 900 160 [] first (codes "j1") (token_of (codes "j1"))
      (decode-encode 160 false (token_of (codes "j1")) (omega arith)) refl (omega arith)

verify-create_example :
    verify_token library strings 900 150 (some []) (
      create_access_token library strings 900 100
        (codes "j1")
        (codes "ada")
        (codes "code:read" ∷ [])
        (some 60))
    ≡ ok (token_of (codes "j1"))
verify-create_example =
    verify-create library strings 900 100 150 [] (codes "j1") (codes "ada") (codes "code:read" ∷ [])
      (some 60) (omega arith)

refresh_lem_example :
    let refresh_token = create_refresh_token library strings 900 100 (codes "r1") (codes "ada") in
    let access_token =
      create_access_token library strings 900 100 (codes "r1") (codes "ada") [] (some 60) in
    (refresh_access_token library strings 900 150 (codes "j3") (some []) refresh_token
      ≡ ok (
          create_access_token library strings 900 150
            (codes "j3")
            (codes "ada")
            default_scopes
            none))
    × (refresh_access_token library strings 900 150 (codes "j3") (some []) access_token
        ≡ invalid_token)
    × (verify_token library strings 900 150 (some []) refresh_token
        ≡ ok (refresh_payload library strings 900 100 (codes "r1") (codes "ada")))
refresh_lem_example =
    refresh_lem library strings 900 100 150 [] (codes "r1") (codes "j3") (codes "ada") [] 60
      (omega arith) (omega arith) refl
