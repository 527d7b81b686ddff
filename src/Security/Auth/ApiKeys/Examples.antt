-- ===== src/Security/Auth/ApiKeys/Examples.antt =====
-- Keys at concrete inputs, over a hash function that is the identity.
use runtime_ops.Base.{
  Text, codes, text_eq, text_eq_refl, starts_with, ◌≡◌, ◌≢◌, refl, true, false, none, some, List,
  [], ◌∷◌, ◌++◌,
}
use runtime_ops.Security.Auth.ApiKeys.{
  Hashing, Table, Claims, Fresh, generate_api_key, verify_api_key, revoke_api_key, rotate_api_key,
  lookup_api_key, live_prefix,
}
use runtime_ops.Security.Auth.ApiKeys.Lifecycle.{verify-generate}
use runtime_ops.Security.Auth.ApiKeys.Revoked.{
  Operation, generate, verify, rotate, perform_all, revoked_for_good,
}

abbrev hashing : Hashing
hashing = record {
  hashpw = λ secret salt. secret;
  checkpw = text_eq;
  checkpw-hashpw = λ secret salt. text_eq_refl secret;
}

abbrev fresh_key : Text → Text → Fresh
fresh_key key_id secret = record { key_id = key_id; secret = secret; salt = [] }

abbrev made : Table
made =
    (generate_api_key hashing 10 (fresh_key (codes "k1") (codes "s1")) (codes "ada")
      (codes "laptop") [] (codes "live") (some 50) []).1

-- Another key is made, rotated, and the first one is tried.
abbrev later : List Operation
later =
    generate 20 (fresh_key (codes "k2") (codes "s2")) (codes "ada") (codes "build") []
      (codes "live") none
    ∷ rotate 25 (fresh_key (codes "k3") (codes "s3")) (codes "k2")
    ∷ verify 30 (live_prefix ++ codes "s1")
    ∷ []

abbrev accepted : Claims
accepted = record {
  user_id = codes "ada";
  scopes = [];
  key_id = codes "k3";
  environment = codes "live";
}

is_accepted :
    (verify_api_key hashing 30
      (live_prefix ++ codes "s3")
      (perform_all hashing later (revoke_api_key hashing 15 (codes "k1") made).1)).0
    ≡ some accepted
unfolding verify_api_key revoke_api_key rotate_api_key generate_api_key lookup_api_key starts_with
    text_eq
is_accepted = refl

revoked_for_good_example : accepted.key_id ≢ codes "k1"
unfolding text_eq
revoked_for_good_example =
    revoked_for_good hashing 15 (codes "k1") made later refl 30 (live_prefix ++ codes "s3") accepted
      is_accepted

verify-generate_example :
    let (new_key, table) =
      generate_api_key hashing 20
        (fresh_key (codes "k2") (codes "s2"))
        (codes "ada")
        (codes "build")
        []
        (codes "test")
        (some 90)
        made in
    (true ≡ true
      → (api_key : Text) × (new_key ≡ some (codes "k2", api_key))
        × ((verify_api_key hashing 80 api_key table).0
            ≡ some (record {
              user_id = codes "ada";
              scopes = [];
              key_id = codes "k2";
              environment = codes "test";
            })))
    × (true ≡ false → (new_key ≡ none) × (table ≡ made))
unfolding lookup_api_key text_eq generate_api_key
verify-generate_example =
    verify-generate hashing 20 80 (fresh_key (codes "k2") (codes "s2")) (codes "ada")
      (codes "build") [] (codes "test") (some 90) made refl refl
