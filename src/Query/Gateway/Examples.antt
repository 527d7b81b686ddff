-- ===== src/Query/Gateway/Examples.antt =====
-- The gateway at concrete inputs, over the reference counters.
use runtime_ops.Base.{
  Text, codes, text_eq, ℕ, ◌≡◌, ◌⊎◌, ◌∙◌, refl, ◌↔◌, Bool, true, false, none, some, List, [], ◌∷◌,
  map, arith, split, if◌then◌else◌,
}
use runtime_ops.Redis.Reference.{counters, Numbers}
use runtime_ops.Query.Gateway.{
  other, unhandled, Limits, both_up, pass, check_rate_limit, serve, default_limits, text, Claims,
  Decoded, payload, invalid_jwt, valid, verify_token, claims_of, http_error, agent_id,
  authenticate_request,
}
use runtime_ops.Query.Gateway.RateLimit.{Counts, is_pass, minute_limit_exact}
use runtime_ops.Query.Gateway.Tokens.{Vouches, verify_token_iff, authenticate_iff}
use runtime_ops.Query.Gateway.Refused.{HasOddRepo, refused_not_counted}

abbrev empty : Numbers
empty = record { number = λ k. none; due = λ k. none }

abbrev two_a_minute : Limits
two_a_minute = record { per_minute = 2; burst = 3 }

abbrev instants : List ℕ
instants = 600 ∷ 601 ∷ 601 ∷ 659 ∷ []

nothing_counted : Counts counters two_a_minute (codes "acme") 10 0 0 empty
nothing_counted = record { minute = λ u p. refl; bursts = λ u v. omega arith }

minute_limit_exact_example :
    map is_pass (serve counters two_a_minute (codes "acme") instants empty).0
    ≡ true ∷ true ∷ false ∷ false ∷ []
minute_limit_exact_example =
    minute_limit_exact counters two_a_minute (codes "acme") 10 instants empty (omega arith)
      (omega arith) nothing_counted

abbrev repo : Text
repo = codes "r1"

abbrev claims : Claims
claims = record { repo_id = some (text repo); org_id = some (text (codes "acme")); has_exp = true }

abbrev decode : Text → Decoded
decode token = if text_eq token (codes "good") then payload claims else invalid_jwt

abbrev is_uuid : Text → Bool
is_uuid s = text_eq s repo

abbrev header : Text
header = codes " BEARER  good"

header-Vouches : Vouches decode is_uuid header claims
unfolding split text_eq
header-Vouches = record {
  scheme = codes "BEARER";
  token = codes "good";
  parts = refl;
  bearer = refl;
  decoded = refl;
  repo = repo;
  repo_is = refl;
  uuid = refl;
  org = text (codes "acme");
  org_is = refl;
  expires = refl;
}

verify_token_iff_example :
    (verify_token decode is_uuid (some header) ≡ valid claims)
    ↔ Vouches decode is_uuid header claims
verify_token_iff_example = verify_token_iff decode is_uuid header claims

authenticate_iff_example :
    ((authenticate_request counters decode is_uuid default_limits 600 both_up (some header) empty).0
      ≡ claims_of claims)
    ↔ (Vouches decode is_uuid header claims
        × ((check_rate_limit counters default_limits (agent_id claims.org_id) 600 both_up empty).0
            ≡ pass))
authenticate_iff_example =
    authenticate_iff counters decode is_uuid default_limits 600 both_up header claims empty

-- A token whose repository is a number.
abbrev numbered : Text → Decoded
numbered token = payload (record {
  repo_id = some (other (codes "7"));
  org_id = some (text (codes "acme"));
  has_exp = true;
})

not_vouched : (c : Claims) → ¬ Vouches numbered is_uuid header c
not_vouched c v = absurd (clash v.repo_is (same v.decoded))
  where
    same : numbered v.token ≡ payload c → some (other (codes "7")) ≡ c.repo_id
    same e = cc e

    clash : c.repo_id ≡ some (text v.repo) → some (other (codes "7")) ≡ c.repo_id → ⊥
    clash e f = cc (f ∙ e)

refused_not_counted_example :
    let (reply, s') =
      authenticate_request counters numbered is_uuid default_limits 600 both_up
        (some header)
        empty in
    (s' ≡ empty)
    × ((reply ≡ unhandled) ↔ HasOddRepo numbered header)
    × ((reply ≡ unhandled) ⊎ (reply ≡ http_error 401))
    × (authenticate_request counters numbered is_uuid default_limits 600 both_up none empty
        ≡ (http_error 401, empty))
refused_not_counted_example =
    refused_not_counted counters numbered is_uuid default_limits 600 both_up header empty
      not_vouched
