-- ===== src/Security/Auth/Jwt/Reference.antt =====
-- A value of `Library`, which shows that its laws can hold together. Only tests use it. A token is the
-- list of the claims, each text behind its length.
use runtime_ops.Base.{
  Text, ap, ℕ, zero, suc, ◌≤◌, ◌≡◌, refl, Bool, true, false, ◌&&◌, Option, none, some, List, [],
  ◌∷◌, ◌++◌, length, take, drop, leb, ltb, if◌then◌else◌, ◌>>=◌, arith,
}
use runtime_ops.Security.Auth.Jwt.{
  Payload, Decoded, payload, expired_signature, invalid_jwt, Library,
}

abbrev Reader : Type 0 → Type 0
Reader A = Text → Option (A × Text)

put_text : Text → Text → Text
put_text s rest = length s ∷ (s ++ rest)

get_text : Reader Text
get_text [] = none
get_text (n ∷ s) = some (take n s, drop n s)

take-append : (s t : Text) → take (length s) (s ++ t) ≡ s
take-append [] t = refl
take-append (c ∷ s) t = ap (λ x. c ∷ x) (take-append s t)

drop-append : (s t : Text) → drop (length s) (s ++ t) ≡ t
drop-append [] t = refl
drop-append (c ∷ s) t = drop-append s t

get-put_text : (s rest : Text) → get_text (put_text s rest) ≡ some (s, rest)
unfolding get_text put_text
get-put_text s rest = rw (take-append s rest, drop-append s rest) refl

put_option : Option Text → Text → Text
put_option none rest = 0 ∷ rest
put_option (some s) rest = 1 ∷ put_text s rest

get_option : Reader (Option Text)
get_option [] = none
get_option (zero ∷ s) = some (none, s)
get_option (suc n ∷ s) = get_text s >>= λ (t, rest). some (some t, rest)

get-put_option : (o : Option Text) (rest : Text) → get_option (put_option o rest) ≡ some (o, rest)
unfolding get_option put_option
get-put_option none rest = refl
get-put_option (some s) rest = rw (get-put_text s rest) refl

put_texts : List Text → Text → Text
put_texts [] rest = rest
put_texts (s ∷ ss) rest = put_text s (put_texts ss rest)

get_texts : ℕ → Reader (List Text)
get_texts zero s = some ([], s)
get_texts (suc n) s =
    get_text s >>= λ (t, rest). get_texts n rest >>= λ (ts, rest'). some (t ∷ ts, rest')

get-put_texts :
    (ss : List Text) (rest : Text) → get_texts (length ss) (put_texts ss rest) ≡ some (ss, rest)
unfolding get_texts put_texts
get-put_texts [] rest = refl
get-put_texts (s ∷ ss) rest = rw (get-put_text s (put_texts ss rest), get-put_texts ss rest) refl

put_list : Option (List Text) → Text → Text
unfolding put_texts
put_list none rest = 0 ∷ rest
put_list (some ss) rest = suc (length ss) ∷ put_texts ss rest

get_list : Reader (Option (List Text))
unfolding get_texts
get_list [] = none
get_list (zero ∷ s) = some (none, s)
get_list (suc n ∷ s) = get_texts n s >>= λ (ts, rest). some (some ts, rest)

get-put_list : (o : Option (List Text)) (rest : Text) → get_list (put_list o rest) ≡ some (o, rest)
unfolding get_list put_list
get-put_list none rest = refl
get-put_list (some ss) rest = rw (get-put_texts ss rest) refl

pub encode : Payload → Text
unfolding put_option put_list
encode p =
    p.exp
    ∷ p.iat
    ∷ put_option p.sub (put_list p.scopes (put_option p.jti (put_option p.token_type [])))

with_times : ℕ → ℕ → Text → Option Payload
with_times exp iat s = do
  (sub, s) ← get_option s
  (scopes, s) ← get_list s
  (jti, s) ← get_option s
  (token_type, s) ← get_option s
  some (record {
    sub = sub;
    scopes = scopes;
    exp = exp;
    iat = iat;
    jti = jti;
    token_type = token_type;
  })

parse : Text → Option Payload
unfolding with_times
parse [] = none
parse (exp ∷ []) = none
parse (exp ∷ iat ∷ s) = with_times exp iat s

parse-encode : (p : Payload) → parse (encode p) ≡ some p
unfolding parse with_times encode
parse-encode p =
    rw
      (
        get-put_option p.sub _,
        get-put_list p.scopes _,
        get-put_option p.jti _,
        get-put_option p.token_type _,
      )
      refl

decode_parsed : ℕ → Bool → Option Payload → Decoded
decode_parsed now verify_exp none = invalid_jwt
decode_parsed now verify_exp (some p) =
    if ltb now p.iat
    then invalid_jwt
    else if verify_exp && leb p.exp now
    then expired_signature
    else payload p

pub decode : ℕ → Bool → Text → Decoded
unfolding decode_parsed parse
decode now verify_exp token = decode_parsed now verify_exp (parse token)

pub decode-encode :
    (now : ℕ) (verify_exp : Bool) (p : Payload)
    → p.iat ≤ now
    → decode now verify_exp (encode p)
      ≡ (if verify_exp then (if leb p.exp now then expired_signature else payload p) else payload p)
unfolding decode decode_parsed
decode-encode now verify_exp p h = rw (parse-encode p) (ground arith)

decode_parsed_exp :
    (t now : ℕ) (o : Option Payload) (p : Payload)
    → decode_parsed t false o ≡ payload p
    → t ≤ now
    → decode_parsed now true o ≡ (if leb p.exp now then expired_signature else payload p)
unfolding decode_parsed
decode_parsed_exp t now none p d h = absurd (cc d)
decode_parsed_exp t now (some q) p d h =
    rw⁻¹ (the_payload q p (ground (arith, d))) (ground (arith, d))
  where
    the_payload : (q p : Payload) → payload q ≡ payload p → q ≡ p
    the_payload q p e = cc e

pub decode_exp :
    (t now : ℕ) (token : Text) (p : Payload)
    → decode t false token ≡ payload p
    → t ≤ now
    → decode now true token ≡ (if leb p.exp now then expired_signature else payload p)
unfolding decode
decode_exp t now token p d h = decode_parsed_exp t now (parse token) p d h

abbrev pub library : Library
library = record {
  encode = encode;
  decode = decode;
  decode-encode = decode-encode;
  decode_exp = decode_exp;
}
