-- ===== src/Storage/Cache/Examples.antt =====
-- The cache at concrete inputs, over the reference store and a cipher that marks what it encrypts.
use runtime_ops.Base.{
  Text, codes, text_eq, ℕ, ◌≡◌, refl, true, Option, none, some, List, [], ◌∷◌, ◌++◌, length, arith,
}
use runtime_ops.Redis.StringReference.{strings, Item}
use runtime_ops.Storage.Cache.{Cipher, make_key, State, get, set, flush_namespace, prewarm}
use runtime_ops.Storage.Cache.Values.{connected, get-set}
use runtime_ops.Storage.Cache.Deleted.{flush_namespace-get}
use runtime_ops.Storage.Cache.Prewarmed.{content_of, while_alive, prewarm-get}

-- A token is the text after what is random in it.
decrypt : Text → Option Text
decrypt [] = none
decrypt (n ∷ s) = some s

same_text : (n : ℕ) (s e : Text) → some (n ∷ s) ≡ some e → decrypt e ≡ some s
unfolding decrypt
same_text n s e h = rw⁻¹ (token h) refl
  where
    token : some (n ∷ s) ≡ some e → n ∷ s ≡ e
    token h = cc h

abbrev cipher : Cipher
cipher = record { encrypt = λ n s. some (n ∷ s); decrypt = decrypt; decrypt-encrypt = same_text }

abbrev empty : State strings
empty = connected strings cipher []

-- SETEX in the reference store.
abbrev one_item : List Item
one_item =
    record { name = make_key (codes "file") (codes "a"); content = 7 ∷ codes "x"; gone_at = 110 }
    ∷ []

get-set_example :
    let (is_set, s') =
      set strings 60 600 10 7 (codes "file") (codes "a") (codes "x") (some 100) empty in
    (is_set ≡ true) × (get strings 60 600 109 (codes "file") (codes "a") s' ≡ some (codes "x"))
unfolding text_eq
get-set_example =
    get-set strings 60 600 cipher 10 7 109 (codes "file") (codes "a") (codes "x") (some 100) []
      (7 ∷ codes "x") (codes "file") (codes "a") refl (omega arith) refl refl (omega arith)

flush_namespace-get_example :
    let s = connected strings cipher one_item in
    let (deleted, s') = flush_namespace strings 60 600 20 (codes "file") s in
    (deleted ≡ length (strings.keys 20 (make_key (codes "file") (codes "*")) one_item))
    × (get strings 60 600 30 (codes "file") (codes "a") s' ≡ none)
unfolding text_eq
flush_namespace-get_example =
    flush_namespace-get strings 60 600 cipher 20 30 (codes "file") (codes "file") (codes "a")
      one_item refl refl refl (omega arith)

abbrev files : List (ℕ × Text × Text)
files = (1, codes "a", codes "x") ∷ (2, codes "b", codes "y") ∷ []

prewarm-get_example :
    let (cached_count, s') = prewarm strings 60 600 10 (codes "r") files empty in
    (cached_count ≡ 2)
    × ((path : Text)
        → get strings 60 600 50 (codes "file") (codes "r:" ++ path) s'
          ≡ while_alive true
              (content_of path files)
              (get strings 60 600 50 (codes "file") (codes "r:" ++ path) empty))
prewarm-get_example =
    prewarm-get strings 60 600 cipher 10 50 (codes "r") files [] refl (omega arith) (omega arith)
