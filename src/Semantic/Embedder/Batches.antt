-- ===== src/Semantic/Embedder/Batches.antt =====
-- The embeddings are those of the texts of the chunks, in order.
use runtime_ops.Base.{
  Text, codes, text_eq, text_eq_iff, Bool-cases, ℕ, zero, suc, ◌+◌, ◌-◌, ◌*◌, ◌/◌, ◌≤◌, ◌≡◌, refl,
  ap, Bool, true, false, ◌&&◌, Option, some, ◌⊎◌, inl, inr, text_eq_iff, Bool-cases, List, [], ◌∷◌,
  ◌++◌, map, length, take, drop, if◌then◌else◌, arith,
}
use runtime_ops.Semantic.Chunks.{CodeSymbol, CodeChunk, extract_chunks}
use runtime_ops.Semantic.Embedder.{
  Embedding, Response, vectors, rate_limit, api_error, Result, embedded, llm_api_error,
  not_implemented, pair_up, answered, attempts, joined, and_then, encoded, openai_batches,
  embed_with_openai, local_batches, embed_with_local_model, fall_back, embed_parse_results,
}

take-drop : {A : Type 0} (n : ℕ) (xs : List A) → take n xs ++ drop n xs ≡ xs
take-drop zero xs = refl
take-drop (suc n) [] = refl
take-drop (suc n) (x ∷ xs) = ap (λ r. x ∷ r) (take-drop n xs)

pub length-drop : {A : Type 0} (n : ℕ) (xs : List A) → length (drop n xs) ≡ length xs - n
length-drop zero xs = omega arith
length-drop (suc n) [] = omega arith
length-drop (suc n) (x ∷ xs) = omega (arith, length-drop n xs)

abbrev pub contents : List CodeChunk → List Text
contents = map (λ c. c.content)

off : (p q : Text) (b : Bool) → (p ≡ q → b ≡ false) → (text_eq p q && b) ≡ false
off p q b h = elim (Bool-cases (text_eq p q)) [
  | inl e ↦ rw (e, h ((text_eq_iff p q).0 e)) refl
  | inr e ↦ rw e refl
]

module _ {Vector : Type 0} where
  -- The embeddings of the chunks, where a model's vector of a text is known.
  abbrev pub embeddings : (Text → Vector) → List CodeChunk → List (Embedding Vector)
  embeddings vec = map (λ c. record { vector = vec c.content; chunk = c })

  -- Where the API answers with vectors, they are the ones of the texts.
  abbrev pub IsRight : (Text → Vector) → (ℕ → List Text → Response Vector) → Type 0
  IsRight vec api =
      (request : ℕ) (texts : List Text) (vs : List Vector)
      → api request texts ≡ vectors vs
      → vs ≡ map vec texts

  pub paired :
      (vec : Text → Vector) (batch : List CodeChunk)
      → pair_up (map vec (contents batch)) batch ≡ some (embeddings vec batch)
  unfolding pair_up
  paired vec [] = refl
  paired vec (c ∷ batch) = rw (paired vec batch) refl

  embeddings-append :
      (vec : Text → Vector) (n : ℕ) (chunks : List CodeChunk)
      → embeddings vec (take n chunks) ++ embeddings vec (drop n chunks) ≡ embeddings vec chunks
  embeddings-append vec zero chunks = refl
  embeddings-append vec (suc n) [] = refl
  embeddings-append vec (suc n) (c ∷ chunks) =
      ap (λ r. record { vector = vec c.content; chunk = c } ∷ r) (embeddings-append vec n chunks)

  pub both-embedded :
      (vec : Text → Vector) (n : ℕ) (chunks : List CodeChunk) (r rest : Result Vector)
      → r ≡ embedded (embeddings vec (take n chunks))
      → rest ≡ embedded (embeddings vec (drop n chunks))
      → and_then r rest ≡ embedded (embeddings vec chunks)
  unfolding and_then joined
  both-embedded vec n chunks r rest h k = rw (h, k) (ap embedded (embeddings-append vec n chunks))

  -- All the embeddings, or `LLMAPIError`.
  abbrev pub AllOr : (Text → Vector) → List CodeChunk → Result Vector → Type 0
  AllOr vec chunks r = (r ≡ embedded (embeddings vec chunks)) ⊎ (r ≡ llm_api_error)

  and_then-AllOr :
      (vec : Text → Vector) (n : ℕ) (chunks : List CodeChunk) (r rest : Result Vector)
      → AllOr vec (take n chunks) r
      → AllOr vec (drop n chunks) rest
      → AllOr vec chunks (and_then r rest)
  unfolding and_then joined
  and_then-AllOr vec n chunks r rest (inl h) (inl k) = inl (both-embedded vec n chunks r rest h k)
  and_then-AllOr vec n chunks r rest (inl h) (inr k) = inr (rw (h, k) refl)
  and_then-AllOr vec n chunks r rest (inr h) k = inr (rw h refl)

  answered-AllOr :
      (vec : Text → Vector) (r : Response Vector) (batch : List CodeChunk) (request : ℕ)
      (again : Result Vector × ℕ)
      → ((vs : List Vector) → r ≡ vectors vs → vs ≡ map vec (contents batch))
      → AllOr vec batch again.0
      → AllOr vec batch (answered r batch request again).0
  unfolding answered
  answered-AllOr vec (vectors vs) batch request again h k =
      inl (rw (h vs refl, answered, paired vec batch) refl)
  answered-AllOr vec rate_limit batch request again h k = k
  answered-AllOr vec api_error batch request again h k = inr refl

  attempts-AllOr :
      (vec : Text → Vector) (api : ℕ → List Text → Response Vector)
      → IsRight vec api
      → (left request : ℕ) (batch : List CodeChunk)
      → AllOr vec batch (attempts api left request batch).0
  unfolding attempts
  attempts-AllOr vec api right zero request batch = inr refl
  attempts-AllOr vec api right (suc left) request batch =
      answered-AllOr vec (api request (contents batch)) batch request
        (attempts api left (suc request) batch) (λ vs e. right request _ vs e)
        (attempts-AllOr vec api right left (suc request) batch)

  openai-AllOr :
      (vec : Text → Vector) (api : ℕ → List Text → Response Vector)
      → IsRight vec api
      → (n request : ℕ) (chunks : List CodeChunk) → length chunks ≤ 100 * n
      → AllOr vec chunks (openai_batches api n request chunks)
  unfolding openai_batches
  openai-AllOr vec api right zero request [] h = inl refl
  openai-AllOr vec api right zero request (c ∷ chunks) h = absurd (omega arith)
  openai-AllOr vec api right (suc n) request chunks h =
      and_then-AllOr vec 100 chunks _ _ (attempts-AllOr vec api right 3 request (take 100 chunks))
        (openai-AllOr vec api right n _ (drop 100 chunks) (omega (arith, length-drop 100 chunks)))

  -- A local model that works answers with the vectors of the texts.
  abbrev pub Works : (Text → Vector) → (List Text → Option (List Vector)) → Type 0
  Works vec encode = (texts : List Text) → encode texts ≡ some (map vec texts)

  local-embedded :
      (vec : Text → Vector) (encode : List Text → Option (List Vector))
      → Works vec encode
      → (n : ℕ) (chunks : List CodeChunk) → length chunks ≤ 32 * n
      → local_batches encode n chunks ≡ embedded (embeddings vec chunks)
  unfolding local_batches encoded
  local-embedded vec encode works zero [] h = refl
  local-embedded vec encode works zero (c ∷ chunks) h = absurd (omega arith)
  local-embedded vec encode works (suc n) chunks h =
      both-embedded vec 32 chunks _ _
        (rw (works (contents (take 32 chunks)), encoded, paired vec (take 32 chunks)) refl)
        (local-embedded vec encode works n (drop 32 chunks) (omega (arith, length-drop 32 chunks)))

  fall_back-AllOr :
      (b : Bool) (vec : Text → Vector) (chunks : List CodeChunk) (l m r : Result Vector)
      → l ≡ m
      → AllOr vec chunks r
      → ((r ≡ embedded (embeddings vec chunks))
          × (fall_back b l r ≡ embedded (embeddings vec chunks)))
        ⊎ ((r ≡ llm_api_error) × (fall_back b l r ≡ (if b then m else llm_api_error)))
  fall_back-AllOr b vec chunks l m r e (inl h) = inl (h, rw h refl)
  fall_back-AllOr b vec chunks l m r e (inr h) = inr (h, rw (h, e) refl)

  fall_back_same :
      (b : Bool) (es : List (Embedding Vector)) (l r : Result Vector)
      → r ≡ embedded es
      → fall_back b l r ≡ embedded es
  fall_back_same b es l r h = rw h refl

  -- Where the API, when it answers, and the local model, which always does, give the vectors of the
  -- texts: with OpenAI and its key, `embed_parse_results` returns the API's embeddings of all chunks of
  -- the results, in order, if `_embed_with_openai` succeeds; this can only fail with `LLMAPIError`, and
  -- then the local model's embeddings are returned, or the error raised where there is no fallback.
  -- With Gemini and its key it raises `NotImplementedError`, whatever the fallback; else the embeddings
  -- are the local model's.
  pub embed_parse_results_lem :
      (vec local_vec : Text → Vector) (api : ℕ → List Text → Response Vector)
      (encode : List Text → Option (List Vector))
      → IsRight vec api
      → Works local_vec encode
      → (llm_provider : Text) (openai_api_key gemini_api_key use_local_fallback : Bool)
        (parse_results : List (Text × List CodeSymbol))
      → let chunks = extract_chunks parse_results in
        let result =
          embed_parse_results api encode llm_provider openai_api_key gemini_api_key
            use_local_fallback parse_results in
        (llm_provider ≡ codes "openai"
          → openai_api_key ≡ true
          → ((embed_with_openai api chunks ≡ embedded (embeddings vec chunks))
              × (result ≡ embedded (embeddings vec chunks)))
            ⊎ ((embed_with_openai api chunks ≡ llm_api_error)
                × (result ≡ (
                    if use_local_fallback
                    then embedded (embeddings local_vec chunks)
                    else llm_api_error))))
        × (llm_provider ≡ codes "gemini" → gemini_api_key ≡ true → result ≡ not_implemented)
        × ((llm_provider ≡ codes "openai" → openai_api_key ≡ false)
            → (llm_provider ≡ codes "gemini" → gemini_api_key ≡ false)
            → result ≡ embedded (embeddings local_vec chunks))
  unfolding embed_parse_results embed_with_openai embed_with_local_model text_eq
  embed_parse_results_lem vec local_vec api encode right works llm_provider o g f parse_results = (
    λ e k.
        rw (e, k)
          (fall_back-AllOr f vec chunks (embed_with_local_model encode chunks) _
            (embed_with_openai api chunks) by_model
            (openai-AllOr vec api right ((length chunks + 99) / 100) 0 chunks (omega arith))),
    λ e k. rw (e, k) refl,
    λ h k.
        rw (off llm_provider (codes "openai") o h, off llm_provider (codes "gemini") g k)
          (fall_back_same f (embeddings local_vec chunks) _ _ by_model),
  )
    where
      chunks : List CodeChunk
      chunks = extract_chunks parse_results

      by_model : embed_with_local_model encode chunks ≡ embedded (embeddings local_vec chunks)
      by_model =
          local-embedded local_vec encode works ((length chunks + 31) / 32) chunks (omega arith)
