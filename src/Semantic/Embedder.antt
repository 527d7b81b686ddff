-- ===== src/Semantic/Embedder.antt =====
-- `SemanticEmbedder` of src/bob/semantic/embedder.py: the embeddings of the chunks. The API and the local
-- model, whose packages are there, are arguments: what each answers to a batch of texts. A time stamp, a
-- pause and the log are left out, and so is the model's name, which is fixed for each of the two. The
-- loops run as many rounds as the source's `range` has batches.
pub mod Batches
pub mod Patient
pub mod Examples
use runtime_ops.Base.{
  Text, codes, text_eq, split_on, ℕ, zero, suc, ◌+◌, ◌-◌, ◌*◌, ◌/◌, Bool, true, false, not, ◌&&◌,
  Option, none, some, List, [], ◌∷◌, ◌++◌, map, length, take, drop, ltb, leb, if◌then◌else◌,
}
use runtime_ops.Semantic.Chunks.{CodeSymbol, CodeChunk, extract_chunks}

-- The embedding of a chunk; the vector is what the model answers.
pub record Embedding (Vector : Type 0) : Type 0 where
  pub vector : Vector
  pub chunk : CodeChunk

-- What one request to the API comes to: the vectors of the texts, `RateLimitError`, or another error.
pub data Response (Vector : Type 0) : Type 0 where
  vectors : List Vector → Response Vector
  rate_limit api_error : Response Vector

-- What a method ends with: embeddings, `LLMAPIError`, or another exception.
pub data Result (Vector : Type 0) : Type 0 where
  embedded : List (Embedding Vector) → Result Vector
  llm_api_error embedding_error not_implemented : Result Vector

module _ {Vector : Type 0} where
  -- `for j, embedding_data in enumerate(response.data)` with `batch[j]`; more vectors than chunks are
  -- an `IndexError`.
  pub pair_up : List Vector → List CodeChunk → Option (List (Embedding Vector))
  pair_up [] batch = some []
  pair_up (v ∷ vs) [] = none
  pair_up (v ∷ vs) (c ∷ batch) = elim (pair_up vs batch) [
    | none ↦ none
    | some rest ↦ some (record { vector = v; chunk = c } ∷ rest)
  ]

  -- What the code makes of an answer to a batch, where another attempt would give `again`. An
  -- `IndexError` is caught as any other exception of the request.
  answered : Response Vector → List CodeChunk → ℕ → Result Vector × ℕ → Result Vector × ℕ
  unfolding pair_up
  answered (vectors vs) batch request again =
      (elim (pair_up vs batch) [ none ↦ llm_api_error | some es ↦ embedded es ], suc request)
  answered rate_limit batch request again = again
  answered api_error batch request again = (llm_api_error, suc request)

  -- The attempts of a batch that are left, at the number of the request.
  attempts : (ℕ → List Text → Response Vector) → ℕ → ℕ → List CodeChunk → Result Vector × ℕ
  unfolding answered
  attempts api zero request batch = (llm_api_error, request)
  attempts api (suc left) request batch =
      answered (api request (map (λ c. c.content) batch)) batch request
        (attempts api left (suc request) batch)

  joined : List (Embedding Vector) → Result Vector → Result Vector
  joined es (embedded more) = embedded (es ++ more)
  joined es llm_api_error = llm_api_error
  joined es embedding_error = embedding_error
  joined es not_implemented = not_implemented

  -- The embeddings of a batch, and then those of the rest.
  pub and_then : Result Vector → Result Vector → Result Vector
  unfolding joined
  and_then (embedded es) rest = joined es rest
  and_then llm_api_error rest = llm_api_error
  and_then embedding_error rest = embedding_error
  and_then not_implemented rest = not_implemented

  -- The loop of `_embed_with_openai` over so many batches of 100.
  pub openai_batches : (ℕ → List Text → Response Vector) → ℕ → ℕ → List CodeChunk → Result Vector
  unfolding attempts and_then
  openai_batches api zero request chunks = embedded []
  openai_batches api (suc n) request chunks =
      let (result, next) = attempts api 3 request (take 100 chunks) in
      and_then result (openai_batches api n next (drop 100 chunks))

  -- `_embed_with_openai`: the batches of `range(0, len(chunks), 100)`.
  unfoldable pub embed_with_openai :
      (ℕ → List Text → Response Vector) → List CodeChunk → Result Vector
  unfolding openai_batches
  embed_with_openai api chunks = openai_batches api ((length chunks + 99) / 100) 0 chunks

  -- A batch of the local model; none is an exception.
  encoded : Option (List Vector) → List CodeChunk → Result Vector
  unfolding pair_up
  encoded none batch = embedding_error
  encoded (some vs) batch = elim (pair_up vs batch) [
    | none ↦ embedding_error
    | some es ↦ embedded es
  ]

  -- The loop of `_embed_with_local_model` over so many batches of 32.
  local_batches : (List Text → Option (List Vector)) → ℕ → List CodeChunk → Result Vector
  unfolding encoded and_then
  local_batches encode zero chunks = embedded []
  local_batches encode (suc n) chunks =
      and_then (encoded (encode (map (λ c. c.content) (take 32 chunks))) (take 32 chunks))
        (local_batches encode n (drop 32 chunks))

  -- `_embed_with_local_model`
  unfoldable pub embed_with_local_model :
      (List Text → Option (List Vector)) → List CodeChunk → Result Vector
  unfolding local_batches
  embed_with_local_model encode chunks = local_batches encode ((length chunks + 31) / 32) chunks

  abbrev pub fall_back : Bool → Result Vector → Result Vector → Result Vector
  fall_back use_local_fallback local_result (embedded es) = embedded es
  fall_back use_local_fallback local_result llm_api_error =
      if use_local_fallback then local_result else llm_api_error
  fall_back use_local_fallback local_result embedding_error =
      if use_local_fallback then local_result else embedding_error
  fall_back use_local_fallback local_result not_implemented = not_implemented

  -- `embed_parse_results`, of the provider, and whether there is a key of OpenAI and of Gemini.
  unfoldable pub embed_parse_results :
      (ℕ → List Text → Response Vector)
      → (List Text → Option (List Vector))
      → Text
      → Bool
      → Bool
      → Bool
      → List (Text × List CodeSymbol)
      → Result Vector
  unfolding extract_chunks embed_with_openai embed_with_local_model
  embed_parse_results api encode llm_provider openai_api_key gemini_api_key use_local_fallback
        parse_results =
      let chunks = extract_chunks parse_results in
      let local_result = embed_with_local_model encode chunks in
      fall_back use_local_fallback local_result (
        if text_eq llm_provider (codes "openai") && openai_api_key
        then embed_with_openai api chunks
        else if text_eq llm_provider (codes "gemini") && gemini_api_key
        then not_implemented
        else local_result)
