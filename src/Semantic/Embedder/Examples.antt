-- ===== src/Semantic/Embedder/Examples.antt =====
-- The embedder at concrete inputs; a vector is the number of characters of its text.
use runtime_ops.Base.{
  map, ◌⊎◌, arith, Text, codes, ℕ, suc, ◌≡◌, refl, inl, inr, true, false, Option, some, List, [],
  ◌∷◌, length, if◌then◌else◌, Bool-cases, ◌==◌,
}
use runtime_ops.Semantic.Chunks.{CodeSymbol, CodeChunk, extract_chunks}
use runtime_ops.Semantic.Embedder.{
  not_implemented, llm_api_error, Response, vectors, rate_limit, embedded, embed_with_openai,
  embed_parse_results,
}
use runtime_ops.Semantic.Embedder.Batches.{embeddings, IsRight, Works, embed_parse_results_lem}
use runtime_ops.Semantic.Embedder.Patient.{Answers, openai_embeds}

abbrev symbol : CodeSymbol
symbol = record {
  name = codes "f";
  symbol_type = codes "function";
  start_line = 7;
  end_line = 8;
  body = some (codes "a\nb");
}

abbrev lengths : List Text → List ℕ
lengths = map (λ t. length t)

-- The first request is refused.
abbrev api : ℕ → List Text → Response ℕ
api request texts = if request == 0 then rate_limit else vectors (lengths texts)

abbrev encode : List Text → Option (List ℕ)
encode texts = some (lengths texts)

works : Works (λ t. length t) encode
works texts = refl

answer_same :
    (texts : List Text) (vs : List ℕ) → vectors (lengths texts) ≡ vectors vs → vs ≡ lengths texts
answer_same texts vs e = cc e

right : IsRight (λ t. length t) api
right request texts vs e = elim (Bool-cases (request == 0)) [
  | inl f ↦ absurd (cc (rw f at e))
  | inr f ↦ answer_same texts vs (rw f at e)
]

patient : (request : ℕ) (texts : List Text) → Answers api 3 request texts
patient request texts = elim (Bool-cases (request == 0)) [
  | inl f ↦ inr (rw f refl, inl (lengths texts, later))
  | inr f ↦ inl (lengths texts, rw f refl)
]
  where
    later : api (suc request) texts ≡ vectors (lengths texts)
    later = ground arith

abbrev chunk : CodeChunk
chunk = record {
  content = codes "a";
  file_path = codes "f.py";
  symbol_name = codes "f";
  symbol_type = codes "function";
  start_line = 7;
  end_line = 8;
  token_count = 0;
}

openai_embeds_example :
    embed_with_openai api (chunk ∷ []) ≡ embedded (record { vector = 1; chunk = chunk } ∷ [])
openai_embeds_example = openai_embeds (λ t. length t) api right patient (chunk ∷ [])

abbrev files : List (Text × List CodeSymbol)
files = (codes "f.py", symbol ∷ []) ∷ []

embed_parse_results_lem_example :
    let chunks = extract_chunks files in
    let result = embed_parse_results api encode (codes "openai") true false true files in
    (codes "openai" ≡ codes "openai"
      → true ≡ true
      → ((embed_with_openai api chunks ≡ embedded (embeddings (λ t. length t) chunks))
          × (result ≡ embedded (embeddings (λ t. length t) chunks)))
        ⊎ ((embed_with_openai api chunks ≡ llm_api_error)
            × (result ≡ embedded (embeddings (λ t. length t) chunks))))
    × (codes "openai" ≡ codes "gemini" → false ≡ true → result ≡ not_implemented)
    × ((codes "openai" ≡ codes "openai" → true ≡ false)
        → (codes "openai" ≡ codes "gemini" → false ≡ false)
        → result ≡ embedded (embeddings (λ t. length t) chunks))
embed_parse_results_lem_example =
    embed_parse_results_lem (λ t. length t) (λ t. length t) api encode right works (codes "openai")
      true false true files
