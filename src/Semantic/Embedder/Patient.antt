-- ===== src/Semantic/Embedder/Patient.antt =====
-- The API's embeddings are returned where its rate limit relents.
use runtime_ops.Base.{
  Text, ℕ, zero, suc, ◌+◌, ◌/◌, ◌*◌, ◌≤◌, ◌≡◌, refl, ◌⊎◌, inl, inr, List, [], ◌∷◌, length, take,
  drop, arith,
}
use runtime_ops.Semantic.Chunks.{CodeChunk}
use runtime_ops.Semantic.Embedder.{
  Response, vectors, rate_limit, embedded, answered, attempts, openai_batches, embed_with_openai,
}
use runtime_ops.Semantic.Embedder.Batches.{
  embeddings, contents, IsRight, paired, both-embedded, length-drop,
}

module _ {Vector : Type 0} where
  -- Of so many requests from one on, the first that is not refused by the rate limit is answered.
  abbrev pub Answers : (ℕ → List Text → Response Vector) → ℕ → ℕ → List Text → Type 0
  Answers api zero request texts = ⊥
  Answers api (suc left) request texts =
      ((vs : List Vector) × (api request texts ≡ vectors vs))
      ⊎ ((api request texts ≡ rate_limit) × Answers api left (suc request) texts)

  attempts-Answers :
      (vec : Text → Vector) (api : ℕ → List Text → Response Vector)
      → IsRight vec api
      → (left request : ℕ) (batch : List CodeChunk) → Answers api left request (contents batch)
      → (attempts api left request batch).0 ≡ embedded (embeddings vec batch)
  unfolding attempts answered
  attempts-Answers vec api right zero request batch a = elim a [ ]
  attempts-Answers vec api right (suc left) request batch (inl (vs, e)) =
      rw (e, answered, right request _ vs e, paired vec batch) refl
  attempts-Answers vec api right (suc left) request batch (inr (e, more)) =
      rw (e, answered) (attempts-Answers vec api right left (suc request) batch more)

  batches-Answers :
      (vec : Text → Vector) (api : ℕ → List Text → Response Vector)
      → IsRight vec api
      → ((request : ℕ) (texts : List Text) → Answers api 3 request texts)
      → (n request : ℕ) (chunks : List CodeChunk) → length chunks ≤ 100 * n
      → openai_batches api n request chunks ≡ embedded (embeddings vec chunks)
  unfolding openai_batches
  batches-Answers vec api right patient zero request [] h = refl
  batches-Answers vec api right patient zero request (c ∷ chunks) h = absurd (omega arith)
  batches-Answers vec api right patient (suc n) request chunks h =
      both-embedded vec 100 chunks _ _
        (attempts-Answers vec api right 3 request (take 100 chunks) (patient request _))
        (batches-Answers vec api right patient n _ (drop 100 chunks)
          (omega (arith, length-drop 100 chunks)))

  -- Where each request gives the vectors of its texts or is refused by the rate limit, never fails in
  -- another way, and no three requests in a row are refused, `_embed_with_openai` succeeds: it returns
  -- the embeddings of the texts of all chunks, in their order, over all batches.
  pub openai_embeds :
      (vec : Text → Vector) (api : ℕ → List Text → Response Vector)
      → IsRight vec api
      → ((request : ℕ) (texts : List Text) → Answers api 3 request texts)
      → (chunks : List CodeChunk) → embed_with_openai api chunks ≡ embedded (embeddings vec chunks)
  unfolding embed_with_openai
  openai_embeds vec api right patient chunks =
      batches-Answers vec api right patient ((length chunks + 99) / 100) 0 chunks (omega arith)
