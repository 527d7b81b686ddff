-- ===== src/Semantic/Chunks/Budget.antt =====
-- How many tokens a chunk has.
use runtime_ops.Base.{
  Text, text_eq, split_on, ℕ, ◌+◌, ◌/◌, ◌≤◌, ◌≡◌, refl, inl, inr, Bool, true, false, not, ◌&&◌,
  Option, none, some, List, [], ◌∷◌, ◌++◌, length, ltb, leb, all, Bool-cases, arith,
}
use runtime_ops.Semantic.Chunks.{
  CodeSymbol, CodeChunk, max_chars, overlap, reversed, is_nil, split_lines, split_into_chunks,
  chunks_of, extract_chunks, chunks_of_symbols,
}

abbrev pub within_budget : CodeChunk → Bool
within_budget c = leb c.token_count 512

-- A line that fits a chunk beside the overlap.
abbrev pub is_short_line : Text → Bool
is_short_line l = leb (length l) 1848

overlap-size : (ls kept : List Text) (size : ℕ) → size ≤ 200 → (overlap ls kept size).1 ≤ 200
unfolding overlap
overlap-size [] kept size h = h
overlap-size (l ∷ ls) kept size h = ground (arith, overlap-size ls (l ∷ kept) (size + length l))

quarter : (n : ℕ) → n ≤ 2048 → leb (n / 4) 512 ≡ true
quarter n h = ground arith

never_nil : (xs : List Text) (l : Text) → is_nil (xs ++ l ∷ []) ≡ true → false ≡ true
never_nil [] l h = h
never_nil (x ∷ xs) l h = h

split_lines-budget :
    (s : CodeSymbol) (file_path : Text) (i : ℕ) (current : List Text) (chars first : ℕ)
    (ls : List Text)
    → chars ≤ 2048
    → (is_nil current ≡ true → chars ≡ 0)
    → all is_short_line ls ≡ true
    → all within_budget (split_lines s file_path i current chars first ls) ≡ true
unfolding split_lines
split_lines-budget s file_path i current chars first [] h e k = elim (Bool-cases (is_nil current)) [
  | inl n ↦ rw n refl
  | inr n ↦ rw (n, quarter chars h) refl
]
split_lines-budget s file_path i current chars first (l ∷ ls) h e k =
    elim (Bool-cases (ltb max_chars (chars + length l) && not (is_nil current))) [
      | inl b ↦
          rw (b, quarter chars h)
            (split_lines-budget s file_path (i + 1)
              ((overlap (reversed current []) [] 0).0 ++ l ∷ [])
              ((overlap (reversed current []) [] 0).1 + length l) _ ls
              (ground (arith, overlap-size (reversed current []) [] 0))
              (λ n. absurd (cc (never_nil (overlap (reversed current []) [] 0).0 l n)))
              (ground arith))
      | inr b ↦ rw b (
          split_lines-budget s file_path (i + 1) (current ++ l ∷ []) (chars + length l) first ls
            (ground (arith, e)) (λ n. absurd (cc (never_nil current l n))) (ground arith))
    ]

chunks_of-budget :
    (file_path : Text) (s : CodeSymbol) (o : Option Text)
    → ((body : Text) → o ≡ some body → all is_short_line (split_on 10 body) ≡ true)
    → all within_budget (chunks_of file_path s o) ≡ true
unfolding chunks_of split_into_chunks
chunks_of-budget file_path s none h = refl
chunks_of-budget file_path s (some body) h = elim (Bool-cases (text_eq body [])) [
  | inl e ↦ rw e refl
  | inr e ↦ elim (Bool-cases (leb (length body / 4) 512)) [
    | inl f ↦ rw (e, f, f) refl
    | inr f ↦
        rw (e, f)
          (split_lines-budget s file_path 0 [] 0 s.start_line (split_on 10 body) (omega arith)
            (λ n. refl) (h body refl))
  ]
]

all-append :
    (p : CodeChunk → Bool) (xs ys : List CodeChunk)
    → all p xs ≡ true
    → all p ys ≡ true
    → all p (xs ++ ys) ≡ true
all-append p [] ys h k = k
all-append p (x ∷ xs) ys h k = ground (arith, all-append p xs ys)

abbrev pub has_short_lines : Option Text → Bool
has_short_lines none = true
has_short_lines (some body) = all is_short_line (split_on 10 body)

symbols-budget :
    (file_path : Text) (symbols : List CodeSymbol)
    → all (λ s. has_short_lines s.body) symbols ≡ true
    → all within_budget (chunks_of_symbols file_path symbols) ≡ true
unfolding chunks_of_symbols
symbols-budget file_path [] h = refl
symbols-budget file_path (s ∷ symbols) h =
    all-append within_budget (chunks_of file_path s s.body) (chunks_of_symbols file_path symbols)
      (chunks_of-budget file_path s s.body (λ body e. rw e at first))
      (symbols-budget file_path symbols (ground arith))
  where
    first : has_short_lines s.body ≡ true
    first = ground arith

-- Where no line of a symbol's body is longer than the characters of a chunk less those of the overlap,
-- no chunk of `_extract_chunks` is counted with more than 512 tokens.
pub extract_chunks-budget :
    (results : List (Text × List CodeSymbol))
    → all (λ r. all (λ s. has_short_lines s.body) r.1) results ≡ true
    → all within_budget (extract_chunks results) ≡ true
unfolding extract_chunks
extract_chunks-budget [] h = refl
extract_chunks-budget ((file_path, symbols) ∷ results) h =
    all-append within_budget (chunks_of_symbols file_path symbols) (extract_chunks results)
      (symbols-budget file_path symbols (ground arith))
      (extract_chunks-budget results (ground arith))
