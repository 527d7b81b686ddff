-- ===== src/Semantic/Chunks/Examples.antt =====
-- Chunks at concrete inputs.
use runtime_ops.Base.{
  any, arith, Text, codes, split_on, ℕ, zero, suc, ◌≡◌, refl, true, some, [], ◌∷◌, ◌++◌, length,
  all,
}
use runtime_ops.Semantic.Chunks.{
  CodeSymbol, overlap, split_lines, split_into_chunks, extract_chunks,
}
use runtime_ops.Semantic.Chunks.Budget.{within_budget, extract_chunks-budget}
use runtime_ops.Semantic.Chunks.Slices.{is_slice, has_line, split_into_chunks_lem}

abbrev symbol : CodeSymbol
symbol = record {
  name = codes "f";
  symbol_type = codes "function";
  start_line = 7;
  end_line = 8;
  body = some (codes "a\nb");
}

extract_chunks-budget_example :
    all within_budget (extract_chunks ((codes "f.py", symbol ∷ []) ∷ [])) ≡ true
unfolding split_on
extract_chunks-budget_example = extract_chunks-budget ((codes "f.py", symbol ∷ []) ∷ []) refl

-- A body of two lines, which together are too long for one chunk.
abbrev line : ℕ → Text
line zero = []
line (suc n) = 97 ∷ line n

abbrev long_body : Text
long_body = line 1100 ++ 10 ∷ line 1100

split_into_chunks_lem_example :
    (all
        (is_slice symbol (codes "f.py") (split_on 10 long_body))
        (split_into_chunks symbol (codes "f.py") long_body)
      ≡ true)
    × (any
          (has_line symbol (codes "f.py") (split_on 10 long_body) 8)
          (split_into_chunks symbol (codes "f.py") long_body)
        ≡ true)
unfolding split_on
split_into_chunks_lem_example =
    split_into_chunks_lem symbol (codes "f.py") long_body 1 refl (omega arith)

two_chunks : length (split_into_chunks symbol (codes "f.py") long_body) ≡ 2
unfolding split_into_chunks split_lines split_on overlap
two_chunks = refl
