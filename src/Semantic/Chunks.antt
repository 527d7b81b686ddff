-- ===== src/Semantic/Chunks.antt =====
-- The chunks of `SemanticEmbedder`, src/bob/semantic/embedder.py: `_extract_chunks` and
-- `_split_into_chunks`.
pub mod Slices
pub mod Budget
pub mod Examples
use runtime_ops.Base.{
  Text, codes, text_eq, split_on, ℕ, zero, suc, ◌+◌, ◌-◌, ◌*◌, ◌/◌, Bool, true, false, not, ◌&&◌,
  Option, none, some, List, [], ◌∷◌, ◌++◌, map, length, take, drop, ltb, leb, if◌then◌else◌,
}

pub record CodeSymbol : Type 0 where
  pub name : Text
  pub symbol_type : Text
  pub start_line : ℕ
  pub end_line : ℕ
  pub body : Option Text

pub record CodeChunk : Type 0 where
  pub content : Text
  pub file_path : Text
  pub symbol_name : Text
  pub symbol_type : Text
  pub start_line : ℕ
  pub end_line : ℕ
  pub token_count : ℕ

-- `"\n".join(lines)`
abbrev pub join_lines : List Text → Text
join_lines [] = []
join_lines (l ∷ ls) = elim ls [ [] ↦ l | _ ↦ l ++ 10 ∷ join_lines ls ]

abbrev pub max_chars : ℕ
max_chars = 512 * 4

abbrev pub overlap_chars : ℕ
overlap_chars = 50 * 4

-- The loop over `reversed(current_chunk)`, with the lines that are kept and their size.
unfoldable pub overlap : List Text → List Text → ℕ → List Text × ℕ
overlap [] kept size = (kept, size)
overlap (l ∷ ls) kept size =
    let more = overlap ls (l ∷ kept) (size + length l) in
    if leb (size + length l) overlap_chars then more else (kept, size)

-- The lines in reverse order, before others.
abbrev pub reversed : List Text → List Text → List Text
reversed [] acc = acc
reversed (l ∷ ls) acc = reversed ls (l ∷ acc)

abbrev pub is_nil : List Text → Bool
is_nil [] = true
is_nil (l ∷ ls) = false

abbrev pub chunk_of : CodeSymbol → Text → List Text → ℕ → ℕ → ℕ → CodeChunk
chunk_of symbol file_path lines chars first last = record {
  content = join_lines lines;
  file_path = file_path;
  symbol_name = symbol.name;
  symbol_type = symbol.symbol_type;
  start_line = first;
  end_line = last;
  token_count = chars / 4;
}

-- The loop of `_split_into_chunks`, at the line of index `i`, and its final chunk.
unfoldable pub split_lines : CodeSymbol → Text → ℕ → List Text → ℕ → ℕ → List Text → List CodeChunk
split_lines symbol file_path i current chars first [] =
    if is_nil current
    then []
    else chunk_of symbol file_path current chars first symbol.end_line ∷ []
split_lines symbol file_path i current chars first (l ∷ ls) =
    let (kept, size) = overlap (reversed current []) [] 0 in
    let after =
      split_lines symbol file_path (i + 1) (kept ++ l ∷ []) (size + length l)
        (symbol.start_line + i - length kept) ls in
    let longer =
      split_lines symbol file_path (i + 1) (current ++ l ∷ []) (chars + length l) first ls in
    if ltb max_chars (chars + length l) && not (is_nil current)
    then chunk_of symbol file_path current chars first (symbol.start_line + i - 1) ∷ after
    else longer

-- `_split_into_chunks` of a body.
unfoldable pub split_into_chunks : CodeSymbol → Text → Text → List CodeChunk
split_into_chunks symbol file_path body =
    split_lines symbol file_path 0 [] 0 symbol.start_line (split_on 10 body)

-- The body of the loop of `_extract_chunks` for a symbol.
unfoldable pub chunks_of : Text → CodeSymbol → Option Text → List CodeChunk
chunks_of file_path symbol none = []
chunks_of file_path symbol (some body) =
    if text_eq body []
    then []
    else if leb (length body / 4) 512
    then record {
      content = body;
      file_path = file_path;
      symbol_name = symbol.name;
      symbol_type = symbol.symbol_type;
      start_line = symbol.start_line;
      end_line = symbol.end_line;
      token_count = length body / 4;
    }
      ∷ []
    else split_into_chunks symbol file_path body

chunks_of_symbols : Text → List CodeSymbol → List CodeChunk
unfolding chunks_of
chunks_of_symbols file_path [] = []
chunks_of_symbols file_path (s ∷ symbols) =
    chunks_of file_path s s.body ++ chunks_of_symbols file_path symbols

-- `_extract_chunks`, of files with their symbols.
unfoldable pub extract_chunks : List (Text × List CodeSymbol) → List CodeChunk
unfolding chunks_of_symbols
extract_chunks [] = []
extract_chunks ((file_path, symbols) ∷ results) =
    chunks_of_symbols file_path symbols ++ extract_chunks results
