-- ===== src/Semantic/Chunks/Slices.antt =====
-- The chunks of a long symbol are slices of its lines, and together they have all of them.
use runtime_ops.Base.{
  Text, text_eq, text_eq_refl, split_on, ℕ, ◌+◌, ◌-◌, ◌≤◌, ◌<◌, ◌≡◌, refl, sym, ap, ◌∙◌, inl, inr,
  Bool, true, false, not, ◌&&◌, ◌||◌, List, [], ◌∷◌, ◌++◌, length, length-append, append_assoc,
  append_nil, take, drop, ltb, leb, all, any, Bool-cases, arith,
}
use runtime_ops.Semantic.Chunks.{
  CodeSymbol, CodeChunk, join_lines, max_chars, overlap_chars, overlap, reversed, is_nil, chunk_of,
  split_lines, split_into_chunks,
}

drop-length : (xs ys : List Text) → drop (length xs) (xs ++ ys) ≡ ys
drop-length [] ys = refl
drop-length (x ∷ xs) ys = drop-length xs ys

take-length : (xs ys : List Text) → take (length xs) (xs ++ ys) ≡ xs
take-length [] ys = refl
take-length (x ∷ xs) ys = ap (λ r. x ∷ r) (take-length xs ys)

reversed-append : (xs acc : List Text) → reversed xs acc ≡ reversed xs [] ++ acc
reversed-append [] acc = refl
reversed-append (x ∷ xs) acc =
    reversed-append xs (x ∷ acc)
    ∙ (sym (append_assoc (reversed xs []) (x ∷ []) acc)
        ∙ ap (λ r. r ++ acc) (sym (reversed-append xs (x ∷ []))))

reversed-reversed :
    (xs acc ys : List Text) → reversed (reversed xs acc) ys ≡ reversed acc (xs ++ ys)
reversed-reversed [] acc ys = refl
reversed-reversed (x ∷ xs) acc ys = reversed-reversed xs (x ∷ acc) ys

-- What `overlap` keeps is the end of the lines.
kept_end :
    (ls kept : List Text) (size : ℕ)
    → (front : List Text) × (reversed ls kept ≡ front ++ (overlap ls kept size).0)
unfolding overlap
kept_end [] kept size = ([], refl)
kept_end (l ∷ ls) kept size = elim (Bool-cases (leb (size + length l) overlap_chars)) [
  | inl e ↦ rw e (kept_end ls (l ∷ kept) (size + length l))
  | inr e ↦ rw e (reversed (l ∷ ls) [], reversed-append (l ∷ ls) kept)
]

overlap_end :
    (current : List Text)
    → (front : List Text) × (current ≡ front ++ (overlap (reversed current []) [] 0).0)
overlap_end current =
    let (front, e) = kept_end (reversed current []) [] 0 in
    (front, sym (append_nil current) ∙ (sym (reversed-reversed current [] []) ∙ e))

regroup :
    (a b c : List Text) (l : Text) (r : List Text)
    → a ++ ((b ++ c) ++ l ∷ r) ≡ (a ++ b) ++ ((c ++ l ∷ []) ++ r)
regroup a b c l r = simp append_assoc refl

some_line : (current : List Text) → is_nil current ≡ false → 1 ≤ length current
some_line [] h = absurd (cc h)
some_line (l ∷ ls) h = omega arith

length-parts :
    (lines before current ls : List Text)
    → lines ≡ before ++ (current ++ ls)
    → length lines ≡ length before + (length current + length ls)
length-parts lines before current ls e =
    rw (e, length-append before (current ++ ls), length-append current ls) refl

tested : (b n : Bool) → (b && not n) ≡ true → n ≡ false
tested true false h = refl
tested true true h = absurd (cc h)
tested false n h = absurd (cc h)

both : {a b : Bool} → a ≡ true → b ≡ true → (a && b) ≡ true
both h k = rw (h, k) refl

in_first : (a b : Bool) → a ≡ true → (a || b) ≡ true
in_first a b h = rw h refl

in_rest : (a b : Bool) → b ≡ true → (a || b) ≡ true
in_rest a b h = ground arith

module _ (s : CodeSymbol) (file_path : Text) (lines : List Text) where
  -- The content of a chunk is its lines, counted from the first line of the symbol.
  abbrev pub is_slice : CodeChunk → Bool
  is_slice c =
      text_eq c.content (
        join_lines
          (take (c.end_line + 1 - c.start_line) (drop (c.start_line - s.start_line) lines)))

  abbrev pub has_line : ℕ → CodeChunk → Bool
  has_line n c = leb c.start_line n && leb n c.end_line

  slice-chunk :
      (before current after : List Text) (chars first last : ℕ)
      → lines ≡ before ++ (current ++ after)
      → first ≡ s.start_line + length before
      → last + 1 ≡ first + length current
      → is_slice (chunk_of s file_path current chars first last) ≡ true
  slice-chunk before current after chars first last e f g =
      rw (e, starts, ends, drop-length before (current ++ after), take-length current after)
        (text_eq_refl (join_lines current))
    where
      starts : first - s.start_line ≡ length before
      starts = omega arith

      ends : last + 1 - first ≡ length current
      ends = omega arith

  line-chunk :
      (current : List Text) (chars first last n : ℕ)
      → first ≤ n
      → n ≤ last
      → has_line n (chunk_of s file_path current chars first last) ≡ true
  line-chunk current chars first last n a b = ground arith

  -- Every chunk is a slice, and every line from the one of the index `n` on is in a chunk.
  abbrev pub Sliced : ℕ → List CodeChunk → Type 0
  Sliced n chunks =
      (all is_slice chunks ≡ true)
      × ((k : ℕ) → n ≤ k → k < length lines → any (has_line (s.start_line + k)) chunks ≡ true)

  split_lines-Sliced :
      (before current : List Text) (i chars first : ℕ) (ls : List Text)
      → lines ≡ before ++ (current ++ ls)
      → i ≡ length before + length current
      → first ≡ s.start_line + length before
      → s.end_line + 1 ≡ s.start_line + length lines
      → Sliced (length before) (split_lines s file_path i current chars first ls)
  unfolding split_lines
  split_lines-Sliced before [] i chars first [] e f g h =
      (refl, λ k le lt. absurd (omega (arith, length-parts lines before [] [] e)))
  split_lines-Sliced before (c ∷ cs) i chars first [] e f g h = (
    rw
        (slice-chunk before (c ∷ cs) [] chars first s.end_line e g
          (omega (arith, length-parts lines before (c ∷ cs) [] e)))
        refl,
    λ k le lt. ground arith,
  )
  split_lines-Sliced before current i chars first (l ∷ ls) e f g h =
      elim (Bool-cases (ltb max_chars (chars + length l) && not (is_nil current))) [
        | inl b ↦
            let kept = (overlap (reversed current []) [] 0).0 in
            let (front, o) = overlap_end current in
            let lc : length current ≡ length front + length kept =
              ap length o ∙ length-append front kept in
            let lb = length-append before front in
            let filled : 1 ≤ length current = some_line current (tested _ _ b) in
            let (slices, lines_in) =
              split_lines-Sliced (before ++ front) (kept ++ l ∷ []) (i + 1)
                ((overlap (reversed current []) [] 0).1 + length l) (s.start_line + i - length kept)
                ls (e ∙ (ap (λ r. before ++ (r ++ l ∷ ls)) o ∙ regroup before front kept l ls))
                (omega (arith, length-append kept (l ∷ []))) (omega arith) h in
            rw b (
              both
                  (slice-chunk before current (l ∷ ls) chars first (s.start_line + i - 1) e g
                    (omega arith))
                  slices,
              λ k le lt. elim (Bool-cases (ltb k i)) [
                | inl m ↦ in_first _ _ (
                    line-chunk current chars first (s.start_line + i - 1) (s.start_line + k)
                      (omega arith) (ground arith))
                | inr m ↦ in_rest _ _ (lines_in k (ground arith) lt)
              ],
            )
        | inr b ↦ rw b (
            split_lines-Sliced before (current ++ l ∷ []) (i + 1) (chars + length l) first ls
              (e ∙ ap (λ r. before ++ r) (sym (append_assoc current (l ∷ []) ls)))
              (omega (arith, length-append current (l ∷ []))) g h)
      ]

-- Where the lines of a body are those of its symbol's range, each chunk of `_split_into_chunks` holds
-- the lines that it says, from its first to its last one, and every line of the symbol is in a chunk.
pub split_into_chunks_lem :
    (s : CodeSymbol) (file_path body : Text) (k : ℕ)
    → s.end_line + 1 ≡ s.start_line + length (split_on 10 body)
    → k < length (split_on 10 body)
    → (all (is_slice s file_path (split_on 10 body)) (split_into_chunks s file_path body) ≡ true)
      × (any
            (has_line s file_path (split_on 10 body) (s.start_line + k))
            (split_into_chunks s file_path body)
          ≡ true)
unfolding split_into_chunks
split_into_chunks_lem s file_path body k h lt =
    let (slices, lines_in) =
      split_lines-Sliced s file_path (split_on 10 body) [] [] 0 0 s.start_line (split_on 10 body)
        refl refl (omega arith) h in
    (slices, lines_in k (omega arith) lt)
