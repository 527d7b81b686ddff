-- ===== src/Query/Assembler/Examples.antt =====
-- The assembler at concrete inputs, with confidences in thousandths.
use runtime_ops.Base.{
  somes, Text, codes, ℕ, ◌+◌, ◌*◌, ◌/◌, ◌≤◌, ◌≡◌, refl, Bool, true, false, none, some, List, [],
  ◌∷◌, tally, ltb, leb, arith,
}
use runtime_ops.Query.Assembler.{
  Floats, Graph, RawResult, AssembledResult, rerank_results, assemble_result,
  assemble_search_results,
}
use runtime_ops.Query.Assembler.Budget.{total_chars, Descending, answer_sorted_within_budget}

ltb_asym : (a b : ℕ) → ltb a b ≡ true → ltb b a ≡ false
ltb_asym a b h = ground arith

abbrev thousandths : Floats
thousandths = record {
  Float = ℕ;
  zero = 0;
  one = 1000;
  half = 500;
  thirty_five_hundredths = 350;
  fifteen_hundredths = 150;
  add = λ a b. a + b;
  mul = λ a b. a * b / 1000;
  fiftieths = λ n. n * 20;
  lt = ltb;
  le = leb;
  lt_asym = ltb_asym;
  zero_lt_one = refl;
}

abbrev graph : Graph thousandths
graph = record {
  get_file_metrics = λ path. some (record {
    imports_count = 2;
    importers_count = 3;
    fan_in = 3;
    fan_out = 2;
    acs_score = none;
    total_lines = 80;
  });
  get_git_blame = λ path lines. some [];
}

abbrev raw : Text → ℕ → RawResult thousandths
raw name certainty = record {
  file_path = some (codes "a.py");
  symbol_name = some name;
  symbol_type = some (codes "function");
  start_line = some 1;
  end_line = some 9;
  content = some (codes "def f(): pass");
  language = some (codes "python");
  certainty = some certainty;
  rerank_score = none;
}

abbrev raws : List (RawResult thousandths)
raws = raw (codes "f") 300 ∷ raw (codes "g") 900 ∷ []

abbrev result : Text → AssembledResult thousandths
result name = record {
  file_path = codes "a.py";
  symbol_name = name;
  symbol_type = codes "function";
  start_line = 1;
  end_line = 9;
  content = codes "def f(): pass";
  language = codes "python";
  confidence = 400;
  evidence = record {
    file_path = codes "a.py";
    line_range = (1, 9);
    commit_sha = none;
    author = none;
    last_modified = none;
  };
  metadata = record {
    vector_similarity = 700;
    rerank_score = 0;
    graph_centrality = 100;
    dependency_count = 5;
    acs_score = none;
    total_lines = 80;
  };
}

abbrev results : List (AssembledResult thousandths)
results = result (codes "f") ∷ result (codes "g") ∷ result (codes "f") ∷ []

answer_sorted_within_budget_example :
    let answer = assemble_search_results thousandths true 60 graph true raws in
    Descending answer
    × (total_chars answer ≤ 60 * 4)
    × ((left_out : List (AssembledResult thousandths)) × ((test : AssembledResult thousandths
            → Bool)
          → tally test answer + tally test left_out
            ≡ tally test (
                somes
                  (assemble_result thousandths true graph true)
                  (rerank_results thousandths raws))))
answer_sorted_within_budget_example =
    answer_sorted_within_budget thousandths true 60 graph true raws
