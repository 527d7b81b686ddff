-- ===== src/Tools/StateManager/Examples.antt =====
-- A snapshot at concrete inputs; a response is a number.
use runtime_ops.Base.{Text, codes, text_eq, ℕ, ◌≡◌, refl, some, List, [], ◌∷◌}
use runtime_ops.Tools.StateManager.{Snapshot, create_snapshot, get_snapshot, get_responses}
use runtime_ops.Tools.StateManager.Recorded.{Call, store_all, get_responses-store}

abbrev call : Text → Text → ℕ → Call ℕ
call id tool n = record {
  snapshot_id = id;
  tool_name = tool;
  response = n;
  agent_name = codes "patch";
}

abbrev calls : List (Call ℕ)
calls =
    call (codes "i:r") (codes "search") 1
    ∷ call (codes "j:r") (codes "search") 2
    ∷ call (codes "i:r") (codes "files") 3
    ∷ []

get_responses-store_example :
    let (id, created) = create_snapshot ℕ (codes "i") (codes "r") [] in
    (snapshot : Snapshot ℕ) × (get_snapshot ℕ id (store_all ℕ calls created) ≡ some snapshot)
    × (get_responses ℕ id (some (codes "search")) (store_all ℕ calls created)
        ≡ record { response = 1; agent = codes "patch" } ∷ [])
    × (snapshot.agent_invocations
        ≡ record { agent = codes "patch"; tool = codes "search" }
          ∷ record { agent = codes "patch"; tool = codes "files" }
          ∷ [])
unfolding text_eq create_snapshot
get_responses-store_example =
    get_responses-store ℕ (codes "i") (codes "r") (codes "search") calls [] refl
