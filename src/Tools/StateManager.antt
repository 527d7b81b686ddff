-- ===== src/Tools/StateManager.antt =====
-- `BobStateManager` of src/bob/tools/langgraph_integration.py: the responses that the agents of an
-- incident have had. A snapshot is one object, which `get_snapshot` hands out as it is and
-- `store_response` changes; its fields for times are always None and left out.
pub mod Recorded
pub mod Examples
use runtime_ops.Base.{
  Text, codes, text_eq, ℕ, Bool, true, false, Option, none, some, List, [], ◌∷◌, ◌++◌,
  if◌then◌else◌, get_key, set_key, del_key,
}

-- An entry of `bob_responses`, and one of `agent_invocations`.
pub record Stored (Response : Type 0) : Type 0 where
  pub response : Response
  pub agent : Text

pub record Invocation : Type 0 where
  pub agent : Text
  pub tool : Text

pub record Snapshot (Response : Type 0) : Type 0 where
  pub incident_id : Text
  pub repo_id : Text
  pub bob_responses : List (Text × List (Stored Response))
  pub agent_invocations : List Invocation

-- `f"{incident_id}:{repo_id}"`
abbrev pub snapshot_id_of : Text → Text → Text
snapshot_id_of incident_id repo_id = incident_id ++ 58 ∷ repo_id

module _ (Response : Type 0) where
  -- `state_snapshots`
  abbrev pub Snapshots : Type 0
  Snapshots = List (Text × Snapshot Response)

  -- `create_snapshot`, which returns the identifier.
  unfoldable pub create_snapshot : Text → Text → Snapshots → Text × Snapshots
  create_snapshot incident_id repo_id s = (
    snapshot_id_of incident_id repo_id,
    set_key (snapshot_id_of incident_id repo_id)
        (record {
          incident_id = incident_id;
          repo_id = repo_id;
          bob_responses = [];
          agent_invocations = [];
        })
        s,
  )

  abbrev pub entries_of : Option (List (Stored Response)) → List (Stored Response)
  entries_of none = []
  entries_of (some xs) = xs

  abbrev pub with_response : Text → Response → Text → Snapshot Response → Snapshot Response
  with_response tool_name response agent_name snapshot = record snapshot {
    bob_responses =
        set_key tool_name
          (entries_of (get_key tool_name snapshot.bob_responses)
            ++ record { response = response; agent = agent_name } ∷ [])
          snapshot.bob_responses;
    agent_invocations =
        snapshot.agent_invocations ++ record { agent = agent_name; tool = tool_name } ∷ [];
  }

  -- `store_response`
  store_in : Text → Text → Response → Text → Option (Snapshot Response) → Snapshots → Snapshots
  store_in snapshot_id tool_name response agent_name none s = s
  store_in snapshot_id tool_name response agent_name (some snapshot) s =
      set_key snapshot_id (with_response tool_name response agent_name snapshot) s

  unfoldable pub store_response : Text → Text → Response → Text → Snapshots → Snapshots
  unfolding store_in
  store_response snapshot_id tool_name response agent_name s =
      store_in snapshot_id tool_name response agent_name (get_key snapshot_id s) s

  -- `get_snapshot`
  unfoldable pub get_snapshot : Text → Snapshots → Option (Snapshot Response)
  get_snapshot snapshot_id s = get_key snapshot_id s

  abbrev pub all_entries : List (Text × List (Stored Response)) → List (Stored Response)
  all_entries [] = []
  all_entries ((tool, xs) ∷ rest) = xs ++ all_entries rest

  -- `get_responses`; an empty tool name is no name.
  entries_for : Option Text → Option (Snapshot Response) → List (Stored Response)
  entries_for tool_name none = []
  entries_for none (some snapshot) = all_entries snapshot.bob_responses
  entries_for (some tool_name) (some snapshot) =
      if text_eq tool_name []
      then all_entries snapshot.bob_responses
      else entries_of (get_key tool_name snapshot.bob_responses)

  unfoldable pub get_responses : Text → Option Text → Snapshots → List (Stored Response)
  unfolding entries_for
  get_responses snapshot_id tool_name s = entries_for tool_name (get_key snapshot_id s)

  -- `clear_snapshot`
  unfoldable pub clear_snapshot : Text → Snapshots → Snapshots
  clear_snapshot snapshot_id s = elim (get_key snapshot_id s) [
    | none ↦ s
    | some snapshot ↦ del_key snapshot_id s
  ]
