-- ===== src/Tools/StateManager/Recorded.antt =====
-- What a snapshot shows of the responses that are stored after it is created.
use runtime_ops.Base.{
  Text, text_eq, text_eq_iff, text_eq_refl, ◌≡◌, refl, sym, ap, ◌∙◌, inl, inr, false, ◌&&◌, Option,
  none, some, List, [], ◌∷◌, ◌++◌, append_assoc, append_nil, if◌then◌else◌, get_key, set_key,
  get_key-set_key, Bool-cases, arith,
}
use runtime_ops.Tools.StateManager.{
  Stored, Invocation, Snapshot, snapshot_id_of, Snapshots, create_snapshot, entries_of,
  with_response, store_in, store_response, get_snapshot, entries_for, get_responses,
}

-- The arguments of a call of `store_response`.
pub record Call (Response : Type 0) : Type 0 where
  pub snapshot_id : Text
  pub tool_name : Text
  pub response : Response
  pub agent_name : Text

module _ (Response : Type 0) where
  abbrev pub store_all : List (Call Response) → Snapshots Response → Snapshots Response
  store_all [] s = s
  store_all (c ∷ calls) s =
      store_all calls (store_response Response c.snapshot_id c.tool_name c.response c.agent_name s)

  -- The entries of the calls for a snapshot and a tool, and the invocations of those for a snapshot.
  abbrev pub stored_by : Text → Text → List (Call Response) → List (Stored Response)
  stored_by id tool [] = []
  stored_by id tool (c ∷ calls) =
      let rest = stored_by id tool calls in
      if text_eq c.snapshot_id id && text_eq c.tool_name tool
      then record { response = c.response; agent = c.agent_name } ∷ rest
      else rest

  abbrev pub invoked_by : Text → List (Call Response) → List Invocation
  invoked_by id [] = []
  invoked_by id (c ∷ calls) =
      let rest = invoked_by id calls in
      if text_eq c.snapshot_id id
      then record { agent = c.agent_name; tool = c.tool_name } ∷ rest
      else rest

  entries-set :
      (tool t : Text) (x : Stored Response) (d : List (Text × List (Stored Response)))
      → entries_of Response
          (get_key tool (set_key t (entries_of Response (get_key t d) ++ x ∷ []) d))
        ≡ entries_of Response (get_key tool d) ++ (if text_eq t tool then x ∷ [] else [])
  entries-set tool t x d = elim (Bool-cases (text_eq t tool)) [
    | inl e ↦
        rw (get_key-set_key t tool (entries_of Response (get_key t d) ++ x ∷ []) d, e)
          (ap (λ k. entries_of Response (get_key k d) ++ x ∷ []) ((text_eq_iff t tool).0 e))
    | inr e ↦
        rw (get_key-set_key t tool (entries_of Response (get_key t d) ++ x ∷ []) d, e)
          (sym (append_nil _))
  ]

  -- What one call adds to the entries of a tool and to the invocations.
  step-store :
      (id tool : Text) (c : Call Response) (s : Snapshots Response) (snapshot : Snapshot Response)
      → get_key id s ≡ some snapshot
      → (after : Snapshot Response) × (get_key id
            (store_response Response c.snapshot_id c.tool_name c.response c.agent_name s)
          ≡ some after)
        × (entries_of Response (get_key tool after.bob_responses)
            ≡ entries_of Response (get_key tool snapshot.bob_responses)
              ++ stored_by id tool (c ∷ []))
        × (after.agent_invocations ≡ snapshot.agent_invocations ++ invoked_by id (c ∷ []))
  unfolding store_response store_in
  step-store id tool c s snapshot h = elim (Bool-cases (text_eq c.snapshot_id id)) [
    | inl e ↦ same ((text_eq_iff c.snapshot_id id).0 e)
    | inr e ↦ (
      snapshot,
      other e (get_key c.snapshot_id s),
      rw e (sym (append_nil _)),
      rw e (sym (append_nil _)),
    )
  ]
    where
      other :
          text_eq c.snapshot_id id ≡ false
          → (o : Option (Snapshot Response))
          → get_key id (store_in Response c.snapshot_id c.tool_name c.response c.agent_name o s)
            ≡ some snapshot
      other e none = h
      other e (some x) =
          rw
            (
              get_key-set_key c.snapshot_id id
                  (with_response Response c.tool_name c.response c.agent_name x) s,
              e,
            )
            h

      same :
          c.snapshot_id ≡ id
          → (after : Snapshot Response) × (get_key id
                (store_response Response c.snapshot_id c.tool_name c.response c.agent_name s)
              ≡ some after)
            × (entries_of Response (get_key tool after.bob_responses)
                ≡ entries_of Response (get_key tool snapshot.bob_responses)
                  ++ stored_by id tool (c ∷ []))
            × (after.agent_invocations ≡ snapshot.agent_invocations ++ invoked_by id (c ∷ []))
      same e = (
        with_response Response c.tool_name c.response c.agent_name snapshot,
        rw
            (
              e,
              h,
              get_key-set_key id id
                  (with_response Response c.tool_name c.response c.agent_name snapshot) s,
              text_eq_refl id,
            )
            refl,
        rw (e, text_eq_refl id)
            (entries-set tool c.tool_name (record { response = c.response; agent = c.agent_name })
              snapshot.bob_responses),
        rw (e, text_eq_refl id) refl,
      )

  stored_by-cons :
      (id tool : Text) (c : Call Response) (calls : List (Call Response))
      → stored_by id tool (c ∷ []) ++ stored_by id tool calls ≡ stored_by id tool (c ∷ calls)
  stored_by-cons id tool c calls = ground arith

  invoked_by-cons :
      (id : Text) (c : Call Response) (calls : List (Call Response))
      → invoked_by id (c ∷ []) ++ invoked_by id calls ≡ invoked_by id (c ∷ calls)
  invoked_by-cons id c calls = ground arith

  run-store :
      (id tool : Text) (calls : List (Call Response)) (s : Snapshots Response)
      (snapshot : Snapshot Response)
      → get_key id s ≡ some snapshot
      → (after : Snapshot Response) × (get_key id (store_all calls s) ≡ some after)
        × (entries_of Response (get_key tool after.bob_responses)
            ≡ entries_of Response (get_key tool snapshot.bob_responses) ++ stored_by id tool calls)
        × (after.agent_invocations ≡ snapshot.agent_invocations ++ invoked_by id calls)
  run-store id tool [] s snapshot h = (snapshot, h, sym (append_nil _), sym (append_nil _))
  run-store id tool (c ∷ calls) s snapshot h =
      let (first, f, e, i) = step-store id tool c s snapshot h in
      let (after, g, e', i') =
        run-store id tool calls
          (store_response Response c.snapshot_id c.tool_name c.response c.agent_name s) first f in
      (
        after,
        g,
        e'
            ∙ (ap (λ xs. xs ++ stored_by id tool calls) e
                ∙ (append_assoc (entries_of Response (get_key tool snapshot.bob_responses))
                      (stored_by id tool (c ∷ [])) (stored_by id tool calls)
                    ∙ ap (λ xs. entries_of Response (get_key tool snapshot.bob_responses) ++ xs)
                        (stored_by-cons id tool c calls))),
        i'
            ∙ (ap (λ xs. xs ++ invoked_by id calls) i
                ∙ (append_assoc snapshot.agent_invocations (invoked_by id (c ∷ []))
                      (invoked_by id calls)
                    ∙ ap (λ xs. snapshot.agent_invocations ++ xs) (invoked_by-cons id c calls))),
      )

  -- After a snapshot is created, and whatever responses are then stored, in it and in others, it shows for
  -- a tool the responses that were stored in it under that tool, in order, and as invocations all that
  -- were stored in it.
  pub get_responses-store :
      (incident_id repo_id tool : Text) (calls : List (Call Response)) (s : Snapshots Response)
      → text_eq tool [] ≡ false
      → let (id, created) = create_snapshot Response incident_id repo_id s in
        (snapshot : Snapshot Response) × (get_snapshot Response id (store_all calls created)
          ≡ some snapshot)
        × (get_responses Response id (some tool) (store_all calls created)
            ≡ stored_by id tool calls)
        × (snapshot.agent_invocations ≡ invoked_by id calls)
  unfolding create_snapshot get_snapshot get_responses entries_for get_key
  get_responses-store incident_id repo_id tool calls s h =
      let id = snapshot_id_of incident_id repo_id in
      let fresh : Snapshot Response = record {
        incident_id = incident_id;
        repo_id = repo_id;
        bob_responses = [];
        agent_invocations = [];
      } in
      let (after, g, e, i) =
        run-store id tool calls (set_key id fresh s) fresh
          (get_key-set_key id id fresh s ∙ rw (text_eq_refl id) refl) in
      (after, g, rw (g, h) e, i)
