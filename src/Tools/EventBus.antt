-- ===== src/Tools/EventBus.antt =====
-- `EventSubscriber` of src/bob/tools/event_bus.py: the handlers of each type of event, and what happens
-- to an event that is received. A handler changes the world and may raise; the messages, which come from
-- Redis, are events here, and the log is left out. The handlers that `EventBusManager` registers are
-- arguments.
pub mod Dispatch
pub mod Examples
use runtime_ops.Base.{
  Text, codes, text_eq, ℕ, Bool, true, false, Option, none, some, List, [], ◌∷◌, ◌++◌, get_key,
  set_key,
}

pub data EventType : Type 0 where
  index_started index_complete index_failed index_progress : EventType
  query_executed query_failed : EventType
  incident_intake incident_resolved : EventType
  repo_added repo_updated repo_removed : EventType
  github_push github_pr : EventType

-- The value of the enumeration, by which it is compared and hashed.
abbrev pub event_value : EventType → Text
event_value index_started = codes "index_started"
event_value index_complete = codes "index_complete"
event_value index_failed = codes "index_failed"
event_value index_progress = codes "index_progress"
event_value query_executed = codes "query_executed"
event_value query_failed = codes "query_failed"
event_value incident_intake = codes "incident_intake"
event_value incident_resolved = codes "incident_resolved"
event_value repo_added = codes "repo_added"
event_value repo_updated = codes "repo_updated"
event_value repo_removed = codes "repo_removed"
event_value github_push = codes "github_push"
event_value github_pr = codes "github_pr"

-- An event; of its data, only what the handlers are given.
pub record BobEvent (Data : Type 0) : Type 0 where
  pub event_type : EventType
  pub repo_id : Text
  pub event_data : Data
  pub correlation_id : Option Text

module _ (Data World : Type 0) where
  -- A handler: the world after it, and whether it raised.
  abbrev pub Handler : Type 0
  Handler = BobEvent Data → World → World × Bool

  -- `_handlers`
  abbrev pub Handlers : Type 0
  Handlers = List (Text × List Handler)

  abbrev pub handlers_of : Option (List Handler) → List Handler
  handlers_of none = []
  handlers_of (some hs) = hs

  -- `register_handler`
  unfoldable pub register_handler : EventType → Handler → Handlers → Handlers
  register_handler event_type handler s =
      set_key (event_value event_type)
        (handlers_of (get_key (event_value event_type) s) ++ handler ∷ []) s

  -- The loop of `_handle_event`: what a handler raises is logged.
  unfoldable pub run_handlers : List Handler → BobEvent Data → World → World
  run_handlers [] event w = w
  run_handlers (h ∷ hs) event w = run_handlers hs event (h event w).0

  -- `_handle_event`
  unfoldable pub handle_event : Handlers → BobEvent Data → World → World
  unfolding run_handlers
  handle_event s event w =
      run_handlers (handlers_of (get_key (event_value event.event_type) s)) event w

  -- `_register_default_handlers`, of the four handlers.
  unfoldable pub register_default_handlers :
      Handler → Handler → Handler → Handler → Handlers → Handlers
  unfolding register_handler
  register_default_handlers handle_incident_intake handle_incident_resolved handle_github_push
        handle_github_pr s =
      register_handler github_pr handle_github_pr (
        register_handler github_push handle_github_push (
          register_handler incident_resolved handle_incident_resolved
            (register_handler incident_intake handle_incident_intake s)))
