-- ===== src/Tools/EventBus/Examples.antt =====
-- Events at concrete inputs; the world is the list of the marks that handlers leave.
use runtime_ops.Base.{codes, text_eq, ℕ, ◌≡◌, Bool, true, false, none, List, [], ◌∷◌, get_key}
use runtime_ops.Tools.EventBus.{
  EventType, github_push, github_pr, BobEvent, Handler, handle_event, run_handlers,
}
use runtime_ops.Tools.EventBus.Dispatch.{register_all, handle_event-register_all}

abbrev marks : ℕ → Bool → Handler (Unit {0}) (List ℕ)
marks n raises event w = (n ∷ w, raises)

abbrev regs : List (EventType × Handler (Unit {0}) (List ℕ))
regs = (github_push, marks 1 true) ∷ (github_pr, marks 2 false) ∷ (github_push, marks 3 false) ∷ []

abbrev push : BobEvent (Unit {0})
push = record {
  event_type = github_push;
  repo_id = codes "r";
  event_data = tt;
  correlation_id = none;
}

handle_event-register_all_example :
    handle_event (Unit {0}) (List ℕ) (register_all (Unit {0}) (List ℕ) regs []) push [] ≡ 3 ∷ 1 ∷ []
unfolding text_eq handle_event run_handlers get_key
handle_event-register_all_example = handle_event-register_all (Unit {0}) (List ℕ) regs [] push []
