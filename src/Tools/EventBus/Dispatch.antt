-- ===== src/Tools/EventBus/Dispatch.antt =====
-- Which handlers an event reaches.
use runtime_ops.Base.{
  text_eq, ◌≡◌, refl, ap, ◌∙◌, inl, inr, List, [], ◌∷◌, ◌++◌, if◌then◌else◌, get_key,
  get_key-set_key, Bool-cases, text_eq_iff,
}
use runtime_ops.Tools.EventBus.{
  EventType, event_value, BobEvent, Handler, Handlers, handlers_of, register_handler, run_handlers,
  handle_event,
}

module _ (Data World : Type 0) where
  -- `register_handler` for each pair, in order.
  abbrev pub register_all :
      List (EventType × Handler Data World) → Handlers Data World → Handlers Data World
  register_all [] s = s
  register_all ((t, h) ∷ rest) s = register_all rest (register_handler Data World t h s)

  -- The handlers among the pairs that are for a type, in order, one after another.
  abbrev pub run_for :
      EventType → List (EventType × Handler Data World) → BobEvent Data → World → World
  run_for t [] event w = w
  run_for t ((t', h) ∷ rest) event w =
      if text_eq (event_value t') (event_value t)
      then run_for t rest event (h event w).0
      else run_for t rest event w

  run-append :
      (hs ks : List (Handler Data World)) (event : BobEvent Data) (w : World)
      → run_handlers Data World (hs ++ ks) event w
        ≡ run_handlers Data World ks event (run_handlers Data World hs event w)
  unfolding run_handlers
  run-append [] ks event w = refl
  run-append (h ∷ hs) ks event w = run-append hs ks event (h event w).0

  handle-register :
      (t : EventType) (h : Handler Data World) (s : Handlers Data World) (event : BobEvent Data)
      (w : World)
      → handle_event Data World (register_handler Data World t h s) event w ≡ (
          if text_eq (event_value t) (event_value event.event_type)
          then (h event (handle_event Data World s event w)).0
          else handle_event Data World s event w)
  unfolding handle_event register_handler
  handle-register t h s event w =
      elim (Bool-cases (text_eq (event_value t) (event_value event.event_type))) [
        | inl e ↦
            rw
              (
                get_key-set_key (event_value t) (event_value event.event_type)
                    (handlers_of Data World (get_key (event_value t) s) ++ h ∷ []) s,
                e,
              )
              (run-append (handlers_of Data World (get_key (event_value t) s)) (h ∷ []) event w
                ∙ ap (λ v. (h event (run_handlers Data World (handlers_of Data World v) event w)).0)
                    (ap (λ k. get_key k s)
                      ((text_eq_iff (event_value t) (event_value event.event_type)).0 e)))
        | inr e ↦
            rw
              (
                get_key-set_key (event_value t) (event_value event.event_type)
                    (handlers_of Data World (get_key (event_value t) s) ++ h ∷ []) s,
                e,
              )
              refl
      ]

  -- An event reaches the handlers that were registered for its type, in the order of their registration
  -- and each once, after those that were there before; one that raises does not keep it from the next.
  pub handle_event-register_all :
      (regs : List (EventType × Handler Data World)) (s : Handlers Data World)
      (event : BobEvent Data) (w : World)
      → handle_event Data World (register_all regs s) event w
        ≡ run_for event.event_type regs event (handle_event Data World s event w)
  handle_event-register_all [] s event w = refl
  handle_event-register_all ((t, h) ∷ rest) s event w =
      elim (Bool-cases (text_eq (event_value t) (event_value event.event_type))) [
        | inl e ↦ rw e (
            handle_event-register_all rest (register_handler Data World t h s) event w
            ∙ ap (run_for event.event_type rest event) (handle-register t h s event w ∙ rw e refl))
        | inr e ↦ rw e (
            handle_event-register_all rest (register_handler Data World t h s) event w
            ∙ ap (run_for event.event_type rest event) (handle-register t h s event w ∙ rw e refl))
      ]
