-- ===== src/Security/RateLimiter/Kept.antt =====
-- A window together with the members of the requests to come, through the steps of the limiter.
use runtime_ops.Base.{
  Text, text_eq, ℕ, ◌+◌, ◌-◌, ◌≤◌, ◌<◌, ◌≡◌, refl, ◌≢◌, false, List, [], ◌∷◌, tally, All, arith,
  leb, Bool-cases, inl, inr,
}
use runtime_ops.Redis.SortedSets.{SortedSets}
use runtime_ops.Security.RateLimiter.{get_request_count, record_in_window}
use runtime_ops.Security.RateLimiter.Entries.{recent}
use runtime_ops.Security.RateLimiter.Window.{
  Window, Fresh, Window-later, Window-frame, count-Window, count-Fresh,
}
use runtime_ops.Security.RateLimiter.Recording.{member_of, record-Window, record-Fresh}

module _ (redis : SortedSets) where
  open redis use {Store, entries, deadline, zrem_ne, zadd_ne, expire_ne}

  -- What `s'` holds for a key is what `s` holds.
  abbrev pub Same : Text → Store → Store → Type 0
  Same k s s' = (entries s' k ≡ entries s k) × (deadline s' k ≡ deadline s k)

  pub count_ne :
      (j : Text) (w now : ℕ) (s : Store) (k : Text)
      → j ≢ k
      → Same k s (get_request_count redis j w now s).1
  unfolding get_request_count
  count_ne j w now s k h = elim (Bool-cases (leb w now)) [
    | inl e ↦ rw e (zrem_ne now j 0 (now - w) s k h)
    | inr e ↦ rw e (refl, refl)
  ]

  pub record_ne :
      (j : Text) (w now ns : ℕ) (s : Store) (k : Text)
      → j ≢ k
      → Same k s (record_in_window redis j w now ns s)
  unfolding record_in_window
  record_ne j w now ns s k h = ground (
    arith,
    zadd_ne now j (record { member = member_of now ns; score = now }) s k h,
    expire_ne now j (w + 60) (zadd_of j now ns s) k h,
  )
    where
      zadd_of : Text → ℕ → ℕ → Store → Store
      zadd_of j now ns s = redis.zadd now j (record { member = member_of now ns; score = now }) s

  -- A window, with the members that later requests will have: none of them is in the set yet.
  pub record Kept (k : Text) (w limit now : ℕ) (log : List ℕ) (members : List Text) (s : Store)
      : Type 0 where
    pub window : Window redis k w limit now log s
    pub fresh : All (λ m. Fresh redis k m s) members

  All-fresh :
      (k : Text) (s s' : Store)
      → ((m : Text) → Fresh redis k m s → Fresh redis k m s')
      → (ms : List Text) → All (λ m. Fresh redis k m s) ms
      → All (λ m. Fresh redis k m s') ms
  All-fresh k s s' f [] h = tt
  All-fresh k s s' f (m ∷ ms) h = (f m h.0, All-fresh k s s' f ms h.1)

  module _ (k : Text) (w limit now : ℕ) (log : List ℕ) (ms : List Text) (s : Store) where
    pub Kept-frame :
        (s' : Store) → Same k s s' → Kept k w limit now log ms s → Kept k w limit now log ms s'
    Kept-frame s' e h = record {
      window = Window-frame redis k w limit now log s s' e h.window;
      fresh = All-fresh k s s' (λ m f. rw (e.0) f) ms h.fresh;
    }

    pub Kept-later :
        (now' : ℕ) → now ≤ now' → Kept k w limit now log ms s → Kept k w limit now' log ms s
    Kept-later now' g h = record {
      window = Window-later redis k w limit now now' log s g h.window;
      fresh = h.fresh;
    }

    pub Kept-count :
        Kept k w limit now log ms s
        → Kept k w limit now log ms (get_request_count redis k w now s).1
    Kept-count h = record {
      window = count-Window redis k w limit now log s h.window;
      fresh =
          All-fresh k s (get_request_count redis k w now s).1
            (count-Fresh redis k w limit now log s h.window) ms h.fresh;
    }

    pub Kept-record :
        (ns : ℕ)
        → Fresh redis k (member_of now ns) s
        → All (λ m. text_eq (member_of now ns) m ≡ false) ms
        → tally (recent w now) (entries s k) < limit
        → Kept k w limit now log ms s
        → Kept k w limit now (now ∷ log) ms (record_in_window redis k w now ns s)
    Kept-record ns f d room h = record {
      window = record-Window redis k w limit now ns log s f h.window room;
      fresh = others ms d h.fresh;
    }
      where
        others :
            (qs : List Text)
            → All (λ m. text_eq (member_of now ns) m ≡ false) qs
            → All (λ m. Fresh redis k m s) qs
            → All (λ m. Fresh redis k m (record_in_window redis k w now ns s)) qs
        others [] d g = tt
        others (m ∷ qs) d g =
            (record-Fresh redis k w limit now ns log s f m g.0 d.0, others qs d.1 g.1)

  -- A window with room for the request that is to be recorded next, at `now`.
  pub record Ready (k : Text) (w limit now ns : ℕ) (log : List ℕ) (ms : List Text) (s : Store)
      : Type 0 where
    pub kept : Kept k w limit now log (member_of now ns ∷ ms) s
    pub room : tally (recent w now) (entries s k) < limit
    pub apart : All (λ m. text_eq (member_of now ns) m ≡ false) ms

  module _ (k : Text) (w limit now ns : ℕ) (log : List ℕ) (ms : List Text) (s : Store)
      (h : Ready k w limit now ns log ms s) where
    pub Ready-frame : (s' : Store) → Same k s s' → Ready k w limit now ns log ms s'
    Ready-frame s' e = record {
      kept = Kept-frame k w limit now log (member_of now ns ∷ ms) s s' e h.kept;
      room = rw e.0 h.room;
      apart = h.apart;
    }

    pub Ready-record : Kept k w limit now (now ∷ log) ms (record_in_window redis k w now ns s)
    Ready-record =
        Kept-record k w limit now log ms s ns h.kept.fresh.0 h.apart h.room
          (record { window = h.kept.window; fresh = h.kept.fresh.1 })
