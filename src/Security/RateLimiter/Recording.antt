-- ===== src/Security/RateLimiter/Recording.antt =====
-- Recording a request keeps its window, where there was room for it.
use runtime_ops.Base.{
  Text, codes, str, text_eq, ℕ, ◌+◌, ◌≤◌, ◌<◌, ◌≡◌, refl, ◌∙◌, Bool, true, false, some, List, [],
  ◌∷◌, ◌++◌, tally, all, arith, leb, leb→le, if◌then◌else◌, Bool-cases, inl, inr,
}
use runtime_ops.Redis.Deadline.{expired}
use runtime_ops.Redis.SortedSets.{Entry, insert, SortedSets}
use runtime_ops.Security.RateLimiter.{record_in_window}
use runtime_ops.Security.RateLimiter.Entries.{
  recent, within, before, unlike, tally-insert, all-insert, tally_past, tally_mono, is_empty-insert,
  add_entry_fresh,
}
use runtime_ops.Security.RateLimiter.Window.{Window, Fresh, visible-tally, visible-past}

-- The member that a request at `now` is recorded as.
abbrev pub member_of : ℕ → ℕ → Text
member_of now ns = str now ++ (codes ":" ++ str ns)

module _ (redis : SortedSets) (k : Text) (w limit now ns : ℕ) (log : List ℕ) where
  open redis use {
    Store, entries, deadline, visible, visible_lem, entries-zadd, deadline-zadd, entries-expire,
    deadline-expire, zadd, expire,
  }

  abbrev entry : Entry
  entry = record { member = member_of now ns; score = now }

  module _ (s : Store) (fresh : Fresh redis k (member_of now ns) s) where
    visible-fresh : all (unlike (member_of now ns)) (visible s now k) ≡ true
    visible-fresh = rw visible_lem (pick (expired (deadline s k) now))
      where
        pick : (b : Bool) → all (unlike (member_of now ns)) (if b then [] else entries s k) ≡ true
        pick true = refl
        pick false = fresh

    added : entries (zadd now k entry s) k ≡ insert entry (visible s now k)
    added = entries-zadd now k entry s ∙ add_entry_fresh entry (visible s now k) visible-fresh

    not_gone : expired (deadline (zadd now k entry s) k) now ≡ false
    not_gone = rw deadline-zadd (ground (arith, visible_lem s now k))

    visible-added : visible (zadd now k entry s) now k ≡ insert entry (visible s now k)
    visible-added = rw (visible_lem (zadd now k entry s) now k, not_gone) added

    pub entries-record :
        entries (record_in_window redis k w now ns s) k ≡ insert entry (visible s now k)
    unfolding record_in_window
    entries-record = entries-expire now k (w + 60) (zadd now k entry s) ∙ visible-added

    pub deadline-record : deadline (record_in_window redis k w now ns s) k ≡ some (now + (w + 60))
    unfolding record_in_window
    deadline-record = rw (deadline-expire, visible-added, is_empty-insert entry (visible s now k))

    pub record-Fresh :
        (m : Text)
        → Fresh redis k m s
        → text_eq (member_of now ns) m ≡ false
        → Fresh redis k m (record_in_window redis k w now ns s)
    record-Fresh m f d = rw (entries-record, all-insert) (ground (arith, visible_lem s now k))

    module _ (h : Window redis k w limit now log s)
        (room : tally (recent w now) (entries s k) < limit) where
      record-tally :
          (T : ℕ)
          → now ≤ T
          → tally (recent w T) (entries (record_in_window redis k w now ns s) k)
            ≡ tally (recent w T) (entry ∷ visible s now k)
      record-tally T g = rw entries-record (tally-insert (recent w T) entry (visible s now k))

      kept :
          (T : ℕ)
          → now ≤ T
          → tally (recent w T) (visible s now k) ≡ tally (recent w T) (entries s k)
      kept T g = visible-tally redis k w limit now log s h now T g

      past-record : all (before now) (entries (record_in_window redis k w now ns s) k) ≡ true
      past-record =
          rw (entries-record, all-insert)
            (ground (arith, visible-past redis k w limit now log s h now))

      logged-record :
          (T : ℕ)
          → now ≤ T
          → tally (within w T) (now ∷ log)
            ≤ tally (recent w T) (entries (record_in_window redis k w now ns s) k)
      logged-record T g = rw (record-tally T g) (ground (arith, kept T g, h.logged T g))

      capped-record :
          (T : ℕ)
          → now ≤ T
          → tally (recent w T) (entries (record_in_window redis k w now ns s) k) ≤ limit
      capped-record T g =
          rw (record-tally T g)
            (ground (arith, kept T g, h.capped T g, tally_mono w now T (entries s k) g))

      -- The window is kept, with the request in the log.
      pub record-Window :
          Window redis k w limit now (now ∷ log) (record_in_window redis k w now ns s)
      record-Window = record {
        safe = λ T x. tally_past w now T _ past-record (ground (arith, rw deadline-record at x));
        logged = logged-record;
        capped = capped-record;
        past = past-record;
        log_past = ground (arith, h.log_past);
        bound = λ T. elim (Bool-cases (leb now T)) [
          | inl e ↦
              omega (arith, logged-record T (leb→le now T e), capped-record T (leb→le now T e))
          | inr e ↦ ground (arith, h.bound T)
        ];
      }
