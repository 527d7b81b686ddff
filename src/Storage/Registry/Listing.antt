-- ===== src/Storage/Registry/Listing.antt =====
-- The pages of `list_repositories` and the counts of `get_health_metrics`.
use runtime_ops.Base.{
  Text, codes, text_eq, text_eq_iff, ℕ, zero, suc, ◌+◌, ◌≡◌, refl, Bool, false, not, ◌&&◌, ◌||◌,
  Option, List, [], ◌∷◌, ◌++◌, select, tally, take, drop, length, arith,
}
use runtime_ops.Storage.Tables.{Repository, Database}
use runtime_ops.Storage.Registry.{list_repositories, passes, status_count, get_health_metrics}

none_left : {A : Type 0} (n : ℕ) → take {A = A} n [] ≡ []
none_left zero = refl
none_left (suc n) = refl

none_dropped : {A : Type 0} (n : ℕ) → drop {A = A} n [] ≡ []
none_dropped zero = refl
none_dropped (suc n) = refl

zero_plus : (b : ℕ) → 0 + b ≡ b
zero_plus b = omega arith

suc_plus : (a b : ℕ) → suc a + b ≡ suc (a + b)
suc_plus a b = omega arith

pages : {A : Type 0} (a b : ℕ) (xs : List A) → take (a + b) xs ≡ take a xs ++ take b (drop a xs)
pages zero b xs = rw (zero_plus b) refl
pages (suc a) b [] = rw (none_left (suc a + b), none_left b) refl
pages (suc a) b (x ∷ xs) = rw (suc_plus a b, pages a b xs) refl

drop-add : {A : Type 0} (o a : ℕ) (xs : List A) → drop (o + a) xs ≡ drop a (drop o xs)
drop-add zero a xs = rw (zero_plus a) refl
drop-add (suc o) a [] = rw (none_dropped (suc o + a), none_dropped a) refl
drop-add (suc o) a (x ∷ xs) = rw (suc_plus o a) (drop-add o a xs)

different : (s a b : Text) → text_eq a b ≡ false → (text_eq s a && text_eq s b) ≡ false
different s a b h = ground (arith, text_eq_iff s a, text_eq_iff s b, text_eq_iff a b)

module _ {Float : Type 0} where
  -- A page is followed by the page that begins where it ends: together they are the longer page, none
  -- lost and none twice, whatever status is asked for.
  list-pages :
      (status : Option Text) (a b offset : ℕ) (db : Database Float)
      → list_repositories status (a + b) offset db
        ≡ list_repositories status a offset db ++ list_repositories status b (offset + a) db
  unfolding list_repositories
  list-pages status a b offset db =
      rw (drop-add offset a (select (passes status) db.repositories))
        (pages a b (drop offset (select (passes status) db.repositories)))

  -- The statuses that the dashboard does not count.
  abbrev pub is_uncounted : Repository Float → Bool
  is_uncounted r = not (
      text_eq r.status (codes "idle")
      || text_eq r.status (codes "indexing")
      || text_eq r.status (codes "error")
      || text_eq r.status (codes "stale"))

  counts_lem :
      (rows : List (Repository Float))
      → tally (λ r. text_eq r.status (codes "idle")) rows
          + tally (λ r. text_eq r.status (codes "indexing")) rows
          + tally (λ r. text_eq r.status (codes "error")) rows
          + tally (λ r. text_eq r.status (codes "stale")) rows
          + tally is_uncounted rows
        ≡ length rows
  unfolding text_eq
  counts_lem [] = refl
  counts_lem (r ∷ rows) =
      let apart = different r.status in
      ground (
        arith,
        counts_lem rows,
        apart (codes "idle") (codes "indexing") refl,
        apart (codes "idle") (codes "error") refl,
        apart (codes "idle") (codes "stale") refl,
        apart (codes "indexing") (codes "error") refl,
        apart (codes "indexing") (codes "stale") refl,
        apart (codes "error") (codes "stale") refl,
      )

  -- The four counts of the dashboard add up to the number of repositories less those with a status of
  -- another name, which it leaves out.
  health_counts :
      (average : List Float → Float) (db : Database Float)
      → (let m = get_health_metrics average db in
          m.idle + m.indexing + m.error + m.stale + tally is_uncounted db.repositories)
        ≡ (get_health_metrics average db).total_repositories
  unfolding get_health_metrics status_count
  health_counts average db = counts_lem db.repositories
