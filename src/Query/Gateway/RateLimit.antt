-- ===== src/Query/Gateway/RateLimit.antt =====
-- How many requests of an agent one clock minute admits.
use runtime_ops.Base.{
  Text, text_eq, text_eq_iff, ℕ, zero, suc, ◌+◌, ◌/◌, ◌≤◌, ◌<◌, ◌≡◌, refl, ap, sym, Bool, true,
  false, List, [], ◌∷◌, map, All, arith, Bool-cases, inl, inr, ◌⊎◌, ltb, le→ltb, lt→ltb,
}
use runtime_ops.Redis.Counters.{Counters}
use runtime_ops.Query.Gateway.{
  Limits, burst_window, minute_key, burst_key, both_up, Verdict, pass, exceeded, shown, count_up,
  check_rate_limit, serve,
}
use runtime_ops.Query.Gateway.Counting.{
  keys_differ, count_up_reply, get_ne, get_self, get_old, get-count_up-le,
}

abbrev pub is_pass : Verdict → Bool
is_pass pass = true
is_pass (exceeded limit window count) = false

-- `k` requests pass, and no other.
abbrev pub admits : ℕ → List ℕ → List Bool
admits k [] = []
admits zero (t ∷ ts) = false ∷ admits zero ts
admits (suc k) (t ∷ ts) = true ∷ admits k ts

module _ (redis : Counters) (limits : Limits) (agent : Text) (m : ℕ) where
  open redis use {Store, deadline, get, get_lem}

  -- In minute `m` the minute window counts `n` requests, and no burst window more than `c`.
  pub record Counts (n c : ℕ) (s : Store) : Type 0 where
    pub minute : (u : ℕ) → u / 60 ≡ m → shown (get u (minute_key agent u) s) ≡ n
    pub bursts : (u v : ℕ) → shown (get u (burst_key agent v) s) ≤ c

  same_key : (t u : ℕ) → t / 60 ≡ m → u / 60 ≡ m → minute_key agent t ≡ minute_key agent u
  unfolding minute_key
  same_key t u p q = rw (p, q)

  after_burst :
      (n c t : ℕ) (s : Store)
      → Counts n c s
      → Counts n (suc c) (count_up redis t (burst_key agent t) burst_window s).1
  after_burst n c t s h = record {
    minute = λ u e.
        rw
          (get_ne redis t (burst_key agent t) burst_window s u (minute_key agent u)
            (λ p. keys_differ agent u t (sym p)))
          (h.minute u e);
    bursts = λ u v. burst_case u v (Bool-cases (text_eq (burst_key agent t) (burst_key agent v)));
  }
    where
      burst_case :
          (u v : ℕ)
          → (text_eq (burst_key agent t) (burst_key agent v) ≡ true)
            ⊎ (text_eq (burst_key agent t) (burst_key agent v) ≡ false)
          → shown
              (get u (burst_key agent v) (count_up redis t (burst_key agent t) burst_window s).1)
            ≤ suc c
      burst_case u v (inl e) = rw (← (text_eq_iff (burst_key agent t) (burst_key agent v)).0 e) (
          omega (arith, get-count_up-le redis t (burst_key agent t) burst_window s u, h.bursts t t))
      burst_case u v (inr e) =
          rw
            (get_ne redis t (burst_key agent t) burst_window s u (burst_key agent v)
              (λ p. ground (arith, (text_eq_iff (burst_key agent t) (burst_key agent v)).1 p)))
            (omega (arith, h.bursts u v))

  counted :
      (n t : ℕ) (s : Store) (u : ℕ)
      → t / 60 ≡ m
      → u / 60 ≡ m
      → shown (get t (minute_key agent t) s) ≡ n
      → shown (get u (minute_key agent t) s) ≡ n
      → shown (get u (minute_key agent t) (count_up redis t (minute_key agent t) 60 s).1) ≡ suc n
  counted zero t s u e p a b =
      ap shown (get_self redis t (minute_key agent t) 60 s u a (omega arith))
  counted (suc n) t s u e p a b = ap shown (
      get_old redis t (minute_key agent t) 60 s u n (ground arith)
        (ground (arith, get_lem u (minute_key agent t) s)))

  after_minute :
      (n c t : ℕ) (s : Store)
      → t / 60 ≡ m
      → Counts n c s
      → Counts (suc n) c (count_up redis t (minute_key agent t) 60 s).1
  after_minute n c t s e h = record {
    minute = λ u p.
        rw (same_key u t p e)
          (counted n t s u e p (h.minute t e) (rw (same_key t u e p) (h.minute u p)));
    bursts = λ u v.
        rw (get_ne redis t (minute_key agent t) 60 s u (burst_key agent v) (keys_differ agent t v))
          (h.bursts u v);
  }

  -- One request in minute `m`, while there is room, and when there is none.
  step_room :
      (n c t : ℕ) (s : Store)
      → limits.per_minute ≤ limits.burst
      → t / 60 ≡ m
      → Counts n c s
      → n < limits.per_minute
      → c ≤ n
      → let (v, s') = check_rate_limit redis limits agent t both_up s in
        (v ≡ pass) × Counts (suc n) (suc c) s'
  unfolding check_rate_limit
  step_room n c t s b e h room q =
      let (one, s₁) = count_up redis t (burst_key agent t) burst_window s in
      let h₁ = after_burst n c t s h in
      let burst_ok : ltb limits.burst one ≡ false =
        le→ltb limits.burst one (
          omega (arith, count_up_reply redis t (burst_key agent t) burst_window s, h.bursts t t)) in
      let minute_ok : ltb limits.per_minute (count_up redis t (minute_key agent t) 60 s₁).0
          ≡ false =
        le→ltb _ _
          (omega (arith, count_up_reply redis t (minute_key agent t) 60 s₁, h₁.minute t e)) in
      rw (burst_ok, minute_ok) (refl, after_minute n (suc c) t s₁ e h₁)

  step_full :
      (n c t : ℕ) (s : Store)
      → t / 60 ≡ m
      → Counts n c s
      → limits.per_minute ≤ n
      → let (v, s') = check_rate_limit redis limits agent t both_up s in
        (is_pass v ≡ false) × (k : ℕ) × (limits.per_minute ≤ k) × Counts k (suc c) s'
  unfolding check_rate_limit
  step_full n c t s e h full =
      let (one, s₁) = count_up redis t (burst_key agent t) burst_window s in
      let h₁ = after_burst n c t s h in
      let over : ltb limits.per_minute (count_up redis t (minute_key agent t) 60 s₁).0 ≡ true =
        lt→ltb _ _
          (omega (arith, count_up_reply redis t (minute_key agent t) 60 s₁, h₁.minute t e)) in
      elim (Bool-cases (ltb limits.burst one)) [
        | inl b ↦ rw b (refl, n, full, h₁)
        | inr b ↦ rw (b, over) (refl, suc n, omega arith, after_minute n (suc c) t s₁ e h₁)
      ]

  serve_full :
      (n c : ℕ) (ts : List ℕ) (s : Store)
      → All (λ t. t / 60 ≡ m) ts
      → Counts n c s
      → limits.per_minute ≤ n
      → map is_pass (serve redis limits agent ts s).0 ≡ admits 0 ts
  unfolding serve
  serve_full n c [] s e h full = refl
  serve_full n c (t ∷ ts) s e h full =
      let (no_pass, k, full', h') = step_full n c t s e.0 h full in
      cc (
        no_pass,
        serve_full k (suc c) ts (check_rate_limit redis limits agent t both_up s).1 e.1 h' full',
      )

  serve_room :
      (k n c : ℕ) (ts : List ℕ) (s : Store)
      → limits.per_minute ≤ limits.burst
      → All (λ t. t / 60 ≡ m) ts
      → Counts n c s
      → c ≤ n
      → n + k ≡ limits.per_minute
      → map is_pass (serve redis limits agent ts s).0 ≡ admits k ts
  unfolding serve
  serve_room zero n c ts s b e h q r = serve_full n c ts s e h (omega arith)
  serve_room (suc k) n c [] s b e h q r = refl
  serve_room (suc k) n c (t ∷ ts) s b e h q r =
      let (passes, h') = step_room n c t s b e.0 h (omega arith) q in
      cc (
        ap is_pass passes,
        serve_room k (suc n) (suc c) ts (check_rate_limit redis limits agent t both_up s).1 b e.1 h'
            (omega arith) (omega arith),
      )

  -- Where Redis carries out every command, and the burst limit is not below the minute limit (as in
  -- the default settings), the requests of an agent in one clock minute that began with no counts are
  -- admitted exactly until their number reaches the minute limit: the burst limit refuses none of
  -- those.
  pub minute_limit_exact :
      (ts : List ℕ) (s : Store)
      → limits.per_minute ≤ limits.burst
      → All (λ t. t / 60 ≡ m) ts
      → Counts 0 0 s
      → map is_pass (serve redis limits agent ts s).0 ≡ admits limits.per_minute ts
  minute_limit_exact ts s b e h =
      serve_room limits.per_minute 0 0 ts s b e h (omega arith) (omega arith)
