-- ===== src/Redis/Deadline.antt =====
-- What a deadline hides: a key is gone from the instant of its deadline on.
use runtime_ops.Base.{ℕ, Bool, false, Option, none, some, leb}

abbrev pub expired : Option ℕ → ℕ → Bool
expired none t = false
expired (some d) t = leb d t
