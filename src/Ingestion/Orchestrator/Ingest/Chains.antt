-- ===== src/Ingestion/Orchestrator/Ingest/Chains.antt =====
-- A stage and what follows it: what two runs have in common, what they keep, and how they end.
use runtime_ops.Base.{ap, Text, ◌≡◌, refl, Option, none, some}
use runtime_ops.Ingestion.Orchestrator.{
  IngestionStatus, IngestionProgress, Attempt, returned, raised,
}
use runtime_ops.Ingestion.Orchestrator.Ingest.{stage, saved, and_then}

-- Two ends of a stage that differ in the checkpoints at most.
module _ {A C : Type 0} where
  abbrev pub Alike :
      Attempt A × (C × IngestionProgress) → Attempt A × (C × IngestionProgress) → Type 0
  Alike x y = (x.0 ≡ y.0) × (x.1.1 ≡ y.1.1)

module _ {A C : Type 0} where
  pub stage-Alike :
      (o : Option A) (st : IngestionStatus)
      (work : IngestionProgress → Attempt A × IngestionProgress) (save : A → C → C) (cs cs' : C)
      (p : IngestionProgress)
      → Alike (stage o st work save (cs, p)) (stage o st work save (cs', p))
  unfolding stage saved
  stage-Alike (some a) st work save cs cs' p = (refl, refl)
  stage-Alike none st work save cs cs' p = ends (work (record p { status = st }))
    where
      ends : (w : Attempt A × IngestionProgress) → Alike (saved save cs w) (saved save cs' w)
      ends (raised e, q) = (refl, refl)
      ends (returned a, q) = (refl, refl)

  pub and_then-Alike :
      {B : Type 0} (x x' : Attempt A × (C × IngestionProgress))
      (f g : A → C × IngestionProgress → Attempt B × (C × IngestionProgress))
      → Alike x x'
      → ((a : A) (cs cs' : C) (p : IngestionProgress) → Alike (f a (cs, p)) (g a (cs', p)))
      → Alike (and_then x f) (and_then x' g)
  unfolding and_then
  and_then-Alike {B = B} (raised e, (cs, p)) (raised e', (cs', p')) f g (h, k) fg =
      (ap reraised h, k)
    where
      reraised : Attempt A → Attempt B
      reraised (raised d) = raised d
      reraised (returned a) = raised e
  and_then-Alike (raised e, (cs, p)) (returned a', (cs', p')) f g (h, k) fg = absurd (cc h)
  and_then-Alike (returned a, (cs, p)) (raised e', (cs', p')) f g (h, k) fg = absurd (cc h)
  and_then-Alike (returned a, (cs, p)) (returned a', (cs', p')) f g (h, k) fg =
      rw⁻¹ (same_value, k) (fg a cs cs' p)
    where
      same_value : a ≡ a'
      same_value = cc h

-- What holds of the checkpoints at the start of a stage, and of all that it saves, holds at its end.
module _ {A C : Type 0} (P : C → Type 0) where
  pub stage-keeps :
      (o : Option A) (st : IngestionStatus)
      (work : IngestionProgress → Attempt A × IngestionProgress) (save : A → C → C)
      (run : C × IngestionProgress)
      → ((a : A) (cs : C) → P cs → P (save a cs))
      → P run.0
      → P (stage o st work save run).1.0
  unfolding stage saved
  stage-keeps (some a) st work save run keeps h = h
  stage-keeps none st work save run keeps h = ends (work (record run.1 { status = st }))
    where
      ends : (w : Attempt A × IngestionProgress) → P (saved save run.0 w).1.0
      ends (raised e, q) = h
      ends (returned a, q) = keeps a run.0 h

  pub and_then-keeps :
      {B : Type 0} (x : Attempt A × (C × IngestionProgress))
      (f : A → C × IngestionProgress → Attempt B × (C × IngestionProgress))
      → P x.1.0
      → ((a : A) (run : C × IngestionProgress) → P run.0 → P (f a run).1.0)
      → P (and_then x f).1.0
  unfolding and_then
  and_then-keeps (raised e, run) f h keeps = h
  and_then-keeps (returned a, run) f h keeps = keeps a run h

module _ {A B C : Type 0} (Q : Attempt B × (C × IngestionProgress) → Type 0) where
  -- What follows a stage that runs, by the two ways in which the stage ends.
  pub stage-then :
      (st : IngestionStatus) (work : IngestionProgress → Attempt A × IngestionProgress)
      (save : A → C → C) (run : C × IngestionProgress)
      (f : A → C × IngestionProgress → Attempt B × (C × IngestionProgress))
      → ((e : Text) (cs : C)
          → (work (record run.1 { status = st })).0 ≡ raised e
          → Q (raised e, (cs, (work (record run.1 { status = st })).1)))
      → ((a : A) (cs : C)
          → (work (record run.1 { status = st })).0 ≡ returned a
          → Q (f a (cs, (work (record run.1 { status = st })).1)))
      → Q (and_then (stage none st work save run) f)
  unfolding stage saved and_then
  stage-then st work save run f stops goes = ends (work (record run.1 { status = st })) stops goes
    where
      ends :
          (w : Attempt A × IngestionProgress)
          → ((e : Text) (cs : C) → w.0 ≡ raised e → Q (raised e, (cs, w.1)))
          → ((a : A) (cs : C) → w.0 ≡ returned a → Q (f a (cs, w.1)))
          → Q (and_then (saved save run.0 w) f)
      ends (raised e, q) stops goes = stops e run.0 refl
      ends (returned a, q) stops goes = goes a (save a run.0) refl
