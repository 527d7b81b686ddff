-- ===== src/Storage/Registry/Jobs.antt =====
-- What a job's row shows after a run of updates.
use runtime_ops.Base.{
  Text, codes, text_eq, ℕ, Bool, ◌&&◌, ◌||◌, Option, none, some, List, [], ◌∷◌, map, somes,
  if◌then◌else◌,
}
use runtime_ops.Storage.Tables.{Job, Database, is_short, fits, counted}
use runtime_ops.Storage.Registry.{update_job_status}
use runtime_ops.Storage.Registry.Operations.{settle}

-- The arguments of a call of `update_job_status`, and the time of the call.
pub record Update : Type 0 where
  pub now : ℕ
  pub status : Text
  pub error_message : Option Text
  pub files_processed : Option ℕ

-- The values fit the columns.
abbrev pub is_storable : Update → Bool
is_storable u = is_short u.status && fits (counted u.files_processed 0)

-- What is there already, or the first of what comes; and the last of what comes, or what is there.
abbrev pub first_of : {A : Type 0} → Option A → List A → Option A
first_of (some x) xs = some x
first_of none [] = none
first_of none (x ∷ xs) = some x

abbrev pub last_of : {A : Type 0} → A → List A → A
last_of old [] = old
last_of old (x ∷ xs) = last_of x xs

-- The time at which a job is reported to run, and to have ended; a message that says something.
abbrev pub running_at : Update → Option ℕ
running_at u = if text_eq u.status (codes "running") then some u.now else none

abbrev pub ended_at : Update → Option (Option ℕ)
ended_at u =
    if text_eq u.status (codes "completed") || text_eq u.status (codes "failed")
    then some (some u.now)
    else none

abbrev pub said : Update → Option (Option Text)
said u = elim u.error_message [
  | none ↦ none
  | some m ↦ if text_eq m [] then none else some (some m)
]

-- The row after the updates.
abbrev pub history : List Update → Job → Job
history us j = record j {
  status = last_of j.status (map (λ u. u.status) us);
  started_at = first_of j.started_at (somes running_at us);
  completed_at = last_of j.completed_at (somes ended_at us);
  error_message = last_of j.error_message (somes said us);
  files_processed = last_of j.files_processed (somes (λ u. u.files_processed) us);
}

module _ {Float : Type 0} where
  -- The calls in order; one that fails leaves the database.
  abbrev pub update_all : Text → List Update → Database Float → Database Float
  update_all job_id [] db = db
  update_all job_id (u ∷ us) db =
      update_all job_id us
        (settle db (update_job_status u.now job_id u.status u.error_message u.files_processed db))
