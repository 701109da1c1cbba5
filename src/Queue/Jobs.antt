-- ===== src/Queue/Jobs.antt =====
-- The rows of `ingest_jobs` and the operations of queue.py. Times are whole microseconds. A table is
-- a list of rows in the order in which the database returns them; a row is known by its id.
use billcommons.Base.{
  ℕ, ◌+◌, ◌-◌, ◌*◌, ◌/◌, ◌^◌, String, Bool, true, false, Option, none, some, List, [], ◌∷◌, ◌++◌,
  ◌&&◌, not, any, filter, map, take, length, ◌==◌, leb, ltb, str_eq, if◌then◌else◌,
}
use billcommons.Base.Dict.{Dict}
use billcommons.Base.Text.{Text}
use billcommons.Base.Decimal.{decimal}

pub data JobStatus : Type 0 where
  queued : JobStatus
  running : JobStatus
  done : JobStatus
  dead : JobStatus

abbrev pub is_queued : JobStatus → Bool
is_queued JobStatus.queued = true
is_queued _ = false

abbrev pub is_running : JobStatus → Bool
is_running JobStatus.running = true
is_running _ = false

-- The values that the callers of `enqueue` put into a payload.
pub data PayloadValue : Type 0 where
  text : Text → PayloadValue
  number : ℕ → PayloadValue

abbrev pub Payload : Type 0
Payload = Dict PayloadValue

-- payload ->> key
abbrev pub astext : Option PayloadValue → Option Text
astext none = none
astext (some (text s)) = some s
astext (some (number n)) = some (decimal n)

pub record Job : Type 0 where
  pub id : ℕ
  pub kind : String
  pub payload : Payload
  pub created_at : ℕ
  pub status : JobStatus
  pub run_after : ℕ
  pub attempts : ℕ
  pub locked_by : Option String
  pub locked_at : Option ℕ
  pub last_error : Option Text

abbrev pub default_max_attempts : ℕ
default_max_attempts = 5

abbrev pub default_base_backoff_seconds : ℕ
default_base_backoff_seconds = 60

-- The database gives the new row its id and stamps it with the time.
unfoldable pub enqueue : ℕ → String → Payload → Option ℕ → ℕ → List Job → List Job
enqueue id kind payload run_after now table =
    table
    ++ record {
      id = id;
      kind = kind;
      payload = payload;
      created_at = now;
      status = JobStatus.queued;
      run_after = elim run_after [ none ↦ now | some t ↦ t ];
      attempts = 0;
      locked_by = none;
      locked_at = none;
      last_error = none;
    }
      ∷ []

-- The arguments of one call of `claim_job`. `held id` says that another open transaction holds the
-- lock of the row, which SKIP LOCKED passes over.
pub record Request : Type 0 where
  pub worker_id : String
  pub kind : Option String
  pub exclude_kinds : List String
  pub now : ℕ
  pub held : ℕ → Bool

abbrev pub wanted : Option String → String → Bool
wanted none kind = true
wanted (some k) kind = str_eq kind k

unfoldable pub is_eligible : Request → Job → Bool
is_eligible r job =
    is_queued job.status
    && (leb job.run_after r.now
        && (wanted r.kind job.kind
            && (not (any (λ k. str_eq job.kind k) r.exclude_kinds) && not (r.held job.id))))

-- order_by(run_after).limit(1)
abbrev pub sooner : Job → Option Job → Job
sooner j none = j
sooner j (some k) = if ltb k.run_after j.run_after then k else j

unfoldable pub oldest : List Job → Option Job
oldest [] = none
oldest (j ∷ js) = some (sooner j (oldest js))

-- The row is written back.
unfoldable pub put : Job → List Job → List Job
put job table = map (λ x. if x.id == job.id then job else x) table

abbrev pub claimed : Request → Job → Job
claimed r job = record job {
  status = JobStatus.running;
  locked_by = some r.worker_id;
  locked_at = some r.now;
  attempts = job.attempts + 1;
}

unfoldable pub claim_job : Request → List Job → List Job × Option Job
claim_job r table = elim (oldest (filter (is_eligible r) table)) [
  | none ↦ (table, none)
  | some job ↦ (put (claimed r job) table, some (claimed r job))
]

unfoldable pub complete_job : Job → Job
complete_job job = record job {
  status = JobStatus.done;
  locked_by = none;
  locked_at = none;
  last_error = none;
}

-- `attempts - 1` as an exponent is -1 for a job that was never claimed.
abbrev pub backoff : ℕ → ℕ → ℕ
backoff base_backoff_seconds attempts =
    if attempts == 0
    then base_backoff_seconds * 1000000 / 2
    else base_backoff_seconds * 1000000 * 2 ^ (attempts - 1)

unfoldable pub fail_job : Text → ℕ → ℕ → ℕ → Job → Job
fail_job error max_attempts base_backoff_seconds now job =
    let released = record job {
      last_error = some (take 4000 error);
      locked_by = none;
      locked_at = none;
    } in
    if leb max_attempts job.attempts
    then record released { status = JobStatus.dead }
    else record released {
      status = JobStatus.queued;
      run_after = now + backoff base_backoff_seconds job.attempts;
    }

unfoldable pub dead_letter_job : Text → Job → Job
dead_letter_job error job = record job {
  status = JobStatus.dead;
  last_error = some (take 4000 error);
  locked_by = none;
  locked_at = none;
}

abbrev pub same_status : JobStatus → JobStatus → Bool
same_status JobStatus.queued JobStatus.queued = true
same_status JobStatus.running JobStatus.running = true
same_status JobStatus.done JobStatus.done = true
same_status JobStatus.dead JobStatus.dead = true
same_status _ _ = false

unfoldable pub queue_depth : JobStatus → List Job → ℕ
queue_depth status table = length (filter (λ j. same_status j.status status) table)

unfoldable pub count_queued : String → JobStatus → List Job → ℕ
count_queued kind status table =
    length (filter (λ j. str_eq j.kind kind && same_status j.status status) table)

unfoldable pub count_claimable : String → ℕ → List Job → ℕ
count_claimable kind now table =
    length (filter (λ j. str_eq j.kind kind && (is_queued j.status && leb j.run_after now)) table)
