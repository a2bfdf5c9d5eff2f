-- ===== src/Jobs/Model.antt =====
-- server/modules/jobs/models.py: the job table, and the constants of server/jobs.py. Times are seconds.
use infinitas_skill.Prelude.{ℕ, String, Bool, true, false, Option}
use infinitas_skill.Prelude.Text.{Text, ℤ}
use infinitas_skill.Prelude.Table.{Row}

pub data JobStatus : Type 0 where
  queued running completed failed : JobStatus

-- A value of the payload: `None` or absent, an integer, a text, or a list or object with items
pub data PayloadValue : Type 0 where
  missing : PayloadValue
  number : ℤ → PayloadValue
  words : Text → PayloadValue
  container : PayloadValue

-- `payload_json`: the keys that the program reads
pub record Payload : Type 0 where
  pub release_id : PayloadValue
  pub limit : PayloadValue
  pub publish_intent_id : PayloadValue

pub record Job : Type 0 where
  pub id : ℕ
  pub kind : String
  pub status : JobStatus
  pub payload : Payload
  pub release_id : Option ℕ
  pub requested_by_principal_id : Option ℕ
  pub note : String
  pub log : Text
  pub started_at : Option ℕ
  pub heartbeat_at : Option ℕ
  pub lease_expires_at : Option ℕ
  pub finished_at : Option ℕ
  pub attempt_count : ℕ
  pub error_message : Text
  pub created_at : ℕ
  pub updated_at : ℕ

instance abbrev pub job_row : Row Job
job_row = record { key = λ j. j.id }

abbrev pub is_queued : JobStatus → Bool
is_queued queued = true
is_queued _ = false

abbrev pub is_running : JobStatus → Bool
is_running running = true
is_running _ = false

abbrev pub is_failed : JobStatus → Bool
is_failed failed = true
is_failed _ = false

abbrev pub default_lease_seconds : ℕ
default_lease_seconds = 1800

abbrev pub max_job_attempts : ℕ
max_job_attempts = 10

abbrev pub max_retry_attempts : ℕ
max_retry_attempts = 3
