-- ===== src/Dlq.antt =====
-- crates/oxicrab-memory/src/memory_db/dlq.rs: the queue of scheduled tasks that failed. The table is its
-- rows, the largest id first, and a new row has the next id after the largest.
pub mod Log
mod Tests
use text.Mathlib.Text.{◌==◌ as str_eq}
use oxicrab.Base.{
  ℕ, ◌+◌, ◌-◌, ◌==◌, Bool, true, false, not, String, Option, none, some, List, [], ◌∷◌, any, take,
  length, filter_by, if◌then◌else◌,
}

pub record DlqEntry : Type 0 where
  pub id : ℕ
  pub job_id : String
  pub job_name : String
  pub payload : String
  pub error_message : String
  pub failed_at : String
  pub retry_count : ℕ
  pub status : String

-- A failure to record.
pub record Failure : Type 0 where
  pub job_id : String
  pub job_name : String
  pub payload : String
  pub error_message : String
  pub failed_at : String

unfoldable pub next_id : List DlqEntry → ℕ
next_id [] = 1
next_id (e ∷ es) = e.id + 1

unfoldable pub entry_of : ℕ → Failure → DlqEntry
entry_of id f = record {
  id = id;
  job_id = f.job_id;
  job_name = f.job_name;
  payload = f.payload;
  error_message = f.error_message;
  failed_at = f.failed_at;
  retry_count = 0;
  status = "pending_retry";
}

-- The rows whose id is among those of the newest.
unfoldable pub purge : ℕ → List DlqEntry → List DlqEntry
purge most es = filter_by (λ e. any (λ d. d.id == e.id) (take most es)) es

unfoldable pub insert_dlq_entry : Failure → List DlqEntry → List DlqEntry × ℕ
insert_dlq_entry f es = (purge 100 (entry_of (next_id es) f ∷ es), next_id es)

unfoldable pub has_status : Option String → DlqEntry → Bool
has_status none e = true
has_status (some status) e = str_eq e.status status

unfoldable pub list_dlq_entries : Option String → List DlqEntry → List DlqEntry
list_dlq_entries status_filter es = filter_by (has_status status_filter) es

-- `UPDATE … WHERE id = …`.
unfoldable pub update_entry : ℕ → (DlqEntry → DlqEntry) → List DlqEntry → List DlqEntry
update_entry id set [] = []
update_entry id set (e ∷ es) =
    let rest = update_entry id set es in if e.id == id then set e ∷ rest else e ∷ rest

unfoldable pub has_entry : ℕ → List DlqEntry → Bool
has_entry id es = any (λ e. e.id == id) es

unfoldable pub set_entry_status : String → DlqEntry → DlqEntry
set_entry_status new_status e = record e { status = new_status }

unfoldable pub update_dlq_status : ℕ → String → List DlqEntry → List DlqEntry × Bool
update_dlq_status id new_status es =
    (update_entry id (set_entry_status new_status) es, has_entry id es)

unfoldable pub count_retry : DlqEntry → DlqEntry
count_retry e = record e { retry_count = e.retry_count + 1 }

unfoldable pub increment_dlq_retry : ℕ → List DlqEntry → List DlqEntry × Bool
increment_dlq_retry id es = (update_entry id count_retry es, has_entry id es)

unfoldable pub clear_dlq : Option String → List DlqEntry → List DlqEntry × ℕ
clear_dlq status_filter es =
    let kept = filter_by (λ e. not (has_status status_filter e)) es in
    (kept, length es - length kept)
