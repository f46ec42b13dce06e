-- ===== src/Dlq/Tests.antt =====
-- Runs of the queue of failed tasks.
use oxicrab.Base.{List, [], ◌∷◌, ◌≡◌, refl, arith, some, map}
use oxicrab.Dlq.{
  set_entry_status, count_retry, has_status, next_id, entry_of, purge, insert_dlq_entry,
  increment_dlq_retry, update_entry, update_dlq_status, Failure, list_dlq_entries,
}
use oxicrab.Dlq.Log.{
  apply_dlq, DlqCall, insertion, status_change, retry, apply_all, log_all, IsBounded,
  apply_all_refines,
}

abbrev failure : Failure
failure = record {
  job_id = "j1";
  job_name = "report";
  payload = "{}";
  error_message = "timeout";
  failed_at = "2025-01-01 00:00:00";
}

abbrev calls : List DlqCall
calls = insertion failure ∷ insertion failure ∷ retry 1 ∷ status_change 1 "replayed" ∷ []

apply_all_refines_example : (apply_all calls [] ≡ log_all calls []) × IsBounded (apply_all calls [])
apply_all_refines_example =
    apply_all_refines calls [] (record { newest_first = tt; most = ground arith })

replayed : map (λ e. e.id) (list_dlq_entries (some "replayed") (apply_all calls [])) ≡ 1 ∷ []
unfolding list_dlq_entries apply_all apply_dlq update_dlq_status update_entry increment_dlq_retry
    insert_dlq_entry purge entry_of next_id has_status count_retry set_entry_status
replayed = refl
