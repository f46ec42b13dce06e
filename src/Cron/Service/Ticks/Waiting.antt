-- ===== src/Cron/Service/Ticks/Waiting.antt =====
-- A job that a tick has fired waits for its next run.
use mathlib.Core.Option
use text.Mathlib.Text.{◌==◌ as str_eq}
use oxicrab.Base.{
  ℕ, ◌<◌, Bool, true, false, not, ◌||◌, String, Option, none, some, List, [], ◌∷◌, ◌++◌, ◌≡◌, refl,
  arith, All, Bool-cases, Option-cases, inl, inr, if◌then◌else◌,
}
use oxicrab.Pairing.Tables.Rows.{All-append}
use oxicrab.Base.Signed.{i64_lt}
use oxicrab.EventMatcher.{CronSchedule, CronJobState}
use oxicrab.Cron.Schedule.{CronCrate, compute_next_run_with_last}
use oxicrab.Cron.Schedule.Next.{IsLater, IsI64, next-later}
use oxicrab.Cron.Table.{CronTables, CronJobRow, Job}
use oxicrab.Cron.Table.Updates.{set_where, update_row, set_state, set_fired, set_enabled}
use oxicrab.Cron.Service.{effective_next}

-- There is no next run, or it is after `now`.
unfoldable pub waits : ℕ → Option ℕ → Bool
waits now none = true
waits now (some next) = i64_lt now next

-- The row is of another job, or waits.
unfoldable pub is_waiting : ℕ → String → CronJobRow → Bool
is_waiting now id r = not (str_eq r.id id) || waits now r.state.next_run_at_ms

-- The change keeps the id of a row and leaves its job waiting.
pub record IsPostponing (now : ℕ) (set : CronJobRow → CronJobRow) : Type 0 where
  pub same_id : (r : CronJobRow) → (set r).id ≡ r.id
  pub waiting : (r : CronJobRow) → waits now (set r).state.next_run_at_ms ≡ true

set_where-keeps :
    (now : ℕ) (id other : String) (set : CronJobRow → CronJobRow) (rows : List CronJobRow)
    → IsPostponing now set
    → All (λ r. is_waiting now other r ≡ true) rows
    → All (λ r. is_waiting now other r ≡ true) (set_where id set rows)
unfolding set_where is_waiting
set_where-keeps now id other set [] v a = tt
set_where-keeps now id other set (r ∷ rows) v a = elim (Bool-cases (str_eq r.id id)) [
  | inl e ↦ rw e (ground (arith, v.waiting r), set_where-keeps now id other set rows v a.1)
  | inr e ↦ rw e (a.0, set_where-keeps now id other set rows v a.1)
]

set_where-waiting :
    (now : ℕ) (id : String) (set : CronJobRow → CronJobRow) (rows : List CronJobRow)
    → IsPostponing now set
    → All (λ r. is_waiting now id r ≡ true) (set_where id set rows)
unfolding set_where is_waiting
set_where-waiting now id set [] v = tt
set_where-waiting now id set (r ∷ rows) v = elim (Bool-cases (str_eq r.id id)) [
  | inl e ↦ rw e (ground (arith, v.waiting r), set_where-waiting now id set rows v)
  | inr e ↦ rw e (ground (arith, e), set_where-waiting now id set rows v)
]

pub set_state-IsPostponing :
    (now at : ℕ) (state : CronJobState)
    → waits now state.next_run_at_ms ≡ true
    → IsPostponing now (set_state state at)
unfolding set_state
set_state-IsPostponing now at state h = record { same_id = λ r. refl; waiting = λ r. h }

pub set_fired-IsPostponing :
    (now last at : ℕ) (next : Option ℕ)
    → waits now next ≡ true
    → IsPostponing now (set_fired next last at)
unfolding set_fired
set_fired-IsPostponing now last at next h = record { same_id = λ r. refl; waiting = λ r. h }

pub set_disabled-IsPostponing : (now at : ℕ) → IsPostponing now (set_enabled false none at)
unfolding set_enabled waits
set_disabled-IsPostponing now at = record { same_id = λ r. refl; waiting = λ r. refl }

pub computed-waits :
    (c : CronCrate) (now : ℕ) (schedule : CronSchedule) (last : Option ℕ)
    → IsLater c
    → now < 9223372036854775807
    → IsI64 schedule
    → Option.get_or last now ≡ now
    → waits now (compute_next_run_with_last c schedule now last) ≡ true
unfolding waits
computed-waits c now schedule last later l w e =
    elim (Option-cases (compute_next_run_with_last c schedule now last)) [
      | inl f ↦ rw f refl
      | inr (next, f) ↦ rw f (next-later c schedule now last next later w l (ground arith) f)
    ]

pub effective_next-waits :
    (c : CronCrate) (now : ℕ) (job : Job)
    → IsLater c
    → now < 9223372036854775807
    → IsI64 job.schedule
    → waits now (effective_next c now job) ≡ true
unfolding effective_next waits
effective_next-waits c now job later l w = elim (Bool-cases job.rest.delete_after_run) [
  | inl e ↦ rw e refl
  | inr e ↦ rw e (computed-waits c now job.schedule (some now) later l w refl)
]

-- Every job to fire waits in the tables.
abbrev pub AllWait : ℕ → List Job → CronTables → Type 0
AllWait now fired t = All (λ job. All (λ r. is_waiting now job.id r ≡ true) t.jobs) fired

-- A change of rows that postpones keeps the jobs waiting.
pub update_row-AllWait :
    (now : ℕ) (id : String) (set : CronJobRow → CronJobRow) (t : CronTables) (fired : List Job)
    → IsPostponing now set
    → AllWait now fired t
    → AllWait now fired (update_row id set t).0
unfolding update_row
update_row-AllWait now id set t [] v a = tt
update_row-AllWait now id set t (job ∷ fired) v a =
    (set_where-keeps now id job.id set t.jobs v a.0, update_row-AllWait now id set t fired v a.1)

-- The job of the change waits as well.
pub update_row-waiting :
    (now : ℕ) (set : CronJobRow → CronJobRow) (t : CronTables) (fired : List Job) (job : Job)
    (push : Bool)
    → IsPostponing now set
    → AllWait now fired t
    → AllWait now (if push then fired ++ (job ∷ []) else fired) (update_row job.id set t).0
unfolding update_row
update_row-waiting now set t fired job push v a = elim (Bool-cases push) [
  | inr e ↦ rw e (update_row-AllWait now job.id set t fired v a)
  | inl e ↦ rw e (
      All-append (λ j. All (λ r. is_waiting now j.id r ≡ true) (update_row job.id set t).0.jobs)
        fired (job ∷ []) (update_row-AllWait now job.id set t fired v a)
        (set_where-waiting now job.id set t.jobs v, tt))
]
