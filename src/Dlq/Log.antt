-- ===== src/Dlq/Log.antt =====
-- The table is a log of the newest hundred failures.
use oxicrab.Base.{
  ℕ, zero, suc, ◌+◌, ◌≤◌, ◌<◌, ◌==◌, Bool, true, false, not, ◌||◌, String, Option, List, [], ◌∷◌,
  ◌≡◌, refl, arith, ◌∙◌, ap, sym, subst, any, take, length, length-take, length-filter_by-le,
  filter_by, All, All-filter_by, Bool-cases, inl, inr,
}
use oxicrab.Dlq.{
  DlqEntry, Failure, next_id, entry_of, purge, insert_dlq_entry, has_status, update_entry,
  set_entry_status, update_dlq_status, count_retry, increment_dlq_retry, clear_dlq,
}

-- A call that changes the queue.
pub data DlqCall : Type 0 where
  insertion : Failure → DlqCall
  status_change : ℕ → String → DlqCall
  retry : ℕ → DlqCall
  clearing : Option String → DlqCall

unfoldable pub apply_dlq : DlqCall → List DlqEntry → List DlqEntry
apply_dlq (insertion f) es = (insert_dlq_entry f es).0
apply_dlq (status_change id new_status) es = (update_dlq_status id new_status es).0
apply_dlq (retry id) es = (increment_dlq_retry id es).0
apply_dlq (clearing status_filter) es = (clear_dlq status_filter es).0

unfoldable pub apply_all : List DlqCall → List DlqEntry → List DlqEntry
apply_all [] es = es
apply_all (call ∷ calls) es = apply_all calls (apply_dlq call es)

-- The log: a failure goes in front, and the entries behind the hundredth are dropped.
unfoldable pub log_call : DlqCall → List DlqEntry → List DlqEntry
log_call (insertion f) log = take 100 (entry_of (next_id log) f ∷ log)
log_call (status_change id new_status) log = update_entry id (set_entry_status new_status) log
log_call (retry id) log = update_entry id count_retry log
log_call (clearing status_filter) log = filter_by (λ e. not (has_status status_filter e)) log

unfoldable pub log_all : List DlqCall → List DlqEntry → List DlqEntry
log_all [] log = log
log_all (call ∷ calls) log = log_all calls (log_call call log)

-- The ids decrease.
abbrev pub IsNewestFirst : List DlqEntry → Type 0
IsNewestFirst [] = Unit
IsNewestFirst (e ∷ es) = All (λ d. d.id < e.id) es × IsNewestFirst es

module _ {ℓ} {A : Type ℓ} where
  filter_by-cong :
      (p q : A → Bool) (xs : List A) → All (λ x. p x ≡ q x) xs → filter_by p xs ≡ filter_by q xs
  filter_by-cong p q [] a = refl
  filter_by-cong p q (x ∷ xs) a = elim (Bool-cases (q x)) [
    | inl e ↦
        let f : p x ≡ true = a.0 ∙ e in rw (e, f) (ap (λ ys. x ∷ ys) (filter_by-cong p q xs a.1))
    | inr e ↦ let f : p x ≡ false = a.0 ∙ e in rw (e, f) (filter_by-cong p q xs a.1)
  ]

  filter_by-none : (xs : List A) → filter_by (λ x. false) xs ≡ []
  filter_by-none [] = refl
  filter_by-none (x ∷ xs) = filter_by-none xs

All-other :
    (id : ℕ) (p : DlqEntry → Bool) (es : List DlqEntry)
    → All (λ d. d.id < id) es
    → All (λ x. ((id == x.id) || p x) ≡ p x) es
All-other id p [] a = tt
All-other id p (e ∷ es) a = (ground (arith, a.0), All-other id p es a.1)

-- The purge by ids keeps exactly the newest.
purge-take : (most : ℕ) (es : List DlqEntry) → IsNewestFirst es → purge most es ≡ take most es
unfolding purge
purge-take zero es v = filter_by-none es
purge-take (suc most) [] v = refl
purge-take (suc most) (e ∷ es) v =
    let self : (e.id == e.id) ≡ true = ground arith in
    rw self (
      ap (λ ds. e ∷ ds)
        (filter_by-cong (λ x. (e.id == x.id) || any (λ d. d.id == x.id) (take most es))
            (λ x. any (λ d. d.id == x.id) (take most es)) es
            (All-other e.id (λ x. any (λ d. d.id == x.id) (take most es)) es v.0)
          ∙ purge-take most es v.1))

All-take {ℓ κ} : {A : Type ℓ} (P : A → Type κ) (n : ℕ) (xs : List A) → All P xs → All P (take n xs)
All-take P zero xs a = tt
All-take P (suc n) [] a = tt
All-take P (suc n) (x ∷ xs) a = (a.0, All-take P n xs a.1)

take-IsNewestFirst : (n : ℕ) (es : List DlqEntry) → IsNewestFirst es → IsNewestFirst (take n es)
take-IsNewestFirst zero es v = tt
take-IsNewestFirst (suc n) [] v = tt
take-IsNewestFirst (suc n) (e ∷ es) v =
    (All-take (λ d. d.id < e.id) n es v.0, take-IsNewestFirst n es v.1)

filter_by-IsNewestFirst :
    (p : DlqEntry → Bool) (es : List DlqEntry) → IsNewestFirst es → IsNewestFirst (filter_by p es)
filter_by-IsNewestFirst p [] v = tt
filter_by-IsNewestFirst p (e ∷ es) v = elim (Bool-cases (p e)) [
  | inl f ↦ rw f (All-filter_by (λ d. d.id < e.id) p es v.0, filter_by-IsNewestFirst p es v.1)
  | inr f ↦ rw f (filter_by-IsNewestFirst p es v.1)
]

All-mono : (m n : ℕ) (es : List DlqEntry) → m < n → All (λ d. d.id < m) es → All (λ d. d.id < n) es
All-mono m n [] h a = tt
All-mono m n (e ∷ es) h a = (omega (arith, a.0), All-mono m n es h a.1)

next_id-above : (es : List DlqEntry) → IsNewestFirst es → All (λ d. d.id < next_id es) es
unfolding next_id
next_id-above [] v = tt
next_id-above (e ∷ es) v = (omega arith, All-mono e.id (e.id + 1) es (omega arith) v.0)

-- A change of a row that keeps its id keeps the order and the number of rows.
module _ (id : ℕ) (set : DlqEntry → DlqEntry) (same_id : (e : DlqEntry) → (set e).id ≡ e.id) where
  update_entry-All :
      (n : ℕ) (es : List DlqEntry)
      → All (λ d. d.id < n) es
      → All (λ d. d.id < n) (update_entry id set es)
  unfolding update_entry
  update_entry-All n [] a = tt
  update_entry-All n (e ∷ es) a = elim (Bool-cases (e.id == id)) [
    | inl f ↦ rw f (subst (λ x. x < n) (sym (same_id e)) a.0, update_entry-All n es a.1)
    | inr f ↦ rw f (a.0, update_entry-All n es a.1)
  ]

  update_entry-IsNewestFirst :
      (es : List DlqEntry) → IsNewestFirst es → IsNewestFirst (update_entry id set es)
  unfolding update_entry
  update_entry-IsNewestFirst [] v = tt
  update_entry-IsNewestFirst (e ∷ es) v = elim (Bool-cases (e.id == id)) [
    | inl f ↦ rw f (
      subst (λ x. All (λ d. d.id < x) (update_entry id set es)) (sym (same_id e))
          (update_entry-All e.id es v.0),
      update_entry-IsNewestFirst es v.1,
    )
    | inr f ↦ rw f (update_entry-All e.id es v.0, update_entry-IsNewestFirst es v.1)
  ]

  length-update_entry : (es : List DlqEntry) → length (update_entry id set es) ≡ length es
  unfolding update_entry
  length-update_entry [] = refl
  length-update_entry (e ∷ es) = elim (Bool-cases (e.id == id)) [
    | inl f ↦ rw f (ap suc (length-update_entry es))
    | inr f ↦ rw f (ap suc (length-update_entry es))
  ]

set_entry_status-id :
    (new_status : String) (e : DlqEntry) → (set_entry_status new_status e).id ≡ e.id
unfolding set_entry_status
set_entry_status-id new_status e = refl

count_retry-id : (e : DlqEntry) → (count_retry e).id ≡ e.id
unfolding count_retry
count_retry-id e = refl

-- The rows are at most a hundred, and their ids decrease.
pub record IsBounded (es : List DlqEntry) : Type 0 where
  pub newest_first : IsNewestFirst es
  pub most : length es ≤ 100

apply_dlq-log :
    (call : DlqCall) (es : List DlqEntry) → IsNewestFirst es → apply_dlq call es ≡ log_call call es
unfolding apply_dlq log_call insert_dlq_entry update_dlq_status increment_dlq_retry clear_dlq
    entry_of
apply_dlq-log (insertion f) es v =
    purge-take 100 (entry_of (next_id es) f ∷ es) (next_id-above es v, v)
apply_dlq-log (status_change id new_status) es v = refl
apply_dlq-log (retry id) es v = refl
apply_dlq-log (clearing status_filter) es v = refl

log_call-IsBounded :
    (call : DlqCall) (log : List DlqEntry) → IsBounded log → IsBounded (log_call call log)
unfolding log_call entry_of
log_call-IsBounded (insertion f) log v = record {
  newest_first =
      take-IsNewestFirst 100 (entry_of (next_id log) f ∷ log)
        (next_id-above log v.newest_first, v.newest_first);
  most = omega (arith, length-take 100 (entry_of (next_id log) f ∷ log));
}
log_call-IsBounded (status_change id new_status) log v = record {
  newest_first =
      update_entry-IsNewestFirst id (set_entry_status new_status) (set_entry_status-id new_status)
        log v.newest_first;
  most = omega (
    arith,
    v.most,
    length-update_entry id (set_entry_status new_status) (set_entry_status-id new_status) log,
  );
}
log_call-IsBounded (retry id) log v = record {
  newest_first = update_entry-IsNewestFirst id count_retry count_retry-id log v.newest_first;
  most = omega (arith, v.most, length-update_entry id count_retry count_retry-id log);
}
log_call-IsBounded (clearing status_filter) log v = record {
  newest_first = filter_by-IsNewestFirst (λ e. not (has_status status_filter e)) log v.newest_first;
  most = omega (arith, v.most, length-filter_by-le (λ e. not (has_status status_filter e)) log);
}

-- Whatever calls are made on a table whose ids decrease and that holds at most a hundred rows, the table
-- is the log of the same calls, in which each failure goes in front and the entries behind the hundredth
-- are dropped; its ids still decrease, and it still holds at most a hundred rows.
pub apply_all_refines :
    (calls : List DlqCall) (es : List DlqEntry)
    → IsBounded es
    → (apply_all calls es ≡ log_all calls es) × IsBounded (apply_all calls es)
unfolding apply_all log_all
apply_all_refines [] es v = (refl, v)
apply_all_refines (call ∷ calls) es v =
    let same = apply_dlq-log call es v.newest_first in
    subst
      (λ x. (apply_all calls x ≡ log_all calls (log_call call es)) × IsBounded (apply_all calls x))
      (sym same) (apply_all_refines calls (log_call call es) (log_call-IsBounded call es v))
