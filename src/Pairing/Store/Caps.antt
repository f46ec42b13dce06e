-- ===== src/Pairing/Store/Caps.antt =====
-- How many requests a channel can have pending, and how many failures a client can have on record.
use text.Mathlib.Text.{◌==◌ as str_eq}
use text.Mathlib.TextEquality.{eq_iff}
use oxicrab.Base.{
  ℕ, ◌-◌, ◌≤◌, ◌<◌, Bool, not, ◌&&◌, String, Option, none, some, List, [], ◌∷◌, ◌++◌, arith, length,
  any, filter_by, Bool-cases, Option-cases, inl, inr, if◌then◌else◌, leb, ltb,
}
use oxicrab.Pairing.Tables.{
  PendingRequest, PairingTables, count_pending_for_channel, count_recent_failed_attempts,
  cleanup_expired_pending, add_pending_request, remove_pending, add_paired_sender,
  remove_paired_sender, record_failed_attempt, evict_oldest_lockout_client, delete_oldest,
  is_sender_paired, get_pending_for_sender, group_clients, find_row, is_live, oldest_client,
  get_all_pending,
}
use oxicrab.Pairing.Tables.Rows.{
  length-filter_by_mono, length-filter_by_twice, length-filter_by_snoc,
}
use oxicrab.Pairing.Store.{
  request_pairing, request_clean, issue, approve_with_client, approve_evicted, settle, revoke,
}

-- At the time, each channel has at most 3 live requests, and each client at most 10 recent failures.
pub record IsCapped (now : ℕ) (t : PairingTables) : Type 0 where
  pub pending : (channel : String) → count_pending_for_channel now 900 channel t ≤ 3
  pub failed : (client : String) → count_recent_failed_attempts now 300 client t ≤ 10

-- One call of the store, with the time of its clock.
pub data PairingCall : Type 0 where
  request : ℕ → String → String → String → PairingCall
  approval : ℕ → String → String → PairingCall
  revocation : ℕ → String → String → PairingCall

abbrev pub call_time : PairingCall → ℕ
call_time (request now code channel sender) = now
call_time (approval now code client) = now
call_time (revocation now channel sender) = now

unfoldable pub call_store : (String → String) → PairingCall → PairingTables → PairingTables
call_store up (request now code channel sender) t = (request_pairing now code channel sender t).0
call_store up (approval now code client) t = (approve_with_client up now code client t).0
call_store up (revocation now channel sender) t = (revoke channel sender t).0

IsCapped-later :
    (start now : ℕ) (t : PairingTables) → start ≤ now → IsCapped start t → IsCapped now t
unfolding count_pending_for_channel count_recent_failed_attempts
IsCapped-later start now t h v = record {
  pending = λ channel. omega (
    arith,
    v.pending channel,
    length-filter_by_mono (λ (r : PendingRequest). str_eq r.channel channel && is_live now 900 r)
        (λ r. str_eq r.channel channel && is_live start 900 r) t.pending (λ r e. ground arith),
  );
  failed = λ client. omega (
    arith,
    v.failed client,
    length-filter_by_mono (λ (a : String × ℕ). str_eq a.0 client && ltb (now - 300) a.1)
        (λ a. str_eq a.0 client && ltb (start - 300) a.1) t.failed_attempts (λ a e. ground arith),
  );
}

module _ (now : ℕ) (t : PairingTables) (v : IsCapped now t) where
  pending_kept :
      (p : PendingRequest → Bool) → IsCapped now (record t { pending = filter_by p t.pending })
  unfolding count_pending_for_channel count_recent_failed_attempts
  pending_kept p = record {
    pending = λ channel. omega (
      arith,
      v.pending channel,
      length-filter_by_twice (λ (r : PendingRequest). str_eq r.channel channel && is_live now 900 r)
          p t.pending,
    );
    failed = v.failed;
  }

  failed_kept :
      (q : String × ℕ → Bool)
      → IsCapped now (record t { failed_attempts = filter_by q t.failed_attempts })
  unfolding count_pending_for_channel count_recent_failed_attempts
  failed_kept q = record {
    pending = v.pending;
    failed = λ client. omega (
      arith,
      v.failed client,
      length-filter_by_twice (λ (a : String × ℕ). str_eq a.0 client && ltb (now - 300) a.1) q
          t.failed_attempts,
    );
  }

  rows_changed : (rows : List (String × String)) → IsCapped now (record t { allowlist = rows })
  unfolding count_pending_for_channel count_recent_failed_attempts
  rows_changed rows = record { pending = v.pending; failed = v.failed }

  pending_added :
      (r : PendingRequest)
      → count_pending_for_channel now 900 r.channel t < 3
      → IsCapped now (record t { pending = t.pending ++ (r ∷ []) })
  unfolding count_pending_for_channel count_recent_failed_attempts
  pending_added r room = record {
    pending = λ channel. added channel (v.pending channel);
    failed = v.failed;
  }
    where
      added :
          (channel : String)
          → length (filter_by (λ q. str_eq q.channel channel && is_live now 900 q) t.pending) ≤ 3
          → length (
              filter_by
                (λ q. str_eq q.channel channel && is_live now 900 q)
                (t.pending ++ (r ∷ [])))
            ≤ 3
      added channel h = ground (
        arith,
        length-filter_by_snoc (λ q. str_eq q.channel channel && is_live now 900 q) t.pending r,
        eq_iff r.channel channel,
      )

  failed_added :
      (client : String)
      → count_recent_failed_attempts now 300 client t < 10
      → IsCapped now (record_failed_attempt client now t)
  unfolding count_pending_for_channel count_recent_failed_attempts record_failed_attempt
  failed_added client room = record {
    pending = v.pending;
    failed = λ other. added other (v.failed other);
  }
    where
      added :
          (other : String)
          → length (filter_by (λ a. str_eq a.0 other && ltb (now - 300) a.1) t.failed_attempts) ≤ 10
          → length (
              filter_by
                (λ a. str_eq a.0 other && ltb (now - 300) a.1)
                (t.failed_attempts ++ ((client, now) ∷ [])))
            ≤ 10
      added other h = ground (
        arith,
        length-filter_by_snoc (λ a. str_eq a.0 other && ltb (now - 300) a.1) t.failed_attempts
            (client, now),
        eq_iff client other,
      )

  issue-IsCapped :
      (code channel sender : String)
      → count_pending_for_channel now 900 channel t < 3
      → IsCapped now (issue now code channel sender t).0
  unfolding issue add_pending_request
  issue-IsCapped code channel sender room =
      let row : PendingRequest = record {
        channel = channel;
        sender_id = sender;
        code = code;
        created_at = now;
      } in
      elim (Bool-cases (any (λ q. str_eq q.code code) t.pending)) [
        | inl e ↦ rw (e, issue, add_pending_request) v
        | inr e ↦ rw (e, issue, add_pending_request) (pending_added row room)
      ]

  request_clean-IsCapped :
      (code channel sender : String) → IsCapped now (request_clean now code channel sender t).0
  unfolding request_clean
  request_clean-IsCapped code channel sender =
      elim (Bool-cases (is_sender_paired channel sender t)) [
        | inl e ↦ rw e v
        | inr e ↦ elim (Bool-cases (leb 3 (count_pending_for_channel now 900 channel t))) [
          | inl f ↦ rw (e, f) v
          | inr f ↦ elim (Option-cases (get_pending_for_sender now 900 channel sender t)) [
            | inr (r, g) ↦ rw (e, f, g) v
            | inl g ↦ rw (e, f, g) (issue-IsCapped code channel sender (ground arith))
          ]
        ]
      ]

  evict-IsCapped : IsCapped now (evict_oldest_lockout_client 1000 t)
  unfolding evict_oldest_lockout_client delete_oldest
  evict-IsCapped = evicted (group_clients [] t.failed_attempts)
    where
      deleted : (groups : List (String × ℕ)) → IsCapped now (delete_oldest groups t)
      deleted [] = v
      deleted (g ∷ gs) = failed_kept (λ a. not (str_eq a.0 (oldest_client g gs)))

      evicted :
          (groups : List (String × ℕ))
          → IsCapped now (if ltb 1000 (length groups) then delete_oldest groups t else t)
      evicted groups = elim (Bool-cases (ltb 1000 (length groups))) [
        | inl e ↦ rw e (deleted groups)
        | inr e ↦ rw e v
      ]

paired-IsCapped :
    (now : ℕ) (t : PairingTables) (channel sender : String)
    → IsCapped now t
    → IsCapped now (add_paired_sender channel sender t).0
unfolding add_paired_sender
paired-IsCapped now t channel sender v = elim (Bool-cases (is_sender_paired channel sender t)) [
  | inl e ↦ rw e v
  | inr e ↦ rw e (rows_changed now t v (t.allowlist ++ ((channel, sender) ∷ [])))
]

settle-IsCapped :
    (now : ℕ) (client : String) (found : Option PendingRequest) (t : PairingTables)
    → count_recent_failed_attempts now 300 client t < 10
    → IsCapped now t
    → IsCapped now (settle now client found t).0
unfolding settle remove_pending
settle-IsCapped now client none t room v = failed_added now t v client room
settle-IsCapped now client (some r) t room v =
    paired-IsCapped now (remove_pending r.code t) r.channel r.sender_id
      (pending_kept now t v (λ q. not (str_eq q.code r.code)))

approve_evicted-IsCapped :
    (now : ℕ) (code client : String) (t : PairingTables)
    → IsCapped now t
    → IsCapped now (approve_evicted now code client t).0
unfolding approve_evicted
approve_evicted-IsCapped now code client t v =
    elim (Bool-cases (leb 10 (count_recent_failed_attempts now 300 client t))) [
      | inl e ↦ rw e v
      | inr e ↦ rw e (
          settle-IsCapped now client
            (find_row (λ r. str_eq r.code code) (get_all_pending now 900 t)) t (ground arith) v)
    ]

call_store-IsCapped :
    (up : String → String) (call : PairingCall) (t : PairingTables)
    → IsCapped (call_time call) t
    → IsCapped (call_time call) (call_store up call t)
unfolding call_store request_pairing cleanup_expired_pending approve_with_client revoke
    remove_paired_sender
call_store-IsCapped up (request now code channel sender) t v =
    request_clean-IsCapped now (cleanup_expired_pending now 900 t)
      (pending_kept now t v (is_live now 900)) code channel sender
call_store-IsCapped up (approval now code client) t v =
    approve_evicted-IsCapped now (up code) client (evict_oldest_lockout_client 1000 t)
      (evict-IsCapped now t v)
call_store-IsCapped up (revocation now channel sender) t v = rows_changed now t v _

unfoldable pub call_store_all : (String → String) → List PairingCall → PairingTables → PairingTables
call_store_all up [] t = t
call_store_all up (call ∷ calls) t = call_store_all up calls (call_store up call t)

-- The clock does not go back over the calls, and ends no later than `end`.
abbrev pub IsOrdered : ℕ → List PairingCall → ℕ → Type 0
IsOrdered start [] end = start ≤ end
IsOrdered start (call ∷ calls) end = (start ≤ call_time call) × IsOrdered (call_time call) calls end

-- Over any calls of the store that run one after another, each at one reading of a clock that does not
-- go back (calls whose statements interleave are not meant): if every channel has at most 3 live
-- requests and every client at most 10 failures in its window at the start, then so it is at the end.
pub call_store_all-IsCapped :
    (up : String → String) (start end : ℕ) (calls : List PairingCall) (t : PairingTables)
    → IsOrdered start calls end
    → IsCapped start t
    → IsCapped end (call_store_all up calls t)
unfolding call_store_all
call_store_all-IsCapped up start end [] t o v = IsCapped-later start end t o v
call_store_all-IsCapped up start end (call ∷ calls) t o v =
    call_store_all-IsCapped up (call_time call) end calls (call_store up call t) o.1
      (call_store-IsCapped up call t (IsCapped-later start (call_time call) t o.0 v))
