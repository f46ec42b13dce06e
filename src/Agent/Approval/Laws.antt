-- ===== src/Agent/Approval/Laws.antt =====
-- Who can resolve a request, what reaches the waiting task, and what the other requests see of it.
use text.Mathlib.Text.{◌==◌ as str_eq}
use oxicrab.Base.{
  true, false, ◌≡◌, ◌⊎◌, inl, inr, refl, String, none, some, if◌then◌else◌, Option-cases,
  Bool-cases, ap, subst,
}
use oxicrab.Base.Result.{ok, err}
use oxicrab.Base.Dict.{
  lookup, insert, remove, lookup-remove, lookup-remove_self, lookup-insert-remove,
}
use oxicrab.Agent.Approval.{
  ApprovalDecision, Oneshot, already_resolved, unauthorized_channel, timed_out, ApprovalEntry,
  ApprovalStore, resolve, deliver, wrong_channel, Call, registers, resolves, cancels, step,
  register, cancel,
}

module _ (o : Oneshot) where
  open o use {
    World, Sender, Sender_discrete, received, closed, send, send_open, send_closed, send_other,
  }

  resolve-missing :
      (id source : String) (d : ApprovalDecision) (s : ApprovalStore o)
      → lookup id s.pending ≡ none
      → resolve o id source d s ≡ (s, err already_resolved)
  unfolding resolve
  resolve-missing id source d s e = rw (e, resolve)

  resolve-wrong :
      (id source : String) (d : ApprovalDecision) (s : ApprovalStore o) (e : ApprovalEntry o)
      → lookup id s.pending ≡ some e
      → wrong_channel o e source ≡ true
      → resolve o id source d s ≡ (
        record s { pending = insert id e (remove id s.pending) },
        err (unauthorized_channel e.tool_name),
      )
  unfolding resolve
  resolve-wrong id source d s e found w = rw (found, resolve) (rw w)

  resolve-right :
      (id source : String) (d : ApprovalDecision) (s : ApprovalStore o) (e : ApprovalEntry o)
      → lookup id s.pending ≡ some e
      → wrong_channel o e source ≡ false
      → resolve o id source d s ≡ deliver o e d (record s { pending = remove id s.pending })
  unfolding resolve
  resolve-right id source d s e found w = rw (found, resolve) (rw w)

  deliver-open :
      (e : ApprovalEntry o) (d : ApprovalDecision) (s : ApprovalStore o)
      → closed e.sender s.world ≡ false
      → ((deliver o e d s).1 ≡ ok (e.tool_name, e.action, e.requested_by))
        × (received e.sender (deliver o e d s).0.world ≡ some d)
        × ((deliver o e d s).0.pending ≡ s.pending)
  unfolding deliver
  deliver-open e d s c = let (sent, got) = send_open e.sender d s.world c in (rw sent, got, refl)

  deliver-closed :
      (e : ApprovalEntry o) (d : ApprovalDecision) (s : ApprovalStore o)
      → closed e.sender s.world ≡ true
      → deliver o e d s ≡ (s, err timed_out)
  unfolding deliver
  deliver-closed e d s c = rw (send_closed e.sender d s.world c)

  -- A successful resolution took a registered entry whose operator channel accepts the source; the
  -- waiting task has received the decision, the caller gets that entry's tool, action and requester,
  -- and no other pending request has changed.
  pub resolve_ok :
      (id source : String) (d : ApprovalDecision) (s : ApprovalStore o)
      {r : String × String × String}
      → (resolve o id source d s).1 ≡ ok r
      → (e : ApprovalEntry o) × (lookup id s.pending ≡ some e)
        × (wrong_channel o e source ≡ false)
        × (received e.sender (resolve o id source d s).0.world ≡ some d)
        × (r ≡ (e.tool_name, e.action, e.requested_by))
        × ((j : String)
            → lookup j (resolve o id source d s).0.pending
              ≡ (if str_eq id j then none else lookup j s.pending))
  resolve_ok id source d s {r} h = elim (Option-cases (lookup id s.pending)) [
    | inl missing ↦ absurd (cc (resolve-missing id source d s missing))
    | inr (e, found) ↦ elim (Bool-cases (wrong_channel o e source)) [
      | inl w ↦ absurd (cc (resolve-wrong id source d s e found w))
      | inr w ↦ elim (Bool-cases (closed e.sender s.world)) [
        | inl c ↦ absurd (
            cc (
              resolve-right id source d s e found w,
              deliver-closed e d (record s { pending = remove id s.pending }) c,
            ))
        | inr c ↦
            let taken = record s { pending = remove id s.pending } in
            let (res, got, same) = deliver-open e d taken c in
            (
              e,
              found,
              w,
              rw (resolve-right id source d s e found w) got,
              cc (ap (λ x. x.1) (resolve-right id source d s e found w), res),
              λ j.
                  rw (resolve-right id source d s e found w)
                    (rw same (lookup-remove id j s.pending)),
            )
      ]
    ]
  ]

  -- A source that the entry does not accept gets an error that names the tool; the decision reaches
  -- nobody, and every request, this one included, stays pending as it was.
  pub resolve_unauthorized :
      (id source : String) (d : ApprovalDecision) (s : ApprovalStore o) (e : ApprovalEntry o)
      → lookup id s.pending ≡ some e
      → wrong_channel o e source ≡ true
      → let (s', r) = resolve o id source d s in
        (r ≡ err (unauthorized_channel e.tool_name))
        × (s'.world ≡ s.world)
        × ((j : String) → lookup j s'.pending ≡ lookup j s.pending)
  resolve_unauthorized id source d s e found wrong =
      rw (resolve-wrong id source d s e found wrong)
        (refl, refl, λ j. lookup-insert-remove id j e s.pending found)

  resolve_consumes :
      (id source : String) (d : ApprovalDecision) (s : ApprovalStore o) (e : ApprovalEntry o)
      → lookup id s.pending ≡ some e
      → wrong_channel o e source ≡ false
      → lookup id (resolve o id source d s).0.pending ≡ none
  unfolding deliver
  resolve_consumes id source d s e found w =
      rw (resolve-right id source d s e found w) (lookup-remove_self id s.pending)

  -- An accepted source consumes the request, whether or not the waiting task is still there: every
  -- second resolution of it, from any channel and with any decision, is refused as already resolved
  -- and changes nothing.
  pub resolve_once :
      (id source source' : String) (d d' : ApprovalDecision) (s : ApprovalStore o)
      (e : ApprovalEntry o)
      → lookup id s.pending ≡ some e
      → wrong_channel o e source ≡ false
      → let s' = (resolve o id source d s).0 in
        resolve o id source' d' s' ≡ (s', err already_resolved)
  resolve_once id source source' d d' s e found w =
      resolve-missing id source' d' (resolve o id source d s).0
        (resolve_consumes id source d s e found w)

  -- What a call must be for it to change what the receiver of `t` got: a resolution, with the decision
  -- that arrives, from a source that the pending entry of that sender accepts.
  abbrev pub Delivers : Sender → ApprovalStore o → Call o → Type 0
  Delivers t s (registers id entry) = ⊥
  Delivers t s (cancels id) = ⊥
  Delivers t s (resolves id source d) =
      (e : ApprovalEntry o) × (lookup id s.pending ≡ some e)
      × (e.sender ≡ t)
      × (wrong_channel o e source ≡ false)
      × (received t (resolve o id source d s).0.world ≡ some d)

  deliver_changes :
      (t : Sender) (e : ApprovalEntry o) (d : ApprovalDecision) (s : ApprovalStore o)
      → (received t (deliver o e d s).0.world ≡ received t s.world)
        ⊎ ((e.sender ≡ t) × (received t (deliver o e d s).0.world ≡ some d))
  unfolding deliver
  deliver_changes t e d s = elim (Sender_discrete e.sender t) [
    | no other ↦ inl (send_other e.sender t d s.world other)
    | yes same ↦ elim (Bool-cases (closed e.sender s.world)) [
      | inl c ↦ inl (rw (send_closed e.sender d s.world c))
      | inr c ↦ inr (
        same,
        subst (λ u. received u (send e.sender d s.world).0 ≡ some d) same
            (send_open e.sender d s.world c).1,
      )
    ]
  ]

  resolve-Delivers :
      (t : Sender) (s : ApprovalStore o) (id source : String) (d : ApprovalDecision)
      → (received t (resolve o id source d s).0.world ≡ received t s.world)
        ⊎ Delivers t s (resolves id source d)
  resolve-Delivers t s id source d = elim (Option-cases (lookup id s.pending)) [
    | inl missing ↦ inl (rw (resolve-missing id source d s missing))
    | inr (e, found) ↦ elim (Bool-cases (wrong_channel o e source)) [
      | inl w ↦ inl (rw (resolve-wrong id source d s e found w))
      | inr w ↦ elim (deliver_changes t e d (record s { pending = remove id s.pending })) [
        | inl same ↦ inl (rw (resolve-right id source d s e found w) same)
        | inr (at, got) ↦ inr (e, found, at, w, rw (resolve-right id source d s e found w) got)
      ]
    ]
  ]

  -- Every call on the store either leaves what the receiver of `t` got as it was, or is a resolution
  -- of a pending request of that sender from an accepted source, and the receiver has its decision.
  pub step-Delivers :
      (t : Sender) (s : ApprovalStore o) (c : Call o)
      → (received t (step o s c).world ≡ received t s.world) ⊎ Delivers t s c
  unfolding step register cancel
  step-Delivers t s (registers id entry) = inl refl
  step-Delivers t s (cancels id) = inl refl
  step-Delivers t s (resolves id source d) = resolve-Delivers t s id source d
