-- ===== src/Agent/Stash/Budget.antt =====
-- The byte budget and the entry limit of the stash, and what an insertion evicts.
use mathlib.Core.List.{append-nil, append_assoc}
use native.Mathlib.Decide.{dec_lt}
use oxicrab.Base.{
  ℕ, zero, suc, ◌+◌, ◌-◌, ◌≤◌, ◌<◌, true, false, ◌≡◌, inl, inr, refl, String, none, arith, [], ◌∷◌,
  ◌++◌, length, ap, sym, ◌∙◌, Bool-cases, subst, leb, leb→le, leb→lt, length-append,
}
use oxicrab.Base.Text.{Text}
use oxicrab.Base.Dict.{Dict, lookup}
use oxicrab.Agent.Stash.{
  Lru, ToolOutputStash, evict, store, freed_bytes, usize, default_max_entries,
  default_max_total_bytes,
}
use oxicrab.Agent.Stash.Entries.{
  sizes, Distinct, Numbered, sizes-snoc, sizes-nil, sizes-cons, last-cases, Distinct-append_left,
  All-append_left, Numbered-mono, lookup-Numbered,
}

module _ (l : Lru) (format_id : ℕ → String) where
  open l use {Cache, cap, entries, push, pop_lru, get, pop_empty, pop_last, push_room, push_full}

  -- Between two operations: `total_bytes` is the sum of the sizes of the entries and within the
  -- budget, there are at most 32 entries, and their keys are distinct and below `next_id`.
  pub record Inv (s : ToolOutputStash l format_id) : Type 0 where
    pub counted : sizes (entries s.cache) ≡ s.total_bytes
    pub within : s.total_bytes ≤ s.max_total_bytes
    pub budget : s.max_total_bytes ≡ default_max_total_bytes
    pub capped : length (entries s.cache) ≤ default_max_entries
    pub capacity : cap s.cache ≡ default_max_entries
    pub distinct : Distinct (entries s.cache)
    pub numbered : Numbered format_id s.next_id (entries s.cache)

  -- `s'` is `s` with its least recently used entries gone.
  pub record Evicted (s s' : ToolOutputStash l format_id) : Type 0 where
    pub dropped : Dict Text
    pub split : entries s.cache ≡ entries s'.cache ++ dropped
    pub same_id : s'.next_id ≡ s.next_id
    pub keeps : Inv s'

  pop-Evicted :
      (s : ToolOutputStash l format_id) (es : Dict Text) (last : String × Text)
      → Inv s
      → entries s.cache ≡ es ++ (last ∷ [])
      → Inv (record s { cache = (pop_lru s.cache).0; total_bytes = s.total_bytes - length last.1 })
  pop-Evicted s es last v e =
      let (now, out, same) = pop_last s.cache es last e in
      record {
        counted = rw now (omega (arith, v.counted, ap sizes e, sizes-snoc es last));
        within = omega (arith, v.within);
        budget = v.budget;
        capped = rw now (omega (arith, v.capped, ap length e, length-append es (last ∷ [])));
        capacity = same ∙ v.capacity;
        distinct = rw now (Distinct-append_left es (last ∷ []) (subst Distinct e v.distinct));
        numbered =
            rw now (
              All-append_left _ es (last ∷ []) (subst (Numbered format_id s.next_id) e v.numbered));
      }

  stay : (s : ToolOutputStash l format_id) → Inv s → Evicted s s
  stay s v = record { dropped = []; split = sym (append-nil _); same_id = refl; keeps = v }

  room :
      (s : ToolOutputStash l format_id) (n : ℕ)
      → Inv s
      → leb (usize (s.total_bytes + n)) s.max_total_bytes ≡ true
      → n ≤ s.max_total_bytes
      → s.total_bytes + n ≤ s.max_total_bytes
  room s n v fits b = omega (arith, leb→le _ _ fits, v.within, v.budget)

  empty_fits :
      (s : ToolOutputStash l format_id) (n : ℕ)
      → Inv s
      → n ≤ s.max_total_bytes
      → entries s.cache ≡ []
      → leb (usize (s.total_bytes + n)) s.max_total_bytes ≡ false
      → ⊥
  empty_fits s n v b gone full =
      omega (arith, leb→lt _ _ full, v.counted, v.budget, ap sizes gone, sizes-nil)

  after_pop :
      (s s' : ToolOutputStash l format_id) {s₁ : ToolOutputStash l format_id} (es : Dict Text)
      (last : String × Text)
      → entries s.cache ≡ es ++ (last ∷ [])
      → entries s₁.cache ≡ es
      → s₁.next_id ≡ s.next_id
      → Evicted s₁ s'
      → Evicted s s'
  after_pop s s' es last e now id k = record {
    dropped = k.dropped ++ (last ∷ []);
    split =
        e
        ∙ ap (λ xs. xs ++ (last ∷ [])) (sym now ∙ k.split)
        ∙ append_assoc (entries s'.cache) k.dropped (last ∷ []);
    same_id = k.same_id ∙ id;
    keeps = k.keeps;
  }

  pub evict-Evicted :
      (fuel n : ℕ) (s : ToolOutputStash l format_id)
      → Inv s
      → n ≤ s.max_total_bytes
      → length (entries s.cache) < fuel
      → Evicted s (evict l format_id fuel n s)
        × ((evict l format_id fuel n s).total_bytes + n ≤ s.max_total_bytes)
  unfolding evict
  evict-Evicted zero n s v b h = absurd (omega arith)
  evict-Evicted (suc fuel) n s v b h =
      elim (Bool-cases (leb (usize (s.total_bytes + n)) s.max_total_bytes)) [
        | inl fits ↦ rw (fits, evict) (stay s v, room s n v fits b)
        | inr full ↦ elim (last-cases (entries s.cache)) [
          | inl gone ↦ absurd (empty_fits s n v b gone full)
          | inr (es, last, e) ↦
              let (now, out, same) = pop_last s.cache es last e in
              let popped = pop-Evicted s es last v e in
              let (kept, fits) =
                evict-Evicted fuel n
                  (record s {
                    cache = (pop_lru s.cache).0;
                    total_bytes = s.total_bytes - length last.1;
                  })
                  popped b
                  (omega (arith, h, ap length now, ap length e, length-append es (last ∷ []))) in
              rw (full, evict) (rw out (after_pop s _ es last e now refl kept, fits))
        ]
      ]

  -- The state after the loop, with the new entry in it: `rest` are the entries that stay.
  pub record Stored (key : String) (content : Text) (s s' : ToolOutputStash l format_id)
      : Type 0 where
    pub rest : Dict Text
    pub dropped : Dict Text
    pub now : entries s'.cache ≡ (key, content) ∷ rest
    pub split : entries s.cache ≡ rest ++ dropped
    pub counted : s'.total_bytes ≡ length content + sizes rest
    pub room : length rest < default_max_entries
    pub capacity : cap s'.cache ≡ default_max_entries

  pub store-Stored :
      (key : String) (content : Text) (s : ToolOutputStash l format_id)
      → Inv s
      → s.total_bytes + length content ≤ s.max_total_bytes
      → lookup key (entries s.cache) ≡ none
      → Stored key content s (store l format_id key content s)
  unfolding store freed_bytes
  store-Stored key content s v fits fresh = elim (dec_lt (length (entries s.cache)) (cap s.cache)) [
    | yes free ↦
        let (now, out, same) = push_room key content s.cache fresh free in
        record {
          rest = entries s.cache;
          dropped = [];
          now = now;
          split = sym (append-nil (entries s.cache));
          counted = rw out (omega (arith, v.counted, fits, v.budget));
          room = omega (arith, v.capacity);
          capacity = same ∙ v.capacity;
        }
    | no full ↦ elim (last-cases (entries s.cache)) [
      | inl gone ↦ absurd (omega (arith, v.capacity, ap length gone))
      | inr (es, last, e) ↦
          let (now, out, same) = push_full key content s.cache es last fresh e (omega arith) in
          record {
            rest = es;
            dropped = last ∷ [];
            now = now;
            split = e;
            counted =
                rw out (omega (arith, v.counted, fits, v.budget, ap sizes e, sizes-snoc es last));
            room = omega (arith, v.capped, ap length e, length-append es (last ∷ []));
            capacity = same ∙ v.capacity;
          }
    ]
  ]

  abbrev pub HasIds : Type 0
  HasIds = (a b : ℕ) → format_id a ≡ format_id b → a ≡ b

  pub Stored-Inv :
      (s s₁ s' : ToolOutputStash l format_id) (content : Text)
      → HasIds
      → Inv s
      → s.next_id + 1 < 18446744073709551616
      → s'.next_id ≡ s.next_id + 1
      → s'.max_total_bytes ≡ s.max_total_bytes
      → s'.total_bytes ≤ s'.max_total_bytes
      → (dropped : Dict Text) → entries s.cache ≡ entries s₁.cache ++ dropped
      → Stored (format_id s.next_id) content s₁ s'
      → Inv s'
  Stored-Inv s s₁ s' content inj v bound id same fits dropped split k = record {
    counted = rw k.now (sizes-cons (format_id s.next_id) content k.rest ∙ sym k.counted);
    within = fits;
    budget = same ∙ v.budget;
    capped = rw k.now (omega (arith, k.room));
    capacity = k.capacity;
    distinct = rw k.now (
      lookup-Numbered format_id s.next_id s.next_id k.rest inj (omega arith) older,
      Distinct-append_left k.rest (k.dropped ++ dropped) (subst Distinct parts v.distinct),
    );
    numbered =
        subst (λ m. Numbered format_id m (entries s'.cache)) (sym id)
          (rw k.now (
            (s.next_id, omega arith, refl),
            Numbered-mono format_id s.next_id (s.next_id + 1) k.rest (omega arith) older,
          ));
  }
    where
      parts : entries s.cache ≡ k.rest ++ (k.dropped ++ dropped)
      parts = split ∙ ap (λ xs. xs ++ dropped) k.split ∙ append_assoc k.rest k.dropped dropped

      older : Numbered format_id s.next_id k.rest
      older =
          All-append_left _ k.rest (k.dropped ++ dropped)
            (subst (Numbered format_id s.next_id) parts v.numbered)
