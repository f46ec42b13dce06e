-- ===== src/Agent/Stash/Insert.antt =====
-- The effect of `stash` and `retrieve` on the whole state.
use oxicrab.Base.{ℕ, ◌+◌, ◌≡◌, refl, String, arith, ◌∷◌, ◌++◌}
use oxicrab.Base.Text.{Text}
use oxicrab.Base.Dict.{Dict}
use oxicrab.Agent.Stash.{Lru, ToolOutputStash, new_stash, usize, default_max_entries}
use oxicrab.Agent.Stash.Entries.{sizes-nil}
use oxicrab.Agent.Stash.Budget.{Inv}

module _ (l : Lru) (format_id : ℕ → String) where
  open l use {Cache, cap, entries, get, get_hit, get_miss, new_lem}

  -- An empty stash satisfies the invariant.
  pub new-Inv : Inv l format_id (new_stash l format_id)
  unfolding new_stash
  new-Inv =
      let (c, e) = new_lem default_max_entries in
      record {
        counted = rw e sizes-nil;
        within = omega arith;
        budget = refl;
        capped = rw e (omega arith);
        capacity = c;
        distinct = rw e tt;
        numbered = rw e tt;
      }

  -- What a content that fits the budget does: it gets the key of the next id, it becomes the most
  -- recently used entry, and only least recently used entries go to make room for it.
  pub record Inserted (content : Text) (s s' : ToolOutputStash l format_id) : Type 0 where
    pub kept : Dict Text
    pub evicted : Dict Text
    pub before : entries s.cache ≡ kept ++ evicted
    pub after : entries s'.cache ≡ (format_id s.next_id, content) ∷ kept
    pub valid : Inv l format_id s'

  abbrev numbered : ToolOutputStash l format_id → ToolOutputStash l format_id
  numbered s = record s { next_id = usize (s.next_id + 1) }
