-- ===== src/Agent/Stash.antt =====
-- src/agent/tools/stash/mod.rs: the stash of large tool outputs. The mutex is held through each
-- operation. `lru::LruCache` is the parameter `Lru`, and the text of a number in a key is `display`.
-- Byte counts are `usize` of 64 bits; contents are the bytes of their text.
mod Entries
mod Budget
mod Insert
mod Pages
mod Tests
use oxicrab.Base.{
  ℕ, zero, suc, ◌+◌, ◌-◌, ◌%◌, ◌≤◌, ◌<◌, min, Bool, true, false, ◌≡◌, String, Option, none, some,
  if◌then◌else◌, leb, ltb, List, [], ◌∷◌, ◌++◌, length,
}
use oxicrab.Base.Text.{Text}
use oxicrab.Base.Dict.{Dict, lookup, remove}
use oxicrab.Base.Utf8.{floor_char_boundary, slice}

-- What the stash relies on of the cache, whose `entries` run from the most to the least recently used.
pub record Lru : Type 1 where
  pub Cache : Type 0
  pub cap : Cache → ℕ
  pub entries : Cache → Dict Text
  pub new : ℕ → Cache
  pub push : String → Text → Cache → Cache × Option (String × Text)
  pub pop_lru : Cache → Cache × Option (String × Text)
  pub get : String → Cache → Cache × Option Text
  pub new_lem : (n : ℕ) → (cap (new n) ≡ n) × (entries (new n) ≡ [])
  pub push_room :
      (k : String) (v : Text) (c : Cache)
      → lookup k (entries c) ≡ none
      → length (entries c) < cap c
      → (entries (push k v c).0 ≡ (k, v) ∷ entries c)
        × ((push k v c).1 ≡ none)
        × (cap (push k v c).0 ≡ cap c)
  pub push_full :
      (k : String) (v : Text) (c : Cache) (es : Dict Text) (last : String × Text)
      → lookup k (entries c) ≡ none
      → entries c ≡ es ++ (last ∷ [])
      → cap c ≤ length (entries c)
      → (entries (push k v c).0 ≡ (k, v) ∷ es)
        × ((push k v c).1 ≡ some last)
        × (cap (push k v c).0 ≡ cap c)
  pub pop_empty : (c : Cache) → entries c ≡ [] → (pop_lru c).1 ≡ none
  pub pop_last :
      (c : Cache) (es : Dict Text) (last : String × Text)
      → entries c ≡ es ++ (last ∷ [])
      → (entries (pop_lru c).0 ≡ es) × ((pop_lru c).1 ≡ some last) × (cap (pop_lru c).0 ≡ cap c)
  pub get_hit :
      (k : String) (v : Text) (c : Cache)
      → lookup k (entries c) ≡ some v
      → ((get k c).1 ≡ some v)
        × (entries (get k c).0 ≡ (k, v) ∷ remove k (entries c))
        × (cap (get k c).0 ≡ cap c)
  pub get_miss :
      (k : String) (c : Cache)
      → lookup k (entries c) ≡ none
      → ((get k c).1 ≡ none) × (entries (get k c).0 ≡ entries c) × (cap (get k c).0 ≡ cap c)

abbrev pub default_max_entries : ℕ
default_max_entries = 32

abbrev pub default_max_total_bytes : ℕ
default_max_total_bytes = 33554432

abbrev pub usize : ℕ → ℕ
usize n = n % 18446744073709551616

-- `panicked` is the slice `content[start..end]` with `end < start`.
pub data Retrieved : Type 0 where
  not_found : Retrieved
  panicked : Retrieved
  chunk : Text → ℕ → Retrieved

-- The slice of `retrieve`.
unfoldable pub read : Text → ℕ → ℕ → Retrieved
read content offset limit =
    let total = length content in
    let start = floor_char_boundary content offset in
    let end = floor_char_boundary content (min (usize (offset + limit)) total) in
    if leb total offset
    then chunk [] total
    else if ltb end start
    then panicked
    else chunk (slice content start end) total

-- `format!("stash_{id}")`, with the decimal text of `id`.
module _ (l : Lru) (format_id : ℕ → String) where
  open l use {Cache, push, pop_lru, get}

  pub record ToolOutputStash : Type 0 where
    pub cache : Cache
    pub total_bytes : ℕ
    pub next_id : ℕ
    pub max_total_bytes : ℕ

  unfoldable pub new_stash : ToolOutputStash
  new_stash = record {
    cache = l.new default_max_entries;
    total_bytes = 0;
    next_id = 1;
    max_total_bytes = default_max_total_bytes;
  }

  -- The eviction loop. The fuel is one more than the number of entries: each round pops one.
  unfoldable pub evict : ℕ → ℕ → ToolOutputStash → ToolOutputStash
  evict zero content_len s = s
  evict (suc fuel) content_len s =
      if leb (usize (s.total_bytes + content_len)) s.max_total_bytes
      then s
      else elim (pop_lru s.cache).1 [
        | none ↦ s
        | some (k, evicted) ↦
            evict fuel content_len (record s {
              cache = (pop_lru s.cache).0;
              total_bytes = s.total_bytes - length evicted;
            })
      ]

  unfoldable pub freed_bytes : Option (String × Text) → ℕ
  freed_bytes none = 0
  freed_bytes (some (k, old)) = length old

  unfoldable pub store : String → Text → ToolOutputStash → ToolOutputStash
  store key content s =
      let (c, old) = push key content s.cache in
      record s { cache = c; total_bytes = usize (s.total_bytes - freed_bytes old + length content) }

  unfoldable pub stash : Text → ToolOutputStash → ToolOutputStash × Option String
  unfolding store
  stash content s =
      let key = format_id s.next_id in
      let numbered : ToolOutputStash = record s { next_id = usize (s.next_id + 1) } in
      if ltb s.max_total_bytes (length content) then (numbered, none) else (
        store key content (evict (suc (length (l.entries s.cache))) (length content) numbered),
        some key,
      )

  unfoldable pub retrieve : String → ℕ → ℕ → ToolOutputStash → ToolOutputStash × Retrieved
  retrieve key offset limit s = (
    record s { cache = (get key s.cache).0 },
    elim (get key s.cache).1 [ none ↦ not_found | some content ↦ read content offset limit ],
  )
