-- ===== src/Agent/Stash/Pages.antt =====
-- Reading a stashed content page by page.
use oxicrab.Base.{
  ℕ, ◌+◌, ◌-◌, ◌≤◌, ◌<◌, true, ◌≡◌, ◌⊎◌, inl, inr, refl, String, none, some, arith, ◌∷◌, ◌++◌,
  length, ap, sym, ◌∙◌, min, take, drop, take-add, length-take, length-drop, Option-cases,
}
use oxicrab.Base.Text.{Text}
use oxicrab.Base.Utf8.{
  is_char_boundary, floor_char_boundary, slice, floor_char_boundary-le,
  floor_char_boundary-le-length, floor_char_boundary_mono, floor_char_boundary_self,
  floor_char_boundary-IsBoundary,
}
use oxicrab.Base.Dict.{lookup, remove, lookup-remove_self}
use oxicrab.Agent.Stash.{Lru, ToolOutputStash, retrieve, read, not_found, panicked, chunk, usize}
use oxicrab.Agent.Stash.Entries.{sizes-cons, remove_counts, Distinct-remove, All-remove, All-lookup}
use oxicrab.Agent.Stash.Budget.{Inv}

-- The end of a page.
abbrev pub page_end : Text → ℕ → ℕ → ℕ
page_end content offset limit = floor_char_boundary content (min (offset + limit) (length content))

read_page :
    (content : Text) (offset limit : ℕ)
    → offset < length content
    → offset + limit < 18446744073709551616
    → read content offset limit
      ≡ chunk
          (slice content (floor_char_boundary content offset) (page_end content offset limit))
          (length content)
unfolding read
read_page content offset limit h small =
    ground (arith, floor_char_boundary_mono content offset (min (offset + limit) (length content)))

-- A page that starts at a character boundary inside the content (and whose `offset + limit` fits
-- `usize`) is returned with the total length, holds exactly the bytes that follow `offset`, is no
-- longer than `limit`, and ends at a character boundary: reading on at `offset` plus its length
-- loses and repeats nothing.
pub read_continues :
    (content : Text) (offset limit : ℕ)
    → offset < length content
    → offset + limit < 18446744073709551616
    → is_char_boundary content offset ≡ true
    → (page : Text) × (read content offset limit ≡ chunk page (length content))
      × (take offset content ++ page ≡ take (offset + length page) content)
      × (length page ≤ limit)
      × (is_char_boundary content (offset + length page) ≡ true)
read_continues content offset limit h small b = (
  page,
  read_page content offset limit h small
      ∙ ap (λ start. chunk (slice content start end) (length content)) start,
  take-add offset (end - offset) content ∙ ap (λ n. take (offset + n) content) (sym counted),
  omega (arith, counted, floor_char_boundary-le content (min (offset + limit) (length content))),
  rw whole (
      floor_char_boundary-IsBoundary content (min (offset + limit) (length content)) (omega arith)),
)
  where
    end : ℕ
    end = page_end content offset limit

    start : floor_char_boundary content offset ≡ offset
    start = floor_char_boundary_self content offset (omega arith) b

    page : Text
    page = slice content offset end

    after : offset ≤ end
    after = omega (
      arith,
      start,
      floor_char_boundary_mono content offset (min (offset + limit) (length content)) (omega arith),
    )

    counted : length page ≡ end - offset
    counted =
        length-take (end - offset) (drop offset content)
        ∙ omega (
          arith,
          length-drop offset content,
          floor_char_boundary-le-length content (min (offset + limit) (length content)),
        )

    whole : offset + length page ≡ end
    whole = omega (arith, counted, after)

-- A limit so large that `offset + limit` wraps round panics on the slice, at every boundary inside
-- the content.
pub read_overflow :
    (content : Text) (offset limit : ℕ)
    → offset < length content
    → is_char_boundary content offset ≡ true
    → 18446744073709551616 ≤ offset + limit
    → limit < 18446744073709551616
    → read content offset limit ≡ panicked
unfolding read
read_overflow content offset limit h b large bound = ground (
  arith,
  floor_char_boundary-le content (min (usize (offset + limit)) (length content)),
  floor_char_boundary_self content offset,
)

module _ (l : Lru) (format_id : ℕ → String) where
  open l use {Cache, cap, entries, get, get_hit, get_miss}

  unmoved :
      (s : ToolOutputStash l format_id) {c : Cache}
      → Inv l format_id s
      → entries c ≡ entries s.cache
      → cap c ≡ cap s.cache
      → Inv l format_id (record s { cache = c })
  unmoved s v same kept = record {
    counted = rw same v.counted;
    within = v.within;
    budget = v.budget;
    capped = rw same v.capped;
    capacity = kept ∙ v.capacity;
    distinct = rw same v.distinct;
    numbered = rw same v.numbered;
  }

  moved :
      (s : ToolOutputStash l format_id) (key : String) (content : Text) {c : Cache}
      → Inv l format_id s
      → lookup key (entries s.cache) ≡ some content
      → entries c ≡ (key, content) ∷ remove key (entries s.cache)
      → cap c ≡ cap s.cache
      → Inv l format_id (record s { cache = c })
  moved s key content v found now kept =
      let (bytes, count) = remove_counts key content (entries s.cache) v.distinct found in
      record {
        counted =
            rw now
              (omega (arith, v.counted, sizes-cons key content (remove key (entries s.cache))));
        within = v.within;
        budget = v.budget;
        capped = rw now (omega (arith, v.capped));
        capacity = kept ∙ v.capacity;
        distinct = rw now (
          lookup-remove_self key (entries s.cache),
          Distinct-remove key (entries s.cache) v.distinct,
        );
        numbered = rw now (
          All-lookup _ key content (entries s.cache) v.numbered found,
          All-remove _ key (entries s.cache) v.numbered,
        );
      }

  -- `retrieve` finds exactly the keys that are in the cache, reads the page from the content stored
  -- under the key, moves that entry to the front and keeps the invariant; a key that is not there
  -- changes nothing.
  pub retrieve_lem :
      (key : String) (offset limit : ℕ) (s : ToolOutputStash l format_id)
      → Inv l format_id s
      → let (s', r) = retrieve l format_id key offset limit s in
        ((lookup key (entries s.cache) ≡ none)
          × (r ≡ not_found)
          × (entries s'.cache ≡ entries s.cache)
          × Inv l format_id s')
        ⊎ ((content : Text) × (lookup key (entries s.cache) ≡ some content)
            × (r ≡ read content offset limit)
            × (entries s'.cache ≡ (key, content) ∷ remove key (entries s.cache))
            × Inv l format_id s')
  unfolding retrieve
  retrieve_lem key offset limit s v = elim (Option-cases (lookup key (entries s.cache))) [
    | inl missing ↦
        let (out, same, kept) = get_miss key s.cache missing in
        rw out (inl (missing, refl, same, unmoved s v same kept))
    | inr (content, found) ↦
        let (out, now, kept) = get_hit key content s.cache found in
        rw out (inr (content, found, refl, now, moved s key content v found now kept))
  ]
