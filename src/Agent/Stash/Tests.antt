-- ===== src/Agent/Stash/Tests.antt =====
-- The stash over a cache that is a list, and over keys in unary.
use Prim.Native.String.{String}
use oxicrab.Base.{
  ℕ, zero, suc, ◌+◌, ◌≤◌, ◌<◌, true, false, ◌≡◌, ◌⊎◌, refl, Option, none, some, if◌then◌else◌,
  arith, [], ◌∷◌, ◌++◌, length, ap, ltb, take, lt→ltb, ◌∙◌,
}
use oxicrab.Base.Text.{Text}
use oxicrab.Base.Dict.{Dict, lookup, remove}
use oxicrab.Base.Utf8.{is_char_boundary, floor_char_boundary, floor_below}
use oxicrab.Agent.Stash.{Lru, ToolOutputStash, retrieve, read, panicked, chunk, not_found}
use oxicrab.Agent.Stash.Entries.{sizes}
use oxicrab.Agent.Stash.Budget.{Inv}
use oxicrab.Agent.Stash.Pages.{read_continues, read_overflow, retrieve_lem}

-- All entries but the last, and the last.
abbrev split_last : Dict Text → Dict Text × Option (String × Text)
split_last [] = ([], none)
split_last (e ∷ []) = ([], some e)
split_last (e ∷ f ∷ es) = let (xs, last) = split_last (f ∷ es) in (e ∷ xs, last)

split_last-snoc :
    (es : Dict Text) (last : String × Text) → split_last (es ++ (last ∷ [])) ≡ (es, some last)
split_last-snoc [] last = refl
split_last-snoc (e ∷ []) last = refl
split_last-snoc (e ∷ f ∷ es) last = ap (λ p. (e ∷ p.0, p.1)) (split_last-snoc (f ∷ es) last)

record ListCache : Type 0 where
  bound : ℕ
  items : Dict Text

abbrev make_room : ListCache → ListCache × Option (String × Text)
make_room c =
    if ltb (length c.items) c.bound
    then (c, none)
    else (record c { items = (split_last c.items).0 }, (split_last c.items).1)

abbrev push_item : String → Text → ListCache → ListCache × Option (String × Text)
push_item k v c = (record c { items = (k, v) ∷ (make_room c).0.items }, (make_room c).1)

abbrev pop_item : ListCache → ListCache × Option (String × Text)
pop_item c = (record c { items = (split_last c.items).0 }, (split_last c.items).1)

abbrev touch : String → ListCache → Option Text → ListCache × Option Text
touch k c none = (c, none)
touch k c (some v) = (record c { items = (k, v) ∷ remove k c.items }, some v)

push-room_lem :
    (k : String) (v : Text) (c : ListCache)
    → lookup k c.items ≡ none
    → length c.items < c.bound
    → ((push_item k v c).0.items ≡ (k, v) ∷ c.items)
      × ((push_item k v c).1 ≡ none)
      × ((push_item k v c).0.bound ≡ c.bound)
push-room_lem k v c h room = rw (lt→ltb _ _ room) (refl, refl, refl)

full_test : (a b : ℕ) → b ≤ a → ltb a b ≡ false
full_test a b h = ground arith

push-full_lem :
    (k : String) (v : Text) (c : ListCache) (es : Dict Text) (last : String × Text)
    → lookup k c.items ≡ none
    → c.items ≡ es ++ (last ∷ [])
    → c.bound ≤ length c.items
    → ((push_item k v c).0.items ≡ (k, v) ∷ es)
      × ((push_item k v c).1 ≡ some last)
      × ((push_item k v c).0.bound ≡ c.bound)
push-full_lem k v c es last h e full =
    let split = ap split_last e ∙ split_last-snoc es last in
    rw (full_test _ _ full) (ap (λ p. (k, v) ∷ p.0) split, ap (λ p. p.1) split, refl)

pop-empty_lem : (c : ListCache) → c.items ≡ [] → (pop_item c).1 ≡ none
pop-empty_lem c e = ap (λ es. (split_last es).1) e

pop-last_lem :
    (c : ListCache) (es : Dict Text) (last : String × Text)
    → c.items ≡ es ++ (last ∷ [])
    → ((pop_item c).0.items ≡ es) × ((pop_item c).1 ≡ some last) × ((pop_item c).0.bound ≡ c.bound)
pop-last_lem c es last e =
    let split = ap split_last e ∙ split_last-snoc es last in
    (ap (λ p. p.0) split, ap (λ p. p.1) split, refl)

get-hit_lem :
    (k : String) (v : Text) (c : ListCache)
    → lookup k c.items ≡ some v
    → ((touch k c (lookup k c.items)).1 ≡ some v)
      × ((touch k c (lookup k c.items)).0.items ≡ (k, v) ∷ remove k c.items)
      × ((touch k c (lookup k c.items)).0.bound ≡ c.bound)
get-hit_lem k v c e = rw e (refl, refl, refl)

get-miss_lem :
    (k : String) (c : ListCache)
    → lookup k c.items ≡ none
    → ((touch k c (lookup k c.items)).1 ≡ none)
      × ((touch k c (lookup k c.items)).0.items ≡ c.items)
      × ((touch k c (lookup k c.items)).0.bound ≡ c.bound)
get-miss_lem k c e = rw e (refl, refl, refl)

abbrev list_cache : Lru
list_cache = record {
  Cache = ListCache;
  cap = λ c. c.bound;
  entries = λ c. c.items;
  new = λ n. record { bound = n; items = [] };
  push = push_item;
  pop_lru = pop_item;
  get = λ k c. touch k c (lookup k c.items);
  new_lem = λ n. (refl, refl);
  push_room = push-room_lem;
  push_full = push-full_lem;
  pop_empty = pop-empty_lem;
  pop_last = pop-last_lem;
  get_hit = get-hit_lem;
  get_miss = get-miss_lem;
}

abbrev unary : ℕ → String
unary zero = String.[]
unary (suc n) = String.◌∷◌ "|" (unary n)

abbrev fresh : ToolOutputStash list_cache unary
fresh = record {
  cache = record { bound = 32; items = [] };
  total_bytes = 0;
  next_id = 1;
  max_total_bytes = 33554432;
}

-- `h`, a two-byte character, `o`.
abbrev hero : Text
hero = 104 ∷ 195 ∷ 169 ∷ 111 ∷ []

-- A page that would end inside the two-byte character ends before it.
page_before_char : read hero 0 2 ≡ chunk (104 ∷ []) 4
unfolding read is_char_boundary floor_char_boundary floor_below
page_before_char = refl

read_continues_example :
    (page : Text) × (read hero 1 2 ≡ chunk page 4)
    × (take 1 hero ++ page ≡ take (1 + length page) hero)
    × (length page ≤ 2)
    × (is_char_boundary hero (1 + length page) ≡ true)
unfolding is_char_boundary
read_continues_example = read_continues hero 1 2 (omega arith) (omega arith) refl

read_overflow_example : read hero 3 18446744073709551615 ≡ panicked
unfolding is_char_boundary
read_overflow_example =
    read_overflow hero 3 18446744073709551615 (omega arith) refl (omega arith) (omega arith)

abbrev holding : ToolOutputStash list_cache unary
holding = record {
  cache = record { bound = 32; items = ("|", hero) ∷ [] };
  total_bytes = 4;
  next_id = 2;
  max_total_bytes = 33554432;
}

holding-Inv : Inv list_cache unary holding
unfolding sizes lookup
holding-Inv = record {
  counted = refl;
  within = omega arith;
  budget = refl;
  capped = omega arith;
  capacity = refl;
  distinct = (refl, tt);
  numbered = ((1, omega arith, refl), tt);
}

retrieve_lem_example :
    let (s', r) = retrieve list_cache unary "|" 0 9 holding in
    ((lookup "|" holding.cache.items ≡ none)
      × (r ≡ not_found)
      × (s'.cache.items ≡ holding.cache.items)
      × Inv list_cache unary s')
    ⊎ ((content : Text) × (lookup "|" holding.cache.items ≡ some content)
        × (r ≡ read content 0 9)
        × (s'.cache.items ≡ ("|", content) ∷ remove "|" holding.cache.items)
        × Inv list_cache unary s')
retrieve_lem_example = retrieve_lem list_cache unary "|" 0 9 holding holding-Inv
