-- ===== src/Bus/Queue/Truncation.antt =====
-- The size limits of the two directions.
use native.Mathlib.Decide.{dec_lt}
use oxicrab.Base.{
  ℕ, zero, suc, ◌≤◌, ◌<◌, true, ◌≡◌, inl, inr, refl, arith, length, ap, ◌∙◌, sym, take, Bool-cases,
  lt→ltb, le→ltb, lt→leb, length-take,
}
use oxicrab.Base.Text.{Text}
use oxicrab.Base.Utf8.{
  is_char_boundary, floor_below, floor_char_boundary, floor_below-le, floor_below-boundary,
  floor_below-greatest,
}
use oxicrab.Bus.Queue.{step_back, limit_inbound, limit_outbound, max_inbound_content_len}

-- The loop that steps back finds what `floor_char_boundary` does.
step_back-floor : (s : Text) (i : ℕ) → step_back s i ≡ floor_below s i
unfolding step_back floor_below
step_back-floor s zero = refl
step_back-floor s (suc i) = elim (Bool-cases (is_char_boundary s (suc i))) [
  | inl e ↦ rw (e, step_back, floor_below)
  | inr e ↦ rw (e, step_back, floor_below) (step_back-floor s i)
]

inbound_short : (s : Text) → length s ≤ max_inbound_content_len → limit_inbound s ≡ s
unfolding limit_inbound
inbound_short s h = rw (le→ltb _ _ h)

outbound_short : (s : Text) → length s ≤ max_inbound_content_len → limit_outbound s ≡ s
unfolding limit_outbound
outbound_short s h = rw (le→ltb _ _ h)

inbound_long :
    (s : Text)
    → max_inbound_content_len < length s
    → limit_inbound s ≡ take (floor_below s max_inbound_content_len) s
unfolding limit_inbound
inbound_long s h =
    rw (lt→ltb _ _ h) (ap (λ n. take n s) (step_back-floor s max_inbound_content_len))

outbound_long :
    (s : Text)
    → max_inbound_content_len < length s
    → limit_outbound s ≡ take (floor_below s max_inbound_content_len) s
unfolding limit_outbound floor_char_boundary
outbound_long s h = rw (lt→ltb _ _ h, lt→leb _ _ h)

-- Both directions truncate alike: a content within the limit stays as it is, and a longer one
-- becomes its longest prefix of at most a million bytes that ends at a character boundary.
pub limit_lem :
    (content : Text)
    → (limit_inbound content ≡ limit_outbound content)
      × (length (limit_inbound content) ≤ max_inbound_content_len)
      × (length content ≤ max_inbound_content_len → limit_inbound content ≡ content)
      × (max_inbound_content_len < length content
          → (n : ℕ) × (limit_inbound content ≡ take n content)
            × (is_char_boundary content n ≡ true)
            × ((j : ℕ) → j ≤ max_inbound_content_len → is_char_boundary content j ≡ true → j ≤ n))
limit_lem content = (
  same,
  bounded,
  inbound_short content,
  λ long. (
    floor_below content max_inbound_content_len,
    inbound_long content long,
    floor_below-boundary content max_inbound_content_len,
    λ j. floor_below-greatest content max_inbound_content_len j,
  ),
)
  where
    same : limit_inbound content ≡ limit_outbound content
    same = elim (dec_lt max_inbound_content_len (length content)) [
      | yes long ↦ inbound_long content long ∙ sym (outbound_long content long)
      | no short ↦ inbound_short content (omega arith) ∙ sym (outbound_short content (omega arith))
    ]

    bounded : length (limit_inbound content) ≤ max_inbound_content_len
    bounded = elim (dec_lt max_inbound_content_len (length content)) [
      | yes long ↦ rw (inbound_long content long) (
          omega (
            arith,
            length-take (floor_below content max_inbound_content_len) content,
            floor_below-le content max_inbound_content_len,
          ))
      | no short ↦ rw (inbound_short content (omega arith)) (omega arith)
    ]
