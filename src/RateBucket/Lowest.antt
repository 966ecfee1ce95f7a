-- ===== src/RateBucket/Lowest.antt =====
-- `first_set` and `first_set_from` of crates/fusd-math/src/rate_bucket.rs find the lowest bucket: the
-- redemption that starts there skips none.
use Prim.Native.Nat.{bit_and}
use native.Mathlib.Decide.{dec_lt}
use fusion_core.Prelude.{
  ℕ, suc, ◌+◌, ◌-◌, ◌*◌, ◌/◌, ◌%◌, ◌^◌, ◌≤◌, ◌<◌, ◌≡◌, sym, ap, ◌∙◌, false, not, Option, none, some,
  List, [], ◌∷◌, arith, ◌==◌, leb, if◌then◌else◌, Bool-cases, inl, inr, length, get_or, drop,
  get_or-drop, length-drop, drop-All, u64_max,
}
use fusion_core.Bits.{bit, bit-zero, bit_and-lt}
use fusion_core.RateBucket.{trailing_zeros, first_nonzero, first_set, first_set_from}
use fusion_core.RateBucket.Words.{LowestDigit, trailing_zeros_from-LowestDigit, bit-above}
use fusion_core.RateBucket.SetClear.{Fits, holds, get_or-Fits}

-- The lowest bucket from `from` on, or that there is none.
abbrev pub Finds : List ℕ → ℕ → Option ℕ → Type 0
Finds words from none = (c : ℕ) → from ≤ c → c < length words * 64 → holds words c ≡ 0
Finds words from (some r) =
    (from ≤ r)
    × (r < length words * 64)
    × (holds words r ≡ 1)
    × ((c : ℕ) → from ≤ c → c < r → holds words c ≡ 0)

-- The same for the words from the index `i` on.
abbrev FindsAt : ℕ → List ℕ → Option ℕ → Type 0
FindsAt i ws none =
    (c : ℕ) → i * 64 ≤ c → c < (i + length ws) * 64 → bit (c % 64) (get_or ws (c / 64 - i) 0) ≡ 0
FindsAt i ws (some r) =
    (i * 64 ≤ r)
    × (r < (i + length ws) * 64)
    × (bit (r % 64) (get_or ws (r / 64 - i) 0) ≡ 1)
    × ((c : ℕ) → i * 64 ≤ c → c < r → bit (c % 64) (get_or ws (c / 64 - i) 0) ≡ 0)

-- The bit of a bucket of the first word or of a later one.
cons_at :
    (w : ℕ) (ws : List ℕ) (i c : ℕ)
    → i * 64 ≤ c
    → bit (c % 64) (get_or (w ∷ ws) (c / 64 - i) 0)
      ≡ (if c / 64 == i then bit (c % 64) w else bit (c % 64) (get_or ws (c / 64 - (i + 1)) 0))
cons_at w ws i c h = elim (Bool-cases (c / 64 == i)) [
  | inl first ↦ rw first (ap (λ (k : ℕ). bit (c % 64) (get_or (w ∷ ws) k 0)) {y = 0} (ground arith))
  | inr later ↦ rw later (
      ap (λ (k : ℕ). bit (c % 64) (get_or (w ∷ ws) k 0)) {y = suc (c / 64 - (i + 1))}
        (ground arith))
]

empty_word :
    (w : ℕ) (ws : List ℕ) (i : ℕ) (r : Option ℕ)
    → w ≡ 0
    → FindsAt (i + 1) ws r
    → FindsAt i (w ∷ ws) r
empty_word w ws i none z f =
    λ c h h'. cons_at w ws i c h ∙ ground (arith, ap (bit (c % 64)) z, bit-zero (c % 64), f c)
empty_word w ws i (some r) z f = (
  omega arith,
  omega arith,
  cons_at w ws i r (omega arith) ∙ ground (arith, f.2),
  (λ c h h'. cons_at w ws i c h ∙ ground (arith, ap (bit (c % 64)) z, bit-zero (c % 64), f.3 c)),
)

full_word :
    (w : ℕ) (ws : List ℕ) (i t : ℕ) → LowestDigit 64 w t → FindsAt i (w ∷ ws) (some (i * 64 + t))
full_word w ws i t d = (
  omega arith,
  omega (arith, d.within),
  cons_at w ws i (i * 64 + t) (omega arith)
      ∙ ground
          (arith, ap (λ (k : ℕ). bit k w) {x = (i * 64 + t) % 64} {y = t} (omega arith), d.digit),
  (λ c h h'. cons_at w ws i c h ∙ ground (arith, d.lowest (c % 64))),
)

first_nonzero-FindsAt : (i : ℕ) (ws : List ℕ) → Fits ws → FindsAt i ws (first_nonzero i ws)
unfolding first_nonzero
first_nonzero-FindsAt i [] fits = λ c h h'. absurd (omega arith)
first_nonzero-FindsAt i (w ∷ ws) fits = elim (Bool-cases (w == 0)) [
  | inl empty ↦ rw empty (
      empty_word w ws i (first_nonzero (i + 1) ws) (ground arith)
        (first_nonzero-FindsAt (i + 1) ws fits.1))
  | inr full ↦ rw full (
      full_word w ws i (trailing_zeros w)
        (trailing_zeros_from-LowestDigit 64 w fits.0 (ground arith)))
]

-- From the words of index `i` on to all of them.
at-holds :
    (words : List ℕ) (i c : ℕ)
    → i * 64 ≤ c
    → bit (c % 64) (get_or (drop i words) (c / 64 - i) 0) ≡ holds words c
at-holds words i c h =
    ap (bit (c % 64))
      (get_or-drop i (c / 64 - i) words 0 ∙ ap (λ (k : ℕ). get_or words k 0) (omega arith))

-- If no bucket from `from` on stands below the words that are searched, the search is complete.
from_words :
    (words : List ℕ) (from i : ℕ) (r : Option ℕ)
    → from ≤ i * 64
    → i ≤ length words
    → ((c : ℕ) → from ≤ c → c < i * 64 → holds words c ≡ 0)
    → FindsAt i (drop i words) r
    → Finds words from r
from_words words from i none hf hi below f = λ c h h'. elim (dec_lt c (i * 64)) [
  | yes p ↦ below c h p
  | no p ↦
      sym (at-holds words i c (omega arith))
      ∙ f c (omega arith) (omega (arith, length-drop i words))
]
from_words words from i (some r) hf hi below f = (
  omega (arith, f.0),
  omega (arith, f.1, length-drop i words),
  sym (at-holds words i r f.0) ∙ f.2,
  (λ c h h'. elim (dec_lt c (i * 64)) [
    | yes p ↦ below c h p
    | no p ↦ sym (at-holds words i c (omega arith)) ∙ f.3 c (omega arith) h'
  ]),
)

-- For words of 64 bits `first_set` finds the lowest bucket whose bit is on, and nothing only if
-- there is none.
pub first_set-Finds : (words : List ℕ) → Fits words → Finds words 0 (first_set words)
unfolding first_set
first_set-Finds words fits =
    from_words words 0 0 (first_nonzero 0 words) (omega arith) (omega arith)
      (λ c h h'. absurd (omega arith)) (first_nonzero-FindsAt 0 words fits)

-- the start word without its buckets below `from`
start_word_bits :
    (words : List ℕ) (from c : ℕ)
    → c / 64 ≡ from / 64
    → from ≤ c
    → bit (c % 64) (bit_and (get_or words (from / 64) 0) (u64_max * 2 ^ (from % 64) % 2 ^ 64))
      ≡ holds words c
start_word_bits words from c e h =
    bit-above (c % 64) (from % 64) (get_or words (from / 64) 0) (omega arith) (omega arith)
    ∙ ground (arith, ap (λ (k : ℕ). bit (c % 64) (get_or words k 0)) e)

in_start_word :
    (words : List ℕ) (from t : ℕ)
    → from < length words * 64
    → LowestDigit 64 (bit_and (get_or words (from / 64) 0) (u64_max * 2 ^ (from % 64) % 2 ^ 64)) t
    → Finds words from (some (from / 64 * 64 + t))
in_start_word words from t lt d =
    let w = get_or words (from / 64) 0 in
    let r = from / 64 * 64 + t in
    let not_below : from ≤ r =
      ground (arith, bit-above t (from % 64) w d.within (omega arith), d.digit, d.within) in
    (
      not_below,
      omega (arith, d.within),
      sym (start_word_bits words from r (omega (arith, d.within)) not_below)
          ∙ ap (λ (k : ℕ). bit k (bit_and w (u64_max * 2 ^ (from % 64) % 2 ^ 64)))
              {x = (from / 64 * 64 + t) % 64} {y = t} (omega (arith, d.within))
          ∙ d.digit,
      (λ c h h'.
          sym (start_word_bits words from c (omega (arith, d.within)) h)
          ∙ d.lowest (c % 64) (omega (arith, d.within))),
    )

-- For words of 64 bits `first_set_from` finds the lowest bucket from `from` on whose bit is on,
-- and nothing only if there is none.
pub first_set_from-Finds :
    (words : List ℕ) (from : ℕ) → Fits words → Finds words from (first_set_from words from)
unfolding first_set_from
first_set_from-Finds words from fits = elim (Bool-cases (leb (length words * 64) from)) [
  | inl out ↦ rw out (λ c h h'. absurd (ground arith))
  | inr in_range ↦ rw in_range (search_words in_range)
]
  where
    first_word : ℕ
    first_word = bit_and (get_or words (from / 64) 0) (u64_max * 2 ^ (from % 64) % 2 ^ 64)

    search_words :
        leb (length words * 64) from ≡ false
        → Finds words from (
            if not (first_word == 0)
            then some (from / 64 * 64 + trailing_zeros first_word)
            else first_nonzero (from / 64 + 1) (drop (from / 64 + 1) words))
    search_words lt = elim (Bool-cases (first_word == 0)) [
      | inl empty ↦ rw empty (
          from_words words from (from / 64 + 1) _ (omega arith) (ground arith)
            (λ c h h'.
              sym (start_word_bits words from c (omega arith) h)
              ∙ ap (bit (c % 64)) (ground arith)
              ∙ bit-zero (c % 64))
            (first_nonzero-FindsAt (from / 64 + 1) (drop (from / 64 + 1) words)
              (drop-All _ (from / 64 + 1) words fits)))
      | inr full ↦ rw full (
          in_start_word words from (trailing_zeros first_word) (ground arith) (
            trailing_zeros_from-LowestDigit 64 first_word
              (bit_and-lt 64 _ _ (get_or-Fits words (from / 64) fits) (omega arith))
              (ground arith)))
    ]
