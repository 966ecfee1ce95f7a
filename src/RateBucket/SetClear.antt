-- ===== src/RateBucket/SetClear.antt =====
-- `set`, `clear` and `is_set` of crates/fusd-math/src/rate_bucket.rs against the set of the buckets
-- whose bit is one.
use Prim.Native.Nat.{bit_and, bit_or}
use fusion_core.Prelude.{
  ℕ, zero, suc, ◌+◌, ◌-◌, ◌*◌, ◌/◌, ◌%◌, ◌^◌, ◌≤◌, ◌<◌, ◌≡◌, ◌≢◌, refl, sym, ap, ◌∙◌, Bool, true,
  false, Option, none, some, List, [], ◌∷◌, arith, ◌==◌, if◌then◌else◌, Bool-cases, inl, inr,
  length, get_elem?, get_or, All, length-set, get_or-set_self, get_or-set_ne, u64_max, map_some,
  get_elem?-eq-get_or,
}
use fusion_core.Prelude
use fusion_core.Bits.{bit, bit_and-lt, bit_or-lt}
use fusion_core.RateBucket.{num_buckets, mask, set, clear, is_set}
use fusion_core.RateBucket.Words.{power-lt, bit-set, bit-clear, bit-test}

-- Every word has 64 bits.
abbrev pub Fits : List ℕ → Type 0
Fits words = All (λ w. w < 2 ^ 64) words

-- The bit of a bucket.
abbrev pub holds : List ℕ → ℕ → ℕ
holds words b = bit (b % 64) (get_or words (b / 64) 0)

pub get_or-Fits : (words : List ℕ) (i : ℕ) → Fits words → get_or words i 0 < 2 ^ 64
get_or-Fits [] i h = omega arith
get_or-Fits (w ∷ ws) zero h = h.0
get_or-Fits (w ∷ ws) (suc i) h = get_or-Fits ws i h.1

set-Fits : (words : List ℕ) (i v : ℕ) → Fits words → v < 2 ^ 64 → Fits (Prelude.set words i v)
set-Fits [] i v h hv = tt
set-Fits (w ∷ ws) zero v h hv = (hv, h.1)
set-Fits (w ∷ ws) (suc i) v h hv = (h.0, set-Fits ws i v h.1 hv)

holds-update :
    (words : List ℕ) (b v c : ℕ)
    → b / 64 < length words
    → holds (Prelude.set words (b / 64) v) c
      ≡ (if c / 64 == b / 64 then bit (c % 64) v else holds words c)
holds-update words b v c h = elim (Bool-cases (c / 64 == b / 64)) [
  | inl same ↦ rw same (
      ap (bit (c % 64)) (
        ap (λ (i : ℕ). get_or (Prelude.set words (b / 64) v) i 0) (ground arith)
        ∙ get_or-set_self words (b / 64) v 0 h))
  | inr other ↦
      rw other
        (ap (bit (c % 64)) (get_or-set_ne words {i = b / 64} {j = c / 64} v 0 (ground arith)))
]

same_bucket :
    (words : List ℕ) (b value c v : ℕ)
    → bit (c % 64) v ≡ (if c % 64 == b % 64 then value else bit (c % 64) (get_or words (b / 64) 0))
    → (if c / 64 == b / 64 then bit (c % 64) v else holds words c)
      ≡ (if c == b then value else holds words c)
same_bucket words b value c v h =
    ground (arith, ap (λ (i : ℕ). bit (c % 64) (get_or words i 0)) {x = b / 64} {y = c / 64})

-- What an update of one bucket does.
pub record Updated (words : List ℕ) (b value : ℕ) (words' : List ℕ) : Type 0 where
  pub fits : Fits words'
  pub size : length words' ≡ length words
  pub bits : (c : ℕ) → holds words' c ≡ (if c == b then value else holds words c)

-- For a bucket in range and words of 64 bits `set` succeeds, turns the bucket's bit on, and
-- changes no other bucket's, nor the number and the width of the words.
pub set-Updated :
    (words : List ℕ) (b : ℕ)
    → Fits words
    → b < num_buckets words
    → (words' : List ℕ) × (set words b ≡ some words') × Updated words b 1 words'
unfolding set num_buckets
set-Updated words b fits h =
    let i = b / 64 in
    let w = get_or words i 0 in
    let v = bit_or w (mask b) in
    (
      Prelude.set words i v,
      rw (get_elem?-eq-get_or words i 0 (omega arith)),
      record {
        fits =
            set-Fits words i v fits (
              bit_or-lt 64 w (mask b) (get_or-Fits words i fits) (power-lt (b % 64) (omega arith)));
        size = length-set words i v;
        bits = λ c.
            holds-update words b v c (omega arith)
            ∙ same_bucket words b 1 c v (bit-set (c % 64) (b % 64) w);
      },
    )

-- For a bucket in range and words of 64 bits `clear` succeeds, turns the bucket's bit off, and
-- changes no other bucket's, nor the number and the width of the words.
pub clear-Updated :
    (words : List ℕ) (b : ℕ)
    → Fits words
    → b < num_buckets words
    → (words' : List ℕ) × (clear words b ≡ some words') × Updated words b 0 words'
unfolding clear num_buckets
clear-Updated words b fits h =
    let i = b / 64 in
    let w = get_or words i 0 in
    let v = bit_and w (u64_max - mask b) in
    (
      Prelude.set words i v,
      rw (get_elem?-eq-get_or words i 0 (omega arith)),
      record {
        fits =
            set-Fits words i v fits
              (bit_and-lt 64 w (u64_max - mask b) (get_or-Fits words i fits) (omega arith));
        size = length-set words i v;
        bits = λ c.
            holds-update words b v c (omega arith)
            ∙ same_bucket words b 0 c v (bit-clear (c % 64) (b % 64) w (omega arith) (omega arith));
      },
    )

-- In range `is_set` reads the bucket's bit.
pub is_set-holds :
    (words : List ℕ) (b : ℕ)
    → Fits words
    → b < num_buckets words
    → is_set words b ≡ some (holds words b == 1)
unfolding is_set num_buckets
is_set-holds words b fits h = rw (
  get_elem?-eq-get_or words (b / 64) 0 (omega arith),
  bit-test (b % 64) (get_or words (b / 64) 0) (omega arith) (get_or-Fits words (b / 64) fits),
)
