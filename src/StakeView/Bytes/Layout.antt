-- ===== src/StakeView/Bytes/Layout.antt =====
-- Data laid out in chunks, one after the other, and what the readers of
-- crates/fusion-stake-view/src/bytes.rs find in it.
use mathlib.Core.List.{append_assoc}
use native.Mathlib.Nat.{pow-suc}
use fusion_core.Prelude.{
  ℕ, zero, suc, ◌+◌, ◌-◌, ◌/◌, ◌%◌, ◌^◌, ◌≡◌, ◌≤◌, ◌<◌, refl, sym, ap, ◌∙◌, true, ◌&&◌, some, List,
  [], ◌∷◌, ◌++◌, leb, arith, length, take, drop, u64_max, narrow_fits, get_elem?,
}
use fusion_core.StakeView.Bytes.{slice, from_le, read, u8_at, u32_le, u64_le, array32}

-- `width` little-endian bytes of a number.
unfoldable pub to_le : ℕ → ℕ → List ℕ
to_le zero n = []
to_le (suc width) n = (n % 256) ∷ to_le width (n / 256)

pub length-to_le : (width n : ℕ) → length (to_le width n) ≡ width
unfolding to_le
length-to_le zero n = refl
length-to_le (suc width) n = ap suc (length-to_le width (n / 256))

pub from_le-to_le : (width n : ℕ) → n < 256 ^ width → from_le (to_le width n) ≡ n
unfolding to_le
from_le-to_le zero n h = omega arith
from_le-to_le (suc width) n h =
    omega (arith, from_le-to_le width (n / 256) (omega (arith, h, pow-suc 256 width)))

abbrev pub concat : List (List ℕ) → List ℕ
concat [] = []
concat (c ∷ cs) = c ++ concat cs

-- The number of bytes in the chunks.
abbrev pub size : List (List ℕ) → ℕ
size [] = 0
size (c ∷ cs) = length c + size cs

length-append : (xs ys : List ℕ) → length (xs ++ ys) ≡ length xs + length ys
length-append [] ys = omega arith
length-append (x ∷ xs) ys = omega (arith, length-append xs ys)

pub length-concat : (cs : List (List ℕ)) → length (concat cs) ≡ size cs
length-concat [] = refl
length-concat (c ∷ cs) = omega (arith, length-append c (concat cs), length-concat cs)

drop-append : (xs ys : List ℕ) (n : ℕ) → drop (length xs + n) (xs ++ ys) ≡ drop n ys
drop-append [] ys n = ap (λ k. drop k ys) {x = 0 + n} {y = n} (omega arith)
drop-append (x ∷ xs) ys n =
    ap (λ k. drop k (x ∷ xs ++ ys)) {x = suc (length xs) + n} {y = suc (length xs + n)}
      (omega arith)
    ∙ drop-append xs ys n

pub take-append : (xs ys : List ℕ) → take (length xs) (xs ++ ys) ≡ xs
take-append [] ys = refl
take-append (x ∷ xs) ys = ap (λ zs. x ∷ zs) (take-append xs ys)

pub drop-concat :
    (before after : List (List ℕ)) → drop (size before) (concat (before ++ after)) ≡ concat after
drop-concat [] after = refl
drop-concat (c ∷ cs) after = drop-append' c (concat (cs ++ after)) ∙ drop-concat cs after
  where
    drop-append' : (xs ys : List ℕ) → drop (length xs + size cs) (xs ++ ys) ≡ drop (size cs) ys
    drop-append' xs ys = drop-append xs ys (size cs)

size-append : (cs ds : List (List ℕ)) → size (cs ++ ds) ≡ size cs + size ds
size-append [] ds = omega arith
size-append (c ∷ cs) ds = omega (arith, size-append cs ds)

-- A chunk is found at its offset.
pub slice-chunk :
    (before after : List (List ℕ)) (c : List ℕ) (off end : ℕ)
    → size before ≡ off
    → off + length c ≡ end
    → slice (concat (before ++ c ∷ after)) off end ≡ some c
unfolding slice
slice-chunk before after c off end at upto =
    let whole = length-concat (before ++ c ∷ after) in
    let parts = size-append before (c ∷ after) in
    let inside : (leb off end && leb end (length (concat (before ++ c ∷ after)))) ≡ true =
      ground (arith, whole, parts) in
    rw inside (
      ap some (
        ap (λ k. take (end - off) (drop k (concat (before ++ c ∷ after)))) (sym at)
        ∙ (ap (take (end - off)) (drop-concat before (c ∷ after))
            ∙ (ap (λ k. take k (c ++ concat after)) {x = end - off} {y = length c} (omega arith)
                ∙ take-append c (concat after)))))

module _ (before after : List (List ℕ)) (c : List ℕ) (off : ℕ) (at : size before ≡ off) where
  pub read-chunk :
      (width : ℕ)
      → length c ≡ width
      → off + width ≤ u64_max
      → read (concat (before ++ c ∷ after)) off width ≡ some c
  unfolding read
  read-chunk width wide fits =
      rw (narrow_fits u64_max (off + width) fits)
        (slice-chunk before after c off (off + width) at (omega (arith, wide)))

  pub array32-chunk :
      length c ≡ 32 → off + 32 ≤ u64_max → array32 (concat (before ++ c ∷ after)) off ≡ some c
  unfolding array32
  array32-chunk wide fits = read-chunk 32 wide fits

module _ (before after : List (List ℕ)) (n off : ℕ) (at : size before ≡ off) where
  pub u64_le-chunk :
      n ≤ u64_max → off + 8 ≤ u64_max → u64_le (concat (before ++ to_le 8 n ∷ after)) off ≡ some n
  unfolding u64_le
  u64_le-chunk small fits =
      rw (read-chunk before after (to_le 8 n) off at 8 (length-to_le 8 n) fits)
        (ap some (from_le-to_le 8 n (omega arith)))

  pub u32_le-chunk :
      n < 2 ^ 32 → off + 4 ≤ u64_max → u32_le (concat (before ++ to_le 4 n ∷ after)) off ≡ some n
  unfolding u32_le
  u32_le-chunk small fits =
      rw (read-chunk before after (to_le 4 n) off at 4 (length-to_le 4 n) fits)
        (ap some (from_le-to_le 4 n (omega arith)))

get_elem?-append : (xs ys : List ℕ) (x : ℕ) → get_elem? (xs ++ x ∷ ys) (length xs) ≡ some x
get_elem?-append [] ys x = refl
get_elem?-append (z ∷ xs) ys x = get_elem?-append xs ys x

concat-append : (cs ds : List (List ℕ)) → concat (cs ++ ds) ≡ concat cs ++ concat ds
concat-append [] ds = refl
concat-append (c ∷ cs) ds =
    ap (λ zs. c ++ zs) (concat-append cs ds) ∙ sym (append_assoc c (concat cs) (concat ds))

pub u8_at-chunk :
    (before after : List (List ℕ)) (b off : ℕ)
    → size before ≡ off
    → u8_at (concat (before ++ (b ∷ []) ∷ after)) off ≡ some b
unfolding u8_at
u8_at-chunk before after b off at =
    let e : length (concat before) ≡ off = length-concat before ∙ at in
    rw (concat-append before ((b ∷ []) ∷ after), ← e)
      (get_elem?-append (concat before) (concat after) b)
