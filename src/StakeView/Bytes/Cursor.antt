-- ===== src/StakeView/Bytes/Cursor.antt =====
-- A cursor in bytes that are laid out in chunks: what the readers of
-- crates/fusion-stake-view/src/bytes.rs find there, and where the cursor goes.
use fusion_core.Prelude.{
  ℕ, zero, suc, ◌+◌, ◌-◌, ◌^◌, ◌≡◌, ◌≤◌, ◌<◌, refl, sym, ap, ◌∙◌, true, ◌&&◌, some, List, [], ◌∷◌,
  ◌++◌, leb, arith, length, take, drop, u64_max, narrow_fits, get_elem?,
}
use fusion_core.StakeView.Bytes.{slice, read, u8_at, u32_le, u64_le}
use fusion_core.StakeView.Bytes.Layout.{
  to_le, length-to_le, from_le-to_le, concat, size, length-concat, take-append, drop-concat,
}

-- The bytes from `off` to the end are these chunks.
pub record At (xs : List ℕ) (off : ℕ) (cs : List (List ℕ)) : Type 0 where
  pub left : drop off xs ≡ concat cs
  pub inside : off + size cs ≡ length xs

pub At-start : (cs : List (List ℕ)) → At (concat cs) 0 cs
At-start cs = record { left = refl; inside = omega (arith, length-concat cs) }

drop-add : (m n : ℕ) (xs : List ℕ) → drop (m + n) xs ≡ drop n (drop m xs)
drop-add zero n xs = ap (λ k. drop k xs) {x = 0 + n} {y = n} (omega arith)
drop-add (suc m) zero [] = ap (λ k. drop k []) {x = suc m + 0} {y = suc m} (omega arith)
drop-add (suc m) (suc n) [] =
    ap (λ k. drop k []) {x = suc m + suc n} {y = suc (m + suc n)} (omega arith)
drop-add (suc m) n (x ∷ xs) =
    ap (λ k. drop k (x ∷ xs)) {x = suc m + n} {y = suc (m + n)} (omega arith) ∙ drop-add m n xs

size-append : (cs ds : List (List ℕ)) → size (cs ++ ds) ≡ size cs + size ds
size-append [] ds = omega arith
size-append (c ∷ cs) ds = omega (arith, size-append cs ds)

module _ {xs : List ℕ} {off : ℕ} where
  -- Past some of the chunks.
  pub At-skip :
      (cs ds : List (List ℕ)) (end : ℕ) → At xs off (cs ++ ds) → off + size cs ≡ end → At xs end ds
  At-skip cs ds end h e = record {
    left =
        ap (λ k. drop k xs) (sym e)
        ∙ (drop-add off (size cs) xs ∙ (ap (drop (size cs)) h.left ∙ drop-concat cs ds));
    inside = omega (arith, h.inside, size-append cs ds, e);
  }

  pub read-At :
      (c : List ℕ) (cs : List (List ℕ)) (width : ℕ)
      → At xs off (c ∷ cs)
      → length c ≡ width
      → length xs ≤ u64_max
      → read xs off width ≡ some c
  unfolding read slice
  read-At c cs width h wide fits =
      let inside : (leb off (off + width) && leb (off + width) (length xs)) ≡ true =
        ground (arith, h.inside, wide) in
      rw (narrow_fits u64_max (off + width) (omega (arith, h.inside, wide))) (
        rw inside (
          ap some (
            ap (λ k. take k (drop off xs)) {x = off + width - off} {y = length c}
              (omega (arith, wide))
            ∙ (ap (take (length c)) h.left ∙ take-append c (concat cs)))))

  pub u64_le-At :
      (n : ℕ) (cs : List (List ℕ))
      → At xs off (to_le 8 n ∷ cs)
      → n ≤ u64_max
      → length xs ≤ u64_max
      → u64_le xs off ≡ some n
  unfolding u64_le
  u64_le-At n cs h small fits =
      rw (read-At (to_le 8 n) cs 8 h (length-to_le 8 n) fits)
        (ap some (from_le-to_le 8 n (omega arith)))

  pub u32_le-At :
      (n : ℕ) (cs : List (List ℕ))
      → At xs off (to_le 4 n ∷ cs)
      → n < 256 ^ 4
      → length xs ≤ u64_max
      → u32_le xs off ≡ some n
  unfolding u32_le
  u32_le-At n cs h small fits =
      rw (read-At (to_le 4 n) cs 4 h (length-to_le 4 n) fits) (ap some (from_le-to_le 4 n small))

get_elem?-drop :
    (xs : List ℕ) (off : ℕ) (b : ℕ) (ys : List ℕ) → drop off xs ≡ b ∷ ys → get_elem? xs off ≡ some b
get_elem?-drop [] zero b ys e = cc
get_elem?-drop [] (suc off) b ys e = cc
get_elem?-drop (x ∷ xs) zero b ys e = cc e
get_elem?-drop (x ∷ xs) (suc off) b ys e = get_elem?-drop xs off b ys e

pub u8_at-At :
    {xs : List ℕ} {off : ℕ} (b : ℕ) (cs : List (List ℕ))
    → At xs off ((b ∷ []) ∷ cs)
    → u8_at xs off ≡ some b
unfolding u8_at
u8_at-At {xs} {off} b cs h = get_elem?-drop xs off b (concat cs) h.left
