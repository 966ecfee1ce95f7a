-- ===== src/Redistribution/Conserve.antt =====
-- One redistribution of crates/fusd-math/src/redistribution.rs, shared out by stake: nothing is paid
-- twice, and what is not paid is dust.
use fusion_core.Prelude.{
  ℕ, ◌+◌, ◌-◌, ◌*◌, ◌/◌, ◌≤◌, ◌<◌, ◌≡◌, refl, ap, List, [], ◌∷◌, Result, ok, ◌>>=◌, >>=-eq-ok,
  arith, length, sum, u128_max, narrow_fits, div_bounds,
}
use fusion_core.Wide.{Wide}
use fusion_core.Money.Rounding.{mul_div_floor_exact}
use fusion_core.Redistribution.{
  precision, RedistError, RedistState, RedistSnapshot, snapshot, redistribute, accumulate,
  pending_one, pending,
}
use fusion_core.Redistribution.Accumulate.{accumulate-eq-ok}

pub record IsInRange (st : RedistState) : Type 0 where
  pub coll_fits : st.l_coll ≤ u128_max
  pub art_fits : st.l_art ≤ u128_max
  pub coll_error_fits : st.last_coll_error ≤ u128_max
  pub art_error_fits : st.last_art_error ≤ u128_max

-- `amount` went into an accumulator: what it grew by, times the stakes, and the change of the
-- carried error make up the amount exactly.
pub record Fed (total amount l e l' e' : ℕ) : Type 0 where
  pub balance : l' * total + e' ≡ l * total + amount * precision + e
  pub small : e' < total
  pub grows : l ≤ l'
  pub fits : l' ≤ u128_max

abbrev pub paid_coll : List (ℕ × ℕ) → ℕ
paid_coll [] = 0
paid_coll ((c, _) ∷ ps) = c + paid_coll ps

abbrev pub paid_art : List (ℕ × ℕ) → ℕ
paid_art [] = 0
paid_art ((_, a) ∷ ps) = a + paid_art ps

-- What a side pays out: at most what was fed in with the error of before, and all of it but the
-- error carried on and one unit for each recipient.
pub record Shared (amount e e' recipients paid : ℕ) : Type 0 where
  pub never_over : paid * precision ≤ amount * precision + e
  pub only_dust : amount * precision + e ≤ (paid + recipients) * precision + e'

module _ ⦃w : Wide⦄ where
  accumulate-Fed :
      (l e t a l' e' : ℕ)
      → e ≤ u128_max
      → 0 < t
      → t ≤ u128_max
      → a ≤ u128_max
      → accumulate l e t a ≡ (ok l', e')
      → Fed t a l e l' e'
  accumulate-Fed l e t a l' e' he pos ht ha h =
      let (p, q, fits) = accumulate-eq-ok e t a he pos ht ha l l' e' h in
      let b = div_bounds (a * precision + e) t pos in
      record {
        balance = omega (arith, ap (λ (x : ℕ). x * t) p);
        small = omega arith;
        grows = omega arith;
        fits = fits;
      }

  redistribute-eq-ok :
      (st : RedistState) (total coll art : ℕ) (st' : RedistState)
      → redistribute st total coll art ≡ (ok tt, st')
      → (0 < total)
        × (accumulate st.l_coll st.last_coll_error total coll
            ≡ (ok st'.l_coll, st'.last_coll_error))
        × (accumulate st.l_art st.last_art_error total art ≡ (ok st'.l_art, st'.last_art_error))
  unfolding redistribute
  redistribute-eq-ok st total coll art st' h = ground arith

  -- If a redistribution succeeds, both accumulators have taken in exactly what was redistributed,
  -- up to the errors that they carry, which are smaller than the stakes, and the state stays in range.
  pub redistribute-Fed :
      (st : RedistState) (total coll art : ℕ) {st' : RedistState}
      → IsInRange st
      → total ≤ u128_max
      → coll ≤ u128_max
      → art ≤ u128_max
      → redistribute st total coll art ≡ (ok tt, st')
      → (0 < total)
        × Fed total coll st.l_coll st.last_coll_error st'.l_coll st'.last_coll_error
        × Fed total art st.l_art st.last_art_error st'.l_art st'.last_art_error
        × IsInRange st'
  redistribute-Fed st total coll art {st'} r ht hc ha h =
      let (pos, c, a) = redistribute-eq-ok st total coll art st' h in
      let fed_coll =
        accumulate-Fed st.l_coll st.last_coll_error total coll st'.l_coll st'.last_coll_error
          r.coll_error_fits pos ht hc c in
      let fed_art =
        accumulate-Fed st.l_art st.last_art_error total art st'.l_art st'.last_art_error
          r.art_error_fits pos ht ha a in
      (pos, fed_coll, fed_art, omega arith)

  pub pending_one_exact :
      (stake l d l' : ℕ)
      → stake ≤ u128_max
      → l' ≤ u128_max
      → l' ≡ l + d
      → stake * d / precision ≤ u128_max
      → pending_one stake l' l ≡ ok (stake * d / precision)
  unfolding pending_one
  pending_one_exact stake l d l' hs hl e fits = ground (
    arith,
    mul_div_floor_exact stake d precision hs,
    narrow_fits u128_max (stake * d / precision) fits,
  )

  -- What each stake of a list collects on one side.
  abbrev pending_one_each : List ℕ → ℕ → ℕ → Result RedistError (List ℕ)
  pending_one_each [] l_now l_snap = ok []
  pending_one_each (s ∷ ss) l_now l_snap =
      pending_one s l_now l_snap >>= λ x. pending_one_each ss l_now l_snap >>= λ xs. ok (x ∷ xs)

  pending_one_each_bounds :
      (stakes : List ℕ) (l d l' cap : ℕ)
      → l' ≤ u128_max
      → l' ≡ l + d
      → cap ≤ u128_max
      → sum stakes ≤ u128_max
      → sum stakes * d ≤ cap * precision
      → (xs : List ℕ) × (pending_one_each stakes l' l ≡ ok xs)
        × (sum xs * precision ≤ sum stakes * d)
        × (sum stakes * d ≤ (sum xs + length stakes) * precision)
  pending_one_each_bounds [] l d l' cap hl e hc hs h = ([], refl, omega arith, omega arith)
  pending_one_each_bounds (s ∷ ss) l d l' cap hl e hc hs h =
      let (xs, each, low, high) =
        pending_one_each_bounds ss l d l' cap hl e hc (omega arith) (omega arith) in
      let one = pending_one_exact s l d l' (omega arith) hl e (omega arith) in
      (s * d / precision ∷ xs, rw (one, each), omega arith, omega arith)

  -- Both sides of `pending` for each stake of a list.
  abbrev pub pending_each :
      List ℕ → RedistState → RedistSnapshot → Result RedistError (List (ℕ × ℕ))
  pending_each [] st snap = ok []
  pending_each (s ∷ ss) st snap =
      pending s st snap >>= λ x. pending_each ss st snap >>= λ xs. ok (x ∷ xs)

  pending_each_zip :
      (stakes : List ℕ) (st : RedistState) (snap : RedistSnapshot) (xs ys : List ℕ)
      → pending_one_each stakes st.l_coll snap.l_coll ≡ ok xs
      → pending_one_each stakes st.l_art snap.l_art ≡ ok ys
      → (ps : List (ℕ × ℕ)) × (pending_each stakes st snap ≡ ok ps)
        × (paid_coll ps ≡ sum xs)
        × (paid_art ps ≡ sum ys)
  unfolding pending
  pending_each_zip [] st snap xs ys hx hy = ([], refl, ground arith, ground arith)
  pending_each_zip (s ∷ ss) st snap xs ys hx hy =
      let (x, ex, hx') = >>=-eq-ok (pending_one s st.l_coll snap.l_coll) _ hx in
      let (xs', exs, hx'') = >>=-eq-ok (pending_one_each ss st.l_coll snap.l_coll) _ hx' in
      let (y, ey, hy') = >>=-eq-ok (pending_one s st.l_art snap.l_art) _ hy in
      let (ys', eys, hy'') = >>=-eq-ok (pending_one_each ss st.l_art snap.l_art) _ hy' in
      let (ps, eps, cs, ds) = pending_each_zip ss st snap xs' ys' exs eys in
      ((x, y) ∷ ps, rw (ex, ey, eps), ground arith, ground arith)

  side-Shared :
      (stakes : List ℕ) (total amount l e l' e' : ℕ)
      → total ≤ u128_max
      → amount + e ≤ u128_max
      → sum stakes ≡ total
      → Fed total amount l e l' e'
      → (xs : List ℕ) × (pending_one_each stakes l' l ≡ ok xs)
        × Shared amount e e' (length stakes) (sum xs)
  side-Shared stakes total amount l e l' e' ht fits hs fed =
      let d = l' - l in
      let grown : l' ≡ l + d = omega arith in
      let fed_in : total * d + e' ≡ amount * precision + e =
        omega (arith, fed.balance, ap (λ (x : ℕ). x * total) grown) in
      let shared : sum stakes * d ≡ total * d = ap (λ (x : ℕ). x * d) hs in
      let (xs, each, low, high) =
        pending_one_each_bounds stakes l d l' (amount + e) fed.fits grown fits (omega arith)
          (omega arith) in
      (xs, each, record { never_over = omega arith; only_dust = omega arith })

  -- From a state in range and with amounts that fit 128 bits with the carried errors: after a
  -- redistribution that succeeds every recipient can collect, and if the stakes of the
  -- recipients add up to the total, then on each side the payments are at most what was fed in
  -- with the error of before, and short of it by at most the error carried on and one unit for
  -- each recipient.
  pub redistribute-Shared :
      (st : RedistState) (total coll art : ℕ) (stakes : List ℕ) {st' : RedistState}
      → IsInRange st
      → total ≤ u128_max
      → coll + st.last_coll_error ≤ u128_max
      → art + st.last_art_error ≤ u128_max
      → sum stakes ≡ total
      → redistribute st total coll art ≡ (ok tt, st')
      → (ps : List (ℕ × ℕ)) × (pending_each stakes st' (snapshot st) ≡ ok ps)
        × Shared coll st.last_coll_error st'.last_coll_error (length stakes) (paid_coll ps)
        × Shared art st.last_art_error st'.last_art_error (length stakes) (paid_art ps)
  unfolding snapshot
  redistribute-Shared st total coll art stakes {st'} r ht hc ha hs h =
      let (_, fed_coll, fed_art, _) =
        redistribute-Fed st total coll art r ht (omega arith) (omega arith) h in
      let (xs, ex, sx) =
        side-Shared stakes total coll st.l_coll st.last_coll_error st'.l_coll st'.last_coll_error ht
          hc hs fed_coll in
      let (ys, ey, sy) =
        side-Shared stakes total art st.l_art st.last_art_error st'.l_art st'.last_art_error ht ha
          hs fed_art in
      let (ps, eps, cs, ds) = pending_each_zip stakes st' (snapshot st) xs ys ex ey in
      (ps, eps, rw cs sx, rw ds sy)
