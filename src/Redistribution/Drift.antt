-- ===== src/Redistribution/Drift.antt =====
-- The error feedback of crates/fusd-math/src/redistribution.rs over a sequence of redistributions.
use fusion_core.Prelude.{
  ℕ, ◌+◌, ◌-◌, ◌*◌, ◌/◌, ◌≤◌, ◌<◌, ◌≡◌, refl, ap, List, [], ◌∷◌, Result, ok, err, arith, ◌⊎◌, inl,
  inr, u128_max,
}
use fusion_core.Wide.{Wide}
use fusion_core.Redistribution.{
  precision, RedistError, RedistState, snapshot, redistribute, pending_one, pending,
}
use fusion_core.Redistribution.Conserve.{
  IsInRange, redistribute-Fed, pending_one_exact, paid_coll, paid_art,
}

-- What a sequence of redistributions feeds into one side.
record Run (total fed l e l' e' : ℕ) : Type 0 where
  balance : l' * total + e' ≡ l * total + fed * precision + e
  small : (e' ≡ e) ⊎ (e' < total)
  grows : l ≤ l'

module _ ⦃w : Wide⦄ where
  -- Redistributions of `(coll, art)` in order, among stakes that do not change. It stops at an error.
  abbrev pub redistribute_all :
      List (ℕ × ℕ) → ℕ → RedistState → Result RedistError (Unit {0}) × RedistState
  redistribute_all [] total st = (ok tt, st)
  redistribute_all ((coll, art) ∷ feeds) total st =
      let (r, st') = redistribute st total coll art in
      elim r [ ok _ ↦ redistribute_all feeds total st' | err e ↦ (err e, st') ]

  -- the first call of a sequence that succeeds
  first_call :
      (p : Result RedistError (Unit {0}) × RedistState) (feeds : List (ℕ × ℕ)) (total : ℕ)
      → {st' : RedistState}
      → elim p.0 [ ok _ ↦ redistribute_all feeds total p.1 | err e ↦ (err e, p.1) ] ≡ (ok tt, st')
      → (p ≡ (ok tt, p.1)) × (redistribute_all feeds total p.1 ≡ (ok tt, st'))
  first_call (ok _, m) feeds total h = (refl, h)
  first_call (err e, m) feeds total h = cc

  redistribute_all-Run :
      (feeds : List (ℕ × ℕ)) (total : ℕ) (st st' : RedistState)
      → IsInRange st
      → total ≤ u128_max
      → paid_coll feeds ≤ u128_max
      → paid_art feeds ≤ u128_max
      → redistribute_all feeds total st ≡ (ok tt, st')
      → Run total (paid_coll feeds) st.l_coll st.last_coll_error st'.l_coll st'.last_coll_error
        × Run total (paid_art feeds) st.l_art st.last_art_error st'.l_art st'.last_art_error
        × IsInRange st'
  redistribute_all-Run [] total st st' r ht hc ha h =
      let e = ap (λ p. p.1) h in
      rw (← e) (
        record { balance = omega arith; small = inl refl; grows = omega arith },
        record { balance = omega arith; small = inl refl; grows = omega arith },
        r,
      )
  redistribute_all-Run ((coll, art) ∷ feeds) total st st' r ht hc ha h =
      let (now, later) = first_call (redistribute st total coll art) feeds total h in
      let m = (redistribute st total coll art).1 in
      let (pos, c, a, r') =
        redistribute-Fed st total coll art r ht (omega arith) (omega arith) now in
      let (cs, ds, r'') =
        redistribute_all-Run feeds total m st' r' ht (omega arith) (omega arith) later in
      (
        record {
          balance = omega (arith, c.balance, cs.balance);
          small = inr (omega (arith, cs.small));
          grows = omega arith;
        },
        record {
          balance = omega (arith, a.balance, ds.balance);
          small = inr (omega (arith, ds.small));
          grows = omega arith;
        },
        r'',
      )

  sole_recipient :
      (total fed l e' l' : ℕ)
      → total ≤ precision
      → fed ≤ u128_max
      → l' ≤ u128_max
      → Run total fed l 0 l' e'
      → (c : ℕ) × (pending_one total l' l ≡ ok c) × (c ≤ fed) × (fed ≤ c + 1)
  sole_recipient total fed l e' l' small hf hl r =
      let d = l' - l in
      let grown : l' ≡ l + d = omega arith in
      let fed_in : total * d + e' ≡ fed * precision =
        omega (arith, r.balance, ap (λ (x : ℕ). x * total) grown) in
      let below : e' ≤ precision = omega (arith, r.small) in
      let c = total * d / precision in
      (
        c,
        pending_one_exact total l d l' (omega arith) hl grown (omega arith),
        omega arith,
        omega arith,
      )

  -- From a state in range with no carried error, a sequence of redistributions that succeeds,
  -- among stakes of at most 1e18 and of amounts that add up to 128 bits, never drifts: a
  -- recipient who holds all the stake collects everything that was fed in, or one unit less,
  -- however many redistributions it took.
  pub redistribute_all_no_drift :
      (feeds : List (ℕ × ℕ)) (total : ℕ) (st st' : RedistState)
      → IsInRange st
      → st.last_coll_error ≡ 0
      → st.last_art_error ≡ 0
      → total ≤ precision
      → paid_coll feeds ≤ u128_max
      → paid_art feeds ≤ u128_max
      → redistribute_all feeds total st ≡ (ok tt, st')
      → (c a : ℕ) × (pending total st' (snapshot st) ≡ ok (c, a))
        × (c ≤ paid_coll feeds)
        × (paid_coll feeds ≤ c + 1)
        × (a ≤ paid_art feeds)
        × (paid_art feeds ≤ a + 1)
  unfolding pending snapshot
  redistribute_all_no_drift feeds total st st' r zc za small hc ha h =
      let (rc, ra, r') = redistribute_all-Run feeds total st st' r (omega arith) hc ha h in
      let (c, ec, c_low, c_high) =
        sole_recipient total (paid_coll feeds) st.l_coll st'.last_coll_error st'.l_coll small hc
          r'.coll_fits (rw zc at rc) in
      let (a, ea, a_low, a_high) =
        sole_recipient total (paid_art feeds) st.l_art st'.last_art_error st'.l_art small ha
          r'.art_fits (rw za at ra) in
      (c, a, rw (ec, ea), c_low, c_high, a_low, a_high)
