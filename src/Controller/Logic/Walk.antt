-- ===== src/Controller/Logic/Walk.antt =====
-- `rebalance_slot` of programs/fusion-stake-controller/src/logic.rs: the two passes of the walk.
use native.Mathlib.Nat.{
  mod-eq_of_lt, add-mod_right, add-mul-div_right, div-eq_of_lt, zero-add, div-add-mod, mod-lt,
  mod-mod, div-lt_iff_lt-mul,
}
use fusion_core.Prelude.{
  ℕ, zero, suc, ◌+◌, ◌-◌, ◌*◌, ◌/◌, ◌%◌, ◌^◌, ◌≡◌, ◌≤◌, ◌<◌, refl, sym, ap, ◌∙◌, inl, inr,
  Bool-cases, true, false, ◌||◌, some, none, some-injective, ltb, leb, leb→le, ◌==◌, if◌then◌else◌,
  saturating_mul, u64_max, arith,
}
use fusion_core.Stake.Targets.{rotation_start}
use fusion_core.Controller.Logic.{RebalanceSlot, rebalance_slot}

abbrev start_of : ℕ → ℕ → ℕ
start_of epoch n = epoch % n

-- The index of an ordinal, from a start.
abbrev rotate : ℕ → ℕ → ℕ → ℕ
rotate n start o = if ltb (start + o) n then start + o else start + o - n

rotate_lem : (n start o : ℕ) → start < n → o < n → (start + o) % n ≡ rotate n start o
rotate_lem n start o hs ho = elim (Bool-cases (ltb (start + o) n)) [
  | inl before ↦ rw before (mod-eq_of_lt (ground arith))
  | inr after ↦ rw after (
      ap (λ x. x % n) {x = start + o} {y = start + o - n + n} (ground arith)
      ∙ (add-mod_right (start + o - n) n ∙ mod-eq_of_lt (ground arith)))
]

quotient : (n p o : ℕ) → o < n → (p * n + o) / n ≡ p
quotient n p o h =
    ap (λ x. x / n) {x = p * n + o} {y = o + p * n} (omega arith)
    ∙ (add-mul-div_right o p (omega (arith, h)) ∙ (ap (λ x. x + p) (div-eq_of_lt h) ∙ zero-add p))

remainder : (n p o : ℕ) → o < n → (p * n + o) % n ≡ o
remainder n p o h =
    let whole = div-add-mod (p * n + o) n in
    let q = ap (λ x. n * x) (quotient n p o h) in omega (arith, whole, q)

visit_lt : (n p o : ℕ) → p < 2 → o < n → p * n + o < n * 2
visit_lt n zero o hp ho = omega (arith, ho)
visit_lt n (suc zero) o hp ho = omega (arith, ho)
visit_lt n (suc (suc p)) o hp ho = absurd (omega arith)

-- The slot of the `o`-th visit of a pass.
slot_at :
    (n epoch p o : ℕ)
    → p < 2
    → o < n
    → n * 2 ≤ u64_max
    → rebalance_slot (p * n + o) n epoch
      ≡ some (record { pass = p; index = rotate n (start_of epoch n) o })
unfolding rebalance_slot rotation_start
slot_at n epoch p o hp ho hn =
    let busy : (n == 0 || leb (saturating_mul u64_max n 2) (p * n + o)) ≡ false =
      let lt = visit_lt n p o hp ho in ground arith in
    let some_planned : (n == 0) ≡ false = ground arith in
    let first : epoch % n < n = mod-lt epoch (omega (arith, ho)) in
    let small : p % 2 ^ 8 ≡ p = mod-eq_of_lt (omega arith) in
    let start = mod-mod epoch n in
    let no_wrap : (epoch % n + o) % 2 ^ 64 ≡ epoch % n + o = mod-eq_of_lt (omega arith) in
    rw
      (
        busy,
        some_planned,
        quotient n p o ho,
        remainder n p o ho,
        small,
        start,
        no_wrap,
        rotate_lem n (epoch % n) o first ho,
      )
      refl

-- The ordinal that is rotated to an index.
abbrev ordinal : ℕ → ℕ → ℕ → ℕ
ordinal n start i = if ltb i start then i + n - start else i - start

rotate-ordinal :
    (n start i : ℕ)
    → start < n
    → i < n
    → (ordinal n start i < n) × (rotate n start (ordinal n start i) ≡ i)
rotate-ordinal n start i hs hi = elim (Bool-cases (ltb i start)) [
  | inl before ↦ rw before (ground arith, ground arith)
  | inr after ↦ rw after (ground arith, ground arith)
]

rotate-injective :
    (n start o i : ℕ) → start < n → o < n → rotate n start o ≡ i → o ≡ ordinal n start i
rotate-injective n start o i hs ho e = elim (Bool-cases (ltb (start + o) n)) [
  | inl before ↦ ground (arith, e, before)
  | inr after ↦ ground (arith, e, after)
]

past_the_end : (n epoch d : ℕ) → n * 2 ≤ u64_max → n * 2 ≤ d → rebalance_slot d n epoch ≡ none
unfolding rebalance_slot
past_the_end n epoch d hn h =
    let done : (n == 0 || leb (saturating_mul u64_max n 2) d) ≡ true = ground arith in rw done refl

slot_of_other :
    (n epoch p i d : ℕ)
    → p < 2
    → i < n
    → n * 2 ≤ u64_max
    → rebalance_slot d n epoch ≡ some (record { pass = p; index = i })
    → d ≡ p * n + ordinal n (epoch % n) i
slot_of_other n epoch p i d hp hi hn e = elim (Bool-cases (leb (n * 2) d)) [
  | inl past ↦ let nothing = past_the_end n epoch d hn (leb→le (n * 2) d past) in cc (nothing, e)
  | inr inside ↦
      let pos : 0 < n = omega (arith, hi) in
      let q = d / n in
      let r = d % n in
      let whole : d ≡ q * n + r = omega (arith, div-add-mod d n) in
      let hr : r < n = mod-lt d pos in
      let hq : q < 2 = (div-lt_iff_lt-mul {k = n} {x = d} {y = 2} pos).1 (ground arith) in
      let at : rebalance_slot d n epoch
          ≡ some (record { pass = q; index = rotate n (epoch % n) r }) =
        ap (λ c. rebalance_slot c n epoch) whole ∙ slot_at n epoch q r hq hr hn in
      let same : record { pass = q; index = rotate n (epoch % n) r }
          ≡ record { pass = p; index = i } =
        some-injective (sym at ∙ e) in
      let same_pass : q ≡ p = ap (λ (s : RebalanceSlot). s.pass) same in
      let same_index : rotate n (epoch % n) r ≡ i = ap (λ (s : RebalanceSlot). s.index) same in
      let same_ordinal = rotate-injective n (epoch % n) r i (mod-lt epoch pos) hr same_index in
      whole ∙ ap (λ x. x * n + r) same_pass ∙ ap (λ x. p * n + x) same_ordinal
]

-- A plan of `n` validators is walked in two passes of `n` visits. Each pass visits each of the
-- validators, at one value of the cursor alone; once the cursor has passed both, there is no visit.
pub visits_each_once :
    (n epoch p i : ℕ)
    → n * 2 ≤ u64_max
    → p < 2
    → i < n
    → (c : ℕ) × (c < n * 2)
      × (rebalance_slot c n epoch ≡ some (record { pass = p; index = i }))
      × ((d : ℕ) → rebalance_slot d n epoch ≡ some (record { pass = p; index = i }) → d ≡ c)
      × ((d : ℕ) → n * 2 ≤ d → rebalance_slot d n epoch ≡ none)
visits_each_once n epoch p i hn hp hi =
    let first : epoch % n < n = mod-lt epoch (omega (arith, hi)) in
    let (lt, back) = rotate-ordinal n (epoch % n) i first hi in
    let o = ordinal n (epoch % n) i in
    (
      p * n + o,
      visit_lt n p o hp lt,
      slot_at n epoch p o hp lt hn ∙ ap (λ x. some (record { pass = p; index = x })) back,
      (λ d e. slot_of_other n epoch p i d hp hi hn e),
      (λ d h. past_the_end n epoch d hn h),
    )
