-- ===== src/Telemetry/Sketch/Estimate.antt =====
-- crates/adabt-telemetry/src/sketch.rs: an estimate is never below the true count.
use a_da_bt.Prelude.{
  ℕ, zero, suc, ◌+◌, ◌/◌, ◌%◌, ◌^◌, ◌≤◌, ◌<◌, ◌≡◌, refl, sym, ap, ◌∙◌, subst, false, List, [], ◌∷◌,
  ◌==◌, if◌then◌else◌, ==_iff, arith, Bool-cases, inl, inr,
}
use a_da_bt.Telemetry.Sketch.{
  rows, max_count, TemperatureSketch, new, slot, saturating_add, bump, observe_rows, decay,
  decay_if_due, observe, least, estimate, clear,
}

-- What is done with a sketch.
pub data Use : Type 0 where
  observes : ℕ → Use
  decays_now clears : Use

unfoldable pub apply_use : TemperatureSketch → Use → TemperatureSketch
unfolding observe decay clear
apply_use s (observes key) = observe s key
apply_use s decays_now = decay s
apply_use s clears = clear s

unfoldable pub apply_uses : TemperatureSketch → List Use → TemperatureSketch
unfolding apply_use
apply_uses s [] = s
apply_uses s (u ∷ us) = apply_uses (apply_use s u) us

-- A counter of one key's observations alone, halved and cleared when the sketch is.
pub record Exact : Type 0 where
  pub count : ℕ
  pub seen : ℕ

abbrev halve : ℕ → Exact → Exact
halve interval e = if e.seen % interval == 0 then record e { count = e.count / 2 } else e

unfoldable pub count_use : ℕ → ℕ → Exact → Use → Exact
count_use interval key e (observes k) = halve interval (record {
  count = if k == key then saturating_add e.count 1 else e.count;
  seen = (e.seen + 1) % 2 ^ 64;
})
count_use interval key e decays_now = record e { count = e.count / 2 }
count_use interval key e clears = record { count = 0; seen = 0 }

unfoldable pub count_uses : ℕ → ℕ → Exact → List Use → Exact
unfolding count_use
count_uses interval key e [] = e
count_uses interval key e (u ∷ us) = count_uses interval key (count_use interval key e u) us

-- Each of the key's four counters is at least the count.
record Covers (interval key : ℕ) (s : TemperatureSketch) (e : Exact) : Type 0 where
  each_row : (row : ℕ) → row < rows → e.count ≤ s.counts (slot s.width key row)
  same_seen : s.observations ≡ e.seen
  capped : e.count ≤ max_count
  same_interval : s.decay_interval ≡ interval

bump_ge : (counts : ℕ → ℕ) (at i n : ℕ) → n ≤ max_count → n ≤ counts i → n ≤ bump counts at i
unfolding bump
bump_ge counts at i n small h = ground arith

observe_rows_ge :
    (width key row n : ℕ) (counts : ℕ → ℕ) (i c : ℕ)
    → c ≤ max_count
    → c ≤ counts i
    → c ≤ observe_rows width key row n counts i
unfolding observe_rows
observe_rows_ge width key row zero counts i c small h = h
observe_rows_ge width key row (suc n) counts i c small h =
    observe_rows_ge width key (suc row) n (bump counts (slot width key row)) i c small
      (bump_ge counts (slot width key row) i c small h)

bump_hit : (counts : ℕ → ℕ) (at c : ℕ) → c ≤ counts at → saturating_add c 1 ≤ bump counts at at
unfolding bump
bump_hit counts at c h = ground arith

later : (a b : ℕ) → a ≤ b → (a == b) ≡ false → suc a ≤ b
later a b h e = ground arith

observe_rows_hit :
    (width key start n row : ℕ) (counts : ℕ → ℕ) (c : ℕ)
    → c ≤ max_count
    → start ≤ row
    → row < start + n
    → c ≤ counts (slot width key row)
    → saturating_add c 1 ≤ observe_rows width key start n counts (slot width key row)
unfolding observe_rows
observe_rows_hit width key start zero row counts c small from below h = absurd (omega arith)
observe_rows_hit width key start (suc n) row counts c small from below h =
    elim (Bool-cases (start == row)) [
      | inl e ↦
          let same : start ≡ row = (==_iff start row).0 e in
          observe_rows_ge width key (suc start) n (bump counts (slot width key start))
            (slot width key row) (saturating_add c 1) (omega arith)
            (subst (λ k. saturating_add c 1 ≤ bump counts (slot width key k) (slot width key row))
              (sym same) (bump_hit counts (slot width key row) c h))
      | inr e ↦
          observe_rows_hit width key (suc start) n row (bump counts (slot width key start)) c small
            (later start row from e) (omega arith)
            (bump_ge counts (slot width key start) (slot width key row) c small h)
    ]

module _ (interval key : ℕ) where
  decay-Covers :
      (s : TemperatureSketch) (e : Exact)
      → Covers interval key s e
      → Covers interval key (decay s) (record e { count = e.count / 2 })
  unfolding decay
  decay-Covers s e c = record {
    each_row = λ row h. omega (arith, c.each_row row h);
    same_seen = c.same_seen;
    capped = omega (arith, c.capped);
    same_interval = c.same_interval;
  }

  decay_if_due-Covers :
      (s : TemperatureSketch) (e : Exact)
      → Covers interval key s e
      → Covers interval key (decay_if_due s) (halve interval e)
  unfolding decay_if_due
  decay_if_due-Covers s e c =
      let same : (e.seen % interval == 0) ≡ (s.observations % s.decay_interval == 0) =
        ap (λ n. n % interval == 0) (sym c.same_seen)
        ∙ ap (λ i. s.observations % i == 0) (sym c.same_interval) in
      elim (Bool-cases (s.observations % s.decay_interval == 0)) [
        | inl h ↦ rw (same, h) (decay-Covers s e c)
        | inr h ↦ rw (same, h) c
      ]

  observe-Covers :
      (k : ℕ) (s : TemperatureSketch) (e : Exact)
      → Covers interval key s e
      → Covers interval key (observe s k) (count_use interval key e (observes k))
  unfolding observe count_use
  observe-Covers k s e c = decay_if_due-Covers _ _ (record {
    each_row = λ row h. one_row row h;
    same_seen = ap (λ n. (n + 1) % 2 ^ 64) c.same_seen;
    capped = ground (arith, c.capped);
    same_interval = c.same_interval;
  })
    where
      one_row :
          (row : ℕ)
          → row < rows
          → (if k == key then saturating_add e.count 1 else e.count)
            ≤ observe_rows s.width k 0 rows s.counts (slot s.width key row)
      one_row row h = elim (Bool-cases (k == key)) [
        | inl same ↦ rw same (
            subst
              (λ j.
                saturating_add e.count 1
                ≤ observe_rows s.width j 0 rows s.counts (slot s.width key row))
              (sym ((==_iff k key).0 same))
              (observe_rows_hit s.width key 0 rows row s.counts e.count c.capped (omega arith) h
                (c.each_row row h)))
        | inr other ↦ rw other (
            observe_rows_ge s.width k 0 rows s.counts (slot s.width key row) e.count c.capped
              (c.each_row row h))
      ]

  use-Covers :
      (u : Use) (s : TemperatureSketch) (e : Exact)
      → Covers interval key s e
      → Covers interval key (apply_use s u) (count_use interval key e u)
  unfolding apply_use count_use clear
  use-Covers (observes k) s e c = observe-Covers k s e c
  use-Covers decays_now s e c = decay-Covers s e c
  use-Covers clears s e c = record {
    each_row = λ row h. omega arith;
    same_seen = refl;
    capped = omega arith;
    same_interval = c.same_interval;
  }

  uses-Covers :
      (us : List Use) (s : TemperatureSketch) (e : Exact)
      → Covers interval key s e
      → Covers interval key (apply_uses s us) (count_uses interval key e us)
  unfolding apply_uses count_uses
  uses-Covers [] s e c = c
  uses-Covers (u ∷ us) s e c =
      uses-Covers us (apply_use s u) (count_use interval key e u) (use-Covers u s e c)

  Covers-estimate :
      (s : TemperatureSketch) (e : Exact) → Covers interval key s e → e.count ≤ estimate s key
  unfolding estimate least
  Covers-estimate s e c = omega (
    arith,
    c.each_row 0 (omega arith),
    c.each_row 1 (omega arith),
    c.each_row 2 (omega arith),
    c.each_row 3 (omega arith),
  )

  start-Covers :
      (width : ℕ) → Covers interval key (new width interval) (record { count = 0; seen = 0 })
  start-Covers width = record {
    each_row = λ row h. omega arith;
    same_seen = refl;
    capped = omega arith;
    same_interval = refl;
  }

-- After any observations, decays and clearings of a new sketch, the estimate for a key is at least
-- what a counter of that key's observations alone would show that is halved and cleared with the
-- sketch.
pub estimate-apply_uses :
    (width interval key : ℕ) (us : List Use)
    → (count_uses interval key (record { count = 0; seen = 0 }) us).count
      ≤ estimate (apply_uses (new width interval) us) key
estimate-apply_uses width interval key us =
    Covers-estimate interval key (apply_uses (new width interval) us)
      (count_uses interval key (record { count = 0; seen = 0 }) us)
      (uses-Covers interval key us (new width interval) (record { count = 0; seen = 0 })
        (start-Covers interval key width))
