-- ===== src/Telemetry/Sketch.antt =====
-- crates/adabt-telemetry/src/sketch.rs: the count-min sketch with decay. The counters are a map from
-- indices; `width` is a power of two, so `& (width - 1)` is the remainder by it.
pub mod Estimate
mod Tests
use a_da_bt.Prelude.{
  ℕ, zero, suc, ◌+◌, ◌-◌, ◌*◌, ◌/◌, ◌%◌, ◌^◌, min, List, [], ◌∷◌, Bool, ltb, ◌==◌, if◌then◌else◌,
}
use a_da_bt.Storage.Page.Checksum.{xor_bits}

abbrev pub rows : ℕ
rows = 4

abbrev pub max_count : ℕ
max_count = 2 ^ 32 - 1

-- One for each row.
unfoldable pub seed : ℕ → ℕ
seed row =
    if row == 0
    then 0x9e37_79b9_7f4a_7c15
    else if row == 1
    then 0xbf58_476d_1ce4_e5b9
    else if row == 2
    then 0x94d0_49bb_1331_11eb
    else 0xc2b2_ae3d_27d4_eb4f

pub record TemperatureSketch : Type 0 where
  pub width : ℕ
  pub counts : ℕ → ℕ
  pub observations : ℕ
  pub decay_interval : ℕ
  pub decays : ℕ

-- The arguments are a power of two and not 0, which the code asserts.
abbrev pub new : ℕ → ℕ → TemperatureSketch
new width decay_interval = record {
  width = width;
  counts = λ i. 0;
  observations = 0;
  decay_interval = decay_interval;
  decays = 0;
}

unfoldable pub mix : ℕ → ℕ → ℕ
unfolding xor_bits seed
mix key row =
    let h = xor_bits 64 key (seed row) in
    let h₁ = xor_bits 64 h (h / 2 ^ 30) * 0xbf58_476d_1ce4_e5b9 % 2 ^ 64 in
    let h₂ = xor_bits 64 h₁ (h₁ / 2 ^ 27) * 0x94d0_49bb_1331_11eb % 2 ^ 64 in
    xor_bits 64 h₂ (h₂ / 2 ^ 31)

unfoldable pub slot : ℕ → ℕ → ℕ → ℕ
unfolding mix
slot width key row = row * width + mix key row % width

abbrev pub saturating_add : ℕ → ℕ → ℕ
saturating_add a b = min (a + b) max_count

unfoldable pub bump : (ℕ → ℕ) → ℕ → ℕ → ℕ
bump counts at i = if i == at then saturating_add (counts i) 1 else counts i

-- The loop over the rows from one on.
unfoldable pub observe_rows : ℕ → ℕ → ℕ → ℕ → (ℕ → ℕ) → ℕ → ℕ
unfolding slot bump
observe_rows width key row zero counts = counts
observe_rows width key row (suc n) counts =
    observe_rows width key (suc row) n (bump counts (slot width key row))

unfoldable pub decay : TemperatureSketch → TemperatureSketch
decay s = record s { counts = λ i. s.counts i / 2; decays = (s.decays + 1) % 2 ^ 64 }

unfoldable pub decay_if_due : TemperatureSketch → TemperatureSketch
unfolding decay
decay_if_due s = if s.observations % s.decay_interval == 0 then decay s else s

unfoldable pub observe : TemperatureSketch → ℕ → TemperatureSketch
unfolding observe_rows decay_if_due
observe s key = decay_if_due (record s {
  counts = observe_rows s.width key 0 rows s.counts;
  observations = (s.observations + 1) % 2 ^ 64;
})

-- The least of a key's counters, from a row on.
unfoldable pub least : (ℕ → ℕ) → ℕ → ℕ → ℕ → ℕ → ℕ
unfolding slot
least counts width key row zero = counts (slot width key row)
least counts width key row (suc n) =
    min (counts (slot width key row)) (least counts width key (suc row) n)

unfoldable pub estimate : TemperatureSketch → ℕ → ℕ
unfolding least
estimate s key = least s.counts s.width key 0 3

-- Where the widths differ, nothing is merged.
unfoldable pub merge : TemperatureSketch → TemperatureSketch → TemperatureSketch
merge s t =
    if s.width == t.width
    then record s {
      counts = λ i. saturating_add (s.counts i) (t.counts i);
      observations = (s.observations + t.observations) % 2 ^ 64;
    }
    else s

unfoldable pub clear : TemperatureSketch → TemperatureSketch
clear s = record s { counts = λ i. 0; observations = 0; decays = 0 }
