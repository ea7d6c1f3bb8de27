-- ===== src/Storage/Varint/Groups.antt =====
-- crates/adabt-storage/src/varint.rs: a number as groups of 7 bits, and one turn of the reader.
use native.Mathlib.Nat.{pow-le-pow_right, pow-suc, div-add-mod'}
use a_da_bt.Prelude.{
  ℕ, suc, ◌+◌, ◌*◌, ◌/◌, ◌%◌, ◌^◌, ◌≤◌, ◌<◌, ◌≡◌, refl, ap, ◌∙◌, false, List, ◌∷◌, leb, ltb, ◌==◌,
  ==_iff, subst, ◌&&◌, ◌||◌, if◌then◌else◌, arith, Bool-cases, inl, inr,
}
use a_da_bt.Storage.Varint.{value, read_loop}

-- 2 ^ 63 is the last power a group of 7 bits starts at.
power_bound : (i P : ℕ) → P ≡ 2 ^ (7 * i) → P < 2 ^ 64 → i ≤ 9
power_bound i P h lt = elim (Bool-cases (leb i 9)) [
  | inl e ↦ ground arith
  | inr e ↦
      let big : 2 ^ 70 ≤ 2 ^ (7 * i) = pow-le-pow_right (omega arith) {i = 70} (ground arith) in
      omega arith
]

-- At the last group, one bit is left.
last_group : (i p : ℕ) → i ≤ 9 → p * 2 ^ (7 * i) < 2 ^ 64 → (7 * i == 63 && ltb 1 p) ≡ false
last_group i p hi fits = elim (Bool-cases (i == 9)) [
  | inl e ↦
      let nine : i ≡ 9 = (==_iff i 9).0 e in
      let small : p * 2 ^ 63 < 2 ^ 64 = subst (λ (j : ℕ). p * 2 ^ (7 * j) < 2 ^ 64) nine fits in
      ground arith
  | inr e ↦ ground arith
]

in_range : (a : ℕ) → a < 2 ^ 64 → a % 2 ^ 64 ≡ a
in_range a h = omega arith

no_overflow :
    (i p : ℕ)
    → i ≤ 9
    → p * 2 ^ (7 * i) < 2 ^ 64
    → (leb 64 (7 * i) || (7 * i == 63 && ltb 1 p)) ≡ false
no_overflow i p hi fits =
    let low : leb 64 (7 * i) ≡ false = ground arith in rw (low, last_group i p hi fits)

-- One turn of the reader, where the group fits.
pub read_turn :
    (byte i : ℕ) (bytes : List ℕ) (result : ℕ)
    → i ≤ 9
    → byte % 128 * 2 ^ (7 * i) < 2 ^ 64
    → read_loop (byte ∷ bytes) i (7 * i) result ≡ (
        if ltb byte 128
        then value (result + byte % 128 * 2 ^ (7 * i)) (suc i)
        else read_loop bytes (suc i) (7 * suc i) (result + byte % 128 * 2 ^ (7 * i)))
unfolding read_loop
read_turn byte i bytes result hi fits =
    let early : leb 10 i ≡ false = ground arith in
    let next : 7 * i + 7 ≡ 7 * suc i = omega arith in
    rw (early, no_overflow i (byte % 128) hi fits, in_range (byte % 128 * 2 ^ (7 * i)) fits, next)
      refl

pub power_next : (i : ℕ) → 2 ^ (7 * suc i) ≡ 2 ^ (7 * i) * 128
power_next i =
    let e : 7 * suc i ≡ suc (suc (suc (suc (suc (suc (suc (7 * i))))))) = omega arith in
    rw (e, pow-suc, pow-suc, pow-suc, pow-suc, pow-suc, pow-suc, pow-suc) (omega arith)

join_groups : (q r P : ℕ) → r * P + q * (P * 128) ≡ (q * 128 + r) * P
join_groups q r P = grind arith

-- A number at a power, by its groups: the low one, and the others at the next power.
pub groups : (v P : ℕ) → v % 128 * P + v / 128 * (P * 128) ≡ v * P
groups v P = join_groups (v / 128) (v % 128) P ∙ ap (λ x. x * P) (div-add-mod' v 128)
