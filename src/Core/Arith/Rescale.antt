-- ===== src/Core/Arith/Rescale.antt =====
-- crates/adabt-core/src/value.rs: `rescale` moves a decimal between scales exactly or not at all.
use native.Mathlib.Nat.{mul-div_cancel, mul-mod_left, div-add-mod', pow-suc}
use a_da_bt.Prelude.{
  ℕ, zero, suc, ◌-◌, ◌*◌, ◌/◌, ◌%◌, ◌^◌, ◌<◌, ◌≡◌, refl, sym, ap, ◌∙◌, subst, true, false, Option,
  some, none, leb, ltb, ◌==◌, if◌then◌else◌, arith, Bool-cases, inl, inr, ==_iff,
}
use a_da_bt.Prelude.Int.{
  ℤ, pos, negsuc, magnitude, signed, ◌*ℤ◌, quot, fits_i128, checked, checked_pow10, checked_mul,
}
use a_da_bt.Core.Order.{◌>>=◌}
use a_da_bt.Core.Arith.{rescale}

signed_true : (m : ℕ) → 0 < m → signed true m ≡ negsuc (m - 1)
signed_true zero h = elim h [ ]
signed_true (suc m) h = ground arith

magnitude-signed_true : (m : ℕ) → magnitude (signed true m) ≡ m
magnitude-signed_true zero = refl
magnitude-signed_true (suc m) = refl

-- Multiplying by a positive number and dividing by it again gives the number back.
quot-mul : (u : ℤ) (d : ℕ) → 0 < d → quot (u *ℤ pos d) (pos d) ≡ u
unfolding quot ◌*ℤ◌
quot-mul (pos n) d h = ap pos (mul-div_cancel n h)
quot-mul (negsuc n) d h =
    let product_pos : 0 < suc n * d = grind arith in
    let e : suc (suc n * d - 1) ≡ suc n * d = omega arith in
    rw (signed_true (suc n * d) product_pos, e, mul-div_cancel (suc n) h)

mod-mul : (u : ℤ) (d : ℕ) → 0 < d → magnitude (u *ℤ pos d) % d ≡ 0
unfolding ◌*ℤ◌
mod-mul (pos n) d h = mul-mod_left n d
mod-mul (negsuc n) d h = rw magnitude-signed_true (mul-mod_left (suc n) d)

mul-quot : (u : ℤ) (d : ℕ) → 0 < d → magnitude u % d ≡ 0 → quot u (pos d) *ℤ pos d ≡ u
unfolding quot ◌*ℤ◌
mul-quot (pos n) d h e = ap pos (omega (arith, div-add-mod' n d))
mul-quot (negsuc n) d h e =
    let whole : suc n / d * d ≡ suc n = omega (arith, div-add-mod' (suc n) d) in
    let some_left : 0 < suc n / d = grind arith in
    let back : suc (suc n / d - 1) ≡ suc n / d = omega arith in
    rw (signed_true (suc n / d) some_left, back, whole)

pow10_pos : (k : ℕ) → 0 < 10 ^ k
pow10_pos zero = omega arith
pow10_pos (suc k) = rw pow-suc (omega (arith, pow10_pos k))

-- The power of ten, where it fits.
pow10_some : (k : ℕ) (p : ℤ) → checked_pow10 k ≡ some p → p ≡ pos (10 ^ k)
unfolding checked_pow10 checked
pow10_some k p h = elim (Bool-cases (ltb (10 ^ k) (2 ^ 127))) [ inl e ↦ cc | inr e ↦ absurd (cc) ]

some-checked : (z w : ℤ) → checked z ≡ some w → (w ≡ z) × (fits_i128 z ≡ true)
unfolding checked
some-checked z w h = elim (Bool-cases (fits_i128 z)) [ inl e ↦ (cc, e) | inr e ↦ absurd (cc) ]

bind_some {ℓ κ} :
    {A : Type ℓ} {B : Type κ} (o : Option A) (f : A → Option B) (b : B)
    → (o >>= f) ≡ some b
    → (a : A) × (o ≡ some a) × (f a ≡ some b)
bind_some none f b h = absurd (cc)
bind_some (some a) f b h = (a, refl, h)

-- What a widening answered: the exact product by a power of ten that fits.
widened :
    (u w : ℤ) (k : ℕ)
    → (checked_pow10 k >>= (λ (p : ℤ). checked_mul u p)) ≡ some w
    → (w ≡ u *ℤ pos (10 ^ k)) × (checked_pow10 k ≡ some (pos (10 ^ k)))
unfolding checked_mul
widened u w k h =
    let (p, found, product) = bind_some (checked_pow10 k) (λ (p : ℤ). checked_mul u p) w h in
    let power = pow10_some k p found in let exact = (some-checked (u *ℤ p) w product).0 in (cc, cc)

-- One direction of the narrowing: the remainder's test and the quotient.
abbrev narrow : ℤ → ℤ → Option ℤ
unfolding quot
narrow u d = if magnitude u % magnitude d == 0 then some (quot u d) else none

narrow-some : (u w : ℤ) (d : ℕ) → 0 < d → narrow u (pos d) ≡ some w → w *ℤ pos d ≡ u
unfolding narrow
narrow-some u w d h found = elim (Bool-cases (magnitude u % d == 0)) [
  | inl e ↦
      let quotient : quot u (pos d) ≡ w = cc in
      subst (λ (z : ℤ). z *ℤ pos d ≡ u) quotient (mul-quot u d h ((==_iff _ 0).0 e))
  | inr e ↦ absurd (cc)
]

narrow-mul : (u : ℤ) (d : ℕ) → 0 < d → narrow (u *ℤ pos d) (pos d) ≡ some u
unfolding narrow
narrow-mul u d h = rw (mod-mul u d h, quot-mul u d h)

narrowed :
    (u w : ℤ) (k : ℕ)
    → (checked_pow10 k >>= narrow u) ≡ some w
    → (w *ℤ pos (10 ^ k) ≡ u) × (checked_pow10 k ≡ some (pos (10 ^ k)))
narrowed u w k h =
    let (d, found, divided) = bind_some (checked_pow10 k) (narrow u) w h in
    let power = pow10_some k d found in (narrow-some u w (10 ^ k) (pow10_pos k) (cc), cc)

widened_form :
    (u : ℤ) (from to : ℕ)
    → leb from to ≡ true
    → rescale u from to ≡ (checked_pow10 (to - from) >>= (λ (p : ℤ). checked_mul u p))
unfolding rescale
widened_form u from to h = rw h

rescale-narrow :
    (u : ℤ) (from to : ℕ)
    → leb from to ≡ false
    → rescale u from to ≡ (checked_pow10 (from - to) >>= narrow u)
unfolding rescale narrow
rescale-narrow u from to h = rw h

mul_back :
    (u w : ℤ) (k : ℕ)
    → fits_i128 u ≡ true
    → w *ℤ pos (10 ^ k) ≡ u
    → checked_pow10 k ≡ some (pos (10 ^ k))
    → (checked_pow10 k >>= (λ (p : ℤ). checked_mul w p)) ≡ some u
unfolding checked_mul checked
mul_back u w k fits e found = rw (found, e, fits)

times_one : (u : ℤ) → u *ℤ pos (10 ^ 0) ≡ u
unfolding ◌*ℤ◌
times_one (pos n) = ap pos (omega arith)
times_one (negsuc n) = let same : suc n * 10 ^ 0 ≡ suc n = omega arith in ap (signed true) same

-- Where a value can be moved to a scale, it can be moved back, and is then what it was: widening
-- and narrowing lose nothing, whatever the scales, and never answer with a rounded value.
pub rescale-rescale :
    (u w : ℤ) (from to : ℕ)
    → fits_i128 u ≡ true
    → rescale u from to ≡ some w
    → rescale w to from ≡ some u
rescale-rescale u w from to fits h = elim (Bool-cases (leb from to)) [
  | inl up ↦
      let (product, found) = widened u w (to - from) (sym (widened_form u from to up) ∙ h) in
      elim (Bool-cases (leb to from)) [
        | inl level ↦
            let none_up : to - from ≡ 0 = ground arith in
            let none_down : from - to ≡ 0 = ground arith in
            let kept : w ≡ u = product ∙ ap (λ (k : ℕ). u *ℤ pos (10 ^ k)) none_up ∙ times_one u in
            let same : w *ℤ pos (10 ^ (from - to)) ≡ u =
              ap (λ (k : ℕ). w *ℤ pos (10 ^ k)) none_down ∙ times_one w ∙ kept in
            widened_form w to from level
            ∙ mul_back u w (from - to) fits same (
                subst (λ (k : ℕ). checked_pow10 k ≡ some (pos (10 ^ k))) (none_up ∙ sym none_down)
                  found)
        | inr down ↦
            rescale-narrow w to from down
            ∙ ap (λ (o : Option ℤ). o >>= narrow w) found
            ∙ ap (λ (z : ℤ). narrow z (pos (10 ^ (to - from)))) product
            ∙ narrow-mul u (10 ^ (to - from)) (pow10_pos (to - from))
      ]
  | inr down ↦
      let (product, found) = narrowed u w (from - to) (sym (rescale-narrow u from to down) ∙ h) in
      widened_form w to from (ground arith) ∙ mul_back u w (from - to) fits product found
]
