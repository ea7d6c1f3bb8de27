-- ===== src/Storage/Varint/Bounds.antt =====
-- crates/adabt-storage/src/varint.rs: what the reader accepts is in range.
use native.Mathlib.Nat.{pow-le-pow_right, mul-le-mul_right}
use a_da_bt.Prelude.{
  ℕ, suc, ◌+◌, ◌*◌, ◌%◌, ◌^◌, ◌≤◌, ◌<◌, ◌≡◌, refl, sym, subst, Bool, true, false, ◌&&◌, ◌||◌, List,
  [], ◌∷◌, leb, ltb, ◌==◌, if◌then◌else◌, arith, length, Bool-cases, inl, inr, ==_iff,
}
use a_da_bt.Storage.Varint.{Decoded, value, too_long, overflows, read_loop, read_u64}
use a_da_bt.Storage.Varint.Groups.{power_next}

joined_room : (p P result : ℕ) → p < 128 → result < P → result + p * P < P * 128
joined_room p P result hp below =
    let most : p * P ≤ 127 * P = mul-le-mul_right P (omega arith) in omega arith

last_bound :
    (p result : ℕ)
    → p ≤ 1
    → result < 2 ^ (7 * 9)
    → (result + p * 2 ^ (7 * 9) % 2 ^ 64 < 2 ^ 64)
      × (result + p * 2 ^ (7 * 9) % 2 ^ 64 < 2 ^ (7 * suc 9))
last_bound p result hp below = (omega arith, omega arith)

-- A number joined from groups stays below the next power, and below 64 bits.
joined_bound :
    (i p result : ℕ)
    → i ≤ 9
    → p < 128
    → (7 * i == 63 && ltb 1 p) ≡ false
    → result < 2 ^ (7 * i)
    → (result + p * 2 ^ (7 * i) % 2 ^ 64 < 2 ^ 64)
      × (result + p * 2 ^ (7 * i) % 2 ^ 64 < 2 ^ (7 * suc i))
joined_bound i p result hi hp last below = elim (Bool-cases (i == 9)) [
  | inl e ↦
      let nine : i ≡ 9 = (==_iff i 9).0 e in
      let one : p ≤ 1 = ground arith in
      subst
        (λ (j : ℕ).
          (result + p * 2 ^ (7 * j) % 2 ^ 64 < 2 ^ 64)
          × (result + p * 2 ^ (7 * j) % 2 ^ 64 < 2 ^ (7 * suc j)))
        (sym nine) (last_bound p result one (subst (λ (j : ℕ). result < 2 ^ (7 * j)) nine below))
  | inr e ↦
      let cap : 2 ^ (7 * suc i) ≤ 2 ^ 63 = pow-le-pow_right (omega arith) {j = 63} (ground arith) in
      let next = power_next i in
      let room = joined_room p (2 ^ (7 * i)) result hp below in
      let whole : p * 2 ^ (7 * i) % 2 ^ 64 ≡ p * 2 ^ (7 * i) = omega arith in
      (omega arith, omega arith)
]

-- What the reader answers, as a claim on an answer.
abbrev Accepted : ℕ → Decoded → Type 0
Accepted most (value v n) = (v < 2 ^ 64) × (n ≤ 10) × (n ≤ most)
Accepted most d = Unit

Accepted-if :
    (b : Bool) (most : ℕ) (x y : Decoded)
    → (b ≡ true → Accepted most x)
    → (b ≡ false → Accepted most y)
    → Accepted most (if b then x else y)
Accepted-if true most x y hx hy = hx refl
Accepted-if false most x y hx hy = hy refl

by_leb : (i : ℕ) → leb 10 i ≡ false → i ≤ 9
by_leb i h = ground arith

or_false : (a b : Bool) → a || b ≡ false → b ≡ false
or_false true b h = absurd (cc)
or_false false b h = h

-- The same at a shift.
turn_bound :
    (i s p result : ℕ)
    → s ≡ 7 * i
    → i ≤ 9
    → p < 128
    → (s == 63 && ltb 1 p) ≡ false
    → result < 2 ^ s
    → (result + p * 2 ^ s % 2 ^ 64 < 2 ^ 64) × (result + p * 2 ^ s % 2 ^ 64 < 2 ^ (s + 7))
turn_bound i s p result hs hi hp last below =
    let next : s + 7 ≡ 7 * suc i = omega arith in
    let (now, then_next) =
      joined_bound i p result hi hp (subst (λ (t : ℕ). (t == 63 && ltb 1 p) ≡ false) hs last)
        (subst (λ (t : ℕ). result < 2 ^ t) hs below) in
    (
      subst (λ (t : ℕ). result + p * 2 ^ t % 2 ^ 64 < 2 ^ 64) (sym hs) now,
      rw next (subst (λ (t : ℕ). result + p * 2 ^ t % 2 ^ 64 < 2 ^ (7 * suc i)) (sym hs) then_next),
    )

read_loop-Accepted :
    (bytes : List ℕ) (i shift result most : ℕ)
    → shift ≡ 7 * i
    → result < 2 ^ shift
    → most ≡ i + length bytes
    → Accepted most (read_loop bytes i shift result)
unfolding read_loop
read_loop-Accepted [] i shift result most hs below hm = tt
read_loop-Accepted (byte ∷ bytes) i shift result most hs below hm =
    Accepted-if (leb 10 i) most too_long _ (λ e. tt)
      (λ early.
        Accepted-if (leb 64 shift || (shift == 63 && ltb 1 (byte % 128))) most overflows _ (λ e. tt)
          (λ fits.
            let hi : i ≤ 9 = by_leb i early in
            let (now, next) =
              turn_bound i shift (byte % 128) result hs hi (omega arith)
                (or_false (leb 64 shift) (shift == 63 && ltb 1 (byte % 128)) fits) below in
            Accepted-if (ltb byte 128) most _ _ (λ e. (now, omega arith, omega arith))
              (λ e.
                read_loop-Accepted bytes (suc i) (shift + 7) _ most (omega arith) next
                  (omega arith))))

-- What the reader accepts, from any buffer, is a 64-bit number in at most 10 bytes, none of them
-- beyond the buffer's end.
pub read_u64-Accepted :
    (bytes : List ℕ) (v n : ℕ)
    → read_u64 bytes ≡ value v n
    → (v < 2 ^ 64) × (n ≤ 10) × (n ≤ length bytes)
unfolding read_u64
read_u64-Accepted bytes v n h =
    subst (Accepted (length bytes)) h
      (read_loop-Accepted bytes 0 0 0 (length bytes) refl (omega arith) (omega arith))
