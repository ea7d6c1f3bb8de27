-- ===== src/Storage/Varint/Length.antt =====
-- crates/adabt-storage/src/varint.rs: the groups that the writer writes, and their number.
use a_da_bt.Prelude.{
  ℕ, zero, suc, ◌+◌, ◌/◌, ◌%◌, ◌≤◌, ◌≡◌, refl, sym, ap, ◌∙◌, true, false, [], ◌∷◌, ◌==◌, arith,
  length, Bool-cases, inl, inr,
}
use a_da_bt.Storage.Varint.{write_loop, len_loop}

pub write_last : (fuel v : ℕ) → (v / 128 == 0) ≡ true → write_loop (suc fuel) v ≡ v % 128 ∷ []
unfolding write_loop
write_last fuel v h = rw h

pub write_more :
    (fuel v : ℕ)
    → (v / 128 == 0) ≡ false
    → write_loop (suc fuel) v ≡ (v % 128 + 128) ∷ write_loop fuel (v / 128)
unfolding write_loop
write_more fuel v h = rw h

len_loop_end : (fuel v : ℕ) → (v == 0) ≡ true → len_loop fuel v ≡ 0
unfolding len_loop
len_loop_end zero v h = refl
len_loop_end (suc fuel) v h = rw h

len_loop_more :
    (fuel v : ℕ) → (v == 0) ≡ false → len_loop (suc fuel) v ≡ suc (len_loop fuel (v / 128))
unfolding len_loop
len_loop_more fuel v h = rw h

no_len : (v : ℕ) → len_loop zero v ≡ 0
unfolding len_loop
no_len v = refl

no_writes : (v : ℕ) → write_loop zero v ≡ []
unfolding write_loop
no_writes v = refl

-- One turn of both loops.
len_turn :
    (fuel v : ℕ)
    → ((v / 128 == 0) ≡ false → length (write_loop fuel (v / 128)) ≡ len_loop fuel (v / 128))
    → length (write_loop (suc fuel) v) ≡ suc (len_loop fuel (v / 128))
len_turn fuel v rest = elim (Bool-cases (v / 128 == 0)) [
  | inl e ↦
      ap length (write_last fuel v e)
      ∙ ap (λ n. 1 + n) (sym (len_loop_end fuel (v / 128) e))
      ∙ omega arith
  | inr e ↦ ap length (write_more fuel v e) ∙ ap suc (rest e)
]

pub len-write_loop : (fuel v : ℕ) → length (write_loop (suc fuel) v) ≡ suc (len_loop fuel (v / 128))
len-write_loop zero v =
    len_turn zero v (λ e. ap length (no_writes (v / 128)) ∙ sym (no_len (v / 128)))
len-write_loop (suc fuel) v =
    len_turn (suc fuel) v
      (λ e. len-write_loop fuel (v / 128) ∙ sym (len_loop_more fuel (v / 128) e))

pub len_loop_bound : (fuel v : ℕ) → len_loop fuel v ≤ fuel
unfolding len_loop
len_loop_bound zero v = omega arith
len_loop_bound (suc fuel) v = elim (Bool-cases (v == 0)) [
  | inl e ↦ rw e (omega arith)
  | inr e ↦ rw e (omega (arith, len_loop_bound fuel (v / 128)))
]
