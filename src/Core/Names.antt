-- ===== src/Core/Names.antt =====
-- The order of field names: that of their code points, as Rust compares `str`.
use text.Mathlib.Text.{◌==◌ as str_eq}
use Prim.Native.String.compare as str_laws
use Prim.Native.String.{compare as compare_str, then as str_then}
use Prim.Native.Char.{code}
use a_da_bt.Prelude.{
  ℕ, ◌≡◌, ◌≢◌, List, [], ◌∷◌, ◌||◌, refl, sym, ap, subst, ◌∙◌, String, Bool, true, false, Ordering,
  compare, arith, ◌⊎◌, inl, inr, eq_iff, Bool-cases,
}
use a_da_bt.Core.Order.Flip.{flip, compare_str-flip}

-- `names.contains(name)`
unfoldable pub contains : List String → String → Bool
contains [] f = false
contains (x ∷ xs) f = str_eq x f || contains xs f

pub str_eq_refl : (s : String) → str_eq s s ≡ true
str_eq_refl s = (eq_iff s s).1 refl

pub str_eq_false : (s t : String) → s ≢ t → str_eq s t ≡ false
str_eq_false s t h = elim (Bool-cases (str_eq s t)) [
  | inl e ↦ absurd (h ((eq_iff s t).0 e))
  | inr e ↦ e
]

pub Ordering-cases : (o : Ordering) → (o ≡ Ordering.lt) ⊎ ((o ≡ Ordering.eq) ⊎ (o ≡ Ordering.gt))
Ordering-cases Ordering.lt = inl refl
Ordering-cases Ordering.eq = inr (inl refl)
Ordering-cases Ordering.gt = inr (inr refl)

pub compare_str_refl : (s : String) → compare_str s s ≡ Ordering.eq
compare_str_refl s = elim (Ordering-cases (compare_str s s)) [
  | inl e ↦ absurd (cc (compare_str-flip s s, e))
  | inr (inl e) ↦ e
  | inr (inr e) ↦ absurd (cc (compare_str-flip s s, e))
]

pub lt_ne : (s t : String) → compare_str s t ≡ Ordering.lt → s ≢ t
lt_ne s t h e =
    let both : compare_str s s ≡ Ordering.lt =
      subst (λ (u : String). compare_str s u ≡ Ordering.lt) (sym e) h in
    absurd (cc (compare_str_refl s))

pub gt_lt : (s t : String) → compare_str s t ≡ Ordering.gt → compare_str t s ≡ Ordering.lt
gt_lt s t h = compare_str-flip s t ∙ ap flip h

pub lt_gt : (s t : String) → compare_str s t ≡ Ordering.lt → compare_str t s ≡ Ordering.gt
lt_gt s t h = compare_str-flip s t ∙ ap flip h

then_lt :
    (o p : Ordering)
    → str_then o p ≡ Ordering.lt
    → (o ≡ Ordering.lt) ⊎ ((o ≡ Ordering.eq) × (p ≡ Ordering.lt))
then_lt Ordering.lt p h = inl refl
then_lt Ordering.eq p h = inr (refl, h)
then_lt Ordering.gt p h = absurd (cc)

then_of_lt : (o p : Ordering) → o ≡ Ordering.lt → str_then o p ≡ Ordering.lt
then_of_lt o p h = rw h refl

then_of_eq : (o p : Ordering) → o ≡ Ordering.eq → p ≡ Ordering.lt → str_then o p ≡ Ordering.lt
then_of_eq o p h e = rw (h, e)

trans_ll :
    (a b c : ℕ) → compare a b ≡ Ordering.lt → compare b c ≡ Ordering.lt → compare a c ≡ Ordering.lt
trans_ll a b c h k = ground arith

trans_le :
    (a b c : ℕ) → compare a b ≡ Ordering.lt → compare b c ≡ Ordering.eq → compare a c ≡ Ordering.lt
trans_le a b c h k = ground arith

trans_el :
    (a b c : ℕ) → compare a b ≡ Ordering.eq → compare b c ≡ Ordering.lt → compare a c ≡ Ordering.lt
trans_el a b c h k = ground arith

trans_ee :
    (a b c : ℕ) → compare a b ≡ Ordering.eq → compare b c ≡ Ordering.eq → compare a c ≡ Ordering.eq
trans_ee a b c h k = ground arith

heads_trans :
    (a b c : ℕ) (p q r : Ordering)
    → (p ≡ Ordering.lt → q ≡ Ordering.lt → r ≡ Ordering.lt)
    → str_then (compare a b) p ≡ Ordering.lt
    → str_then (compare b c) q ≡ Ordering.lt
    → str_then (compare a c) r ≡ Ordering.lt
heads_trans a b c p q r tails h k = elim (then_lt (compare a b) p h) [
  | inl x ↦ elim (then_lt (compare b c) q k) [
    | inl y ↦ then_of_lt (compare a c) r (trans_ll a b c x y)
    | inr (y, qe) ↦ then_of_lt (compare a c) r (trans_le a b c x y)
  ]
  | inr (x, pe) ↦ elim (then_lt (compare b c) q k) [
    | inl y ↦ then_of_lt (compare a c) r (trans_el a b c x y)
    | inr (y, qe) ↦ then_of_eq (compare a c) r (trans_ee a b c x y) (tails pe qe)
  ]
]

pub compare_str_trans :
    (s t u : String)
    → compare_str s t ≡ Ordering.lt
    → compare_str t u ≡ Ordering.lt
    → compare_str s u ≡ Ordering.lt
compare_str_trans s String.[] String.[] h k = absurd (cc (str_laws.nil-nil))
compare_str_trans String.[] String.[] (String.◌∷◌ e u) h k = str_laws.nil-cons e u
compare_str_trans (String.◌∷◌ c s) String.[] (String.◌∷◌ e u) h k =
    absurd (cc (str_laws.cons-nil c s))
compare_str_trans s (String.◌∷◌ d t) String.[] h k = absurd (cc (str_laws.cons-nil d t))
compare_str_trans String.[] (String.◌∷◌ d t) (String.◌∷◌ e u) h k = str_laws.nil-cons e u
compare_str_trans (String.◌∷◌ c s) (String.◌∷◌ d t) (String.◌∷◌ e u) h k =
    str_laws.cons-cons c e s u
    ∙ heads_trans (code c) (code d) (code e) (compare_str s t) (compare_str t u) (compare_str s u)
        (compare_str_trans s t u) (sym (str_laws.cons-cons c d s t) ∙ h)
        (sym (str_laws.cons-cons d e t u) ∙ k)

true_is_not_false : true ≢ false
true_is_not_false h = cc

pub str_eq_sym : (s t : String) → str_eq s t ≡ str_eq t s
str_eq_sym s t = elim (Bool-cases (str_eq t s)) [
  | inl e ↦ (eq_iff s t).1 (sym ((eq_iff t s).0 e)) ∙ sym e
  | inr e ↦
      str_eq_false s t (λ (h : s ≡ t). true_is_not_false (sym ((eq_iff t s).1 (sym h)) ∙ e)) ∙ sym e
]
