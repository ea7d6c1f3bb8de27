-- ===== src/Engine/Unique/Kept.antt =====
-- crates/adabt-engine/src/unique.rs: the set of constraints stays in order, each pair once.
use Prim.Native.String.{compare as compare_str}
use text.Mathlib.TextEquality.{path_by_compare}
use a_da_bt.Prelude.{
  ◌+◌, ◌^◌, ◌<◌, ◌≤◌, ◌≡◌, ◌⊎◌, refl, sym, ap, subst, ◌∙◌, String, List, [], ◌∷◌, length, arith,
  Ordering, inl, inr,
}
use a_da_bt.Core.Names.{Ordering-cases, compare_str_trans, compare_str_refl, gt_lt}
use a_da_bt.Storage.Utf8.{utf8}
use a_da_bt.Engine.Unique.{compare_pair, insert_pair, remove_pair}
use a_da_bt.Engine.Unique.RoundTrip.{AllAbove, Ascending, PairsFit}

-- The first names decide, or they are one and the second names do.
abbrev Less : (p q : String × String) → Type 0
Less p q = (compare_str p.0 q.0 ≡ Ordering.lt) ⊎ ((p.0 ≡ q.0) × (compare_str p.1 q.1 ≡ Ordering.lt))

compare_pair-Less : (p q : String × String) → compare_pair p q ≡ Ordering.lt → Less p q
compare_pair-Less (c, f) (d, g) h = elim (Ordering-cases (compare_str c d)) [
  | inl e ↦ inl e
  | inr (inl e) ↦ inr (path_by_compare c d e, sym (rw e refl) ∙ h)
  | inr (inr e) ↦ absurd (cc (h, e))
]

Less-compare_pair : (p q : String × String) → Less p q → compare_pair p q ≡ Ordering.lt
Less-compare_pair (c, f) (d, g) (inl h) = rw h refl
Less-compare_pair (c, f) (d, g) (inr (e, h)) =
    let same : compare_str c d ≡ Ordering.eq = ap (compare_str c) (sym e) ∙ compare_str_refl c in
    rw (same) h

Less-trans : (p q r : String × String) → Less p q → Less q r → Less p r
Less-trans p q r (inl h) (inl k) = inl (compare_str_trans p.0 q.0 r.0 h k)
Less-trans p q r (inl h) (inr (e, k)) = inl (ap (compare_str p.0) (sym e) ∙ h)
Less-trans p q r (inr (e, h)) (inl k) = inl (ap (λ c. compare_str c r.0) e ∙ k)
Less-trans p q r (inr (e, h)) (inr (d, k)) = inr (e ∙ d, compare_str_trans p.1 q.1 r.1 h k)

compare_pair_greater : (p q : String × String) → compare_pair p q ≡ Ordering.gt → Less q p
compare_pair_greater (c, f) (d, g) h = elim (Ordering-cases (compare_str c d)) [
  | inl e ↦ absurd (cc (h, e))
  | inr (inl e) ↦ inr (sym (path_by_compare c d e), gt_lt f g (sym (rw e refl) ∙ h))
  | inr (inr e) ↦ inl (gt_lt c d e)
]

AllAbove-Less :
    (p q : String × String) (qs : List (String × String)) → Less p q → AllAbove q qs → AllAbove p qs
AllAbove-Less p q [] l a = tt
AllAbove-Less p q (r ∷ qs) l (h, a) =
    (Less-compare_pair p r (Less-trans p q r l (compare_pair-Less q r h)), AllAbove-Less p q qs l a)

module _ (q p : String × String) (ps : List (String × String)) where
  insert_less : compare_pair q p ≡ Ordering.lt → insert_pair (q ∷ ps) p ≡ q ∷ insert_pair ps p
  unfolding insert_pair
  insert_less e = rw (insert_pair, e)

  insert_there : compare_pair q p ≡ Ordering.eq → insert_pair (q ∷ ps) p ≡ q ∷ ps
  unfolding insert_pair
  insert_there e = rw (insert_pair, e)

  insert_front : compare_pair q p ≡ Ordering.gt → insert_pair (q ∷ ps) p ≡ p ∷ q ∷ ps
  unfolding insert_pair
  insert_front e = rw (insert_pair, e)

  remove_there : compare_pair q p ≡ Ordering.eq → remove_pair (q ∷ ps) p ≡ ps
  unfolding remove_pair
  remove_there e = rw (remove_pair, e)

  remove_less : compare_pair q p ≡ Ordering.lt → remove_pair (q ∷ ps) p ≡ q ∷ remove_pair ps p
  unfolding remove_pair
  remove_less e = rw (remove_pair, e)

  remove_greater : compare_pair q p ≡ Ordering.gt → remove_pair (q ∷ ps) p ≡ q ∷ remove_pair ps p
  unfolding remove_pair
  remove_greater e = rw (remove_pair, e)

  -- What holds in each case of an insertion, or of a removal, holds of its result.
  insert_by :
      (P : List (String × String) → Type 0)
      → (compare_pair q p ≡ Ordering.lt → P (q ∷ insert_pair ps p))
      → P (q ∷ ps)
      → (compare_pair q p ≡ Ordering.gt → P (p ∷ q ∷ ps))
      → P (insert_pair (q ∷ ps) p)
  insert_by P less there front = elim (Ordering-cases (compare_pair q p)) [
    | inl e ↦ subst P (sym (insert_less e)) (less e)
    | inr (inl e) ↦ subst P (sym (insert_there e)) there
    | inr (inr e) ↦ subst P (sym (insert_front e)) (front e)
  ]

  remove_by :
      (P : List (String × String) → Type 0)
      → P ps
      → P (q ∷ remove_pair ps p)
      → P (remove_pair (q ∷ ps) p)
  remove_by P there kept = elim (Ordering-cases (compare_pair q p)) [
    | inl e ↦ subst P (sym (remove_less e)) kept
    | inr (inl e) ↦ subst P (sym (remove_there e)) there
    | inr (inr e) ↦ subst P (sym (remove_greater e)) kept
  ]

AllAbove-insert_pair :
    (q p : String × String) (ps : List (String × String))
    → compare_pair q p ≡ Ordering.lt
    → AllAbove q ps
    → AllAbove q (insert_pair ps p)
unfolding insert_pair
AllAbove-insert_pair q p [] h a = (h, tt)
AllAbove-insert_pair q p (r ∷ ps) h (k, a) =
    insert_by r p ps (AllAbove q) (λ e. (k, AllAbove-insert_pair q p ps h a)) (k, a)
      (λ e. (h, (k, a)))

pub insert_pair-Ascending :
    (ps : List (String × String)) (p : String × String)
    → Ascending ps
    → Ascending (insert_pair ps p)
unfolding insert_pair
insert_pair-Ascending [] p a = (tt, tt)
insert_pair-Ascending (q ∷ ps) p (h, a) =
    insert_by q p ps Ascending
      (λ e. (AllAbove-insert_pair q p ps e h, insert_pair-Ascending ps p a)) (h, a)
      (λ e.
        let less = compare_pair_greater q p e in
        ((Less-compare_pair p q less, AllAbove-Less p q ps less h), (h, a)))

AllAbove-remove_pair :
    (q p : String × String) (ps : List (String × String))
    → AllAbove q ps
    → AllAbove q (remove_pair ps p)
unfolding remove_pair
AllAbove-remove_pair q p [] a = tt
AllAbove-remove_pair q p (r ∷ ps) (k, a) =
    remove_by r p ps (AllAbove q) a (k, AllAbove-remove_pair q p ps a)

pub remove_pair-Ascending :
    (ps : List (String × String)) (p : String × String)
    → Ascending ps
    → Ascending (remove_pair ps p)
unfolding remove_pair
remove_pair-Ascending [] p a = tt
remove_pair-Ascending (q ∷ ps) p (h, a) =
    remove_by q p ps Ascending a (AllAbove-remove_pair q p ps h, remove_pair-Ascending ps p a)

-- Names whose lengths the file holds.
abbrev pub PairFits : String × String → Type 0
PairFits (c, f) = (length (utf8 c) < 2 ^ 32) × (length (utf8 f) < 2 ^ 32)

pub insert_pair-fit :
    (ps : List (String × String)) (p : String × String)
    → PairFits p
    → PairsFit ps
    → PairsFit (insert_pair ps p)
unfolding insert_pair
insert_pair-fit [] (c, f) (x, y) h = (x, y, tt)
insert_pair-fit ((d, g) ∷ ps) (c, f) (x, y) (u, v, h) =
    insert_by (d, g) (c, f) ps PairsFit (λ e. (u, v, insert_pair-fit ps (c, f) (x, y) h)) (u, v, h)
      (λ e. (x, y, (u, v, h)))

pub remove_pair-fit :
    (ps : List (String × String)) (p : String × String) → PairsFit ps → PairsFit (remove_pair ps p)
unfolding remove_pair
remove_pair-fit [] p h = tt
remove_pair-fit ((d, g) ∷ ps) p (u, v, h) =
    remove_by (d, g) p ps PairsFit h (u, v, remove_pair-fit ps p h)

pub length-insert_pair :
    (ps : List (String × String)) (p : String × String) → length (insert_pair ps p) ≤ length ps + 1
unfolding insert_pair
length-insert_pair [] p = omega arith
length-insert_pair (q ∷ ps) p =
    insert_by q p ps (λ l. length l ≤ length (q ∷ ps) + 1)
      (λ e. omega (arith, length-insert_pair ps p)) (omega arith) (λ e. omega arith)

pub length-remove_pair :
    (ps : List (String × String)) (p : String × String) → length (remove_pair ps p) ≤ length ps
unfolding remove_pair
length-remove_pair [] p = omega arith
length-remove_pair (q ∷ ps) p =
    remove_by q p ps (λ l. length l ≤ length (q ∷ ps)) (omega arith)
      (omega (arith, length-remove_pair ps p))
