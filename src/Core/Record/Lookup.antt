-- ===== src/Core/Record/Lookup.antt =====
-- crates/adabt-core/src/record.rs: what a lookup answers after a change of a record's vector.
use text.Mathlib.Text.{◌==◌ as str_eq}
use Prim.Native.String.{compare as compare_str}
use text.Mathlib.TextEquality.{path_by_compare}
use a_da_bt.Prelude.{
  ◌≡◌, refl, sym, ap, subst, ◌∙◌, String, Option, some, none, List, [], ◌∷◌, Ordering,
  if◌then◌else◌, inl, inr, All, eq_iff,
}
use a_da_bt.Core.Value.{Value}
use a_da_bt.Core.Names.{Ordering-cases, str_eq_false, lt_ne, gt_lt, lt_gt, compare_str_trans}
use a_da_bt.Core.Record.Ordered.{After, Sorted, After-trans}
use a_da_bt.Core.Record.Fields.{
  lookup, put, drop_name, lookup_lt, lookup_eq, lookup_gt, put_lt, put_eq, put_gt, drop_name_lt,
  drop_name_eq, drop_name_gt,
}

-- The test of a name asked for, by how it compares.
module _ {ℓ} {A : Type ℓ} (m n : String) (x y : A) where
  test_lt : compare_str m n ≡ Ordering.lt → (if str_eq n m then x else y) ≡ y
  test_lt h = rw (str_eq_false n m (λ (e : n ≡ m). lt_ne m n h (sym e)))

  test_gt : compare_str m n ≡ Ordering.gt → (if str_eq n m then x else y) ≡ y
  test_gt h = rw (str_eq_false n m (lt_ne n m (gt_lt m n h)))

  test_eq : compare_str m n ≡ Ordering.eq → (if str_eq n m then x else y) ≡ x
  test_eq h = rw ((eq_iff n m).1 (sym (path_by_compare m n h)))

-- A vector whose first name is the one set answers as a map with that name set.
lookup-head :
    (n m : String) (v : Value) (fs : List (String × Value)) (rest : Option Value)
    → (compare_str n m ≡ Ordering.lt → lookup fs m ≡ rest)
    → (compare_str n m ≡ Ordering.gt → none ≡ rest)
    → lookup ((n, v) ∷ fs) m ≡ (if str_eq m n then some v else rest)
lookup-head n m v fs rest after before = elim (Ordering-cases (compare_str n m)) [
  | inl e ↦ lookup_lt n m v fs e ∙ after e ∙ sym (test_lt n m (some v) rest e)
  | inr (inl e) ↦ lookup_eq n m v fs e ∙ sym (test_eq n m (some v) rest e)
  | inr (inr e) ↦ lookup_gt n m v fs e ∙ before e ∙ sym (test_gt n m (some v) rest e)
]

-- A vector whose first name is not the one set.
lookup-tail :
    (k n m : String) (w : Value) (o : Option Value) (fs gs : List (String × Value))
    → compare_str k n ≡ Ordering.lt
    → lookup gs m ≡ (if str_eq m n then o else lookup fs m)
    → lookup ((k, w) ∷ gs) m ≡ (if str_eq m n then o else lookup ((k, w) ∷ fs) m)
lookup-tail k n m w o fs gs less h = elim (Ordering-cases (compare_str k m)) [
  | inl e ↦
      lookup_lt k m w gs e ∙ h ∙ ap (λ r. if str_eq m n then o else r) (sym (lookup_lt k m w fs e))
  | inr (inl e) ↦
      let below : compare_str n m ≡ Ordering.gt =
        subst (λ (z : String). compare_str n z ≡ Ordering.gt) (path_by_compare k m e)
          (lt_gt k n less) in
      lookup_eq k m w gs e ∙ sym (test_gt n m o _ below ∙ lookup_eq k m w fs e)
  | inr (inr e) ↦
      let below : compare_str n m ≡ Ordering.gt =
        lt_gt m n (compare_str_trans m k n (gt_lt k m e) less) in
      lookup_gt k m w gs e ∙ sym (test_gt n m o _ below ∙ lookup_gt k m w fs e)
]

pub lookup-put :
    (fs : List (String × Value)) (n m : String) (v : Value)
    → lookup (put fs n v) m ≡ (if str_eq m n then some v else lookup fs m)
unfolding put lookup
lookup-put [] n m v = lookup-head n m v [] (lookup [] m) (λ e. refl) (λ e. refl)
lookup-put ((k, w) ∷ fs) n m v = elim (Ordering-cases (compare_str k n)) [
  | inl e ↦
      ap (λ l. lookup l m) (put_lt k n w fs v e)
      ∙ lookup-tail k n m w (some v) fs (put fs n v) e (lookup-put fs n m v)
  | inr (inl e) ↦
      let same : k ≡ n = path_by_compare k n e in
      ap (λ l. lookup l m) (put_eq k n w fs v e)
      ∙ ap (λ (z : String). lookup ((z, v) ∷ fs) m) same
      ∙ lookup-head n m v fs (lookup ((k, w) ∷ fs) m)
          (λ h. sym (lookup_lt k m w fs (ap (λ (z : String). compare_str z m) same ∙ h)))
          (λ h. sym (lookup_gt k m w fs (ap (λ (z : String). compare_str z m) same ∙ h)))
  | inr (inr e) ↦
      ap (λ l. lookup l m) (put_gt k n w fs v e)
      ∙ lookup-head n m v ((k, w) ∷ fs) (lookup ((k, w) ∷ fs) m) (λ h. refl)
          (λ h.
            sym (
              lookup_gt k m w fs (lt_gt m k (compare_str_trans m n k (gt_lt n m h) (gt_lt k n e)))))
]

lookup-After : (k : String) (fs : List (String × Value)) → All (After k) fs → lookup fs k ≡ none
unfolding lookup
lookup-After k [] h = refl
lookup-After k ((k', w) ∷ fs) h = lookup_gt k' k w fs (lt_gt k k' h.0)

-- What stands behind a name answers as the whole without that name.
lookup-behind :
    (k m : String) (w : Value) (fs : List (String × Value))
    → All (After k) fs
    → lookup fs m ≡ (if str_eq m k then none else lookup ((k, w) ∷ fs) m)
lookup-behind k m w fs above = elim (Ordering-cases (compare_str k m)) [
  | inl e ↦ sym (test_lt k m none (lookup ((k, w) ∷ fs) m) e ∙ lookup_lt k m w fs e)
  | inr (inl e) ↦
      subst (λ (z : String). lookup fs z ≡ none) (path_by_compare k m e) (lookup-After k fs above)
      ∙ sym (test_eq k m none (lookup ((k, w) ∷ fs) m) e)
  | inr (inr e) ↦
      lookup-After m fs (After-trans m k fs (gt_lt k m e) above)
      ∙ sym (test_gt k m none (lookup ((k, w) ∷ fs) m) e ∙ lookup_gt k m w fs e)
]

-- Leaving out a name that is not there changes nothing.
lookup-absent :
    (n m : String) (gs : List (String × Value))
    → lookup gs n ≡ none
    → lookup gs m ≡ (if str_eq m n then none else lookup gs m)
lookup-absent n m gs h = elim (Ordering-cases (compare_str n m)) [
  | inl e ↦ sym (test_lt n m none (lookup gs m) e)
  | inr (inl e) ↦
      subst (λ (z : String). lookup gs z ≡ none) (path_by_compare n m e) h
      ∙ sym (test_eq n m none (lookup gs m) e)
  | inr (inr e) ↦ sym (test_gt n m none (lookup gs m) e)
]

pub lookup-drop_name :
    (fs : List (String × Value)) (n m : String)
    → Sorted fs
    → lookup (drop_name fs n) m ≡ (if str_eq m n then none else lookup fs m)
unfolding drop_name lookup
lookup-drop_name [] n m sorted = elim (Ordering-cases (compare_str n m)) [
  | inl e ↦ sym (test_lt n m none none e)
  | inr (inl e) ↦ sym (test_eq n m none none e)
  | inr (inr e) ↦ sym (test_gt n m none none e)
]
lookup-drop_name ((k, w) ∷ fs) n m (above, sorted) = elim (Ordering-cases (compare_str k n)) [
  | inl e ↦
      ap (λ l. lookup l m) (drop_name_lt k n w fs e)
      ∙ lookup-tail k n m w none fs (drop_name fs n) e (lookup-drop_name fs n m sorted)
  | inr (inl e) ↦
      ap (λ l. lookup l m) (drop_name_eq k n w fs e)
      ∙ subst (λ (z : String). lookup fs m ≡ (if str_eq m z then none else lookup ((k, w) ∷ fs) m))
          (path_by_compare k n e) (lookup-behind k m w fs above)
  | inr (inr e) ↦
      ap (λ l. lookup l m) (drop_name_gt k n w fs e)
      ∙ lookup-absent n m ((k, w) ∷ fs) (lookup_gt k n w fs e)
]
