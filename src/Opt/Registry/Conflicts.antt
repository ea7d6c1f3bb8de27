-- ===== src/Opt/Registry/Conflicts.antt =====
-- crates/adabt-opt/src/registry.rs: which optimizations `conflicts_among` names.
use text.Mathlib.Text.{◌==◌ as str_eq}
use Prim.Native.String.{compare as compare_str}
use a_da_bt.Prelude.{
  ◌≡◌, refl, sym, ap, ◌∙◌, String, Bool, true, false, not, ◌&&◌, ◌||◌, List, [], ◌∷◌, ◌++◌, some,
  if◌then◌else◌, Bool-cases, inl, inr, eq_iff,
}
use a_da_bt.Core.Names.{contains, Ordering-cases}
use a_da_bt.Opt.Registry.{
  OptMeta, Registry, meta, declared, names_it, add_declaring, insert_name, sort, conflicts_of,
  conflicts_among,
}

swap_or : (a b c : Bool) → a || (b || c) ≡ b || (a || c)
swap_or true true c = refl
swap_or true false c = refl
swap_or false b c = refl

contains-insert_name :
    (n : String) (ms : List String) (e : String)
    → contains (insert_name n ms) e ≡ str_eq n e || contains ms e
unfolding contains insert_name
contains-insert_name n [] e = refl
contains-insert_name n (m ∷ ms) e = elim (Ordering-cases (compare_str n m)) [
  | inl o ↦ rw (insert_name, contains, o) refl
  | inr (inl o) ↦ rw (insert_name, contains, o) refl
  | inr (inr o) ↦
      rw (insert_name, contains, o)
        (ap (λ b. str_eq m e || b) (contains-insert_name n ms e)
          ∙ swap_or (str_eq m e) (str_eq n e) (contains ms e))
]

pub contains-sort : (ns : List String) (e : String) → contains (sort ns) e ≡ contains ns e
unfolding contains sort
contains-sort [] e = refl
contains-sort (n ∷ ns) e =
    contains-insert_name n (sort ns) e ∙ ap (λ b. str_eq n e || b) (contains-sort ns e)

pub contains_snoc :
    (out : List String) (x e : String) → contains (out ++ x ∷ []) e ≡ contains out e || str_eq x e
unfolding contains
contains_snoc [] x e = or_false_right (str_eq x e)
  where
    or_false_right : (b : Bool) → b || false ≡ b
    or_false_right true = refl
    or_false_right false = refl
contains_snoc (y ∷ out) x e =
    ap (λ b. str_eq y e || b) (contains_snoc out x e)
    ∙ or_assoc (str_eq y e) (contains out e) (str_eq x e)
  where
    or_assoc : (a b c : Bool) → a || (b || c) ≡ (a || b) || c
    or_assoc true b c = refl
    or_assoc false b c = refl

-- A name kept where a test of it holds; `s` is whether it is the one asked for, whose test is `t`.
pub kept_if :
    (s k t rest found : Bool)
    → (s ≡ true → k ≡ t)
    → rest ≡ found && t
    → (if k then s || rest else rest) ≡ (s || found) && t
kept_if true true t rest found h e = h refl
kept_if true false true rest found h e = absurd (cc (h refl))
kept_if true false false true true h e = cc
kept_if true false false true false h e = cc
kept_if true false false false true h e = cc
kept_if true false false false false h e = cc
kept_if false true t rest found h e = e
kept_if false false t rest found h e = e

pub contains_if :
    (k : Bool) (c : String) (xs : List String) (e : String)
    → contains (if k then c ∷ xs else xs) e
      ≡ (if k then str_eq c e || contains xs e else contains xs e)
unfolding contains
contains_if true c xs e = refl
contains_if false c xs e = refl

contains-declared :
    (enabled cs : List String) (e : String)
    → contains (declared enabled cs) e ≡ contains cs e && contains enabled e
unfolding declared contains
contains-declared enabled [] e = refl
contains-declared enabled (c ∷ cs) e =
    contains_if (contains enabled c) c (declared enabled cs) e
    ∙ kept_if (str_eq c e) (contains enabled c) (contains enabled e)
        (contains (declared enabled cs) e) (contains cs e)
        (λ h. ap (contains enabled) ((eq_iff c e).0 h)) (contains-declared enabled cs e)

-- A name that an entry adds unless it is known; `s` is whether it is the one asked for.
added_if :
    (s k t known found : Bool)
    → (s ≡ true → k ≡ t)
    → (s ≡ true → known ≡ found)
    → (if k && not known then found || s else found) ≡ found || (s && t)
added_if true true t known true h g = elim (Bool-cases known) [
  | inl e ↦ rw e refl
  | inr e ↦ rw e refl
]
added_if true true t true false h g = absurd (cc (g refl))
added_if true true t false false h g = h refl
added_if true false t known true h g = refl
added_if true false t known false h g = h refl
added_if false true t true found h g = sym (or_false found)
  where
    or_false : (b : Bool) → b || false ≡ b
    or_false true = refl
    or_false false = refl
added_if false true t false found h g = refl
added_if false false t known found h g = or_no found
  where
    or_no : (b : Bool) → b ≡ b || false
    or_no true = refl
    or_no false = refl

contains_if_out :
    (k : Bool) (xs ys : List String) (e : String)
    → contains (if k then xs else ys) e ≡ (if k then contains xs e else contains ys e)
contains_if_out true xs ys e = refl
contains_if_out false xs ys e = refl

or_join :
    (out here rest t : Bool) → (out || (here && t)) || (rest && t) ≡ out || ((here || rest) && t)
or_join true here rest t = refl
or_join false true true true = refl
or_join false true true false = refl
or_join false true false true = refl
or_join false true false false = refl
or_join false false rest t = refl

contains-add_declaring :
    (r : Registry) (name : String) (es out : List String) (e : String)
    → contains (add_declaring r name es out) e
      ≡ contains out e || (contains es e && names_it name (meta r e))
unfolding add_declaring contains
contains-add_declaring r name [] out e = or_no (contains out e)
  where
    or_no : (b : Bool) → b ≡ b || false
    or_no true = refl
    or_no false = refl
contains-add_declaring r name (x ∷ es) out e =
    contains-add_declaring r name es _ e
    ∙ ap (λ b. b || (contains es e && names_it name (meta r e))) one
    ∙ or_join (contains out e) (str_eq x e) (contains es e) (names_it name (meta r e))
  where
    one :
        contains (if names_it name (meta r x) && not (contains out x) then out ++ x ∷ [] else out) e
        ≡ contains out e || (str_eq x e && names_it name (meta r e))
    one =
        contains_if_out (names_it name (meta r x) && not (contains out x)) (out ++ x ∷ []) out e
        ∙ ap (λ b. if names_it name (meta r x) && not (contains out x) then b else contains out e)
            (contains_snoc out x e)
        ∙ added_if (str_eq x e) (names_it name (meta r x)) (names_it name (meta r e))
            (contains out x) (contains out e)
            (λ h. ap (λ n. names_it name (meta r n)) ((eq_iff x e).0 h))
            (λ h. ap (contains out) ((eq_iff x e).0 h))

or_swapped : (c m t : Bool) → (c && m) || (m && t) ≡ m && (c || t)
or_swapped true true t = refl
or_swapped true false t = refl
or_swapped false true t = refl
or_swapped false false t = refl

-- For an optimization that is registered, `conflicts_among` names exactly the enabled ones that it
-- declares as conflicts or that declare it, whichever side says so.
pub contains-conflicts_among :
    (r : Registry) (name : String) (m : OptMeta) (enabled : List String)
    → meta r name ≡ some m
    → (e : String)
    → contains (conflicts_among r name enabled) e
      ≡ contains enabled e && (contains m.conflicts_with e || names_it name (meta r e))
unfolding conflicts_among conflicts_of
contains-conflicts_among r name m enabled h e =
    ap (λ o. contains (conflicts_of r name enabled o) e) h
    ∙ contains-sort (add_declaring r name enabled (declared enabled m.conflicts_with)) e
    ∙ contains-add_declaring r name enabled (declared enabled m.conflicts_with) e
    ∙ ap (λ b. b || (contains enabled e && names_it name (meta r e)))
        (contains-declared enabled m.conflicts_with e)
    ∙ or_swapped (contains m.conflicts_with e) (contains enabled e) (names_it name (meta r e))
