-- ===== src/Opt/Registry/Dependencies/Fuel.antt =====
-- crates/adabt-opt/src/registry.rs: the search for the dependency order always ends.
use text.Mathlib.Text.{◌==◌ as str_eq}
use a_da_bt.Prelude.{
  ℕ, zero, suc, ◌≤◌, ◌<◌, ◌≡◌, ◌≢◌, refl, ap, ◌∙◌, subst, String, Bool, true, false, ◌||◌, List, [],
  ◌∷◌, ◌++◌, Option, some, none, length, arith, Option-cases, inl, inr, eq_iff,
}
use a_da_bt.Core.Names.{contains, str_eq_refl}
use a_da_bt.Opt.Registry.{OptMeta, Registry, meta, find_meta, names_of}
use a_da_bt.Opt.Registry.Dependencies.{
  Mark, entered, finished, Marks, mark_of, Search, Visit, ok, cycle, unregistered, out_of_fuel,
  and_then, enter, finish, visit_all, prerequisites_of, visit_marked, visit, visit_order,
  dependency_order,
}

-- How many of the names have no mark.
white : List String → Marks → ℕ
white [] ms = 0
white (n ∷ ns) ms = elim (mark_of ms n) [ none ↦ suc (white ns ms) | some k ↦ white ns ms ]

white_cons_le :
    (ns : List String) (m : String) (k : Mark) (ms : Marks) → white ns ((m, k) ∷ ms) ≤ white ns ms
unfolding white mark_of
white_cons_le [] m k ms = omega arith
white_cons_le (n ∷ ns) m k ms = ground (arith, white_cons_le ns m k ms)

white_cons_lt :
    (ns : List String) (m : String) (k : Mark) (ms : Marks)
    → contains ns m ≡ true
    → mark_of ms m ≡ none
    → white ns ((m, k) ∷ ms) < white ns ms
unfolding white mark_of contains
white_cons_lt [] m k ms h e = absurd (cc h)
white_cons_lt (n ∷ ns) m k ms h e =
    ground (arith, white_cons_lt ns m k ms, white_cons_le ns m k ms, eq_iff n m, eq_iff m n)

pub meta-name :
    (ms : List OptMeta) (p : String) (m : OptMeta) → find_meta ms p ≡ some m → m.name ≡ p
unfolding find_meta
meta-name [] p m h = absurd (cc h)
meta-name (x ∷ ms) p m h = ground (arith, meta-name ms p m, eq_iff x.name p)

contains-names_of :
    (ms : List OptMeta) (p : String) (m : OptMeta)
    → find_meta ms p ≡ some m
    → contains (names_of ms) p ≡ true
unfolding find_meta names_of contains
contains-names_of [] p m h = absurd (cc h)
contains-names_of (x ∷ ms) p m h = ground (arith, contains-names_of ms p m)

pub and_then-ok :
    (v : Visit) (f : Search → Visit) (s' : Search)
    → and_then v f ≡ ok s'
    → (s : Search) × (v ≡ ok s) × (f s ≡ ok s')
and_then-ok (ok s) f s' h = (s, refl, h)
and_then-ok (cycle path) f s' h = absurd (cc h)
and_then-ok (unregistered a b) f s' h = absurd (cc h)
and_then-ok out_of_fuel f s' h = absurd (cc h)

pub or_true : (b : Bool) → b || true ≡ true
or_true true = refl
or_true false = refl

module _ (r : Registry) where
  abbrev names : List String
  names = names_of r.items

  abbrev left : Search → ℕ
  left s = white names s.visited

  -- The answer of a visit from `s`, which left no more names than there were.
  abbrev Ended : Search → Visit → Type 0
  Ended s v = (v ≢ out_of_fuel) × ((s' : Search) → v ≡ ok s' → left s' ≤ left s)

  ok-Ended : (s s' : Search) → left s' ≤ left s → Ended s (ok s')
  ok-Ended s s' h =
      (λ e. cc e, λ t e. let same : s' ≡ t = cc e in subst (λ t. left t ≤ left s) same h)

  and_then-Ended :
      (s : Search) (v : Visit) (f : Search → Visit)
      → Ended s v
      → ((s' : Search) → left s' ≤ left s → Ended s' (f s'))
      → Ended s (and_then v f)
  and_then-Ended s (ok s') f h k =
      let le = h.1 s' refl in let next = k s' le in (next.0, λ t e. omega (arith, le, next.1 t e))
  and_then-Ended s (cycle path) f h k = (λ e. cc e, λ t e. absurd (cc e))
  and_then-Ended s (unregistered a b) f h k = (λ e. cc e, λ t e. absurd (cc e))
  and_then-Ended s out_of_fuel f h k = absurd (h.0 refl)

  -- With fewer names left than `k`, a visit of a registered name ends.
  abbrev Ends : ℕ → (String → Search → Visit) → Type 0
  Ends k v =
      (name : String) (s : Search) → contains names name ≡ true → left s < k → Ended s (v name s)

  registered_name : (m : OptMeta) (p : String) → meta r p ≡ some m → contains names m.name ≡ true
  unfolding meta
  registered_name m p e =
      ap (contains names) (meta-name r.items p m e) ∙ contains-names_of r.items p m e

  visit_all-Ended :
      (k : ℕ) (v : String → Search → Visit) (name : String) (ps : List String) (s : Search)
      → Ends k v
      → left s < k
      → Ended s (visit_all r v name ps s)
  unfolding visit_all
  visit_all-Ended k v name [] s ends few = ok-Ended s s (omega arith)
  visit_all-Ended k v name (p ∷ ps) s ends few = elim (Option-cases (meta r p)) [
    | inl e ↦ rw (visit_all, e) (λ h. cc h, λ t h. absurd (cc h))
    | inr (m, e) ↦
        rw (visit_all, e)
          (and_then-Ended s (v m.name s) (λ s'. visit_all r v name ps s')
            (ends m.name s (registered_name m p e) few)
            (λ s' le. visit_all-Ended k v name ps s' ends (omega arith)))
  ]

  finish-Ended : (name : String) (s : Search) → left (finish name s) ≤ left s
  finish-Ended name s = white_cons_le names name finished s.visited

  Ended-le : (s t : Search) (v : Visit) → left t ≤ left s → Ended t v → Ended s v
  Ended-le s t v h ended = (ended.0, λ s' e. omega (arith, h, ended.1 s' e))

  visit_marked-Ended :
      (fuel : ℕ) (v : List String → String → Search → Visit) (path : List String) (name : String)
      (s : Search)
      → (o : Option Mark) → ((path' : List String) → Ends fuel (v path'))
      → contains names name ≡ true
      → left s < suc fuel
      → mark_of s.visited name ≡ o
      → Ended s (visit_marked r v path name s o)
  unfolding visit_marked
  visit_marked-Ended fuel v path name s (some finished) ends known few e =
      ok-Ended s s (omega arith)
  visit_marked-Ended fuel v path name s (some entered) ends known few e =
      (λ h. cc h, λ t h. absurd (cc h))
  visit_marked-Ended fuel v path name s none ends known few e =
      let less = white_cons_lt names name entered s.visited known e in
      and_then-Ended s
        (visit_all r (v (path ++ name ∷ [])) name (prerequisites_of (meta r name)) (enter name s))
        (λ s'. ok (finish name s'))
        (Ended-le s (enter name s) _ (omega (arith, less)) (
          visit_all-Ended fuel (v (path ++ name ∷ [])) name (prerequisites_of (meta r name))
            (enter name s) (ends (path ++ name ∷ [])) (omega (arith, less))))
        (λ s' le. ok-Ended s' (finish name s') (finish-Ended name s'))

  visit-Ends : (fuel : ℕ) (path : List String) → Ends fuel (visit r fuel path)
  unfolding visit
  visit-Ends zero path name s known few = absurd (omega arith)
  visit-Ends (suc fuel) path name s known few =
      visit_marked-Ended fuel (visit r fuel) path name s (mark_of s.visited name) (visit-Ends fuel)
        known few refl

  visit_order-Ended :
      (fuel : ℕ) (ns : List String) (s : Search)
      → ((n : String) → contains ns n ≡ true → contains names n ≡ true)
      → left s < fuel
      → Ended s (visit_order r fuel ns s)
  unfolding visit_order contains
  visit_order-Ended fuel [] s known few = ok-Ended s s (omega arith)
  visit_order-Ended fuel (n ∷ ns) s known few =
      and_then-Ended s (visit r fuel [] n s) (λ s'. visit_order r fuel ns s')
        (visit-Ends fuel [] n s (known n (ap (λ b. b || contains ns n) (str_eq_refl n))) few)
        (λ s' le.
          visit_order-Ended fuel ns s'
            (λ m h. known m (ap (λ b. str_eq n m || b) h ∙ or_true (str_eq n m))) (omega arith))

  white_le_length : (ms : List OptMeta) (marks : Marks) → white (names_of ms) marks ≤ length ms
  unfolding white names_of
  white_le_length [] marks = omega arith
  white_le_length (m ∷ ms) marks = ground (arith, white_le_length ms marks)

  -- The levels given to the search are enough.
  pub dependency_order_ends : dependency_order r ≢ out_of_fuel
  unfolding dependency_order
  dependency_order_ends =
      (visit_order-Ended (suc (length r.items)) names (record { visited = []; out = [] }) (λ n h. h)
        (omega (arith, white_le_length r.items []))).0
