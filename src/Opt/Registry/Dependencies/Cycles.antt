-- ===== src/Opt/Registry/Dependencies/Cycles.antt =====
-- crates/adabt-opt/src/registry.rs: a cycle that the search reports is one.
use text.Mathlib.Text.{◌==◌ as str_eq}
use a_da_bt.Prelude.{
  ℕ, zero, suc, ◌≡◌, refl, sym, ap, ◌∙◌, subst, String, true, ◌||◌, List, [], ◌∷◌, ◌++◌, Option,
  some, none, length, arith, Option-cases, inl, inr,
}
use a_da_bt.Core.Names.{contains, str_eq_refl}
use a_da_bt.Opt.Registry.{Registry, meta, names_of}
use a_da_bt.Opt.Registry.Conflicts.{contains_snoc}
use a_da_bt.Opt.Registry.Dependencies.{
  Mark, entered, finished, mark_of, Search, Visit, ok, cycle, unregistered, out_of_fuel, and_then,
  enter, finish, visit_all, visit_marked, visit, visit_order, dependency_order,
}
use a_da_bt.Opt.Registry.Dependencies.Fuel.{meta-name, or_true}
use a_da_bt.Opt.Registry.Dependencies.Ordered.{
  Within, prerequisites, visit_all-none, visit_all-some,
}

-- The names that are entered and not finished stand on the path.
abbrev Open : List String → Search → Type 0
Open path s = (n : String) → mark_of s.visited n ≡ some entered → contains path n ≡ true

module _ (r : Registry) where
  -- Each name behind the first is a prerequisite of the one before it.
  abbrev pub Walk : List String → Type 0
  Walk [] = Unit {0}
  Walk (x ∷ []) = Unit {0}
  Walk (x ∷ y ∷ zs) = (contains (prerequisites r x) y ≡ true) × Walk (y ∷ zs)

  -- A walk whose last name has been on it before.
  pub record IsCycle (path : List String) : Type 0 where
    pub front : List String
    pub last : String
    pub ends : path ≡ front ++ last ∷ []
    pub closes : contains front last ≡ true
    pub walk : Walk path

  Walk-snoc :
      (xs : List String) (a b : String)
      → Walk (xs ++ a ∷ [])
      → contains (prerequisites r a) b ≡ true
      → Walk ((xs ++ a ∷ []) ++ b ∷ [])
  Walk-snoc [] a b w h = (h, tt)
  Walk-snoc (x ∷ []) a b w h = (w.0, (h, tt))
  Walk-snoc (x ∷ y ∷ xs) a b w h = (w.0, Walk-snoc (y ∷ xs) a b w.1 h)

  -- What an answer of a search on the path says.
  abbrev Traced : List String → Visit → Type 0
  Traced path (ok s) = Open path s
  Traced path (cycle found) = IsCycle found
  Traced path (unregistered a b) = Unit {0}
  Traced path out_of_fuel = Unit {0}

  and_then-Traced :
      (path path' : List String) (v : Visit) (f : Search → Visit)
      → Traced path' v
      → ((s : Search) → Open path' s → Traced path (f s))
      → Traced path (and_then v f)
  and_then-Traced path path' (ok s) f t k = k s t
  and_then-Traced path path' (cycle found) f t k = t
  and_then-Traced path path' (unregistered a b) f t k = tt
  and_then-Traced path path' out_of_fuel f t k = tt

  abbrev Traces : List String → (String → Search → Visit) → Type 0
  Traces path v =
      (name : String) (s : Search) → Walk (path ++ name ∷ []) → Open path s → Traced path (v name s)

  visit_all-Traced :
      (v : String → Search → Visit) (path : List String) (name : String) (ps : List String)
      (s : Search)
      → Traces (path ++ name ∷ []) v
      → Within ps (prerequisites r name)
      → Walk (path ++ name ∷ [])
      → Open (path ++ name ∷ []) s
      → Traced (path ++ name ∷ []) (visit_all r v name ps s)
  unfolding visit_all contains meta
  visit_all-Traced v path name [] s traces w walk opens = opens
  visit_all-Traced v path name (p ∷ ps) s traces w walk opens =
      let rest : Within ps (prerequisites r name) =
        λ n k. w n (ap (λ c. str_eq p n || c) k ∙ or_true (str_eq p n)) in
      let first : contains (prerequisites r name) p ≡ true =
        w p (ap (λ c. c || contains ps p) (str_eq_refl p)) in
      elim (Option-cases (meta r p)) [
        | inl e ↦ subst (Traced (path ++ name ∷ [])) (sym (visit_all-none r v name p ps s e)) tt
        | inr (m, e) ↦
            let named : m.name ≡ p = meta-name r.items p m e in
            subst (Traced (path ++ name ∷ [])) (sym (visit_all-some r v name p ps s m e)) (
              and_then-Traced (path ++ name ∷ []) (path ++ name ∷ []) (v m.name s)
                (λ t. visit_all r v name ps t)
                (traces m.name s
                  (subst (λ n. Walk ((path ++ name ∷ []) ++ n ∷ [])) (sym named)
                    (Walk-snoc path name p walk first))
                  opens)
                (λ t k. visit_all-Traced v path name ps t traces rest walk k))
      ]

  enter-Open :
      (path : List String) (name : String) (s : Search)
      → Open path s
      → Open (path ++ name ∷ []) (enter name s)
  unfolding mark_of
  enter-Open path name s opens n h = ground (arith, opens n, contains_snoc path name n)

  finish-Open :
      (path : List String) (name : String) (s : Search)
      → Open (path ++ name ∷ []) s
      → Open path (finish name s)
  unfolding mark_of
  finish-Open path name s opens n h = ground (arith, h, opens n, contains_snoc path name n)

  visit_marked-Traced :
      (v : List String → String → Search → Visit) (path : List String) (name : String)
      (o : Option Mark) (s : Search)
      → ((path' : List String) → Traces path' (v path'))
      → Walk (path ++ name ∷ [])
      → Open path s
      → mark_of s.visited name ≡ o
      → Traced path (visit_marked r v path name s o)
  unfolding visit_marked
  visit_marked-Traced v path name (some finished) s traces walk opens e = opens
  visit_marked-Traced v path name (some entered) s traces walk opens e = record {
    front = path;
    last = name;
    ends = refl;
    closes = opens name e;
    walk = walk;
  }
  visit_marked-Traced v path name none s traces walk opens e =
      and_then-Traced path (path ++ name ∷ [])
        (visit_all r (v (path ++ name ∷ [])) name (prerequisites r name) (enter name s))
        (λ t. ok (finish name t))
        (visit_all-Traced (v (path ++ name ∷ [])) path name (prerequisites r name) (enter name s)
          (traces (path ++ name ∷ [])) (λ n k. k) walk (enter-Open path name s opens))
        (λ t k. finish-Open path name t k)

  visit-Traces : (fuel : ℕ) (path : List String) → Traces path (visit r fuel path)
  unfolding visit
  visit-Traces zero path name s walk opens = tt
  visit-Traces (suc fuel) path name s walk opens =
      visit_marked-Traced (visit r fuel) path name (mark_of s.visited name) s (visit-Traces fuel)
        walk opens refl

  visit_order-Traced :
      (fuel : ℕ) (ns : List String) (s : Search) → Open [] s → Traced [] (visit_order r fuel ns s)
  unfolding visit_order
  visit_order-Traced fuel [] s opens = opens
  visit_order-Traced fuel (n ∷ ns) s opens =
      and_then-Traced [] [] (visit r fuel [] n s) (λ t. visit_order r fuel ns t)
        (visit-Traces fuel [] n s tt opens) (λ t k. visit_order-Traced fuel ns t k)

  pub dependency_order-IsCycle :
      (path : List String) → dependency_order r ≡ cycle path → IsCycle path
  unfolding dependency_order mark_of
  dependency_order-IsCycle path h = subst (Traced []) h (
      visit_order-Traced (suc (length r.items)) (names_of r.items)
        (record { visited = []; out = [] }) (λ n e. absurd (cc e)))
