-- ===== src/Opt/Registry/Dependencies/Answers.antt =====
-- crates/adabt-opt/src/registry.rs: what the answers of `dependency_order` mean.
use text.Mathlib.Text.{◌==◌ as str_eq}
use a_da_bt.Prelude.{
  ℕ, zero, suc, ◌≡◌, ◌⊎◌, refl, sym, ap, ◌∙◌, subst, String, true, ◌||◌, List, [], ◌∷◌, ◌++◌,
  Option, some, none, length, Option-cases, inl, inr,
}
use a_da_bt.Core.Names.{contains, str_eq_refl}
use a_da_bt.Opt.Registry.{Registry, meta, names_of}
use a_da_bt.Opt.Registry.Dependencies.{
  Mark, entered, finished, mark_of, Search, Visit, ok, cycle, unregistered, out_of_fuel, and_then,
  enter, finish, visit_all, visit_marked, visit, visit_order, dependency_order,
}
use a_da_bt.Opt.Registry.Dependencies.Fuel.{dependency_order_ends, or_true}
use a_da_bt.Opt.Registry.Dependencies.Ordered.{
  Within, prerequisites, After, visit_all-none, visit_all-some, dependency_order-Visited,
}
use a_da_bt.Opt.Registry.Dependencies.Cycles.{IsCycle, dependency_order-IsCycle}

and_then-unregistered :
    (v : Visit) (f : Search → Visit) (a b : String)
    → and_then v f ≡ unregistered a b
    → (v ≡ unregistered a b) ⊎ ((s : Search) × (f s ≡ unregistered a b))
and_then-unregistered (ok s) f a b h = inr (s, h)
and_then-unregistered (cycle path) f a b h = absurd (cc h)
and_then-unregistered (unregistered c d) f a b h = inl h
and_then-unregistered out_of_fuel f a b h = absurd (cc h)

module _ (r : Registry) where
  -- The second name is a prerequisite of the first that is not registered.
  abbrev pub Missing : String → String → Type 0
  Missing a b = (contains (prerequisites r a) b ≡ true) × (meta r b ≡ none)

  abbrev Blames : (String → Search → Visit) → Type 0
  Blames v = (name : String) (s : Search) (a b : String) → v name s ≡ unregistered a b → Missing a b

  visit_all-Missing :
      (v : String → Search → Visit) (name : String) (ps : List String) (s : Search) (a b : String)
      → Blames v
      → Within ps (prerequisites r name)
      → visit_all r v name ps s ≡ unregistered a b
      → Missing a b
  unfolding visit_all contains
  visit_all-Missing v name [] s a b blames w h = absurd (cc h)
  visit_all-Missing v name (p ∷ ps) s a b blames w h =
      let rest : Within ps (prerequisites r name) =
        λ n k. w n (ap (λ c. str_eq p n || c) k ∙ or_true (str_eq p n)) in
      elim (Option-cases (meta r p)) [
        | inl e ↦
            let here : unregistered name p ≡ unregistered a b =
              sym (visit_all-none r v name p ps s e) ∙ h in
            let same_a : name ≡ a = cc here in
            let same_b : p ≡ b = cc here in
            subst (λ x. Missing x b) same_a
              (subst (λ x. Missing name x) same_b
                (w p (ap (λ c. c || contains ps p) (str_eq_refl p)), e))
        | inr (m, e) ↦
            elim (and_then-unregistered (v m.name s) (λ t. visit_all r v name ps t) a b
              (sym (visit_all-some r v name p ps s m e) ∙ h)) [
                | inl k ↦ blames m.name s a b k
                | inr (t, k) ↦ visit_all-Missing v name ps t a b blames rest k
              ]
      ]

  visit_marked-Missing :
      (v : List String → String → Search → Visit) (path : List String) (name : String)
      (o : Option Mark)
      → (s : Search) (a b : String) → ((path' : List String) → Blames (v path'))
      → visit_marked r v path name s o ≡ unregistered a b
      → Missing a b
  unfolding visit_marked
  visit_marked-Missing v path name (some finished) s a b blames h = absurd (cc h)
  visit_marked-Missing v path name (some entered) s a b blames h = absurd (cc h)
  visit_marked-Missing v path name none s a b blames h =
      elim (and_then-unregistered
        (visit_all r (v (path ++ name ∷ [])) name (prerequisites r name) (enter name s))
        (λ t. ok (finish name t)) a b h) [
          | inl k ↦
              visit_all-Missing (v (path ++ name ∷ [])) name (prerequisites r name) (enter name s) a
                b (blames (path ++ name ∷ [])) (λ n q. q) k
          | inr (t, k) ↦ absurd (cc k)
        ]

  visit-Blames : (fuel : ℕ) (path : List String) → Blames (visit r fuel path)
  unfolding visit
  visit-Blames zero path name s a b h = absurd (cc h)
  visit-Blames (suc fuel) path name s a b h =
      visit_marked-Missing (visit r fuel) path name (mark_of s.visited name) s a b
        (visit-Blames fuel) h

  visit_order-Missing :
      (fuel : ℕ) (ns : List String) (s : Search) (a b : String)
      → visit_order r fuel ns s ≡ unregistered a b
      → Missing a b
  unfolding visit_order
  visit_order-Missing fuel [] s a b h = absurd (cc h)
  visit_order-Missing fuel (n ∷ ns) s a b h =
      elim (and_then-unregistered (visit r fuel [] n s) (λ t. visit_order r fuel ns t) a b h) [
        | inl k ↦ visit-Blames fuel [] n s a b k
        | inr (t, k) ↦ visit_order-Missing fuel ns t a b k
      ]

  dependency_order-Missing : (a b : String) → dependency_order r ≡ unregistered a b → Missing a b
  unfolding dependency_order
  dependency_order-Missing a b h =
      visit_order-Missing (suc (length r.items)) (names_of r.items)
        (record { visited = []; out = [] }) a b h

  -- What each answer promises; a search that runs out of levels promises nothing that holds.
  abbrev pub Means : Visit → Type 0
  Means (ok s) = After r [] s.out × Within (names_of r.items) s.out
  Means (unregistered a b) = Missing a b
  Means (cycle path) = IsCycle r path
  Means out_of_fuel = ⊥

  means : (v : Visit) → dependency_order r ≡ v → Means v
  means (ok s) h = let v = dependency_order-Visited r s h in (v.sound.in_order, v.all_out)
  means (unregistered a b) h = dependency_order-Missing a b h
  means (cycle path) h = dependency_order-IsCycle r path h
  means out_of_fuel h = absurd (dependency_order_ends r h)

-- The search for a dependency order always ends. If it answers with an order, every registered name
-- is in it, each behind all its prerequisites; if it answers with a missing prerequisite, that name
-- is a prerequisite of the other one and is not registered; if it answers with a cycle, each name on
-- the path is a prerequisite of the one before it, and the last name stands on the path before.
pub dependency_order-Means : (r : Registry) → Means r (dependency_order r)
dependency_order-Means r = means r (dependency_order r) refl
