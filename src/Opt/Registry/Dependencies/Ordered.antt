-- ===== src/Opt/Registry/Dependencies/Ordered.antt =====
-- crates/adabt-opt/src/registry.rs: in the dependency order, prerequisites come first.
use text.Mathlib.Text.{◌==◌ as str_eq}
use mathlib.Core.List.{append_assoc, append-nil}
use a_da_bt.Prelude.{
  ℕ, zero, suc, ◌≡◌, ◌⊎◌, refl, sym, ap, ◌∙◌, subst, String, true, false, ◌||◌, List, [], ◌∷◌, ◌++◌,
  Option, some, none, length, arith, Bool-cases, Option-cases, inl, inr, eq_iff,
}
use a_da_bt.Core.Names.{contains, str_eq_refl}
use a_da_bt.Opt.Registry.{OptMeta, Registry, meta, names_of}
use a_da_bt.Opt.Registry.Conflicts.{contains_snoc}
use a_da_bt.Opt.Registry.Dependencies.{
  Mark, entered, finished, mark_of, Search, Visit, ok, unregistered, and_then, enter, finish,
  visit_all, prerequisites_of, visit_marked, visit, visit_order, dependency_order,
}
use a_da_bt.Opt.Registry.Dependencies.Fuel.{meta-name, and_then-ok, or_true}

abbrev pub Within : List String → List String → Type 0
Within xs ys = (n : String) → contains xs n ≡ true → contains ys n ≡ true

module _ (r : Registry) where
  abbrev pub prerequisites : String → List String
  prerequisites n = prerequisites_of (meta r n)

  -- The prerequisites of each name stand before it, or among `seen`.
  abbrev pub After : List String → List String → Type 0
  After seen [] = Unit {0}
  After seen (n ∷ ns) = Within (prerequisites n) seen × After (seen ++ n ∷ []) ns

  After-snoc :
      (ns seen : List String) (n : String)
      → After seen ns
      → Within (prerequisites n) (seen ++ ns)
      → After seen (ns ++ n ∷ [])
  After-snoc [] seen n a w = (subst (Within (prerequisites n)) (append-nil seen) w, tt)
  After-snoc (m ∷ ns) seen n a w = (
    a.0,
    After-snoc ns (seen ++ m ∷ []) n a.1
        (subst (Within (prerequisites n)) (sym (append_assoc seen (m ∷ []) ns)) w),
  )

  -- What is finished stands in the output, behind its prerequisites.
  pub record Sound (s : Search) : Type 0 where
    pub in_order : After [] s.out
    pub finished_out : (n : String) → mark_of s.visited n ≡ some finished → contains s.out n ≡ true

  -- A visit of `ns` from `s` that ends well.
  pub record Visited (s : Search) (ns : List String) (s' : Search) : Type 0 where
    pub sound : Sound s'
    pub grows : Within s.out s'.out
    pub all_out : Within ns s'.out

  Grows_one : (out : List String) (n : String) → Within out (out ++ n ∷ [])
  Grows_one out n m h = contains_snoc out n m ∙ ap (λ b. b || str_eq n m) h

  enter-Sound : (name : String) (s : Search) → Sound s → Sound (enter name s)
  unfolding mark_of
  enter-Sound name s sound = record {
    in_order = sound.in_order;
    finished_out = λ n h. ground (arith, sound.finished_out n);
  }

  finish-Sound :
      (name : String) (s : Search)
      → Sound s
      → Within (prerequisites name) s.out
      → Sound (finish name s)
  unfolding mark_of
  finish-Sound name s sound w = record {
    in_order = After-snoc s.out [] name sound.in_order w;
    finished_out = λ n h. ground (arith, sound.finished_out n, contains_snoc s.out name n);
  }

  Visited-same : (s s' : Search) → Sound s → ok s ≡ ok s' → Visited s [] s'
  unfolding contains
  Visited-same s s' sound h =
      let same : s ≡ s' = cc h in
      subst (λ t. Visited s [] t) same
        (record { sound = sound; grows = λ n k. k; all_out = λ n k. absurd (cc k) })

  abbrev Good : (String → Search → Visit) → Type 0
  Good v = (name : String) (s s' : Search) → Sound s → v name s ≡ ok s' → Visited s (name ∷ []) s'

  pub one_of :
      (n : String) (ns : List String) (m : String)
      → contains (n ∷ ns) m ≡ true
      → (n ≡ m) ⊎ (contains ns m ≡ true)
  unfolding contains
  one_of n ns m h = elim (Bool-cases (str_eq n m)) [
    | inl e ↦ inl ((eq_iff n m).0 e)
    | inr e ↦ inr (sym (ap (λ b. b || contains ns m) e) ∙ h)
  ]

  only_one : (n m : String) → contains (n ∷ []) m ≡ true → n ≡ m
  unfolding contains
  only_one n m h = ground (arith, eq_iff n m)

  itself : (n : String) → contains (n ∷ []) n ≡ true
  unfolding contains
  itself n = ap (λ b. b || false) (str_eq_refl n)

  Visited-cons :
      (s s₁ s' : Search) (p : String) (ps : List String)
      → Visited s (p ∷ []) s₁
      → Visited s₁ ps s'
      → Visited s (p ∷ ps) s'
  Visited-cons s s₁ s' p ps a b = record {
    sound = b.sound;
    grows = λ n h. b.grows n (a.grows n h);
    all_out = λ n h. elim (one_of p ps n h) [
      | inl e ↦ subst (λ m. contains s'.out m ≡ true) e (b.grows p (a.all_out p (itself p)))
      | inr k ↦ b.all_out n k
    ];
  }

  pub visit_all-none :
      (v : String → Search → Visit) (name p : String) (ps : List String) (s : Search)
      → meta r p ≡ none
      → visit_all r v name (p ∷ ps) s ≡ unregistered name p
  unfolding visit_all
  visit_all-none v name p ps s e = rw (visit_all, e) refl

  pub visit_all-some :
      (v : String → Search → Visit) (name p : String) (ps : List String) (s : Search) (m : OptMeta)
      → meta r p ≡ some m
      → visit_all r v name (p ∷ ps) s ≡ and_then (v m.name s) (λ t. visit_all r v name ps t)
  unfolding visit_all
  visit_all-some v name p ps s m e = rw (visit_all, e) refl

  name_found : (p : String) (m : OptMeta) → meta r p ≡ some m → m.name ≡ p
  unfolding meta
  name_found p m e = meta-name r.items p m e

  visit_all-Visited :
      (v : String → Search → Visit) (name : String) (ps : List String) (s s' : Search)
      → Good v
      → Sound s
      → visit_all r v name ps s ≡ ok s'
      → Visited s ps s'
  unfolding visit_all
  visit_all-Visited v name [] s s' good sound h = Visited-same s s' sound h
  visit_all-Visited v name (p ∷ ps) s s' good sound h = elim (Option-cases (meta r p)) [
    | inl e ↦ absurd (cc (visit_all-none v name p ps s e, h))
    | inr (m, e) ↦
        let (s₁, first, rest) =
          and_then-ok (v m.name s) (λ t. visit_all r v name ps t) s'
            (sym (visit_all-some v name p ps s m e) ∙ h) in
        let named : m.name ≡ p = name_found p m e in
        let one : Visited s (p ∷ []) s₁ =
          subst (λ n. Visited s (n ∷ []) s₁) named (good m.name s s₁ sound first) in
        Visited-cons s s₁ s' p ps one (visit_all-Visited v name ps s₁ s' good one.sound rest)
  ]

  visit_marked-Visited :
      (v : List String → String → Search → Visit) (path : List String) (name : String)
      (o : Option Mark)
      → (s s' : Search) → ((path' : List String) → Good (v path'))
      → Sound s
      → mark_of s.visited name ≡ o
      → visit_marked r v path name s o ≡ ok s'
      → Visited s (name ∷ []) s'
  unfolding visit_marked
  visit_marked-Visited v path name (some finished) s s' good sound e h =
      let same : s ≡ s' = cc h in
      subst (λ t. Visited s (name ∷ []) t) same
        (record {
          sound = sound;
          grows = λ n k. k;
          all_out = λ n k.
              subst (λ m. contains s.out m ≡ true) (only_one name n k) (sound.finished_out name e);
        })
  visit_marked-Visited v path name (some entered) s s' good sound e h = absurd (cc h)
  visit_marked-Visited v path name none s s' good sound e h =
      let (s₁, all, done) =
        and_then-ok (visit_all r (v (path ++ name ∷ [])) name (prerequisites name) (enter name s))
          (λ t. ok (finish name t)) s' h in
      let before =
        visit_all-Visited (v (path ++ name ∷ [])) name (prerequisites name) (enter name s) s₁
          (good (path ++ name ∷ [])) (enter-Sound name s sound) all in
      let same : finish name s₁ ≡ s' = cc done in
      subst (λ t. Visited s (name ∷ []) t) same
        (record {
          sound = finish-Sound name s₁ before.sound before.all_out;
          grows = λ n k. Grows_one s₁.out name n (before.grows n k);
          all_out = λ n k.
              subst (λ m. contains (s₁.out ++ name ∷ []) m ≡ true) (only_one name n k)
                (contains_snoc s₁.out name name
                  ∙ ap (λ b. contains s₁.out name || b) (str_eq_refl name)
                  ∙ or_true (contains s₁.out name));
        })

  visit-Good : (fuel : ℕ) (path : List String) → Good (visit r fuel path)
  unfolding visit
  visit-Good zero path name s s' sound h = absurd (cc h)
  visit-Good (suc fuel) path name s s' sound h =
      visit_marked-Visited (visit r fuel) path name (mark_of s.visited name) s s' (visit-Good fuel)
        sound refl h

  visit_order-Visited :
      (fuel : ℕ) (ns : List String) (s s' : Search)
      → Sound s
      → visit_order r fuel ns s ≡ ok s'
      → Visited s ns s'
  unfolding visit_order
  visit_order-Visited fuel [] s s' sound h = Visited-same s s' sound h
  visit_order-Visited fuel (n ∷ ns) s s' sound h =
      let (s₁, first, rest) =
        and_then-ok (visit r fuel [] n s) (λ t. visit_order r fuel ns t) s' h in
      let one = visit-Good fuel [] n s s₁ sound first in
      Visited-cons s s₁ s' n ns one (visit_order-Visited fuel ns s₁ s' one.sound rest)

  start-Sound : Sound (record { visited = []; out = [] })
  unfolding mark_of
  start-Sound = record { in_order = tt; finished_out = λ n h. absurd (cc h) }

  pub dependency_order-Visited :
      (s' : Search)
      → dependency_order r ≡ ok s'
      → Visited (record { visited = []; out = [] }) (names_of r.items) s'
  unfolding dependency_order
  dependency_order-Visited s' h =
      visit_order-Visited (suc (length r.items)) (names_of r.items)
        (record { visited = []; out = [] }) s' start-Sound h
