-- ===== src/Opt/Registry/Dependencies.antt =====
-- crates/adabt-opt/src/registry.rs: `dependency_order`, a depth-first search over the prerequisites.
pub mod Fuel
pub mod Ordered
pub mod Cycles
pub mod Answers
use text.Mathlib.Text.{◌==◌ as str_eq}
use a_da_bt.Prelude.{
  ℕ, zero, suc, String, Bool, true, false, List, [], ◌∷◌, ◌++◌, Option, some, none, length,
  if◌then◌else◌,
}
use a_da_bt.Opt.Registry.{OptMeta, Registry, meta, names_of}

-- 1 and 2 in the map of the search.
pub data Mark : Type 0 where
  entered finished : Mark

abbrev pub Marks : Type 0
Marks = List (String × Mark)

-- `visited.get`; what was inserted last is in front.
unfoldable pub mark_of : Marks → String → Option Mark
mark_of [] n = none
mark_of ((m, k) ∷ ms) n = let rest = mark_of ms n in if str_eq m n then some k else rest

-- What is changed on the way.
pub record Search : Type 0 where
  pub visited : Marks
  pub out : List String

-- The errors name the cycle, with the path to it, and the prerequisite that is not registered.
pub data Visit : Type 0 where
  ok : Search → Visit
  cycle : List String → Visit
  unregistered : String → String → Visit
  out_of_fuel : Visit

-- `?`
abbrev pub and_then : Visit → (Search → Visit) → Visit
and_then (ok s) f = f s
and_then v f = v

abbrev pub enter : String → Search → Search
enter name s = record s { visited = (name, entered) ∷ s.visited }

abbrev pub finish : String → Search → Search
finish name s = record { visited = (name, finished) ∷ s.visited; out = s.out ++ name ∷ [] }

-- The loop over the prerequisites of `name`, given how one of them is visited.
unfoldable pub visit_all :
    Registry → (String → Search → Visit) → String → List String → Search → Visit
visit_all r visit name [] s = ok s
visit_all r visit name (p ∷ ps) s = elim (meta r p) [
  | none ↦ unregistered name p
  | some m ↦ and_then (visit m.name s) (λ s'. visit_all r visit name ps s')
]

abbrev pub prerequisites_of : Option OptMeta → List String
prerequisites_of none = []
prerequisites_of (some m) = m.prerequisites

-- One visit, by what the map holds for the name.
unfoldable pub visit_marked :
    Registry
    → (List String → String → Search → Visit)
    → List String
    → String
    → Search
    → Option Mark
    → Visit
visit_marked r visit path name s (some finished) = ok s
visit_marked r visit path name s (some entered) = cycle (path ++ name ∷ [])
visit_marked r visit path name s none =
    and_then
      (visit_all r (visit (path ++ name ∷ [])) name (prerequisites_of (meta r name)) (enter name s))
      (λ s'. ok (finish name s'))

-- `visit`. Each level enters a name, so one level more than there are names is enough.
unfoldable pub visit : Registry → ℕ → List String → String → Search → Visit
visit r zero path name s = out_of_fuel
visit r (suc fuel) path name s = visit_marked r (visit r fuel) path name s (mark_of s.visited name)

unfoldable pub visit_order : Registry → ℕ → List String → Search → Visit
visit_order r fuel [] s = ok s
visit_order r fuel (n ∷ ns) s = and_then (visit r fuel [] n s) (λ s'. visit_order r fuel ns s')

unfoldable pub dependency_order : Registry → Visit
unfolding names_of
dependency_order r =
    visit_order r (suc (length r.items)) (names_of r.items) (record { visited = []; out = [] })
