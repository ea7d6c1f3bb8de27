-- ===== src/Storage/Version/Horizon.antt =====
-- crates/adabt-storage/src/version.rs: no open snapshot can see behind the reclaim horizon.
use a_da_bt.Prelude.{
  ℕ, zero, suc, ◌+◌, ◌^◌, ◌≤◌, ◌<◌, ◌≡◌, refl, sym, subst, true, min, some, List, [], ◌∷◌, ◌==◌,
  leb, le→leb, length, get_elem?, arith, Bool-cases, inl, inr,
}
use a_da_bt.Storage.Version.{
  VersionTracker, new, current, minimum, reclaim_horizon, sees, Event, World, happen_all,
}
use a_da_bt.Storage.Version.Counts.{one_if, count}
use a_da_bt.Storage.Version.Steps.{Inv, Inv-happen_all, happen_all-next}

minimum-le : (x y : ℕ) (ys : List ℕ) → 0 < count x (y ∷ ys) → minimum y ys ≤ x
unfolding minimum count
minimum-le x y [] c = ground arith
minimum-le x y (z ∷ zs) c = elim (Bool-cases (x == y)) [
  | inl e ↦ ground arith
  | inr e ↦
      let other : one_if x y ≡ 0 = rw e in
      let rest : minimum z zs ≤ x = minimum-le x z zs (omega arith) in omega arith
]

counted_first : (y : ℕ) (ys : List ℕ) → 0 < count y (y ∷ ys)
unfolding count
counted_first y ys = ground arith

counted_later : (x y : ℕ) (ys : List ℕ) → 0 < count x ys → 0 < count x (y ∷ ys)
unfolding count
counted_later x y ys h = omega arith

minimum_counted : (y : ℕ) (ys : List ℕ) → 0 < count (minimum y ys) (y ∷ ys)
unfolding minimum
minimum_counted y [] = counted_first y []
minimum_counted y (z ∷ zs) = elim (Bool-cases (leb y (minimum z zs))) [
  | inl e ↦
      let least : y ≡ min y (minimum z zs) = ground arith in
      subst (λ (m : ℕ). 0 < count m (y ∷ z ∷ zs)) least (counted_first y (z ∷ zs))
  | inr e ↦
      let least : minimum z zs ≡ min y (minimum z zs) = ground arith in
      subst (λ (m : ℕ). 0 < count m (y ∷ z ∷ zs)) least
        (counted_later (minimum z zs) y (z ∷ zs) (minimum_counted z zs))
]

nothing_counted : (x : ℕ) (xs : List ℕ) → xs ≡ [] → ¬ (0 < count x xs)
unfolding count
nothing_counted x [] e c = omega arith
nothing_counted x (y ∷ ys) e c = absurd (cc)

-- The horizon is not above an open id or the current one, and is at least any bound of both.
horizon_bounds :
    (t : VersionTracker) (ids : List ℕ)
    → t.open_ids ≡ ids
    → ((x : ℕ) → 0 < count x t.open_ids → x ≤ current t)
    → (reclaim_horizon t ≤ current t) × ((x : ℕ) → 0 < count x t.open_ids → reclaim_horizon t ≤ x)
unfolding reclaim_horizon count
horizon_bounds t [] e below =
    (rw (reclaim_horizon, e) (omega arith), λ x c. absurd (nothing_counted x t.open_ids e c))
horizon_bounds t (y ∷ ys) e below = (
  rw (reclaim_horizon, e) (below (minimum y ys) (rw e (minimum_counted y ys))),
  λ x c. rw (reclaim_horizon, e) (minimum-le x y ys (subst (λ l. 0 < count x l) e c)),
)

horizon_least :
    (h : ℕ) (t : VersionTracker) (ids : List ℕ)
    → t.open_ids ≡ ids
    → h ≤ current t
    → ((x : ℕ) → 0 < count x t.open_ids → h ≤ x)
    → h ≤ reclaim_horizon t
unfolding reclaim_horizon
horizon_least h t [] e low above = rw (reclaim_horizon, e) low
horizon_least h t (y ∷ ys) e low above =
    rw (reclaim_horizon, e) (above (minimum y ys) (rw e (minimum_counted y ys)))

-- The horizon read in a world is one that the invariant holds for.
Inv-reclaim_horizon : (w : World) → Inv 0 w → Inv (reclaim_horizon w.tracker) w
Inv-reclaim_horizon w (low, same, between) =
    let (now, opened) =
      horizon_bounds w.tracker _ refl (λ x c. (between x (omega (arith, same x))).1) in
    (now, same, λ x c. (opened x (omega (arith, same x)), (between x c).1))

some-injective : {x y : ℕ} → some x ≡ some y → x ≡ y
some-injective h = cc

counted : (xs : List ℕ) (i x : ℕ) → get_elem? xs i ≡ some x → 0 < count x xs
unfolding count
counted [] i x h = absurd (cc)
counted (y ∷ ys) zero x h =
    subst (λ (z : ℕ). 0 < count x (z ∷ ys)) (sym (some-injective h)) (counted_first x ys)
counted (y ∷ ys) (suc i) x h = omega (arith, counted ys i x h)

abbrev pub start : World
start = record { tracker = new; live = [] }

Inv-start : Inv 0 start
unfolding current count
Inv-start = (omega arith, λ x. refl, λ x c. absurd (omega arith))

-- Whatever happened, less than 2 ^ 64 - 1 events in all, a version superseded at or before the
-- horizon read at one moment is seen as superseded by every snapshot alive then or opened later:
-- what was reclaimed on the horizon's word is never read again.
pub sees-reclaim_horizon :
    (before after : List Event) (i at txn : ℕ)
    → 1 + length before + length after < 2 ^ 64
    → get_elem? (happen_all (happen_all start before) after).live i ≡ some at
    → txn ≤ reclaim_horizon (happen_all start before).tracker
    → sees at txn ≡ true
unfolding sees
sees-reclaim_horizon before after i at txn fits alive old =
    let w = happen_all start before in
    let inv = Inv-happen_all 0 before start (omega arith) Inv-start in
    let later =
      Inv-happen_all (reclaim_horizon w.tracker) after w
        (omega (arith, happen_all-next before start)) (Inv-reclaim_horizon w inv) in
    let above = (later.2 at (counted _ i at alive)).0 in le→leb txn at (omega arith)

-- The horizon never moves back, whatever happens, less than 2 ^ 64 - 1 events in all.
pub reclaim_horizon_grows :
    (before after : List Event)
    → 1 + length before + length after < 2 ^ 64
    → reclaim_horizon (happen_all start before).tracker
      ≤ reclaim_horizon (happen_all (happen_all start before) after).tracker
reclaim_horizon_grows before after fits =
    let w = happen_all start before in
    let inv = Inv-happen_all 0 before start (omega arith) Inv-start in
    let (low, same, between) =
      Inv-happen_all (reclaim_horizon w.tracker) after w
        (omega (arith, happen_all-next before start)) (Inv-reclaim_horizon w inv) in
    horizon_least (reclaim_horizon w.tracker) _ _ refl low
      (λ x c. (between x (omega (arith, same x))).0)
