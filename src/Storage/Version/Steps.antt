-- ===== src/Storage/Version/Steps.antt =====
-- crates/adabt-storage/src/version.rs: the open snapshots are the live ones, whatever happens.
use a_da_bt.Prelude.{
  ℕ, ◌+◌, ◌-◌, ◌^◌, ◌≤◌, ◌<◌, ◌≡◌, ◌≢◌, refl, sym, ap, ◌∙◌, subst, Option, some, none, List, [],
  ◌∷◌, ◌==◌, ==_iff, length, get_elem?, arith, Bool-cases, Option-cases, inl, inr,
}
use a_da_bt.Storage.Version.{
  VersionTracker, begin_write, current, open_snapshot, close_snapshot, position, remove_nth, Event,
  writes, opens, drops, World, happen, happen_all,
}
use a_da_bt.Storage.Version.Counts.{
  one_if, count, count-append, count-swap_remove, count-remove_nth, get-position, count-position,
}

-- The invariant, for a horizon h that was once read: the open snapshots are the live ones, none of
-- them is newer than the current id or older than h.
abbrev pub Inv : ℕ → World → Type 0
Inv h w =
    (h ≤ current w.tracker)
    × ((x : ℕ) → count x w.tracker.open_ids ≡ count x w.live)
    × ((x : ℕ) → 0 < count x w.live → (h ≤ x) × (x ≤ current w.tracker))

Inv-writes : (h : ℕ) (w : World) → w.tracker.next + 1 < 2 ^ 64 → Inv h w → Inv h (happen w writes)
unfolding happen begin_write current
Inv-writes h w fits (low, same, between) =
    (omega arith, same, λ x c. (((between x c).0), omega (arith, (between x c).1)))

Inv-opens : (h : ℕ) (w : World) → Inv h w → Inv h (happen w opens)
unfolding happen open_snapshot current count
Inv-opens h w (low, same, between) = (
  low,
  λ x. omega (arith, same x, count-append x w.tracker.open_ids ((w.tracker.next - 1) ∷ [])),
  λ x c. elim (Bool-cases (x == w.tracker.next - 1)) [
    | inl e ↦
        let at : x ≡ w.tracker.next - 1 = (==_iff x (w.tracker.next - 1)).0 e in
        (omega arith, omega arith)
    | inr e ↦ let other : one_if x (w.tracker.next - 1) ≡ 0 = rw e in between x (omega arith)
  ],
)

positive_zero : (n : ℕ) → 0 < n → n ≢ 0
positive_zero n h e = ground arith

-- Closing takes just one occurrence of the id away.
close_at :
    (t : VersionTracker) (at x : ℕ) (o : Option ℕ)
    → position at t.open_ids ≡ o
    → 0 < count at t.open_ids
    → (count x (close_snapshot t at).open_ids + one_if x at ≡ count x t.open_ids)
      × ((close_snapshot t at).next ≡ t.next)
unfolding close_snapshot
close_at t at x none e h =
    absurd (positive_zero (count at t.open_ids) h (count-position at t.open_ids e))
close_at t at x (some i) e h = (
  rw (close_snapshot, e) (count-swap_remove x t.open_ids i at (get-position at t.open_ids i e)),
  rw (close_snapshot, e),
)

drops_none : (w : World) (i : ℕ) → get_elem? w.live i ≡ none → happen w (drops i) ≡ w
unfolding happen
drops_none w i e = rw (happen, e)

drops_some :
    (w : World) (i at : ℕ)
    → get_elem? w.live i ≡ some at
    → happen w (drops i)
      ≡ record { tracker = close_snapshot w.tracker at; live = remove_nth w.live i }
unfolding happen
drops_some w i at e = rw (happen, e)

Inv-dropped :
    (h : ℕ) (w : World) (i at : ℕ)
    → get_elem? w.live i ≡ some at
    → Inv h w
    → Inv h (record { tracker = close_snapshot w.tracker at; live = remove_nth w.live i })
unfolding current
Inv-dropped h w i at e (low, same, between) =
    let removed : (x : ℕ) → count x (remove_nth w.live i) + one_if x at ≡ count x w.live =
      λ x. count-remove_nth x w.live i at e in
    let here_once : one_if at at ≡ 1 = ground arith in
    let there : 0 < count at w.tracker.open_ids = omega (arith, removed at, same at) in
    let closed = λ (x : ℕ). close_at w.tracker at x _ refl there in
    let kept : (close_snapshot w.tracker at).next ≡ w.tracker.next = (closed 0).1 in
    (
      rw kept low,
      λ x. omega (arith, (closed x).0, removed x, same x),
      λ x c. let (above, below) = between x (omega (arith, removed x)) in (above, rw kept below),
    )

Inv-drops : (h : ℕ) (w : World) (i : ℕ) → Inv h w → Inv h (happen w (drops i))
Inv-drops h w i inv = elim (Option-cases (get_elem? w.live i)) [
  | inl e ↦ subst (Inv h) (sym (drops_none w i e)) inv
  | inr (at, e) ↦ subst (Inv h) (sym (drops_some w i at e)) (Inv-dropped h w i at e inv)
]

-- One event at a time: the invariant, and the counter grows by one at most.
close-next :
    (t : VersionTracker) (at : ℕ) (o : Option ℕ)
    → position at t.open_ids ≡ o
    → (close_snapshot t at).next ≡ t.next
unfolding close_snapshot
close-next t at none e = rw (close_snapshot, e)
close-next t at (some i) e = rw (close_snapshot, e)

drops-next : (w : World) (i : ℕ) → (happen w (drops i)).tracker.next ≡ w.tracker.next
drops-next w i = elim (Option-cases (get_elem? w.live i)) [
  | inl e ↦ ap (λ v. v.tracker.next) (drops_none w i e)
  | inr (at, e) ↦ ap (λ v. v.tracker.next) (drops_some w i at e) ∙ close-next w.tracker at _ refl
]

happen-next : (w : World) (e : Event) → (happen w e).tracker.next ≤ w.tracker.next + 1
unfolding happen begin_write open_snapshot
happen-next w writes = omega arith
happen-next w opens = omega arith
happen-next w (drops i) = omega (arith, drops-next w i)

Inv-happen :
    (h : ℕ) (w : World) (e : Event) → w.tracker.next + 1 < 2 ^ 64 → Inv h w → Inv h (happen w e)
Inv-happen h w writes fits inv = Inv-writes h w fits inv
Inv-happen h w opens fits inv = Inv-opens h w inv
Inv-happen h w (drops i) fits inv = Inv-drops h w i inv

pub happen_all-next :
    (es : List Event) (w : World) → (happen_all w es).tracker.next ≤ w.tracker.next + length es
unfolding happen_all
happen_all-next [] w = omega arith
happen_all-next (e ∷ es) w = omega (arith, happen-next w e, happen_all-next es (happen w e))

pub Inv-happen_all :
    (h : ℕ) (es : List Event) (w : World)
    → w.tracker.next + length es < 2 ^ 64
    → Inv h w
    → Inv h (happen_all w es)
unfolding happen_all
Inv-happen_all h [] w fits inv = inv
Inv-happen_all h (e ∷ es) w fits inv =
    Inv-happen_all h es (happen w e) (omega (arith, happen-next w e))
      (Inv-happen h w e (omega arith) inv)
