-- ===== src/Storage/Version.antt =====
-- crates/adabt-storage/src/version.rs: transaction ids, open snapshots and what may be reclaimed.
pub mod Counts
pub mod Steps
pub mod Horizon
mod Tests
use a_da_bt.Prelude.{
  ℕ, zero, suc, ◌+◌, ◌-◌, ◌%◌, ◌^◌, min, Bool, Option, some, none, List, [], ◌∷◌, ◌++◌, leb, ◌==◌,
  if◌then◌else◌, length, set, get_elem?,
}

-- The mutex's vector and the atomic counter; an operation runs as one step.
pub record VersionTracker : Type 0 where
  pub next : ℕ
  pub open_ids : List ℕ

abbrev pub new : VersionTracker
new = record { next = 1; open_ids = [] }

-- The id handed out, and `fetch_add`, which wraps.
unfoldable pub begin_write : VersionTracker → ℕ × VersionTracker
begin_write t = (t.next, record { next = (t.next + 1) % 2 ^ 64; open_ids = t.open_ids })

-- `saturating_sub`
unfoldable pub current : VersionTracker → ℕ
current t = t.next - 1

-- `open_snapshot`, by which `Snapshot::open` takes its id.
unfoldable pub open_snapshot : VersionTracker → ℕ × VersionTracker
unfolding current
open_snapshot t = (current t, record { next = t.next; open_ids = t.open_ids ++ current t ∷ [] })

unfoldable pub position : ℕ → List ℕ → Option ℕ
position x [] = none
position x (y ∷ ys) =
    let rest = position x ys in
    if y == x then some 0 else elim rest [ some i ↦ some (suc i) | none ↦ none ]

-- All but the last element, and the last.
unfoldable pub init : List ℕ → List ℕ
init [] = []
init (x ∷ []) = []
init (x ∷ y ∷ xs) = x ∷ init (y ∷ xs)

unfoldable pub last : ℕ → List ℕ → ℕ
last x [] = x
last x (y ∷ ys) = last y ys

-- `Vec::swap_remove`: the last element takes the place of the one removed.
unfoldable pub swap_remove : List ℕ → ℕ → List ℕ
unfolding init last
swap_remove [] i = []
swap_remove (x ∷ xs) i = set (init (x ∷ xs)) i (last x xs)

-- `close_snapshot`, which dropping a snapshot calls.
unfoldable pub close_snapshot : VersionTracker → ℕ → VersionTracker
unfolding position swap_remove
close_snapshot t at = elim (position at t.open_ids) [
  | some i ↦ record { next = t.next; open_ids = swap_remove t.open_ids i }
  | none ↦ t
]

unfoldable pub minimum : ℕ → List ℕ → ℕ
minimum x [] = x
minimum x (y ∷ ys) = min x (minimum y ys)

unfoldable pub reclaim_horizon : VersionTracker → ℕ
unfolding current minimum
reclaim_horizon t = elim t.open_ids [ [] ↦ current t | ◌∷◌ x xs ↦ minimum x xs ]

unfoldable pub open_count : VersionTracker → ℕ
open_count t = length t.open_ids

-- A snapshot at an id sees what was stamped at or before it.
unfoldable pub sees : ℕ → ℕ → Bool
sees at txn = leb txn at

-- What the clients do: a write begins, a snapshot opens, a live snapshot is dropped.
pub data Event : Type 0 where
  writes : Event
  opens : Event
  drops : ℕ → Event

-- The tracker, and the ids of the snapshots that are alive.
pub record World : Type 0 where
  pub tracker : VersionTracker
  pub live : List ℕ

unfoldable pub remove_nth : List ℕ → ℕ → List ℕ
remove_nth [] i = []
remove_nth (x ∷ xs) zero = xs
remove_nth (x ∷ xs) (suc i) = x ∷ remove_nth xs i

unfoldable pub happen : World → Event → World
unfolding begin_write open_snapshot close_snapshot remove_nth
happen w writes = record { tracker = (begin_write w.tracker).1; live = w.live }
happen w opens = let (at, t) = open_snapshot w.tracker in record { tracker = t; live = at ∷ w.live }
happen w (drops i) = elim (get_elem? w.live i) [
  | some at ↦ record { tracker = close_snapshot w.tracker at; live = remove_nth w.live i }
  | none ↦ w
]

unfoldable pub happen_all : World → List Event → World
unfolding happen
happen_all w [] = w
happen_all w (e ∷ es) = happen_all (happen w e) es
