-- ===== src/Core/Value.antt =====
-- crates/adabt-core/src/value.rs: the value domain.
-- An `f64` is its bit pattern, a `u8` or `u64` a native number, an `i64` or `i128` an integer.
-- A `BTreeMap` is the list of its entries in key order.
use a_da_bt.Prelude.{ℕ, String, Bool, true, false, List, Option, some, none}
use a_da_bt.Prelude.Int.{ℤ, pos}

mutual
  pub data Value : Type 0 where
    null : Value
    bool : Bool → Value
    i64 : ℤ → Value
    u64 : ℕ → Value
    f64 : ℕ → Value
    decimal : ℤ → ℕ → Value
    timestamp : ℤ → Value
    str : String → Value
    bytes : List ℕ → Value
    list : Items → Value
    map : Fields → Value

  pub data Items : Type 0 where
    nil : Items
    cons : Value → Items → Items

  pub data Fields : Type 0 where
    end : Fields
    field : String → Value → Fields → Fields

-- The cross-type ordering of the variants; every numeric variant has one rank.
unfoldable pub rank : Value → ℕ
rank null = 0
rank (bool b) = 1
rank (i64 n) = 2
rank (u64 n) = 2
rank (f64 n) = 2
rank (decimal u s) = 2
rank (str s) = 3
rank (bytes b) = 4
rank (list xs) = 5
rank (map xs) = 6
rank (timestamp t) = 7

unfoldable pub type_name : Value → String
type_name null = "null"
type_name (bool b) = "bool"
type_name (i64 n) = "i64"
type_name (u64 n) = "u64"
type_name (f64 n) = "f64"
type_name (decimal u s) = "decimal"
type_name (timestamp t) = "timestamp"
type_name (str s) = "str"
type_name (bytes b) = "bytes"
type_name (list xs) = "list"
type_name (map xs) = "map"

unfoldable pub is_null : Value → Bool
is_null null = true
is_null _ = false

-- The exact numeric content: units and scale.
unfoldable pub exact_units : Value → Option (ℤ × ℕ)
exact_units (i64 n) = some (n, 0)
exact_units (u64 n) = some (pos n, 0)
exact_units (decimal units scale) = some (units, scale)
exact_units _ = none
