-- ===== src/Opt/Registry/Overrides.antt =====
-- crates/adabt-opt/src/registry.rs: what `validate_overrides` reports.
use text.Mathlib.Text.{◌==◌ as str_eq}
use a_da_bt.Prelude.{
  ◌≡◌, ◌≢◌, refl, sym, ap, ◌∙◌, String, Bool, true, false, not, ◌&&◌, ◌||◌, List, [], ◌∷◌, Option,
  some, none, if◌then◌else◌, Bool-cases, inl, inr, eq_iff,
}
use a_da_bt.Core.Names.{contains, str_eq_refl}
use a_da_bt.Opt.Registry.{
  Registry, registered, unknown_names, dedup_after, dedup, sort, report, validate_overrides,
}
use a_da_bt.Opt.Registry.Conflicts.{contains-sort, kept_if, contains_if}

-- Whether an answer reports the name.
unfoldable pub reports : Option (List String) → String → Bool
unfolding contains
reports none n = false
reports (some ns) n = contains ns n

contains-unknown_names :
    (r : Registry) (ns : List String) (n : String)
    → contains (unknown_names r ns) n ≡ contains ns n && not (registered r n)
unfolding unknown_names contains
contains-unknown_names r [] n = refl
contains-unknown_names r (m ∷ ns) n =
    contains_if (not (registered r m)) m (unknown_names r ns) n
    ∙ kept_if (str_eq m n) (not (registered r m)) (not (registered r n))
        (contains (unknown_names r ns) n) (contains ns n)
        (λ h. ap (λ s. not (registered r s)) ((eq_iff m n).0 h)) (contains-unknown_names r ns n)

or_twice : (a b : Bool) → a || (a || b) ≡ a || b
or_twice true b = refl
or_twice false b = refl

-- What is dropped is the name that was kept last.
contains-dedup_after :
    (last : String) (ns : List String) (n : String)
    → str_eq last n || contains (dedup_after last ns) n ≡ str_eq last n || contains ns n
unfolding dedup_after contains
contains-dedup_after last [] n = refl
contains-dedup_after last (m ∷ ns) n = elim (Bool-cases (str_eq last m)) [
  | inl e ↦
      ap
        (λ b. str_eq last n || contains (if b then dedup_after last ns else m ∷ dedup_after m ns) n)
        e
      ∙ contains-dedup_after last ns n
      ∙ sym (or_twice (str_eq last n) (contains ns n))
      ∙ ap (λ s. str_eq last n || (str_eq s n || contains ns n)) ((eq_iff last m).0 e)
  | inr e ↦
      ap
        (λ b. str_eq last n || contains (if b then dedup_after last ns else m ∷ dedup_after m ns) n)
        e
      ∙ ap (λ b. str_eq last n || b) (contains-dedup_after m ns n)
]

contains-dedup : (ns : List String) (n : String) → contains (dedup ns) n ≡ contains ns n
unfolding dedup contains
contains-dedup [] n = refl
contains-dedup (m ∷ ns) n = contains-dedup_after m ns n

reports_lem : (ns : List String) (n : String) → reports (report ns) n ≡ contains ns n
unfolding reports report contains
reports_lem [] n = refl
reports_lem (m ∷ ns) n = contains-dedup (sort (m ∷ ns)) n ∙ contains-sort (m ∷ ns) n

-- An error lists some name.
report_lists : (ns : List String) → report ns ≢ some []
unfolding report reports contains
report_lists [] h = absurd (cc h)
report_lists (m ∷ ns) h = absurd (
    cc (
      sym (ap (λ b. b || contains ns m) (str_eq_refl m))
      ∙ sym (reports_lem (m ∷ ns) m)
      ∙ ap (λ o. reports o m) h))

-- `validate_overrides` reports exactly the names among the overrides that are not registered, and
-- an error lists at least one name.
pub reports-validate_overrides :
    (r : Registry) (overrides : List String)
    → ((n : String)
        → reports (validate_overrides r overrides) n ≡ contains overrides n && not (registered r n))
      × (validate_overrides r overrides ≢ some [])
unfolding validate_overrides
reports-validate_overrides r overrides = (
  λ n. reports_lem (unknown_names r overrides) n ∙ contains-unknown_names r overrides n,
  report_lists (unknown_names r overrides),
)
