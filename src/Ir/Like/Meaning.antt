-- ===== src/Ir/Like/Meaning.antt =====
-- What `matches_from` and `parse_like_pattern` of crates/adabt-ir/src/expr.rs mean.
use a_da_bt.Prelude.{
  ℕ, ◌≡◌, refl, ap, subst, Bool, true, false, ◌||◌, List, [], ◌∷◌, arith, ◌==◌, ==_iff, inl, inr,
  ◌↔◌, Bool-cases,
}
use a_da_bt.Ir.Like.{Piece, literal, any_run, any_one, parse_pieces, matches_from}

-- The texts that a pattern describes: a run takes any number of characters.
pub data Describes : List Piece → List ℕ → Type 0 where
  done : Describes [] []
  run_ends : {ps : List Piece} {ts : List ℕ} → Describes ps ts → Describes (any_run ∷ ps) ts
  run_takes :
      {ps : List Piece} {ts : List ℕ} (t : ℕ)
      → Describes (any_run ∷ ps) ts
      → Describes (any_run ∷ ps) (t ∷ ts)
  one :
      {ps : List Piece} {ts : List ℕ} (t : ℕ) → Describes ps ts → Describes (any_one ∷ ps) (t ∷ ts)
  char :
      {ps : List Piece} {ts : List ℕ} (t : ℕ)
      → Describes ps ts
      → Describes (literal t ∷ ps) (t ∷ ts)

matches_from_sound : (ts : List ℕ) (ps : List Piece) → matches_from ts ps ≡ true → Describes ps ts
unfolding matches_from
matches_from_sound [] [] h = done
matches_from_sound (t ∷ ts) [] h = absurd (cc)
matches_from_sound [] (any_run ∷ ps) h = run_ends (matches_from_sound [] ps h)
matches_from_sound (t ∷ ts) (any_run ∷ ps) h = elim (Bool-cases (matches_from (t ∷ ts) ps)) [
  | inl e ↦ run_ends (matches_from_sound (t ∷ ts) ps e)
  | inr e ↦ run_takes t (matches_from_sound ts (any_run ∷ ps) (rw e at h))
]
matches_from_sound [] (any_one ∷ ps) h = absurd (cc)
matches_from_sound (t ∷ ts) (any_one ∷ ps) h = one t (matches_from_sound ts ps h)
matches_from_sound [] (literal c ∷ ps) h = absurd (cc)
matches_from_sound (t ∷ ts) (literal c ∷ ps) h = elim (Bool-cases (t == c)) [
  | inl e ↦
      subst (λ (k : ℕ). Describes (literal k ∷ ps) (t ∷ ts)) ((==_iff t c).0 e)
        (char t (matches_from_sound ts ps (rw e at h)))
  | inr e ↦ absurd (ground arith)
]

or-true : (a : Bool) {b : Bool} → b ≡ true → (a || b) ≡ true
or-true true h = refl
or-true false h = h

matches_from_complete :
    {ts : List ℕ} {ps : List Piece} → Describes ps ts → matches_from ts ps ≡ true
unfolding matches_from
matches_from_complete done = refl
matches_from_complete (run_ends {ps = ps} {ts = []} d) = matches_from_complete d
matches_from_complete (run_ends {ps = ps} {ts = t ∷ ts} d) = rw (matches_from_complete d) refl
matches_from_complete (run_takes {ps = ps} {ts = ts} t d) =
    or-true (matches_from (t ∷ ts) ps) (matches_from_complete d)
matches_from_complete (one t d) = matches_from_complete d
matches_from_complete (char t d) = ground (arith, matches_from_complete d)

-- The matcher answers true on exactly the texts that the pattern describes.
pub matches_from_iff :
    (ts : List ℕ) (ps : List Piece) → (matches_from ts ps ≡ true) ↔ Describes ps ts
matches_from_iff ts ps = (matches_from_sound ts ps, λ d. matches_from_complete d)

-- A text with a backslash before each character.
abbrev pub escaped : List ℕ → List ℕ
escaped [] = []
escaped (c ∷ cs) = 92 ∷ c ∷ escaped cs

abbrev pub literals : List ℕ → List Piece
literals [] = []
literals (c ∷ cs) = literal c ∷ literals cs

parse_pieces-escaped : (cs : List ℕ) → parse_pieces (escaped cs) ≡ literals cs
unfolding parse_pieces
parse_pieces-escaped [] = refl
parse_pieces-escaped (c ∷ cs) = ap (λ l. literal c ∷ l) (parse_pieces-escaped cs)

matches_from-literals : (ts cs : List ℕ) → (matches_from ts (literals cs) ≡ true) ↔ (ts ≡ cs)
unfolding matches_from
matches_from-literals [] [] = (λ h. refl, λ h. refl)
matches_from-literals [] (c ∷ cs) = (λ h. cc, λ h. cc)
matches_from-literals (t ∷ ts) [] = (λ h. cc, λ h. cc)
matches_from-literals (t ∷ ts) (c ∷ cs) = (
  λ h. ground (arith, (matches_from-literals ts cs).0),
  λ h. ground (arith, (matches_from-literals ts cs).1),
)

-- A pattern in which every character is escaped, wildcards and backslashes too, matches the text
-- of those characters and no other text.
pub escaped-matches_iff :
    (ts cs : List ℕ) → (matches_from ts (parse_pieces (escaped cs)) ≡ true) ↔ (ts ≡ cs)
escaped-matches_iff ts cs = rw parse_pieces-escaped (matches_from-literals ts cs)
