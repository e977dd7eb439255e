-- ===== src/Store/Upsert.antt =====
-- `INSERT … ON DUPLICATE KEY UPDATE` on a table whose unique key is a pair of numbers.
use link_nest.Base.{
  ℕ, ◌+◌, ◌≡◌, refl, Bool, true, ◌&&◌, Option, none, some, List, [], ◌∷◌, arith, ◌==◌,
  if◌then◌else◌,
}

abbrev pub RowKey : Type 0
RowKey = ℕ × ℕ

abbrev pub same_key : RowKey → RowKey → Bool
same_key x y = x.0 == y.0 && x.1 == y.1

-- The key of a row, what becomes of an old row for which a new one is given, and whether that
-- changes it.
pub record Upsert (A : Type 0) : Type 0 where
  pub key : A → RowKey
  pub merge : A → A → A
  pub same_row : A → A → Bool
  pub key-merge : (old new : A) → key (merge old new) ≡ key old

module _ {A : Type 0} (t : Upsert A) where
  unfoldable pub find_row : RowKey → List A → Option A
  find_row x [] = none
  find_row x (r ∷ rows) = if same_key (t.key r) x then some r else find_row x rows

  unfoldable pub upsert_row : A → List A → List A
  upsert_row r [] = r ∷ []
  upsert_row r (s ∷ rows) =
      if same_key (t.key s) (t.key r) then t.merge s r ∷ rows else s ∷ upsert_row r rows

  -- The affected rows: 1 for a new row, 2 for a changed one, 0 for one that is set to what it was.
  unfoldable pub affected : A → List A → ℕ
  affected r [] = 1
  affected r (s ∷ rows) =
      if same_key (t.key s) (t.key r)
      then (if t.same_row s (t.merge s r) then 0 else 2)
      else affected r rows

  unfoldable pub upsert_all : List A → List A → List A
  unfolding upsert_row
  upsert_all [] rows = rows
  upsert_all (r ∷ rs) rows = upsert_all rs (upsert_row r rows)

  unfoldable pub affected_all : List A → List A → ℕ
  unfolding affected upsert_row
  affected_all [] rows = 0
  affected_all (r ∷ rs) rows = affected r rows + affected_all rs (upsert_row r rows)

  abbrev pub merged : Option A → A → A
  merged none r = r
  merged (some s) r = t.merge s r

  -- No two rows have the same key.
  abbrev pub DistinctKeys : List A → Type 0
  DistinctKeys [] = Unit
  DistinctKeys (r ∷ rows) = (find_row (t.key r) rows ≡ none) × DistinctKeys rows

  pub find_row-upsert_row :
      (x : RowKey) (r : A) (rows : List A)
      → find_row x (upsert_row r rows)
        ≡ (if same_key (t.key r) x then some (merged (find_row x rows) r) else find_row x rows)
  unfolding find_row upsert_row
  find_row-upsert_row x r [] = refl
  find_row-upsert_row x r (s ∷ rows) = ground (arith, find_row-upsert_row x r rows, t.key-merge s r)

  same_key_subst :
      (x y : RowKey) (rows : List A) → same_key y x ≡ true → find_row x rows ≡ find_row y rows
  unfolding find_row
  same_key_subst x y [] h = refl
  same_key_subst x y (s ∷ rows) h = ground (arith, same_key_subst x y rows)

  -- What the rows given, each key once, make of a table.
  pub find_row-upsert_all :
      (x : RowKey) (rs rows : List A)
      → DistinctKeys rs
      → find_row x (upsert_all rs rows) ≡ elim (find_row x rs) [
        | none ↦ find_row x rows
        | some r ↦ some (merged (find_row x rows) r)
      ]
  unfolding find_row upsert_all
  find_row-upsert_all x [] rows h = refl
  find_row-upsert_all x (r ∷ rs) rows (fresh, h) = ground (
    arith,
    find_row-upsert_all x rs (upsert_row r rows) h,
    find_row-upsert_row x r rows,
    same_key_subst x (t.key r) rs,
  )
