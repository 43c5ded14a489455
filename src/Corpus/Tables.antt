-- ===== src/Corpus/Tables.antt =====
-- A LanceDB table as the program uses it. LanceDB is not part of the repository: its operations are
-- fields, and their documented behaviour is stated row by row, without any order of the rows.
use smalt_mcp.Prelude.{
  ℕ, ◌≡◌, Bool, true, false, not, ◌&&◌, ◌||◌, List, [], any, Text, text_eq, leb, length,
}

pub record Table (Row : Type 0) : Type 1 where
  pub Store : Type 0
  -- a table that `create_table` made
  pub empty : Store
  -- `to_arrow()`
  pub scan : Store → List Row
  -- `search().where(p).limit(n).to_arrow()`
  pub select : (Row → Bool) → ℕ → Store → List Row
  -- `search().where(p).to_arrow().num_rows`
  pub count : (Row → Bool) → Store → ℕ
  -- `delete(p)`
  pub delete : (Row → Bool) → Store → Store
  -- `add(rows)`
  pub add : List Row → Store → Store
  -- `merge_insert(key).when_matched_update_all().when_not_matched_insert_all().execute(rows)`
  pub merge : (Row → Text) → List Row → Store → Store
  pub scan-empty : scan empty ≡ []
  -- A selected row is in the table and passes the filter.
  pub select_sound :
      (p : Row → Bool) (n : ℕ) (t : Store) (q : Row → Bool)
      → any q (select p n t) ≡ true
      → any (λ r. q r && p r) (scan t) ≡ true
  -- A selection with fewer rows than its limit has every row that passes.
  pub select_all :
      (p : Row → Bool) (n : ℕ) (t : Store) (q : Row → Bool)
      → leb n (length (select p n t)) ≡ false
      → any q (select p n t) ≡ any (λ r. q r && p r) (scan t)
  pub any-delete :
      (p : Row → Bool) (t : Store) (q : Row → Bool)
      → any q (scan (delete p t)) ≡ any (λ r. q r && not (p r)) (scan t)
  pub any-add :
      (rows : List Row) (t : Store) (q : Row → Bool)
      → any q (scan (add rows t)) ≡ (any q (scan t) || any q rows)
  -- Rows whose key is merged are replaced; the others stay.
  pub any-merge :
      (key : Row → Text) (rows : List Row) (t : Store) (q : Row → Bool)
      → any q (scan (merge key rows t))
        ≡ (any (λ r. q r && not (any (λ s. text_eq (key s) (key r)) rows)) (scan t) || any q rows)
