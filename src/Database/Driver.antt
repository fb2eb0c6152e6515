-- ===== src/Database/Driver.antt =====
-- How the database driver answers `dataSource.query`, which is no code of the repository: the
-- services read index 0 of the answer to an UPDATE … RETURNING. A function from the rows to what
-- stands there is a parameter of the methods that do so.
use postgres_pipeline_orches.Common.{◌≡◌, Bool, true, false, List, [], ◌∷◌}

-- Nothing, a row, or, from a driver that answers with the rows and their number, the list of the
-- rows.
pub data First (A : Type 0) : Type 0 where
  missing : First A
  row : A → First A
  rows : List A → First A

-- The answer is the list of the rows.
pub record AnswersRows {A : Type 0} (first : List A → First A) : Type 0 where
  pub at_none : first [] ≡ missing
  pub at_some : (a : A) (rest : List A) → first (a ∷ rest) ≡ row a

-- The answer is the pair of that list and of the number of the rows.
abbrev pub AnswersCount : {A : Type 0} → (List A → First A) → Type 0
AnswersCount {A} first = (rs : List A) → first rs ≡ rows rs

-- A driver of either kind.
abbrev pub by_rows : {A : Type 0} → List A → First A
by_rows [] = missing
by_rows (a ∷ _) = row a

abbrev pub by_count : {A : Type 0} → List A → First A
by_count rs = rows rs

-- How a statement ends for its caller: `lost` is one that took effect, and whose call throws.
pub data Reply : Type 0 where
  fine lost failed : Reply

abbrev pub is_fine : Reply → Bool
is_fine fine = true
is_fine _ = false

abbrev pub if_done {ℓ} : {A : Type ℓ} → Reply → A → A → A
if_done failed after before = before
if_done _ after before = after
