-- ===== src/Store/Table.antt =====
-- What the source relies on in redb and bincode. A redb table maps string keys to byte strings; a
-- committed write transaction applies its insertions and removals, an aborted one nothing.
use oxidrive.Base.{ℕ, ◌≡◌, Option, some, List}
use oxidrive.Text.{Text}
use oxidrive.TextMap.{TextMap, insert, remove}
use oxidrive.TextMap.Order.{IsOrdered}

abbrev pub Bytes : Type 0
Bytes = List ℕ

-- A table, seen through its rows in the order of the keys, as `Table::iter` gives them.
pub record Table : Type 1 where
  pub State : Type 0
  pub rows : State → TextMap Bytes
  pub put : Text → Bytes → State → State
  pub delete : Text → State → State
  pub rows-IsOrdered : (t : State) → IsOrdered (rows t)
  pub rows-put : (k : Text) (b : Bytes) (t : State) → rows (put k b t) ≡ insert k b (rows t)
  pub rows-delete : (k : Text) (t : State) → rows (delete k t) ≡ remove k (rows t)

-- An encoder that may fail, and a decoder that reads back what it wrote.
pub record Codec (A : Type 0) : Type 0 where
  pub serialize : A → Option Bytes
  pub deserialize : Bytes → Option A
  pub deserialize-serialize : (a : A) (b : Bytes) → serialize a ≡ some b → deserialize b ≡ some a
