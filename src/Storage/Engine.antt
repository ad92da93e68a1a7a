-- ===== src/Storage/Engine.antt =====
-- `LevelDBEngine` and `LevelDBBatch` (pkg/storage/storage.go).
use dagnet_crypto.Base.{
  ◌≡◌, Bool, true, false, Option, none, some, List, [], ◌∷◌, ◌++◌, Str, str_key, ◌==◌,
  if◌then◌else◌,
}
use dagnet_crypto.Map.{Map, insert}

-- what `leveldb.DB.Get` answers: a value, `leveldb.ErrNotFound`, or another error
pub data Found : Type 0 where
  found : Str → Found
  absent : Found
  broken : Found

pub data BatchOp : Type 0 where
  put : Str → Str → BatchOp
  delete : Str → BatchOp

-- the methods of `leveldb.DB` in use; a write tells whether it went through
pub record LevelDb (D : Type 0) : Type 0 where
  pub get : Str → D → Found
  pub has : Str → D → Option Bool
  pub put : Str → Str → D → Bool × D
  pub delete : Str → D → Bool × D
  pub write : List BatchOp → D → Bool × D
  pub range : Str → Str → D → List (Str × Str) × Bool

-- What its documentation says of them: a read gives the last value written, and a write that fails
-- changes nothing.
pub record IsKeyValue {D : Type 0} (db : LevelDb D) : Type 0 where
  pub get-put :
      (k j v : Str) (d : D)
      → (db.put k v d).0 ≡ true
      → db.get j (db.put k v d).1 ≡ (if k == j then found v else db.get j d)
  pub get-failed_put :
      (k j v : Str) (d : D) → (db.put k v d).0 ≡ false → db.get j (db.put k v d).1 ≡ db.get j d

-- what a read of the storage gives: data, `ErrNotFound`, or another error
pub data Read : Type 0 where
  value : Str → Read
  not_found : Read
  read_error : Read

module _ {D : Type 0} (db : LevelDb D) where
  -- `LevelDBEngine.Get`
  unfoldable pub engine_get : Str → D → Read
  engine_get key d = elim (db.get key d) [
    | found v ↦ value v
    | absent ↦ not_found
    | broken ↦ read_error
  ]

  -- `LevelDBEngine.Put`, `Delete` and `Has`
  unfoldable pub engine_put : Str → Str → D → Bool × D
  engine_put key v d = db.put key v d

  unfoldable pub engine_delete : Str → D → Bool × D
  engine_delete key d = db.delete key d

  unfoldable pub engine_has : Str → D → Option Bool
  engine_has key d = db.has key d

  -- the loop of `SearchRange`, over what the iterator gives
  unfoldable pub collected : List (Str × Str) → Map Str Str → Map Str Str
  collected [] m = m
  collected ((k, v) ∷ rest) m = collected rest (insert k v m)

  -- `SearchRange`; none is an error of the iterator
  unfoldable pub search_range : Str → Str → D → Option (Map Str Str)
  search_range start end_key d =
      let (entries, fine) = db.range start end_key d in
      if fine then some (collected entries []) else none

  -- `LevelDBBatch`: the operations that wait in it
  abbrev pub Batch : Type 0
  Batch = List BatchOp

  unfoldable pub batch_put : Str → Str → Batch → Batch
  batch_put key v b = b ++ (BatchOp.put key v ∷ [])

  unfoldable pub batch_delete : Str → Batch → Batch
  batch_delete key b = b ++ (BatchOp.delete key ∷ [])

  unfoldable pub batch_reset : Batch → Batch
  batch_reset b = []

  unfoldable pub batch_write : Batch → D → Bool × D
  batch_write b d = db.write b d
