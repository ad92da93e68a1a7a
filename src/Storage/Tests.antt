-- ===== src/Storage/Tests.antt =====
-- Runs of the storage layer (pkg/storage/storage.go) over a database that holds at most two keys.
use dagnet_crypto.Base.{
  ◌≡◌, refl, Bool, true, false, none, some, List, [], ◌∷◌, Str, str_key, codes, ltb, length,
  if◌then◌else◌, ◌||◌, arith,
}
use dagnet_crypto.Map.{Map, insert, lookup, contains, lookup-insert}
use dagnet_crypto.Storage.Engine.{LevelDb, IsKeyValue, Found, found, absent}
use dagnet_crypto.Storage.Tables.{Row, Write, perform_all, fetch, replay, fetch-perform_all}

abbrev Small : Type 0
Small = Map Str Str

unfoldable small_get : Str → Small → Found
small_get k d = elim (lookup k d) [ none ↦ absent | some v ↦ found v ]

unfoldable small_put : Str → Str → Small → Bool × Small
small_put k v d = if contains k d || ltb (length d) 2 then (true, insert k v d) else (false, d)

abbrev small_db : LevelDb Small
small_db = record {
  get = small_get;
  has = λ k d. some (contains k d);
  put = small_put;
  delete = λ k d. (false, d);
  write = λ ops d. (false, d);
  range = λ start end_key d. (d, true);
}

small_db-IsKeyValue : IsKeyValue small_db
unfolding small_get small_put
small_db-IsKeyValue = record {
  get-put = λ k j v d h. ground (arith, lookup-insert k j v d);
  get-failed_put = λ k j v d h. ground arith;
}

abbrev three_writes : List Write
three_writes =
    record { row = Row.account (codes "a"); data_bytes = codes "1" }
    ∷ record { row = Row.nft (codes "c") (codes "1"); data_bytes = codes "2" }
    ∷ record { row = Row.token (codes "a"); data_bytes = codes "3" }
    ∷ record { row = Row.account (codes "a"); data_bytes = codes "4" }
    ∷ []

fetch-perform_all_example :
    fetch small_db (Row.account (codes "a")) (perform_all small_db three_writes []).1
    ≡ replay three_writes
        (perform_all small_db three_writes []).0
        (λ r. fetch small_db r [])
        (Row.account (codes "a"))
fetch-perform_all_example =
    fetch-perform_all small_db small_db-IsKeyValue three_writes (Row.account (codes "a")) [] refl
      refl
