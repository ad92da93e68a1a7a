-- ===== src/Mempool/Runs/Removing.antt =====
-- `Remove` and `cleanup` (pkg/mempool/mempool.go) keep the mempool consistent.
use dagnet_crypto.Base.{
  ℕ, ◌≤◌, ◌<◌, ◌≡◌, true, false, Str, str_key, str_eq_iff, nat_key, nat_eq_iff, inl, inr, arith,
  Bool-cases, Option-cases, length, ltb,
}
use dagnet_crypto.Map.{Map, lookup}
use dagnet_crypto.Mempool.Priority.{negative}
use dagnet_crypto.Mempool.Heap.{init}
use dagnet_crypto.Mempool.Heap.Items.{count, init-SameItems}
use dagnet_crypto.Mempool.Pool.{Mempool, less, priority_at, remove, young, cleanup}
use dagnet_crypto.Mempool.Entries.{
  entries, entry_in, refs, lookup-entry_in, entry_in-lookup, entries-delete, entry_in-delete,
  entries-young, entry_in-young, count-refs_in, id_of_count, count-refs_le,
}
use dagnet_crypto.Mempool.Runs.{id_at, IsConsistent}
use dagnet_crypto.Mempool.Runs.Objects.{length-delete, id_at-mark, negative-mark, length-mark}

pub remove-IsConsistent : (id : Str) (m : Mempool) → IsConsistent m → IsConsistent (remove id m)
unfolding remove
remove-IsConsistent id m c = elim (Option-cases (lookup id m.txs)) [
  | inl e ↦ rw (e, remove) c
  | inr (r, e) ↦
      let there = entry_in-lookup id r m.txs e in
      let (own, _, fits, _) = c.valid id r there in
      let told = λ (s : ℕ). id_at-mark r s m.objects in
      let ranked = λ (s : ℕ). negative-mark r s m.objects fits in
      let listed = λ (k : Str) (s : ℕ). entry_in-delete id k s m.txs in
      rw (e, remove)
        (record {
          unique = λ k. ground (arith, entries-delete id k m.txs, c.unique k);
          valid = λ k s h. ground (
            arith,
            listed k s,
            told s,
            ranked s,
            c.valid k s,
            own,
            length-mark r m.objects,
            nat_eq_iff r s,
            str_eq_iff id k,
          );
          live = λ s k l.
              let same_ref =
                λ (f : entry_in id s m.txs ≡ true). lookup-entry_in id s m.txs (c.unique id) f in
              ground (
                arith,
                told s,
                ranked s,
                listed (id_at m.objects s) s,
                c.live s,
                same_ref,
                str_eq_iff id (id_at m.objects s),
                nat_eq_iff r s,
              );
          once = c.once;
          inside = λ s k. ground (arith, c.inside s, length-mark r m.objects);
          bounded = omega (arith, length-delete id m.txs, c.bounded);
        })
]

module _ (now : ℕ) (m : Mempool) (c : IsConsistent m) where
  abbrev kept : Map Str ℕ
  kept = young now m.objects m.txs

  kept-valid :
      (id : Str) (r : ℕ)
      → entry_in id r kept ≡ true
      → (id_at m.objects r ≡ id)
        × (negative (priority_at m.objects r) ≡ false)
        × (r < length m.objects)
        × (0 < count r m.queue)
  kept-valid id r e = c.valid id r (entry_in-young now m.objects id r m.txs e)

  kept_unique : (id : Str) → entries id kept ≤ 1
  kept_unique id = omega (arith, entries-young now m.objects id m.txs, c.unique id)

  rebuilt-IsConsistent :
      length kept < length m.txs
      → IsConsistent (record m { txs = kept; queue = init (less m.objects) (refs kept) })
  rebuilt-IsConsistent fewer =
      let queued = λ (r : ℕ). (init-SameItems (less m.objects) (refs kept)).counts r in
      record {
        unique = kept_unique;
        valid = λ id r e. ground (arith, kept-valid id r e, count-refs_in id r kept e, queued r);
        live = λ r k l.
            let (id, e) = id_of_count r kept (omega (arith, queued r)) in
            rw (kept-valid id r e).0 e;
        once = λ r.
            let le = count-refs_le (id_at m.objects) r kept (λ k s e. (kept-valid k s e).0) in
            omega (arith, queued r, le, kept_unique (id_at m.objects r));
        inside = λ r k.
            let (id, e) = id_of_count r kept (omega (arith, queued r)) in (kept-valid id r e).2;
        bounded = omega (arith, c.bounded);
      }

  pub cleanup-IsConsistent : IsConsistent (cleanup now m)
  unfolding cleanup
  cleanup-IsConsistent = elim (Bool-cases (ltb (length kept) (length m.txs))) [
    | inl fewer ↦ rw (fewer, cleanup) (rebuilt-IsConsistent (ground arith))
    | inr all ↦ rw (all, cleanup) c
  ]
