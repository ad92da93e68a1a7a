-- ===== src/Consensus/Search/Exact.antt =====
-- What the walk finds: the ids that its start leads to, and no others.
use dagnet_crypto.Base.{
  ℕ, zero, suc, ◌≡◌, sym, true, Option, some, List, [], ◌∷◌, Str, str_key, inl, inr, ◌⊎◌, ◌↔◌,
  str_eq_iff, arith, Bool-cases, Option-cases,
}
use dagnet_crypto.Map.{lookup}
use dagnet_crypto.Consensus.Search.{
  Found, has, add, has-add, each, explore, mem, Leads, link, then_on,
}

module _ (next : Str → List Str) where
  -- what a call does to the ids found: `xs` are the ids that it was to visit
  record Grown (xs : List Str) (found r : Found) : Type 0 where
    keeps : (y : Str) → has y found ≡ true → has y r ≡ true
    visits : (y : Str) → mem y xs ≡ true → has y r ≡ true
    closed :
        (y : Str)
        → has y r ≡ true
        → (has y found ≡ true) ⊎ ((z : Str) → mem z (next y) ≡ true → has z r ≡ true)
    sound :
        (y : Str)
        → has y r ≡ true
        → (has y found ≡ true) ⊎ ((x : Str) × (mem x xs ≡ true) × ((y ≡ x) ⊎ Leads next x y))

  abbrev Grows : (Str → Found → Option Found) → Type 0
  Grows visit = (x : Str) (found r : Found) → visit x found ≡ some r → Grown (next x) found r

  marked_cases :
      (x y : Str) (found : Found) → has y (add x found) ≡ true → (x ≡ y) ⊎ (has y found ≡ true)
  marked_cases x y found m = ground (arith, has-add x y found, str_eq_iff x y)

  onwards : (x w y : Str) → mem w (next x) ≡ true → (y ≡ w) ⊎ Leads next w y → Leads next x y
  onwards x w y m (inl e) = link (rw e m)
  onwards x w y m (inr path) = then_on m path

  old-Grown :
      (x : Str) (xs : List Str) (found r : Found)
      → has x found ≡ true
      → Grown xs found r
      → Grown (x ∷ xs) found r
  unfolding mem
  old-Grown x xs found r old g = record {
    keeps = g.keeps;
    visits = λ y m. ground (arith, g.visits y, g.keeps y, str_eq_iff x y);
    closed = g.closed;
    sound = λ y m. elim (g.sound y m) [
      | inl before ↦ inl before
      | inr (w, w_in, path) ↦ inr (w, ground arith, path)
    ];
  }

  new-Grown :
      (x : Str) (xs : List Str) (found more r : Found)
      → Grown (next x) (add x found) more
      → Grown xs more r
      → Grown (x ∷ xs) found r
  unfolding mem
  new-Grown x xs found more r inner rest = record {
    keeps = λ y m. rest.keeps y (inner.keeps y (ground (arith, has-add x y found)));
    visits = λ y m. ground (arith, has-add x y found, inner.keeps y, rest.keeps y, rest.visits y);
    closed = λ y m. elim (rest.closed y m) [
      | inr links ↦ inr links
      | inl before ↦ elim (inner.closed y before) [
        | inr links ↦ inr (λ z l. rest.keeps z (links z l))
        | inl marked ↦ elim (marked_cases x y found marked) [
          | inl e ↦ inr (λ z l. rest.keeps z (inner.visits z (rw e l)))
          | inr old ↦ inl old
        ]
      ]
    ];
    sound = λ y m. elim (rest.sound y m) [
      | inr (w, w_in, path) ↦ inr (w, ground arith, path)
      | inl before ↦ elim (inner.sound y before) [
        | inr (w, w_in, path) ↦ inr (x, head, inr (onwards x w y w_in path))
        | inl marked ↦ elim (marked_cases x y found marked) [
          | inl e ↦ inr (x, head, inl (sym e))
          | inr old ↦ inl old
        ]
      ]
    ];
  }
    where
      head : mem x (x ∷ xs) ≡ true
      head = ground (arith, str_eq_iff x x)

  each-Grown :
      (visit : Str → Found → Option Found)
      → Grows visit
      → (xs : List Str) (found r : Found) → each visit xs found ≡ some r
      → Grown xs found r
  unfolding each
  each-Grown visit g [] found r e =
      let same : found ≡ r = cc in
      rw (← same) (record {
        keeps = λ y m. m;
        visits = λ y m. unfold mem in ground arith;
        closed = λ y m. inl m;
        sound = λ y m. inl m;
      })
  each-Grown visit g (x ∷ xs) found r e = elim (Bool-cases (has x found)) [
    | inl old ↦ old-Grown x xs found r old (each-Grown visit g xs found r (rw (old, each) at e))
    | inr new ↦ elim (Option-cases (visit x (add x found))) [
      | inl stuck ↦ ground arith
      | inr (more, e') ↦
          new-Grown x xs found more r (g x (add x found) more e')
            (each-Grown visit g xs more r (rw (new, e', each) at e))
    ]
  ]

  explore-Grown : (f : ℕ) → Grows (explore next f)
  unfolding explore
  explore-Grown zero x found r e = ground arith
  explore-Grown (suc f) x found r e =
      each-Grown (explore next f) (explore-Grown f) (next x) found r e

  nothing_found : (y : Str) → has y [] ≡ true → ⊥
  unfolding has lookup
  nothing_found y m = cc

  -- all that the start leads to is found
  reaches :
      (x : Str) (r : Found)
      → Grown (next x) [] r
      → {y z : Str} → has y r ≡ true
      → Leads next y z
      → has z r ≡ true
  reaches x r g {y} m (link l) = elim (g.closed y m) [
    | inl none_yet ↦ absurd (nothing_found y none_yet)
    | inr links ↦ links _ l
  ]
  reaches x r g {y} m (then_on {y = w} l path) = elim (g.closed y m) [
    | inl none_yet ↦ absurd (nothing_found y none_yet)
    | inr links ↦ reaches x r g (links w l) path
  ]

  found_of_Leads : (x y : Str) (r : Found) → Grown (next x) [] r → Leads next x y → has y r ≡ true
  found_of_Leads x y r g (link l) = g.visits y l
  found_of_Leads x y r g (then_on {y = w} l path) = reaches x r g (g.visits w l) path

  Leads-of_found : (x y : Str) (r : Found) → Grown (next x) [] r → has y r ≡ true → Leads next x y
  Leads-of_found x y r g m = elim (g.sound y m) [
    | inl none_yet ↦ absurd (nothing_found y none_yet)
    | inr (w, w_in, path) ↦ onwards x w y w_in path
  ]

  -- From no id found, a walk that ends has found exactly the ids that its start leads to.
  pub explore_exact :
      (f : ℕ) (x : Str) (r : Found)
      → explore next f x [] ≡ some r
      → (y : Str) → (has y r ≡ true) ↔ Leads next x y
  explore_exact f x r e y =
      let g = explore-Grown f x [] r e in (Leads-of_found x y r g, found_of_Leads x y r g)
