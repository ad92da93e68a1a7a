-- ===== src/Executor/Keeps.antt =====
-- Rules by which a method of the executor (pkg/state/executor.go) keeps an invariant, whether it ends well or
-- not, and what then holds of what it gives.
use mathlib.Core.Path.{subst}
use dagnet_crypto.Base.{◌≡◌, refl, Bool, true, false, Bool-cases, Option, none, some, inl, inr}
use dagnet_crypto.Executor.Monad.{
  done, Error, World, Action, ◌>>=◌, ◌>>◌, return, reject, reject_if, require, or_panic, read,
  update, store,
}
use dagnet_crypto.Executor.Laws.{Outcome-cases, done_injective}

module _ {D : Type 0} where
  -- an action keeps `I`, and what it gives has `Q`
  pub record Keeps {A : Type 0} (I : World D → Type 0) (Q : A → Type 0) (m : Action D A)
      : Type 0 where
    pub kept : (w : World D) → I w → I (m w).1
    pub gives : (w : World D) → I w → (x : A) → (m w).0 ≡ done x → Q x

  module _ {I : World D → Type 0} where
    pub bind-Keeps :
        {A B : Type 0} {P : A → Type 0} {Q : B → Type 0} {m : Action D A} {next : A → Action D B}
        → Keeps I P m
        → ((x : A) → P x → Keeps I Q (next x))
        → Keeps I Q (m >>= next)
    unfolding ◌>>=◌
    bind-Keeps {A} {B} {P} {Q} {m} {next} first second = record {
      kept = λ w i. elim (Outcome-cases (m w).0) [
        | inl (x, e) ↦
            rw (e, ◌>>=◌) ((second x (first.gives w i x e)).kept (m w).1 (first.kept w i))
        | inr (inl (err, e)) ↦ rw (e, ◌>>=◌) (first.kept w i)
        | inr (inr e) ↦ rw (e, ◌>>=◌) (first.kept w i)
      ];
      gives = λ w i. elim (Outcome-cases (m w).0) [
        | inl (x, e) ↦
            rw (e, ◌>>=◌) ((second x (first.gives w i x e)).gives (m w).1 (first.kept w i))
        | inr (inl (err, e)) ↦ rw (e, ◌>>=◌) (λ y h. cc)
        | inr (inr e) ↦ rw (e, ◌>>=◌) (λ y h. cc)
      ];
    }

    pub then-Keeps :
        {A B : Type 0} {P : A → Type 0} {Q : B → Type 0} {m : Action D A} {next : Action D B}
        → Keeps I P m
        → Keeps I Q next
        → Keeps I Q (m >> next)
    unfolding ◌>>◌
    then-Keeps {A} {B} {P} {Q} {m} {next} first second = record {
      kept = λ w i. elim (Outcome-cases (m w).0) [
        | inl (x, e) ↦ rw (e, ◌>>◌) (second.kept (m w).1 (first.kept w i))
        | inr (inl (err, e)) ↦ rw (e, ◌>>◌) (first.kept w i)
        | inr (inr e) ↦ rw (e, ◌>>◌) (first.kept w i)
      ];
      gives = λ w i. elim (Outcome-cases (m w).0) [
        | inl (x, e) ↦ rw (e, ◌>>◌) (second.gives (m w).1 (first.kept w i))
        | inr (inl (err, e)) ↦ rw (e, ◌>>◌) (λ y h. cc)
        | inr (inr e) ↦ rw (e, ◌>>◌) (λ y h. cc)
      ];
    }

    pub return-Keeps : {A : Type 0} {Q : A → Type 0} (x : A) → Q x → Keeps I Q (return x)
    unfolding return
    return-Keeps {A} {Q} x q = record {
      kept = λ w i. i;
      gives = λ w i y h. subst Q (done_injective h) q;
    }

    pub reject-Keeps : {A : Type 0} {Q : A → Type 0} (e : Error) → Keeps I Q (reject e)
    unfolding reject
    reject-Keeps e = record { kept = λ w i. i; gives = λ w i y h. cc }

    pub reject_if-Keeps : (b : Bool) (e : Error) → Keeps I (λ _. Unit {0}) (reject_if b e)
    unfolding reject_if
    reject_if-Keeps true e = record { kept = λ w i. i; gives = λ w i y h. tt }
    reject_if-Keeps false e = record { kept = λ w i. i; gives = λ w i y h. tt }

    pub read-Keeps :
        {A : Type 0} {Q : A → Type 0} (f : World D → A)
        → ((w : World D) → I w → Q (f w))
        → Keeps I Q (read f)
    unfolding read
    read-Keeps {A} {Q} f q = record {
      kept = λ w i. i;
      gives = λ w i y h. subst Q (done_injective h) (q w i);
    }

    pub require-Keeps :
        {A : Type 0} {Q : A → Type 0} (o : Option A) (e : Error)
        → ((x : A) → o ≡ some x → Q x)
        → Keeps I Q (require o e)
    unfolding require
    require-Keeps none e q = record { kept = λ w i. i; gives = λ w i y h. cc }
    require-Keeps {Q = Q} (some x) e q = record {
      kept = λ w i. i;
      gives = λ w i y h. subst Q (done_injective h) (q x refl);
    }

    pub or_panic-Keeps :
        {A : Type 0} {Q : A → Type 0} (o : Option A)
        → ((x : A) → o ≡ some x → Q x)
        → Keeps I Q (or_panic o)
    unfolding or_panic
    or_panic-Keeps none q = record { kept = λ w i. i; gives = λ w i y h. cc }
    or_panic-Keeps {Q = Q} (some x) q = record {
      kept = λ w i. i;
      gives = λ w i y h. subst Q (done_injective h) (q x refl);
    }

    pub update-Keeps :
        (f : World D → World D)
        → ((w : World D) → I w → I (f w))
        → Keeps I (λ _. Unit {0}) (update f)
    update-Keeps f k = unfold update in record { kept = k; gives = λ w i y h. tt }

    pub store-Keeps :
        (f : D → Bool × D)
        → ((w : World D) → I w → I (record w { db = (f w.db).1 }))
        → Keeps I (λ _. Unit {0}) (store f)
    unfolding store
    store-Keeps f k = record {
      kept = λ w i. elim (Bool-cases (f w.db).0) [
        | inl e ↦ rw (e, store) (k w i)
        | inr e ↦ rw (e, store) (k w i)
      ];
      gives = λ w i y h. tt;
    }
