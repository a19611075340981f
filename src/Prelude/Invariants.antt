-- ===== src/Prelude/Invariants.antt =====
-- Invariants of actions: what holds before an action holds after it, whatever it returns or throws.
-- One rule for each way to build an action, for `search`.
use mathlib.Core.Path.{◌≡◌, refl, ap, subst}
use mathlib.Core.Bool.{Bool, true, false}
use mathlib.Core.Option.{Option, none, some}
use mathlib.Core.Logic.{inl, inr}
use f_chat_backend.Prelude.Tests.{Option-cases, or_else}
use f_chat_backend.Prelude.Actions.{
  Action, Result, Failure, ok, failed, done, reads, stored, result_of, written, continue, refuse,
  require, rolled_back, transaction, when◌then◌else◌, ◌>>=◌, ◌>>◌,
}

module _ {ℓ κ} {S : Type ℓ} (P : S → Type κ) where
  unfoldable pub Preserves : {A : Type 0} → Action S A → Type (ℓ ⊔ κ)
  Preserves a = (s : S) → P s → P (a s).1

  -- An action that returned.
  pub ok-Preserves :
      {A : Type 0} (a : Action S A) (s u : S) (x : A) → Preserves a → P s → a s ≡ (ok x, u) → P u
  unfolding Preserves
  ok-Preserves {A} a s u x k h e = subst (λ (r : Result A × S). P r.1) e (k s h)

  pub continue-Preserves :
      {A B : Type 0} (r : Result A × S) (f : A → Action S B)
      → P r.1
      → ((v : A) → Preserves (f v))
      → P (continue r f).1
  unfolding continue Preserves
  continue-Preserves (ok v, s) f h k = k v s h
  continue-Preserves (failed e, s) f h k = h

  pub bind-Preserves :
      {A B : Type 0} (a : Action S A) (f : A → Action S B)
      → Preserves a
      → ((v : A) → Preserves (f v))
      → Preserves (a >>= f)
  unfolding Preserves ◌>>=◌
  bind-Preserves a f ka kf s h = continue-Preserves (a s) f (ka s h) kf

  returned-Preserves :
      {A B : Type 0} (r : Result A × S) (f : A → Action S B)
      → P r.1
      → ((v : A) (u : S) → r ≡ (ok v, u) → P u → P (f v u).1)
      → P (continue r f).1
  unfolding continue
  returned-Preserves (ok v, s) f h k = k v s refl h
  returned-Preserves (failed e, s) f h k = h

  -- The second action, with what the first returned.
  pub bind_returned-Preserves :
      {A B : Type 0} (a : Action S A) (f : A → Action S B)
      → Preserves a
      → ((v : A) (s u : S) → a s ≡ (ok v, u) → P u → P (f v u).1)
      → Preserves (a >>= f)
  unfolding Preserves ◌>>=◌
  bind_returned-Preserves a f ka kf s h = returned-Preserves (a s) f (ka s h) (λ v u e. kf v s u e)

  pub then-Preserves :
      {A B : Type 0} (a : Action S A) (b : Action S B)
      → Preserves a
      → Preserves b
      → Preserves (a >> b)
  unfolding Preserves ◌>>◌ ◌>>=◌
  then-Preserves a b ka kb s h = continue-Preserves (a s) (λ _. b) (ka s h) (λ _. kb)

  pub done-Preserves : {A : Type 0} (x : A) → Preserves (done x)
  unfolding Preserves done
  done-Preserves x s h = h

  pub reads-Preserves : {A : Type 0} (f : S → A) → Preserves (reads f)
  unfolding Preserves reads
  reads-Preserves f s h = h

  -- What was read keeps a fact about it.
  pub reading-Preserves :
      {A B : Type 0} (f : S → A) (k : A → Action S B)
      → ((s : S) → P s → P (k (f s) s).1)
      → Preserves (reads f >>= k)
  unfolding Preserves reads ◌>>=◌ continue
  reading-Preserves f k h s p = h s p

  pub when-Preserves :
      {A : Type 0} (b : Bool) (x y : Action S A)
      → Preserves x
      → Preserves y
      → Preserves (when b then x else y)
  unfolding when◌then◌else◌
  when-Preserves true x y kx ky = kx
  when-Preserves false x y kx ky = ky

  -- The first branch, with its test.
  pub guarded-Preserves :
      {A : Type 0} (b : Bool) (x y : Action S A)
      → (b ≡ true → Preserves x)
      → Preserves y
      → Preserves (when b then x else y)
  unfolding when◌then◌else◌
  guarded-Preserves true x y kx ky = kx refl
  guarded-Preserves false x y kx ky = ky

  pub stored-Preserves :
      (w : S → Option S) → ((s u : S) → P s → w s ≡ some u → P u) → Preserves (stored w)
  unfolding Preserves stored
  stored-Preserves w k s h = elim (Option-cases (w s)) [
    | inl q ↦ rw (q, result_of) h
    | inr (u, q) ↦ rw (q, result_of) (k s u h q)
  ]

  -- A write that does not throw.
  pub stored-some-Preserves :
      (w : S → S) → ((s : S) → P s → P (w s)) → Preserves (stored (λ s. some (w s)))
  unfolding Preserves stored result_of
  stored-some-Preserves w k s h = k s h

  written-Preserves :
      {A : Type ℓ} (put : A → S) (o : Option A) (u : S)
      → ((x : A) → o ≡ some x → P (put x))
      → written put o ≡ some u
      → P u
  unfolding written
  written-Preserves put none u k e = cc
  written-Preserves put (some x) u k e = subst P (ap (λ o. or_else o (put x)) e) (k x refl)

  -- A write to one part of the state.
  pub part-Preserves :
      {A : Type ℓ} (put : S → A → S) (w : S → Option A)
      → ((s : S) (x : A) → P s → w s ≡ some x → P (put s x))
      → Preserves (stored (λ s. written (put s) (w s)))
  part-Preserves put w k =
      stored-Preserves (λ s. written (put s) (w s))
        (λ s u h e. written-Preserves (put s) (w s) u (λ x q. k s x h q) e)

  pub refuse-Preserves : (b : Bool) (e : Failure) → Preserves (refuse b e)
  unfolding Preserves refuse
  refuse-Preserves true e s h = h
  refuse-Preserves false e s h = h

  pub require-Preserves : {A : Type 0} (o : Option A) (e : Failure) → Preserves (require o e)
  unfolding Preserves require
  require-Preserves none e s h = h
  require-Preserves (some x) e s h = h

  rolled_back-Preserves :
      {A : Type 0} (s : S) (r : Result A × S) → P s → P r.1 → P (rolled_back s r).1
  unfolding rolled_back
  rolled_back-Preserves s (ok x, t) h k = k
  rolled_back-Preserves s (failed e, t) h k = h

  pub transaction-Preserves :
      {A : Type 0} (a : Action S A) → Preserves a → Preserves (transaction a)
  unfolding Preserves transaction
  transaction-Preserves a k s h = rolled_back-Preserves s (a s) h (k s h)
