-- ===== src/Prelude/Actions.antt =====
-- Service methods: they read and change a state and may throw one of the exceptions of
-- @nestjs/common, an Error, or whatever the client of the database or of a remote service throws. What was
-- written before a throw stays.
use mathlib.Core.Path.{◌≡◌, refl, ap, subst}
use mathlib.Core.Bool.{Bool, true, false}
use mathlib.Core.Option.{Option, none, some}
use mathlib.Core.Logic.{inl, inr, ◌⊎◌}
use f_chat_backend.Prelude.Tests.{or_else}
use f_chat_backend.Prelude.Texts.{Text}

pub data Failure : Type 0 where
  not_found forbidden bad_request unauthorized conflict error : Text → Failure
  database remote : Failure

pub data Result (A : Type 0) : Type 0 where
  ok : A → Result A
  failed : Failure → Result A

abbrev pub Action {ℓ} : Type ℓ → Type 0 → Type ℓ
Action S A = S → Result A × S

value_or : {A : Type 0} → A → Result A → A
value_or d (ok x) = x
value_or d (failed e) = d

ok_eq : {A : Type 0} {x y : A} → ok x ≡ ok y → some x ≡ some y
ok_eq h = cc

-- The state with a part written, where the write did not throw.
unfoldable pub written {ℓ} : {A S : Type ℓ} → (A → S) → Option A → Option S
written put none = none
written put (some x) = some (put x)

pub written-some {ℓ} :
    {A S : Type ℓ} (put : A → S) (o : Option A) (u : S)
    → written put o ≡ some u
    → (x : A) × (o ≡ some x) × (put x ≡ u)
unfolding written
written-some put none u e = cc
written-some put (some x) u e = (x, refl, ap (λ o. or_else o (put x)) e)

module _ {ℓ} {S : Type ℓ} where
  infixl 10 ◌>>=◌ ◌>>◌
  unfoldable pub done : {A : Type 0} → A → Action S A
  done x s = (ok x, s)

  unfoldable pub reads : {A : Type 0} → (S → A) → Action S A
  reads f s = (ok (f s), s)

  unfoldable pub result_of : Option S → S → Result Unit × S
  result_of none s = (failed database, s)
  result_of (some t) s = (ok tt, t)

  -- A write of the database client, which may throw.
  unfoldable pub stored : (S → Option S) → Action S Unit
  unfolding result_of
  stored w s = result_of (w s) s

  unfoldable pub continue : {A B : Type 0} → Result A × S → (A → Action S B) → Result B × S
  continue (ok x, t) f = f x t
  continue (failed e, t) f = (failed e, t)

  unfoldable pub ◌>>=◌ : {A B : Type 0} → Action S A → (A → Action S B) → Action S B
  unfolding continue
  (a >>= f) s = continue (a s) f

  unfoldable pub ◌>>◌ : {A B : Type 0} → Action S A → Action S B → Action S B
  unfolding ◌>>=◌
  (a >> b) s = (a >>= λ _. b) s

  infix 1 when◌then◌else◌
  -- A conditional between two actions.
  unfoldable pub when◌then◌else◌ : {A : Type 0} → Bool → Action S A → Action S A → Action S A
  when true then a else b = a
  when false then a else b = b

  -- if (b) throw e
  unfoldable pub refuse : Bool → Failure → Action S Unit
  refuse true e s = (failed e, s)
  refuse false e s = (ok tt, s)

  -- if (!o) throw e
  unfoldable pub require : {A : Type 0} → Option A → Failure → Action S A
  require none e s = (failed e, s)
  require (some x) e s = (ok x, s)

  unfoldable pub rolled_back : {A : Type 0} → S → Result A × S → Result A × S
  rolled_back s (ok x, t) = (ok x, t)
  rolled_back s (failed e, t) = (failed e, s)

  -- prisma.$transaction: a throw undoes the writes.
  unfoldable pub transaction : {A : Type 0} → Action S A → Action S A
  unfolding rolled_back
  transaction a s = rolled_back s (a s)

  Result-cases :
      {A : Type 0} (r : Result A × S)
      → ((x : A) × (u : S) × (r ≡ (ok x, u))) ⊎ ((e : Failure) × (u : S) × (r ≡ (failed e, u)))
  Result-cases (ok x, u) = inl (x, u, refl)
  Result-cases (failed e, u) = inr (e, u, refl)

  failed_ok :
      {A : Type 0} (e : Failure) (x : A) (u t : S)
      → ¬ ◌≡◌ {A = Result A × S} (failed e, u) (ok x, t)
  failed_ok {A = A} e x u t h =
      let same : ◌≡◌ {A = Result A} (failed e) (ok x) = ap (λ (p : Result A × S). p.0) h in cc

  pub bind-ok :
      {A B : Type 0} (a : Action S A) (f : A → Action S B) (s t : S) (y : B)
      → (a >>= f) s ≡ (ok y, t)
      → (x : A) × (u : S) × (a s ≡ (ok x, u)) × (f x u ≡ (ok y, t))
  unfolding ◌>>=◌
  bind-ok a f s t y e = elim (Result-cases (a s)) [
    | inl (x, u, q) ↦ (x, u, q, subst (λ r. continue r f ≡ (ok y, t)) q e)
    | inr (w, u, q) ↦ absurd (failed_ok w y u t (subst (λ r. continue r f ≡ (ok y, t)) q e))
  ]

  pub then-ok :
      {A B : Type 0} (a : Action S A) (b : Action S B) (s t : S) (y : B)
      → (a >> b) s ≡ (ok y, t)
      → (x : A) × (u : S) × (a s ≡ (ok x, u)) × (b u ≡ (ok y, t))
  unfolding ◌>>◌
  then-ok a b s t y e = bind-ok a (λ _. b) s t y e

  pub refuse-ok :
      (b : Bool) (e : Failure) (s t : S) (x : Unit)
      → refuse b e s ≡ (ok x, t)
      → (b ≡ false) × (s ≡ t)
  unfolding refuse
  refuse-ok true e s t x h = absurd (failed_ok e x s t h)
  refuse-ok false e s t x h = (refl, ap (λ (p : Result Unit × S). p.1) h)

  pub require-ok :
      {A : Type 0} (o : Option A) (e : Failure) (s t : S) (x : A)
      → require o e s ≡ (ok x, t)
      → (o ≡ some x) × (s ≡ t)
  unfolding require
  require-ok none e s t x h = absurd (failed_ok e x s t h)
  require-ok {A = A} (some y) e s t x h =
      (ok_eq (ap (λ (p : Result A × S). p.0) h), ap (λ (p : Result A × S). p.1) h)

  pub reads-ok :
      {A : Type 0} (f : S → A) (s t : S) (x : A) → reads f s ≡ (ok x, t) → (f s ≡ x) × (s ≡ t)
  unfolding reads value_or
  reads-ok {A = A} f s t x h =
      (ap (λ (p : Result A × S). value_or (f s) p.0) h, ap (λ (p : Result A × S). p.1) h)

  pub done-ok : {A : Type 0} (y : A) (s t : S) (x : A) → done y s ≡ (ok x, t) → (y ≡ x) × (s ≡ t)
  unfolding done value_or
  done-ok {A = A} y s t x h =
      (ap (λ (p : Result A × S). value_or y p.0) h, ap (λ (p : Result A × S). p.1) h)

  result_of-ok : (o : Option S) (s t : S) (x : Unit) → result_of o s ≡ (ok x, t) → o ≡ some t
  unfolding result_of
  result_of-ok none s t x h = absurd (failed_ok database x s t h)
  result_of-ok (some u) s t x h = ap (λ (p : Result Unit × S). some p.1) h

  pub stored-ok : (w : S → Option S) (s t : S) (x : Unit) → stored w s ≡ (ok x, t) → w s ≡ some t
  unfolding stored
  stored-ok w s t x h = result_of-ok (w s) s t x h

  -- What a run that returns says of its first action.
  pub after_refuse :
      {B : Type 0} {b : Bool} {s t : S} {y : B} (e : Failure) (rest : Action S B)
      → (refuse b e >> rest) s ≡ (ok y, t)
      → (b ≡ false) × (rest s ≡ (ok y, t))
  unfolding ◌>>◌ refuse
  after_refuse {b = true} {s = s} {t = t} {y = y} e rest h = absurd (failed_ok e y s t h)
  after_refuse {b = false} e rest h = (refl, h)

  pub after_require :
      {A B : Type 0} {o : Option A} {s t : S} {y : B} (e : Failure) (k : A → Action S B)
      → (require o e >>= k) s ≡ (ok y, t)
      → (x : A) × (o ≡ some x) × (k x s ≡ (ok y, t))
  unfolding ◌>>=◌ require
  after_require {o = none} {s = s} {t = t} {y = y} e k h = absurd (failed_ok e y s t h)
  after_require {o = some x} e k h = (x, refl, h)

  pub after_require_then :
      {A B : Type 0} {o : Option A} {s t : S} {y : B} (e : Failure) (rest : Action S B)
      → (require o e >> rest) s ≡ (ok y, t)
      → (x : A) × (o ≡ some x) × (rest s ≡ (ok y, t))
  unfolding ◌>>◌ require
  after_require_then {o = none} {s = s} {t = t} {y = y} e rest h = absurd (failed_ok e y s t h)
  after_require_then {o = some x} e rest h = (x, refl, h)

  pub after_reads :
      {A B : Type 0} {s t : S} {y : B} (f : S → A) (k : A → Action S B)
      → (reads f >>= k) s ≡ (ok y, t)
      → k (f s) s ≡ (ok y, t)
  unfolding ◌>>=◌ reads
  after_reads f k h = h

  pub after_stored :
      {B : Type 0} {s t : S} {y : B} (w : S → Option S) (rest : Action S B)
      → (stored w >> rest) s ≡ (ok y, t)
      → (u : S) × (w s ≡ some u) × (rest u ≡ (ok y, t))
  unfolding ◌>>◌ stored
  after_stored {s = s} {t = t} {y = y} w rest h =
      let (x, u, e, k) = bind-ok (stored w) (λ _. rest) s t y h in (u, stored-ok w s u x e, k)
