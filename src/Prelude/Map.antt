-- ===== src/Prelude/Map.antt =====
-- JavaScript's `Map` and `Record` with string keys: entries in the order in which their keys were
-- first set.
use mathlib.Core.Path.{◌≡◌, refl, sym, ap, subst}
use mathlib.Core.Bool.{Bool}
use mathlib.Core.Option.{Option, none, some}
use mathlib.Core.List.{List, [], ◌∷◌, Memᴰ}
use mathlib.Core.List.Memᴰ
use mathlib.Core.Logic.{◌⊎◌, inl, inr, ⊎_elim}
use native.Mathlib.Omega.{arith}
use f_chat_backend.Prelude.Tests.{if◌then◌else◌, is_some, Bool-cases}
use f_chat_backend.Prelude.Texts.{Text, ◌==◌, ==_iff, ==_sound, ==_refl}

abbrev pub Map {ℓ} : Type ℓ → Type ℓ
Map V = List (Text × V)

module _ {ℓ} {V : Type ℓ} where
  -- m.get(k)
  unfoldable pub get : Map V → Text → Option V
  get [] k = none
  get ((j, v) ∷ m) k = if j == k then some v else get m k

  -- m.set(k, v)
  unfoldable pub set : Map V → Text → V → Map V
  set [] k v = (k, v) ∷ []
  set ((j, w) ∷ m) k v = if j == k then (j, v) ∷ m else (j, w) ∷ set m k v

  -- m.has(k)
  unfoldable pub has : Map V → Text → Bool
  unfolding get
  has m k = is_some (get m k)

  -- m.delete(k)
  pub remove : Map V → Text → Map V
  remove [] k = []
  remove ((j, v) ∷ m) k = let rest = remove m k in if j == k then rest else (j, v) ∷ rest

  pub get-set :
      (m : Map V) (k j : Text) (v : V) → get (set m k v) j ≡ (if k == j then some v else get m j)
  unfolding get set
  get-set [] k j v = refl
  get-set ((i, w) ∷ m) k j v = ground (arith, ==_iff k j, ==_iff i k, ==_iff i j, get-set m k j v)

  pub get-remove :
      (m : Map V) (k j : Text) → get (remove m k) j ≡ (if k == j then none else get m j)
  unfolding get remove
  get-remove [] k j = ground arith
  get-remove ((i, w) ∷ m) k j = ground (arith, ==_iff k j, ==_iff i k, ==_iff i j, get-remove m k j)

  pub get-set_self : (m : Map V) (k : Text) (v : V) → get (set m k v) k ≡ some v
  get-set_self m k v = simp (get-set, ==_refl)

  pub mem-get : (m : Map V) (k : Text) (v : V) → get m k ≡ some v → Memᴰ (k, v) m
  unfolding get
  mem-get [] k v e = cc
  mem-get ((j, w) ∷ m) k v e = elim (Bool-cases (j == k)) [
    | inl q ↦
        let key : k ≡ j = sym (==_sound j k q) in
        let value : v ≡ w = ground arith in Memᴰ.head (λ i. (key i, value i))
    | inr q ↦ Memᴰ.tail (mem-get m k v (rw q at e))
  ]

  -- An entry of the map after a write is an old one, or the one written.
  pub mem-set :
      (m : Map V) (k : Text) (v : V) (j : Text) (w : V)
      → Memᴰ (j, w) (set m k v)
      → Memᴰ (j, w) m ⊎ ((j ≡ k) × (w ≡ v))
  unfolding set
  mem-set [] k v j w h =
      let q = Memᴰ.eq_of_singleton h in
      inr (ap (λ (e : Text × V). e.0) q, ap (λ (e : Text × V). e.1) q)
  mem-set ((i, u) ∷ m) k v j w h = elim (Bool-cases (i == k)) [
    | inl e ↦ elim (Memᴰ.cases_cons (rw e at h)) [
      | inl q ↦ inr (
        subst (λ z. j ≡ z) (==_sound i k e) (ap (λ (x : Text × V). x.0) q),
        ap (λ (x : Text × V). x.1) q,
      )
      | inr r ↦ inl (Memᴰ.tail r)
    ]
    | inr e ↦ elim (Memᴰ.cases_cons (rw e at h)) [
      | inl q ↦ inl (Memᴰ.head q)
      | inr r ↦ ⊎_elim (λ o. inl (Memᴰ.tail o)) inr (mem-set m k v j w r)
    ]
  ]
