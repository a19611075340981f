-- ===== src/Memory/Paths.antt =====
-- A memory read along a path of keys, and what writing at a path leaves of it
-- (tenant-memory.repository.ts, setNestedValue).
use f_chat_backend.Memory.{
  Value, object, Fields, end, field, get_field, put_field, spread, set_nested_value, remove_field,
}
use f_chat_backend.Prelude.{
  Text, ◌==◌, ==_iff, ==_refl, ==_sound, Option, none, some, List, [], ◌∷◌, Bool, true, false, ◌≡◌,
  refl, arith, if◌then◌else◌, Bool-cases, ap, sym, inl, inr,
}

-- o[k1][k2]…, each step of it as `?.` takes it
unfoldable pub read_path : Fields → List Text → Option Value
read_path fs [] = some (object fs)
read_path fs (k ∷ []) = get_field fs k
read_path fs (k ∷ j ∷ p) = read_path (spread (get_field fs k)) (j ∷ p)

-- Two paths that part at a key: neither goes on from the other.
unfoldable pub apart : List Text → List Text → Bool
apart [] q = false
apart (k ∷ p) [] = false
apart (k ∷ p) (j ∷ q) = if k == j then apart p q else true

pub get_field-put_field :
    (fs : Fields) (k j : Text) (v : Value)
    → get_field (put_field fs k v) j ≡ (if k == j then some v else get_field fs j)
unfolding get_field put_field
get_field-put_field end k j v = refl
get_field-put_field (field i w fs) k j v =
    ground (arith, ==_iff k j, ==_iff i k, ==_iff i j, get_field-put_field fs k j v)

pub get_field-remove_field :
    (fs : Fields) (k j : Text)
    → get_field (remove_field fs k) j ≡ (if k == j then none else get_field fs j)
unfolding get_field remove_field
get_field-remove_field end k j = ground arith
get_field-remove_field (field i w fs) k j =
    ground (arith, ==_iff k j, ==_iff i k, ==_iff i j, get_field-remove_field fs k j)

get_put_self : (fs : Fields) (k : Text) (v : Value) → get_field (put_field fs k v) k ≡ some v
get_put_self fs k v = rw (get_field-put_field fs k k v, ==_refl k) refl

pub read_path-set_nested_value :
    (k : Text) (p : List Text) (fs : Fields) (v : Value)
    → read_path (set_nested_value fs (k ∷ p) v) (k ∷ p) ≡ some v
unfolding read_path set_nested_value spread
read_path-set_nested_value k [] fs v = get_put_self fs k v
read_path-set_nested_value k (j ∷ p) fs v =
    let inner = set_nested_value (spread (get_field fs k)) (j ∷ p) v in
    rw (get_put_self fs k (object inner))
      (read_path-set_nested_value j p (spread (get_field fs k)) v)

-- What is read at a key that reads the same is the same below it.
read_below :
    (fs gs : Fields) (k : Text) (p : List Text)
    → get_field fs k ≡ get_field gs k
    → read_path fs (k ∷ p) ≡ read_path gs (k ∷ p)
unfolding read_path
read_below fs gs k [] e = e
read_below fs gs k (j ∷ p) e = ap (λ o. read_path (spread o) (j ∷ p)) e

read_other :
    (fs : Fields) (k j : Text) (v : Value) (q : List Text)
    → (k == j) ≡ false
    → read_path (put_field fs k v) (j ∷ q) ≡ read_path fs (j ∷ q)
read_other fs k j v q e =
    read_below (put_field fs k v) fs j q (rw (get_field-put_field fs k j v, e) refl)

-- A path that parts from the one written reads as before.
pub set_nested_value-apart :
    (p q : List Text) (fs : Fields) (v : Value)
    → apart p q ≡ true
    → read_path (set_nested_value fs p v) q ≡ read_path fs q
unfolding apart set_nested_value read_path spread
set_nested_value-apart [] q fs v h = cc
set_nested_value-apart (k ∷ p) [] fs v h = cc
set_nested_value-apart (k ∷ []) (j ∷ q) fs v h = elim (Bool-cases (k == j)) [
  | inl e ↦ cc (rw e at h)
  | inr e ↦ read_other fs k j v q e
]
set_nested_value-apart (k ∷ i ∷ p) (j ∷ []) fs v h = elim (Bool-cases (k == j)) [
  | inl e ↦ cc (rw e at h)
  | inr e ↦ read_other fs k j (object (set_nested_value (spread (get_field fs k)) (i ∷ p) v)) [] e
]
set_nested_value-apart (k ∷ i ∷ p) (j ∷ l ∷ q) fs v h = elim (Bool-cases (k == j)) [
  | inl e ↦
      let inner = set_nested_value (spread (get_field fs k)) (i ∷ p) v in
      let same : get_field fs k ≡ get_field fs j = ap (get_field fs) (==_sound k j e) in
      let there : get_field (put_field fs k (object inner)) j ≡ some (object inner) =
        rw (get_field-put_field fs k j (object inner), e) refl in
      rw (there, ap (λ o. read_path (spread o) (l ∷ q)) (sym same))
        (set_nested_value-apart (i ∷ p) (l ∷ q) (spread (get_field fs k)) v (rw e at h))
  | inr e ↦
      read_other fs k j (object (set_nested_value (spread (get_field fs k)) (i ∷ p) v)) (l ∷ q) e
]
