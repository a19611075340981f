-- ===== src/Prelude/Table.antt =====
-- A table behind the Prisma client, which is a package: its operations and what their
-- documentation says of them. A `where` is a test on rows; a write returns `none` where the client
-- throws, on a unique key that is taken or a row that is not found.
use mathlib.Core.Path.{◌≡◌, refl, sym, subst}
use mathlib.Core.Bool.{Bool, true, false, not}
use mathlib.Core.Option.{Option, none, some}
use mathlib.Core.List.{List, [], ◌∷◌, ◌++◌, Memᴰ}
use mathlib.Core.List.Memᴰ
use mathlib.Core.Logic.{◌⊎◌, ◌↔◌, inl, inr}
use native.Mathlib.Omega.{arith}
use f_chat_backend.Prelude.Tests.{if◌then◌else◌, Bool-cases}
use f_chat_backend.Prelude.Lists.{keep, any, Memᴰ-cons, Memᴰ-append, Memᴰ-keep}

pub record Table (Row : Type 0) : Type 1 where
  pub St : Type 0
  pub rows : St → List Row
  -- findUnique and findFirst
  pub find_first : St → (Row → Bool) → Option Row
  -- whether two rows share a unique key
  pub clash : Row → Row → Bool
  pub create : St → Row → Option St
  pub update : St → (Row → Bool) → (Row → Row) → Option St
  -- updateMany, which may find nothing
  pub update_many : St → (Row → Bool) → (Row → Row) → St
  pub delete : St → (Row → Bool) → Option St
  pub found_row :
      (s : St) (p : Row → Bool) (r : Row) → find_first s p ≡ some r → Memᴰ r (rows s) × (p r ≡ true)
  pub no_row :
      (s : St) (p : Row → Bool) → find_first s p ≡ none → (r : Row) → Memᴰ r (rows s) → p r ≡ false
  pub created :
      (s t : St) (r : Row)
      → create s r ≡ some t
      → (x : Row) → Memᴰ x (rows t) ↔ (Memᴰ x (rows s) ⊎ (x ≡ r))
  pub creates :
      (s : St) (r : Row)
      → ((x : Row) → Memᴰ x (rows s) → clash r x ≡ false)
      → (t : St) × (create s r ≡ some t)
  pub updated :
      (s t : St) (p : Row → Bool) (f : Row → Row)
      → update s p f ≡ some t
      → (x : Row) → Memᴰ x (rows t) ↔ ((y : Row) × Memᴰ y (rows s) × (x ≡ (if p y then f y else y)))
  pub updates :
      (s : St) (p : Row → Bool) (f : Row → Row) (r : Row)
      → find_first s p ≡ some r
      → (t : St) × (update s p f ≡ some t)
  pub updated_many :
      (s : St) (p : Row → Bool) (f : Row → Row)
      → (x : Row)
      → Memᴰ x (rows (update_many s p f))
        ↔ ((y : Row) × Memᴰ y (rows s) × (x ≡ (if p y then f y else y)))
  pub deleted :
      (s t : St) (p : Row → Bool)
      → delete s p ≡ some t
      → (x : Row) → Memᴰ x (rows t) ↔ (Memᴰ x (rows s) × (p x ≡ false))
  pub deletes :
      (s : St) (p : Row → Bool) (r : Row)
      → find_first s p ≡ some r
      → (t : St) × (delete s p ≡ some t)

some_eq : {A : Type 0} {x y : A} → some x ≡ some y → x ≡ y
some_eq e = ground arith

-- A list as a table whose rows clash by a test.
module _ {Row : Type 0} where
  unfoldable pub first_where : List Row → (Row → Bool) → Option Row
  first_where [] p = none
  first_where (r ∷ rs) p = if p r then some r else first_where rs p

  unfoldable pub insert_row : (Row → Row → Bool) → List Row → Row → Option (List Row)
  insert_row clash rs r = if any (clash r) rs then none else some (rs ++ r ∷ [])

  unfoldable pub change_rows : (Row → Bool) → (Row → Row) → List Row → List Row
  change_rows p f [] = []
  change_rows p f (r ∷ rs) = (if p r then f r else r) ∷ change_rows p f rs

  unfoldable pub update_rows : List Row → (Row → Bool) → (Row → Row) → Option (List Row)
  unfolding change_rows
  update_rows rs p f = if any p rs then some (change_rows p f rs) else none

  unfoldable pub delete_rows : List Row → (Row → Bool) → Option (List Row)
  delete_rows rs p = if any p rs then some (keep (λ r. not (p r)) rs) else none

  pub first_where-found :
      (s : List Row) (p : Row → Bool) (r : Row) → first_where s p ≡ some r → Memᴰ r s × (p r ≡ true)
  unfolding first_where
  first_where-found [] p r e = cc
  first_where-found (x ∷ s) p r e = elim (Bool-cases (p x)) [
    | inl q ↦
        let same : x ≡ r = ground arith in (Memᴰ.head (sym same), subst (λ z. p z ≡ true) same q)
    | inr q ↦ let (m, h) = first_where-found s p r (rw q at e) in (Memᴰ.tail m, h)
  ]

  pub first_where-none :
      (s : List Row) (p : Row → Bool) → first_where s p ≡ none → (r : Row) → Memᴰ r s → p r ≡ false
  unfolding first_where
  first_where-none [] p e r m = absurd (Memᴰ.not-nil m)
  first_where-none (x ∷ s) p e r m = elim (Bool-cases (p x)) [
    | inl q ↦ cc (rw q at e)
    | inr q ↦ elim (Memᴰ.cases_cons m) [
      | inl h ↦ subst (λ z. p z ≡ false) (sym h) q
      | inr h ↦ first_where-none s p (rw q at e) r h
    ]
  ]

  any-first_where :
      (s : List Row) (p : Row → Bool) (r : Row) → first_where s p ≡ some r → any p s ≡ true
  unfolding first_where any
  any-first_where [] p r e = cc
  any-first_where (x ∷ s) p r e = ground (arith, any-first_where s p r, Bool-cases (p x))

  none_any :
      (s : List Row) (p : Row → Bool) → ((x : Row) → Memᴰ x s → p x ≡ false) → any p s ≡ false
  unfolding any
  none_any [] p h = refl
  none_any (x ∷ s) p h =
      ground (arith, h x (Memᴰ.head refl), none_any s p (λ y m. h y (Memᴰ.tail m)))

  pub mem-change_rows :
      (p : Row → Bool) (f : Row → Row) (s : List Row) (x : Row)
      → Memᴰ x (change_rows p f s) ↔ ((y : Row) × Memᴰ y s × (x ≡ (if p y then f y else y)))
  unfolding change_rows
  mem-change_rows p f [] x = (λ m. absurd (Memᴰ.not-nil m), λ (y, m, e). absurd (Memᴰ.not-nil m))
  mem-change_rows p f (r ∷ s) x =
      let ih = mem-change_rows p f s x in
      (
        λ m. elim (Memᴰ.cases_cons m) [
          | inl e ↦ (r, Memᴰ.head refl, e)
          | inr h ↦ let (y, there, e) = ih.0 h in (y, Memᴰ.tail there, e)
        ],
        λ (y, m, e). elim (Memᴰ.cases_cons m) [
          | inl q ↦ Memᴰ.head (subst (λ z. x ≡ (if p z then f z else z)) q e)
          | inr h ↦ Memᴰ.tail (ih.1 (y, h, e))
        ],
      )

  pub created_lem :
      (clash : Row → Row → Bool) (s t : List Row) (r : Row)
      → insert_row clash s r ≡ some t
      → (x : Row) → Memᴰ x t ↔ (Memᴰ x s ⊎ (x ≡ r))
  unfolding insert_row
  created_lem clash s t r e x = elim (Bool-cases (any (clash r) s)) [
    | inl q ↦ cc (rw q at e)
    | inr q ↦
        let same : s ++ r ∷ [] ≡ t = some_eq (rw q at e) in
        subst (λ z. Memᴰ x z ↔ (Memᴰ x s ⊎ (x ≡ r))) same
          (ground (arith, Memᴰ-append x s (r ∷ []), Memᴰ-cons x r [], Memᴰ.not-nil {a = x}))
  ]

  pub creates_lem :
      (clash : Row → Row → Bool) (s : List Row) (r : Row)
      → ((x : Row) → Memᴰ x s → clash r x ≡ false)
      → insert_row clash s r ≡ some (s ++ r ∷ [])
  unfolding insert_row
  creates_lem clash s r free = rw (none_any s (clash r) free) refl

  pub updated_lem :
      (s t : List Row) (p : Row → Bool) (f : Row → Row)
      → update_rows s p f ≡ some t
      → (x : Row) → Memᴰ x t ↔ ((y : Row) × Memᴰ y s × (x ≡ (if p y then f y else y)))
  unfolding update_rows
  updated_lem s t p f e x = elim (Bool-cases (any p s)) [
    | inl q ↦
        subst (λ z. Memᴰ x z ↔ ((y : Row) × Memᴰ y s × (x ≡ (if p y then f y else y))))
          (some_eq (rw q at e)) (mem-change_rows p f s x)
    | inr q ↦ cc (rw q at e)
  ]

  pub updates_lem :
      (s : List Row) (p : Row → Bool) (f : Row → Row) (r : Row)
      → first_where s p ≡ some r
      → update_rows s p f ≡ some (change_rows p f s)
  unfolding update_rows
  updates_lem s p f r e = rw (any-first_where s p r e) refl

  pub deleted_lem :
      (s t : List Row) (p : Row → Bool)
      → delete_rows s p ≡ some t
      → (x : Row) → Memᴰ x t ↔ (Memᴰ x s × (p x ≡ false))
  unfolding delete_rows
  deleted_lem s t p e x = elim (Bool-cases (any p s)) [
    | inl q ↦
        subst (λ z. Memᴰ x z ↔ (Memᴰ x s × (p x ≡ false))) (some_eq (rw q at e))
          (ground (arith, Memᴰ-keep (λ r. not (p r)) x s, Bool-cases (p x)))
    | inr q ↦ cc (rw q at e)
  ]

  pub deletes_lem :
      (s : List Row) (p : Row → Bool) (r : Row)
      → first_where s p ≡ some r
      → delete_rows s p ≡ some (keep (λ x. not (p x)) s)
  unfolding delete_rows
  deletes_lem s p r e = rw (any-first_where s p r e) refl

  abbrev pub list_table : (Row → Row → Bool) → Table Row
  list_table clash = record {
    St = List Row;
    rows = λ s. s;
    find_first = first_where;
    clash = clash;
    create = insert_row clash;
    update = update_rows;
    update_many = λ s p f. change_rows p f s;
    delete = delete_rows;
    found_row = first_where-found;
    no_row = first_where-none;
    created = created_lem clash;
    creates = λ s r free. (s ++ r ∷ [], creates_lem clash s r free);
    updated = updated_lem;
    updates = λ s p f r e. (change_rows p f s, updates_lem s p f r e);
    updated_many = λ s p f. mem-change_rows p f s;
    deleted = deleted_lem;
    deletes = λ s p r e. (keep (λ x. not (p x)) s, deletes_lem s p r e);
  }
