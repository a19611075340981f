-- ===== src/Prelude/Keys.antt =====
-- Tables whose rows have a text as their key: what a read by the key gives after an update.
use mathlib.Core.Path.{◌≡◌, refl, sym, ap, ◌∙◌, subst}
use mathlib.Core.Bool.{Bool, true, false}
use mathlib.Core.Option.{Option, none, some}
use mathlib.Core.List.{Memᴰ}
use mathlib.Core.Logic.{inl, inr}
use f_chat_backend.Prelude.Tests.{if◌then◌else◌, Bool-cases, Option-cases, not_both}
use f_chat_backend.Prelude.Texts.{Text, ◌==◌, ==_sound, ==_refl}
use f_chat_backend.Prelude.Table.{Table}

unfoldable pub map_some : {A B : Type 0} → (A → B) → Option A → Option B
map_some f none = none
map_some f (some x) = some (f x)

module _ {Row : Type 0} (t : Table Row) (key : Row → Text) where
  unfoldable pub has_key : Text → Row → Bool
  has_key k r = key r == k

  unfoldable pub find_key : Text → Table.St t → Option Row
  unfolding has_key
  find_key k s = Table.find_first t s (has_key k)

  unfoldable pub IsUnique : Table.St t → Type 0
  IsUnique s =
      (x y : Row) → Memᴰ x (Table.rows t s) → Memᴰ y (Table.rows t s) → key x ≡ key y → x ≡ y

  pub find_key-row :
      (k : Text) (s : Table.St t) (r : Row)
      → find_key k s ≡ some r
      → Memᴰ r (Table.rows t s) × (key r ≡ k)
  unfolding find_key has_key
  find_key-row k s r e =
      let (there, fits) = Table.found_row t s (has_key k) r e in (there, ==_sound (key r) k fits)

  -- A row of a table with unique keys is what a read by its key gives.
  pub find_key-of_row :
      (s : Table.St t) (r : Row)
      → IsUnique s
      → Memᴰ r (Table.rows t s)
      → find_key (key r) s ≡ some r
  unfolding find_key has_key IsUnique
  find_key-of_row s r unique there = elim (Option-cases (find_key (key r) s)) [
    | inl e ↦
        absurd (
          not_both (key r == key r) (==_refl (key r))
            (Table.no_row t s (has_key (key r)) e r there))
    | inr (x, e) ↦
        let (here, same) = find_key-row (key r) s x e in e ∙ ap some (unique x r here there same)
  ]

  module _ (p : Row → Bool) (f : Row → Row) (keeps : (r : Row) → key (f r) ≡ key r)
      (s u : Table.St t) (unique : IsUnique s)
      (updated : (x : Row)
        → Memᴰ x (Table.rows t u)
        → (y : Row) × Memᴰ y (Table.rows t s) × (x ≡ (if p y then f y else y)))
      (kept : (y : Row)
        → Memᴰ y (Table.rows t s)
        → Memᴰ (if p y then f y else y) (Table.rows t u)) where
    changed-key : (b : Bool) (y : Row) → key (if b then f y else y) ≡ key y
    changed-key true y = keeps y
    changed-key false y = refl

    pub changed-IsUnique : IsUnique u
    unfolding IsUnique
    changed-IsUnique a b ma mb e =
        let (x, mx, qx) = updated a ma in
        let (y, my, qy) = updated b mb in
        let same : x ≡ y =
          unique x y mx my
            (sym (changed-key (p x) x) ∙ sym (ap key qx) ∙ e ∙ ap key qy ∙ changed-key (p y) y) in
        qx ∙ ap (λ z. if p z then f z else z) same ∙ sym qy

    pub find_key-changed :
        (k : Text) → find_key k u ≡ map_some (λ y. if p y then f y else y) (find_key k s)
    unfolding map_some
    find_key-changed k = elim (Option-cases (find_key k s)) [
      | inr (r, e) ↦
          let (there, same) = find_key-row k s r e in
          rw e (
            subst (λ z. find_key z u ≡ some (if p r then f r else r)) (changed-key (p r) r ∙ same)
              (find_key-of_row u (if p r then f r else r) changed-IsUnique (kept r there)))
      | inl e ↦ elim (Option-cases (find_key k u)) [
        | inl q ↦ rw (e, q) refl
        | inr (x, q) ↦
            let (there, same) = find_key-row k u x q in
            let (y, before, eq) = updated x there in
            absurd (
              none_some
                (sym e ∙ found y before (sym (changed-key (p y) y) ∙ sym (ap key eq) ∙ same)))
      ]
    ]
      where
        found : (y : Row) → Memᴰ y (Table.rows t s) → key y ≡ k → find_key k s ≡ some y
        found y m e = subst (λ z. find_key z s ≡ some y) e (find_key-of_row s y unique m)

        none_some : {A : Type 0} {x : A} → ¬ (none ≡ some x)
        none_some h = cc

  absent :
      (k : Text) (s : Table.St t) (x : Row)
      → find_key k s ≡ none
      → Memᴰ x (Table.rows t s)
      → ¬ (key x ≡ k)
  unfolding find_key has_key
  absent k s x h m e =
      not_both (key x == k) (subst (λ z. (key x == z) ≡ true) e (==_refl (key x)))
        (Table.no_row t s (has_key k) h x m)

  -- A row with a key that no row has.
  module _ (s u : Table.St t) (r : Row) (unique : IsUnique s)
      (written : Table.create t s r ≡ some u) (free : find_key (key r) s ≡ none) where
    pub created-IsUnique : IsUnique u
    unfolding IsUnique
    created-IsUnique a b ma mb e = elim ((Table.created t s u r written a).0 ma) [
      | inl x ↦ elim ((Table.created t s u r written b).0 mb) [
        | inl y ↦ unique a b x y e
        | inr q ↦ absurd (absent (key r) s a free x (e ∙ ap key q))
      ]
      | inr p ↦ elim ((Table.created t s u r written b).0 mb) [
        | inl y ↦ absurd (absent (key r) s b free y (sym e ∙ ap key p))
        | inr q ↦ p ∙ sym q
      ]
    ]

    pub find_key-created : (k : Text) → find_key k u ≡ (if key r == k then some r else find_key k s)
    find_key-created k = elim (Bool-cases (key r == k)) [
      | inl q ↦ rw q (
          subst (λ z. find_key z u ≡ some r) (==_sound (key r) k q)
            (find_key-of_row u r created-IsUnique ((Table.created t s u r written r).1 (inr refl))))
      | inr q ↦ rw q (elim (Option-cases (find_key k s)) [
        | inr (x, e) ↦
            let (m, same) = find_key-row k s x e in
            rw e (
              subst (λ z. find_key z u ≡ some x) same
                (find_key-of_row u x created-IsUnique
                  ((Table.created t s u r written x).1 (inl m))))
        | inl e ↦ elim (Option-cases (find_key k u)) [
          | inl h ↦ rw (e, h) refl
          | inr (x, h) ↦
              let (m, same) = find_key-row k u x h in
              absurd (elim ((Table.created t s u r written x).0 m) [
                | inl before ↦ absent k s x e before same
                | inr is ↦
                    not_both (key r == k)
                      (subst (λ z. (key r == z) ≡ true) (ap key (sym is) ∙ same) (==_refl (key r)))
                      q
              ])
        ]
      ])
    ]
