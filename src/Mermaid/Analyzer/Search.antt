-- ===== src/Mermaid/Analyzer/Search.antt =====
-- The breadth-first search of graph-analyzer.service.ts and the walks along the rows of its
-- adjacency map.
use f_chat_backend.Prelude.{
  ℕ, zero, suc, ◌+◌, ◌≤◌, Text, ==_iff, ==_refl, includes, includes-append, includes-cases,
  includes_one, some, List, [], ◌∷◌, ◌++◌, ◌≡◌, refl, subst, ◌↔◌, ◌⊎◌, inl, inr, true, false, not,
  ◌&&◌, keep, length, length-append, Bool-cases, arith,
}
use mathlib.Core.Logic.{⊎_elim}
use f_chat_backend.Prelude.Map
use f_chat_backend.Prelude.Map.{Map}
use f_chat_backend.Mermaid.Analyzer.{neighbours, waiting, fuel_for, unreached, search}

-- The walks along the rows of an adjacency map.
pub data Walk (adj : Map (List Text)) (src : Text) : Text → Type 0 where
  here : Walk adj src src
  step : {u v : Text} → Walk adj src u → includes (neighbours adj u) v ≡ true → Walk adj src v

length-unreached : (reached vs : List Text) → length (unreached reached vs) ≤ length vs
unfolding unreached keep
length-unreached reached [] = omega arith
length-unreached reached (v ∷ vs) = ground (arith, length-unreached reached vs)

waiting-append :
    (adj : Map (List Text)) (reached : List Text) (u : Text)
    → includes reached u ≡ false
    → waiting adj (reached ++ u ∷ []) + length (neighbours adj u) ≤ waiting adj reached
unfolding waiting neighbours Map.get includes
waiting-append [] reached u h = omega arith
waiting-append ((k, row) ∷ adj) reached u h = ground (
  arith,
  waiting-append adj reached u h,
  includes-append reached (u ∷ []) k,
  ==_iff k u,
  ==_iff u k,
)

includes-unreached :
    (reached vs : List Text) (v : Text)
    → includes (unreached reached vs) v ≡ (includes vs v && not (includes reached v))
unfolding unreached keep includes
includes-unreached reached [] v = refl
includes-unreached reached (w ∷ vs) v = ground (arith, includes-unreached reached vs v, ==_iff w v)

-- With the fuel of the queue and of the edges that wait, the loop ends.
pub search_ends :
    (fuel : ℕ) (adj : Map (List Text)) (queue reached : List Text)
    → length queue + waiting adj reached ≤ fuel
    → (r : List Text) × (search fuel adj queue reached ≡ some r)
unfolding search
search_ends zero adj [] reached h = (reached, refl)
search_ends zero adj (u ∷ rest) reached h = absurd (omega arith)
search_ends (suc fuel) adj [] reached h = (reached, refl)
search_ends (suc fuel) adj (u ∷ rest) reached h = elim (Bool-cases (includes reached u)) [
  | inl old ↦ rw old (search_ends fuel adj rest reached (omega arith))
  | inr new ↦ rw new (
      search_ends fuel adj (rest ++ unreached (reached ++ u ∷ []) (neighbours adj u))
        (reached ++ u ∷ [])
        (omega (
          arith,
          waiting-append adj reached u new,
          length-append rest (unreached (reached ++ u ∷ []) (neighbours adj u)),
          length-unreached (reached ++ u ∷ []) (neighbours adj u),
        )))
]

module _ (adj : Map (List Text)) (src : Text) where
  record Inv (queue reached : List Text) : Type 0 where
    queued : (v : Text) → includes queue v ≡ true → Walk adj src v
    sound : (v : Text) → includes reached v ≡ true → Walk adj src v
    closed :
        (u v : Text)
        → includes reached u ≡ true
        → includes (neighbours adj u) v ≡ true
        → (includes reached v ≡ true) ⊎ (includes queue v ≡ true)
    source : (includes reached src ≡ true) ⊎ (includes queue src ≡ true)

  Inv-skip :
      (u : Text) (rest reached : List Text)
      → includes reached u ≡ true
      → Inv (u ∷ rest) reached
      → Inv rest reached
  unfolding includes
  Inv-skip u rest reached old h = record {
    queued = λ v q. h.queued v (ground arith);
    sound = h.sound;
    closed = λ x v m e. ground (arith, h.closed x v, ==_iff u v);
    source = ground (arith, h.source, ==_iff u src);
  }

  Inv-expand :
      (u : Text) (rest reached : List Text)
      → Inv (u ∷ rest) reached
      → Inv (rest ++ unreached (reached ++ u ∷ []) (neighbours adj u)) (reached ++ u ∷ [])
  unfolding includes
  Inv-expand u rest reached h =
      let reached' = reached ++ u ∷ [] in
      let fresh = unreached reached' (neighbours adj u) in
      let to_u = h.queued u (ground (arith, ==_refl u)) in
      record {
        queued = λ v q.
            ⊎_elim (λ old. h.queued v (ground arith))
              (λ new. step to_u (ground (arith, includes-unreached reached' (neighbours adj u) v)))
              (includes-cases rest fresh v q);
        sound = λ v m.
            ⊎_elim (h.sound v) (λ last. subst (Walk adj src) (includes_one u v last) to_u)
              (includes-cases reached (u ∷ []) v m);
        closed = λ x v m e. ground (
          arith,
          h.closed x v,
          ==_iff u v,
          ==_iff u x,
          includes-append reached (u ∷ []) x,
          includes-append reached (u ∷ []) v,
          includes-append rest fresh v,
          includes-unreached reached' (neighbours adj u) v,
        );
        source = ground (
          arith,
          h.source,
          ==_iff u src,
          includes-append reached (u ∷ []) src,
          includes-append rest fresh src,
        );
      }

  search-Inv :
      (fuel : ℕ) (queue reached r : List Text)
      → Inv queue reached
      → search fuel adj queue reached ≡ some r
      → Inv [] r
  unfolding search
  search-Inv zero [] reached r h e = ground arith
  search-Inv zero (u ∷ rest) reached r h e = cc
  search-Inv (suc fuel) [] reached r h e = ground arith
  search-Inv (suc fuel) (u ∷ rest) reached r h e = elim (Bool-cases (includes reached u)) [
    | inl old ↦ search-Inv fuel rest reached r (Inv-skip u rest reached old h) (rw old at e)
    | inr new ↦
        search-Inv fuel (rest ++ unreached (reached ++ u ∷ []) (neighbours adj u))
          (reached ++ u ∷ []) r (Inv-expand u rest reached h) (rw new at e)
  ]

  Inv-start : Inv (src ∷ []) []
  unfolding includes
  Inv-start = record {
    queued = λ v q. subst (Walk adj src) (includes_one src v q) here;
    sound = λ v m. cc;
    closed = λ u v m e. cc;
    source = inr (ground (arith, ==_refl src));
  }

  complete : (r : List Text) → Inv [] r → {v : Text} → Walk adj src v → includes r v ≡ true
  unfolding includes
  complete r h here = ground (arith, h.source)
  complete r h (step {u} {v} w e) = ground (arith, h.closed u v (complete r h w) e)

-- The search of one entry, on its fuel, returns a list, and the ids in it are exactly those to
-- which a walk along the rows of the adjacency map leads from the entry.
pub search_decides :
    (adj : Map (List Text)) (src : Text)
    → (r : List Text) × (search (fuel_for adj) adj (src ∷ []) [] ≡ some r)
      × ((v : Text) → (includes r v ≡ true) ↔ Walk adj src v)
unfolding fuel_for
search_decides adj src =
    let (r, e) = search_ends (suc (waiting adj [])) adj (src ∷ []) [] (omega arith) in
    let inv = search-Inv adj src (suc (waiting adj [])) (src ∷ []) [] r (Inv-start adj src) e in
    (r, e, λ v. (inv.sound v, complete adj src r inv))
