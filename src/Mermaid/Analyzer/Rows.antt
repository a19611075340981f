-- ===== src/Mermaid/Analyzer/Rows.antt =====
-- The adjacency map and the degree maps of graph-analyzer.service.ts against the cross edges.
use mathlib.Core.Logic.{⊎_elim}
use mathlib.Core.List.Memᴰ
use f_chat_backend.Prelude.{
  ℕ, zero, suc, ◌+◌, Text, ◌==◌, ==_iff, includes, includes-append, some, List, [], ◌∷◌, ◌≡◌, ◌≢◌,
  refl, ◌↔◌, ◌⊎◌, inl, inr, Bool, true, false, not, ◌||◌, ◌&&◌, keep, if◌then◌else◌, Bool-cases,
  Option-cases, arith, Memᴰ, Memᴰ-cons, or_else, is_some,
}
use f_chat_backend.Prelude.Map
use f_chat_backend.Prelude.Map.{Map, get-set}
use f_chat_backend.Mermaid.{CrossEdge}
use f_chat_backend.Mermaid.Analyzer.{
  zeros, bump, in_degrees, out_degrees, degree_zero, add, empty_rows, add_edge, build, neighbours,
}

-- A cross edge from `u` to `v` that stays in the flow.
abbrev pub Arc : List CrossEdge → Text → Text → Type 0
Arc es u v =
    (e : CrossEdge) × Memᴰ e es
    × (e.goes_to_router ≡ false)
    × (e.from_subgraph ≡ u)
    × (e.to_subgraph ≡ v)

Arc-cons :
    (c : CrossEdge) (es : List CrossEdge) (u v : Text)
    → Arc (c ∷ es) u v
      ↔ (((c.goes_to_router ≡ false) × (c.from_subgraph ≡ u) × (c.to_subgraph ≡ v)) ⊎ Arc es u v)
Arc-cons c es u v = (
  λ a. elim (Memᴰ.cases_cons a.1) [
    | inl q ↦ inl (rw q at a.2, rw q at a.3, rw q at a.4)
    | inr r ↦ inr (a.0, r, a.2, a.3, a.4)
  ],
  λ s. elim s [
    | inl t ↦ (c, Memᴰ.head refl, t.0, t.1, t.2)
    | inr a ↦ (a.0, Memᴰ.tail a.1, a.2, a.3, a.4)
  ],
)

includes-add :
    (row : List Text) (w v : Text) → includes (add row w) v ≡ (includes row v || (w == v))
unfolding add includes
includes-add row w v =
    ground (arith, includes-append row (w ∷ []) v, ==_iff w v, Bool-cases (includes row w))

neighbours-set :
    (adj : Map (List Text)) (k : Text) (row : List Text) (u : Text)
    → neighbours (Map.set adj k row) u ≡ (if k == u then row else neighbours adj u)
unfolding neighbours
neighbours-set adj k row u = ground (arith, get-set adj k u row)

-- One edge more.
add_edge_lem :
    (adj adj' : Map (List Text)) (c : CrossEdge) (u v : Text)
    → add_edge adj c ≡ some adj'
    → includes (neighbours adj' u) v ≡ (
        includes (neighbours adj u) v
        || (not c.goes_to_router && ((c.from_subgraph == u) && (c.to_subgraph == v))))
unfolding add_edge neighbours
add_edge_lem adj adj' c u v h = elim (Option-cases (Map.get adj c.from_subgraph)) [
  | inl no_row ↦ ground arith
  | inr (row, e) ↦ ground (
    arith,
    get-set adj c.from_subgraph u (add row c.to_subgraph),
    includes-add row c.to_subgraph v,
    ==_iff c.from_subgraph u,
  )
]

-- The rows after `build` are the rows before it with the arcs added.
pub build_lem :
    (adj adj' : Map (List Text)) (es : List CrossEdge) (u v : Text)
    → build adj es ≡ some adj'
    → (includes (neighbours adj' u) v ≡ true)
      ↔ ((includes (neighbours adj u) v ≡ true) ⊎ Arc es u v)
unfolding build
build_lem adj adj' [] u v h =
    (λ m. inl (ground arith), λ s. ⊎_elim (λ m. ground arith) (λ a. absurd (Memᴰ.not-nil a.1)) s)
build_lem adj adj' (c ∷ es) u v h = elim (Option-cases (add_edge adj c)) [
  | inl stop ↦ cc (rw stop at h)
  | inr (mid, e) ↦
      let rest = build_lem mid adj' es u v (rw e at h) in
      ground (
        arith,
        rest,
        add_edge_lem adj mid c u v e,
        Arc-cons c es u v,
        ==_iff c.from_subgraph u,
        ==_iff c.to_subgraph v,
      )
]

unfoldable pub has_row : Map (List Text) → Text → Bool
has_row adj k = is_some (Map.get adj k)

add_edge-has_row :
    (adj adj' : Map (List Text)) (c : CrossEdge) (k : Text)
    → add_edge adj c ≡ some adj'
    → has_row adj k ≡ true
    → has_row adj' k ≡ true
unfolding add_edge has_row
add_edge-has_row adj adj' c k h has = elim (Option-cases (Map.get adj c.from_subgraph)) [
  | inl no_row ↦ ground arith
  | inr (row, e) ↦ ground (arith, get-set adj c.from_subgraph k (add row c.to_subgraph))
]

add_edge_returns :
    (adj : Map (List Text)) (c : CrossEdge)
    → has_row adj c.from_subgraph ≡ true
    → (adj' : Map (List Text)) × (add_edge adj c ≡ some adj')
unfolding add_edge has_row
add_edge_returns adj c h = elim (Bool-cases c.goes_to_router) [
  | inl r ↦ rw r (adj, refl)
  | inr r ↦ elim (Option-cases (Map.get adj c.from_subgraph)) [
    | inl no_row ↦ cc (rw no_row at h)
    | inr (row, e) ↦ rw (r, e) (Map.set adj c.from_subgraph (add row c.to_subgraph), refl)
  ]
]

-- The non-null assertion never fails where every edge leaves a node that has a row.
pub build_returns :
    (adj : Map (List Text)) (es : List CrossEdge)
    → ((c : CrossEdge) → Memᴰ c es → has_row adj c.from_subgraph ≡ true)
    → (adj' : Map (List Text)) × (build adj es ≡ some adj')
unfolding build
build_returns adj [] h = (adj, refl)
build_returns adj (c ∷ es) h =
    let (mid, e) = add_edge_returns adj c (h c (Memᴰ.head refl)) in
    let (adj', e') =
      build_returns mid es
        (λ d m. add_edge-has_row adj mid c d.from_subgraph e (h d (Memᴰ.tail m))) in
    (adj', rw e e')

pub get-empty_rows :
    (ks : List Text) (m : Map (List Text)) (k : Text)
    → Map.get (empty_rows ks m) k ≡ (if includes ks k then some [] else Map.get m k)
unfolding empty_rows includes
get-empty_rows [] m k = refl
get-empty_rows (j ∷ ks) m k = ground (arith, get-empty_rows ks (Map.set m j []) k, get-set m j k [])

get-zeros :
    (ks : List Text) (m : Map ℕ) (k : Text)
    → Map.get (zeros ks m) k ≡ (if includes ks k then some 0 else Map.get m k)
unfolding zeros includes
get-zeros [] m k = refl
get-zeros (j ∷ ks) m k = ground (arith, get-zeros ks (Map.set m j 0) k, get-set m j k 0)

abbrev pub degree : Map ℕ → Text → ℕ
degree m k = or_else (Map.get m k) 0

degree-zeros : (ks : List Text) (k : Text) → degree (zeros ks []) k ≡ 0
unfolding Map.get
degree-zeros ks k = ground (arith, get-zeros ks [] k)

degree-bump :
    (m : Map ℕ) (j k : Text) → degree (bump m j) k ≡ degree m k + (if j == k then 1 else 0)
unfolding bump
degree-bump m j k = ground (arith, get-set m j k (or_else (Map.get m j) 0 + 1), ==_iff j k)

-- The edges that count for a node.
abbrev incoming : Text → List CrossEdge → ℕ
incoming k [] = 0
incoming k (e ∷ es) =
    (if e.goes_to_router then 0 else if e.to_subgraph == k then 1 else 0) + incoming k es

abbrev outgoing : Text → List CrossEdge → ℕ
outgoing k [] = 0
outgoing k (e ∷ es) = (if e.from_subgraph == k then 1 else 0) + outgoing k es

degree-in_degrees :
    (m : Map ℕ) (es : List CrossEdge) (k : Text)
    → degree (in_degrees m es) k ≡ degree m k + incoming k es
unfolding in_degrees
degree-in_degrees m [] k = omega arith
degree-in_degrees m (e ∷ es) k = elim (Bool-cases e.goes_to_router) [
  | inl r ↦ rw r (omega (arith, degree-in_degrees m es k))
  | inr r ↦
      rw r (
        omega (arith, degree-in_degrees (bump m e.to_subgraph) es k, degree-bump m e.to_subgraph k))
]

degree-out_degrees :
    (m : Map ℕ) (es : List CrossEdge) (k : Text)
    → degree (out_degrees m es) k ≡ degree m k + outgoing k es
unfolding out_degrees
degree-out_degrees m [] k = omega arith
degree-out_degrees m (e ∷ es) k =
    omega (arith, degree-out_degrees (bump m e.from_subgraph) es k, degree-bump m e.from_subgraph k)

incoming_zero : (k : Text) (es : List CrossEdge) → (incoming k es ≡ 0) ↔ ((u : Text) → ¬ Arc es u k)
incoming_zero k [] = (λ _ u a. Memᴰ.not-nil a.1, λ _. refl)
incoming_zero k (e ∷ es) = (
  λ z u a. ground (
    arith,
    Arc-cons e es u k,
    ==_iff e.to_subgraph k,
    (incoming_zero k es).0,
    λ (w : incoming k es ≡ 0). (incoming_zero k es).0 w u,
  ),
  λ none_in.
      let rest = (incoming_zero k es).1 (λ u a. none_in u ((Arc-cons e es u k).1 (inr a))) in
      ground (
        arith,
        rest,
        none_in e.from_subgraph,
        Arc-cons e es e.from_subgraph k,
        ==_iff e.to_subgraph k,
      ),
)

outgoing_zero :
    (k : Text) (es : List CrossEdge)
    → (outgoing k es ≡ 0) ↔ ((e : CrossEdge) → Memᴰ e es → e.from_subgraph ≢ k)
outgoing_zero k [] = (λ _ e m _. Memᴰ.not-nil m, λ _. refl)
outgoing_zero k (e ∷ es) = (
  λ z x m q. ground (
    arith,
    Memᴰ-cons x e es,
    ==_iff e.from_subgraph k,
    λ (w : outgoing k es ≡ 0). (outgoing_zero k es).0 w x,
  ),
  λ none_out.
      let rest = (outgoing_zero k es).1 (λ x m. none_out x (Memᴰ.tail m)) in
      ground (arith, rest, none_out e (Memᴰ.head refl), ==_iff e.from_subgraph k),
)

pub includes-keep :
    (p : Text → Bool) (ks : List Text) (k : Text) → includes (keep p ks) k ≡ (includes ks k && p k)
unfolding keep includes
includes-keep p [] k = refl
includes-keep p (j ∷ ks) k = ground (arith, includes-keep p ks k, ==_iff j k)

zero_test : (n : ℕ) → (elim n [ zero ↦ true | suc m ↦ false ] ≡ true) ↔ (n ≡ 0)
zero_test zero = (λ _. refl, λ _. refl)
zero_test (suc n) = (λ h. cc, λ h. absurd (omega arith))

pub includes-degree_zero :
    (m : Map ℕ) (ids : List Text) (k : Text)
    → (includes (degree_zero m ids) k ≡ true) ↔ ((includes ids k ≡ true) × (degree m k ≡ 0))
unfolding degree_zero
includes-degree_zero m ids k = ground (
  arith,
  includes-keep (λ j. elim (degree m j) [ zero ↦ true | suc n ↦ false ]) ids k,
  zero_test (degree m k),
)

-- The nodes of in-degree 0 are the ids to which no arc leads.
pub in_zero :
    (ids : List Text) (es : List CrossEdge) (k : Text)
    → (includes (degree_zero (in_degrees (zeros ids []) es) ids) k ≡ true)
      ↔ ((includes ids k ≡ true) × ((u : Text) → ¬ Arc es u k))
in_zero ids es k =
    let ins = includes-degree_zero (in_degrees (zeros ids []) es) ids k in
    let sum = degree-in_degrees (zeros ids []) es k in
    let start : degree (zeros ids []) k ≡ 0 = degree-zeros ids k in
    (
      λ h. ((ins.0 h).0, (incoming_zero k es).0 (omega (arith, sum, start, (ins.0 h).1))),
      λ h. ins.1 (h.0, omega (arith, sum, start, (incoming_zero k es).1 h.1)),
    )

-- The nodes of out-degree 0 are the ids that no cross edge leaves.
pub out_zero :
    (ids : List Text) (es : List CrossEdge) (k : Text)
    → (includes (degree_zero (out_degrees (zeros ids []) es) ids) k ≡ true)
      ↔ ((includes ids k ≡ true) × ((e : CrossEdge) → Memᴰ e es → e.from_subgraph ≢ k))
out_zero ids es k =
    let outs = includes-degree_zero (out_degrees (zeros ids []) es) ids k in
    let sum = degree-out_degrees (zeros ids []) es k in
    let start : degree (zeros ids []) k ≡ 0 = degree-zeros ids k in
    (
      λ h. ((outs.0 h).0, (outgoing_zero k es).0 (omega (arith, sum, start, (outs.0 h).1))),
      λ h. outs.1 (h.0, omega (arith, sum, start, (outgoing_zero k es).1 h.1)),
    )
