-- ===== src/Mermaid/Parser/Pipeline.antt =====
-- What mermaid-parser.service.ts returns, and what graph-analyzer.service.ts makes of it.
use f_chat_backend.Prelude.{
  Text, ◌==◌, ==_refl, includes, some, List, [], ◌∷◌, map, true, false, not, ◌||◌, ◌≡◌, refl, sym,
  subst, inl, inr, Bool-cases, Option-cases, arith, Memᴰ, Memᴰ-keep,
}
use mathlib.Core.List.Memᴰ
use mathlib.Core.Logic.{⊎_elim}
use f_chat_backend.Prelude.Map
use f_chat_backend.Prelude.Map.{Map, mem-get}
use f_chat_backend.Prelude.{IsDistinct}
use f_chat_backend.Mermaid.{ParsedSubgraph, ParsedEdge, ParsedDiagram, FlowGraph}
use f_chat_backend.Mermaid.Analyzer.{ids_of, analyze}
use f_chat_backend.Mermaid.Analyzer.Graph.{includes-active, analyze_flows}
use f_chat_backend.Mermaid.Parser.{
  State, steps, initial, all_subgraphs, internal_ids, resolve_in, resolve, diagram_of, lines_of,
  parse,
}
use f_chat_backend.Mermaid.Parser.Invariant.{Inv, step_ids}
use f_chat_backend.Mermaid.Parser.Loop.{steps-Inv, initial-Inv}

parse_state :
    (mermaid : Text) (d : ParsedDiagram)
    → parse mermaid ≡ some d
    → (s : State) × (steps (lines_of mermaid) initial ≡ some s) × (diagram_of s ≡ d)
unfolding parse
parse_state mermaid d e = elim (Option-cases (steps (lines_of mermaid) initial)) [
  | inl stop ↦ cc (rw stop at e)
  | inr (s, q) ↦ let same : some (diagram_of s) ≡ some d = rw q at e in (s, q, some_eq same)
]
  where
    some_eq : {x y : ParsedDiagram} → some x ≡ some y → x ≡ y
    some_eq p = cc

-- A subgraph of the map is in the list of all subgraphs.
listed_in :
    (m : Map ParsedSubgraph) (k : Text) (sg : ParsedSubgraph)
    → Map.get m k ≡ some sg
    → Memᴰ sg (map (λ (e : Text × ParsedSubgraph). e.1) m)
unfolding Map.get
listed_in [] k sg e = cc
listed_in ((j, other) ∷ m) k sg e = elim (Bool-cases (j == k)) [
  | inl q ↦ let same : other ≡ sg = ground arith in Memᴰ.head (sym same)
  | inr q ↦ Memᴰ.tail (listed_in m k sg (rw q at e))
]

includes-ids :
    (sgs : List ParsedSubgraph) (sg : ParsedSubgraph)
    → Memᴰ sg sgs
    → includes (ids_of sgs) sg.id ≡ true
unfolding ids_of includes
includes-ids [] sg m = absurd (Memᴰ.not-nil m)
includes-ids (x ∷ sgs) sg m = elim (Memᴰ.cases_cons m) [
  | inl q ↦ rw (← q, ==_refl) refl
  | inr r ↦ ground (arith, includes-ids sgs sg r, Bool-cases (x.id == sg.id))
]

-- An edge that `resolve` made.
record IsResolved (internals : List Text) (places : Map Text) (e : ParsedEdge) : Type 0 where
  from_place : Map.get places e.from_step ≡ some e.from_subgraph
  to_place : Map.get places e.to_step ≡ some e.to_subgraph
  from_flow : includes internals e.from_subgraph ≡ false
  to_flow : includes internals e.to_subgraph ≡ false

resolve_in-IsResolved :
    (internals : List Text) (places : Map Text) (x e : ParsedEdge)
    → Memᴰ e (resolve_in internals x (Map.get places x.from_step) (Map.get places x.to_step))
    → IsResolved internals places e
unfolding resolve_in
resolve_in-IsResolved internals places x e m = elim (Option-cases (Map.get places x.from_step)) [
  | inl p ↦ absurd (Memᴰ.not-nil (rw (p, resolve_in) at m))
  | inr (from, p) ↦ elim (Option-cases (Map.get places x.to_step)) [
    | inl q ↦ absurd (Memᴰ.not-nil (rw (p, q, resolve_in) at m))
    | inr (to, q) ↦ elim (Bool-cases (includes internals to || includes internals from)) [
      | inl bad ↦ absurd (Memᴰ.not-nil (rw (p, q, bad) at m))
      | inr good ↦
          subst (IsResolved internals places) (sym (Memᴰ.eq_of_singleton (rw (p, q, good) at m)))
            (record {
              from_place = p;
              to_place = q;
              from_flow = ground (arith, Bool-cases (includes internals to));
              to_flow = ground (arith, Bool-cases (includes internals to));
            })
    ]
  ]
]

resolve-IsResolved :
    (internals : List Text) (places : Map Text) (es : List ParsedEdge) (e : ParsedEdge)
    → Memᴰ e (resolve internals places es)
    → IsResolved internals places e
unfolding resolve
resolve-IsResolved internals places [] e m = absurd (Memᴰ.not-nil m)
resolve-IsResolved internals places (x ∷ es) e m =
    ⊎_elim (resolve_in-IsResolved internals places x e) (resolve-IsResolved internals places es e) (
      Memᴰ.append_cases
        (resolve_in internals x (Map.get places x.from_step) (Map.get places x.to_step)) m)

module _ (s : State) (h : Inv s) where
  -- A subgraph of the state that is no internal one is in the diagram.
  flow_subgraph :
      (k : Text) (sg : ParsedSubgraph)
      → Map.get s.subgraphs k ≡ some sg
      → includes (internal_ids (all_subgraphs s)) k ≡ false
      → Memᴰ sg (diagram_of s).subgraphs × (sg.id ≡ k)
  unfolding diagram_of all_subgraphs
  flow_subgraph k sg e flow =
      let id_is = (h.keyed k sg (mem-get s.subgraphs k sg e)).named in
      let internals = internal_ids (all_subgraphs s) in
      (
        (Memᴰ-keep (λ (x : ParsedSubgraph). not (includes internals x.id)) sg (all_subgraphs s)).1
            (listed_in s.subgraphs k sg e, rw (id_is, flow) refl),
        id_is,
      )

  flow_id :
      (x k : Text)
      → Map.get s.step_to_subgraph x ≡ some k
      → includes (internal_ids (all_subgraphs s)) k ≡ false
      → includes (ids_of (diagram_of s).subgraphs) k ≡ true
  flow_id x k e flow =
      let there = h.placed x k e in
      let (m, id_is) = flow_subgraph k there.subgraph there.found flow in
      subst (λ z. includes (ids_of (diagram_of s).subgraphs) z ≡ true) id_is
        (includes-ids (diagram_of s).subgraphs there.subgraph m)

  EdgesPlaced : ParsedDiagram → Type 0
  EdgesPlaced d =
      (e : ParsedEdge)
      → Memᴰ e d.edges
      → (Map.get d.step_to_subgraph e.from_step ≡ some e.from_subgraph)
        × (Map.get d.step_to_subgraph e.to_step ≡ some e.to_subgraph)
        × (includes (ids_of d.subgraphs) e.from_subgraph ≡ true)
        × (includes (ids_of d.subgraphs) e.to_subgraph ≡ true)

  edges_placed : EdgesPlaced (diagram_of s)
  unfolding EdgesPlaced diagram_of
  edges_placed e m =
      let r = resolve-IsResolved (internal_ids (all_subgraphs s)) s.step_to_subgraph s.edges e m in
      (
        r.from_place,
        r.to_place,
        flow_id e.from_step e.from_subgraph r.from_place r.from_flow,
        flow_id e.to_step e.to_subgraph r.to_place r.to_flow,
      )

  StepsListed : ParsedDiagram → Type 0
  StepsListed d =
      ((sg : ParsedSubgraph) → Memᴰ sg d.subgraphs → IsDistinct (step_ids sg))
      × ((x k : Text)
          → Map.get d.step_to_subgraph x ≡ some k
          → includes (ids_of d.subgraphs) k ≡ true
          → (sg : ParsedSubgraph) × Memᴰ sg d.subgraphs
            × (sg.id ≡ k)
            × (includes (step_ids sg) x ≡ true))

  steps_listed : StepsListed (diagram_of s)
  unfolding StepsListed diagram_of all_subgraphs
  steps_listed = (
    λ sg m.
        let internals = internal_ids (all_subgraphs s) in
        let (inside, flow) =
          (Memᴰ-keep (λ (x : ParsedSubgraph). not (includes internals x.id)) sg (all_subgraphs s)).0
            m in
        let (entry, there, is) =
          Memᴰ.of_map (λ (e : Text × ParsedSubgraph). e.1) s.subgraphs inside in
        subst (λ (z : ParsedSubgraph). IsDistinct (step_ids z)) is
          (h.keyed entry.0 entry.1 there).steps_distinct,
    λ x k e known.
        let there = h.placed x k e in
        let internals = internal_ids (all_subgraphs s) in
        let both = includes-active internals (all_subgraphs s) k in
        let flow : includes internals k ≡ false =
          ground (arith, Bool-cases (includes internals k)) in
        let (m, id_is) = flow_subgraph k there.subgraph there.found flow in
        (there.subgraph, m, id_is, there.listed),
  )

-- In a parsed diagram every edge carries the subgraphs in which its two steps were placed, and
-- both of them are subgraphs of the diagram.
pub parse_edges :
    (mermaid : Text) (d : ParsedDiagram) (e : ParsedEdge)
    → parse mermaid ≡ some d
    → Memᴰ e d.edges
    → (Map.get d.step_to_subgraph e.from_step ≡ some e.from_subgraph)
      × (Map.get d.step_to_subgraph e.to_step ≡ some e.to_subgraph)
      × (includes (ids_of d.subgraphs) e.from_subgraph ≡ true)
      × (includes (ids_of d.subgraphs) e.to_subgraph ≡ true)
unfolding EdgesPlaced
parse_edges mermaid d e p m =
    let (s, run, made) = parse_state mermaid d p in
    let inv = steps-Inv (lines_of mermaid) initial s run initial-Inv in
    subst (EdgesPlaced s inv) made (edges_placed s inv) e m

-- The analyzer never throws on what the parser returns.
pub parse-analyze :
    (mermaid : Text) (d : ParsedDiagram)
    → parse mermaid ≡ some d
    → (g : FlowGraph) × (analyze d ≡ some g)
parse-analyze mermaid d p =
    let (g, e, _, _) = analyze_flows d (λ e m. (parse_edges mermaid d e p m).2) in (g, e)

-- The subgraphs of a parsed diagram have no step twice, and a step that was placed in a subgraph
-- of the diagram is listed there.
pub parse_steps :
    (mermaid : Text) (d : ParsedDiagram)
    → parse mermaid ≡ some d
    → ((sg : ParsedSubgraph) → Memᴰ sg d.subgraphs → IsDistinct (step_ids sg))
      × ((x k : Text)
          → Map.get d.step_to_subgraph x ≡ some k
          → includes (ids_of d.subgraphs) k ≡ true
          → (sg : ParsedSubgraph) × Memᴰ sg d.subgraphs
            × (sg.id ≡ k)
            × (includes (step_ids sg) x ≡ true))
unfolding StepsListed
parse_steps mermaid d p =
    let (s, run, made) = parse_state mermaid d p in
    let inv = steps-Inv (lines_of mermaid) initial s run initial-Inv in
    subst (StepsListed s inv) made (steps_listed s inv)
