-- ===== src/Mermaid/Analyzer/Graph.antt =====
-- What `analyze` of graph-analyzer.service.ts returns.
use mathlib.Core.Logic.{⊎_elim}
use mathlib.Core.List.Memᴰ
use mathlib.Core.List.{map-append}
use f_chat_backend.Prelude.{
  Text, ◌==◌, ==_iff, ==_sound, ==_refl, includes, includes-append, some, List, [], ◌∷◌, ◌++◌, ◌≡◌,
  ◌≢◌, refl, subst, sym, ap, ◌∙◌, ◌↔◌, inl, inr, true, false, not, ◌&&◌, keep, Bool-cases, arith,
  Memᴰ, map,
}
use f_chat_backend.Prelude.Map
use f_chat_backend.Prelude.Map.{Map}
use f_chat_backend.Mermaid.{
  ParsedSubgraph, ParsedEdge, ParsedDiagram, CrossEdge, SubFlow, FlowGraph,
}
use f_chat_backend.Mermaid.Analyzer.{
  discarded, active_subgraphs, ids_of, active_ids, cross_edge, cross_edges_of, skips, build,
  empty_rows, neighbours, sub_flow, sub_flows_of, reached_by, entries_of, terminals_of, left_over,
  graph_of, finish, analyze,
}
use f_chat_backend.Mermaid.Analyzer.Search.{Walk, search_decides}
use f_chat_backend.Mermaid.Analyzer.Search
use f_chat_backend.Mermaid.Analyzer.Edges.{cross_edges_exact}
use f_chat_backend.Mermaid.Analyzer.Rows.{
  Arc, build_lem, has_row, build_returns, get-empty_rows, includes-keep, in_zero, out_zero,
}

-- The walks along the cross edges that stay in the flow.
pub data Leads (es : List CrossEdge) (src : Text) : Text → Type 0 where
  here : Leads es src src
  follow : {u v : Text} → Leads es src u → Arc es u v → Leads es src v

includes_head : (k : Text) (ks : List Text) → includes (k ∷ ks) k ≡ true
unfolding includes
includes_head k ks = ground (arith, ==_refl k)

module _ (d : ParsedDiagram) (adj : Map (List Text))
    (built : build (empty_rows (active_ids d) []) (cross_edges_of d) ≡ some adj) where
  Arc-row : (u v : Text) → (includes (neighbours adj u) v ≡ true) ↔ Arc (cross_edges_of d) u v
  unfolding neighbours includes Map.get
  Arc-row u v = ground (
    arith,
    build_lem (empty_rows (active_ids d) []) adj (cross_edges_of d) u v built,
    get-empty_rows (active_ids d) [] u,
  )

  Leads-walk : (src : Text) {v : Text} → Walk adj src v → Leads (cross_edges_of d) src v
  Leads-walk src Search.here = here
  Leads-walk src (Search.step {u} {v} w e) = follow (Leads-walk src w) ((Arc-row u v).0 e)

  Walk-leads : (src : Text) {v : Text} → Leads (cross_edges_of d) src v → Walk adj src v
  Walk-leads src here = Search.here
  Walk-leads src (follow {u} {v} l a) = Search.step (Walk-leads src l) ((Arc-row u v).1 a)

  IsExact : SubFlow → Type 0
  IsExact f =
      (v : Text) → (includes f.subgraph_ids v ≡ true) ↔ Leads (cross_edges_of d) f.entry_subgraph v

  sub_flow-IsExact :
      (k : Text) → (f : SubFlow) × (sub_flow adj k ≡ some f) × (f.entry_subgraph ≡ k) × IsExact f
  unfolding sub_flow IsExact
  sub_flow-IsExact k =
      let (r, e, iff) = search_decides adj k in
      (
        record { entry_subgraph = k; subgraph_ids = r },
        rw e refl,
        refl,
        λ v. (λ m. Leads-walk k ((iff v).0 m), λ l. (iff v).1 (Walk-leads k l)),
      )

  AllExact : List SubFlow → Type 0
  AllExact fs = (f : SubFlow) → Memᴰ f fs → IsExact f

  entries_reached :
      (fs : List SubFlow) (k : Text)
      → AllExact fs
      → includes (map (λ (f : SubFlow). f.entry_subgraph) fs) k ≡ true
      → includes (reached_by fs) k ≡ true
  unfolding AllExact IsExact reached_by includes
  entries_reached [] k h m = m
  entries_reached (f ∷ fs) k h m = elim (Bool-cases (f.entry_subgraph == k)) [
    | inl e ↦ rw includes-append (
        ground (
          arith,
          (h f (Memᴰ.head refl) k).1
              (subst (Leads (cross_edges_of d) f.entry_subgraph) (==_sound _ _ e) here),
        ))
    | inr e ↦ rw includes-append (
        ground (
          arith,
          entries_reached fs k (λ x y. h x (Memᴰ.tail y)) (rw e at m),
          Bool-cases (includes f.subgraph_ids k),
        ))
  ]

  sub_flows_exact :
      (ks : List Text)
      → (fs : List SubFlow) × (sub_flows_of adj ks ≡ some fs)
        × (map (λ (f : SubFlow). f.entry_subgraph) fs ≡ ks)
        × AllExact fs
  unfolding sub_flows_of AllExact
  sub_flows_exact [] = ([], refl, refl, λ f m. absurd (Memᴰ.not-nil m))
  sub_flows_exact (k ∷ ks) =
      let (f, e, named, exact) = sub_flow-IsExact k in
      let (fs, es, names, all) = sub_flows_exact ks in
      (
        f ∷ fs,
        rw (e, es) refl,
        cc,
        λ x m. ⊎_elim (λ q. subst IsExact (sym q) exact) (all x) (Memᴰ.cases_cons m),
      )

  not_reached :
      (fs : List SubFlow) (k : Text)
      → AllExact fs
      → map (λ (f : SubFlow). f.entry_subgraph) fs ≡ entries_of d
      → includes (reached_by fs) k ≡ false
      → includes (entries_of d) k ≡ false
  not_reached fs k all names apart = elim (Bool-cases (includes (entries_of d) k)) [
    | inl old ↦ cc (entries_reached fs k all (rw names old))
    | inr new ↦ new
  ]

  -- The graph of `finish`: one exact sub-flow for each entry point.
  finish_exact :
      (fs : List SubFlow) (left : List Text)
      → map (λ (f : SubFlow). f.entry_subgraph) fs ≡ entries_of d
      → AllExact fs
      → ((k : Text) → includes left k ≡ true → includes (reached_by fs) k ≡ false)
      → (g : FlowGraph) × (entries : List Text) × (flows : List SubFlow) × (finish d adj fs left
          ≡ some g)
        × (g ≡ graph_of d entries flows)
        × (map (λ (f : SubFlow). f.entry_subgraph) flows ≡ entries)
        × ((k : Text) → includes (entries_of d) k ≡ true → includes entries k ≡ true)
        × AllExact flows
  unfolding finish AllExact
  finish_exact fs [] names all apart =
      (graph_of d (entries_of d) fs, entries_of d, fs, refl, refl, names, λ k h. h, all)
  finish_exact fs (k ∷ ks) names all apart =
      let (f, e, named, exact) = sub_flow-IsExact k in
      let new : includes (entries_of d) k ≡ false =
        not_reached fs k all names (apart k (includes_head k ks)) in
      (
        graph_of d (entries_of d ++ k ∷ []) (fs ++ f ∷ []),
        entries_of d ++ k ∷ [],
        fs ++ f ∷ [],
        rw (e, new) refl,
        refl,
        rw (map-append, names) (ap (λ (x : Text). entries_of d ++ x ∷ []) named),
        λ j h. rw includes-append (rw h refl),
        λ x m.
            ⊎_elim (all x) (λ one. subst IsExact (sym (Memᴰ.eq_of_singleton one)) exact)
              (Memᴰ.append_cases fs m),
      )

-- Every edge leaves a subgraph of the diagram, as the parser has it.
abbrev pub IsGrounded : ParsedDiagram → Type 0
IsGrounded d =
    (e : ParsedEdge) → Memᴰ e d.edges → includes (ids_of d.subgraphs) e.from_subgraph ≡ true

-- An id of the diagram that is no closure's is an active one, and the other way round.
pub includes-active :
    (gone : List Text) (sgs : List ParsedSubgraph) (k : Text)
    → includes (ids_of (keep (λ sg. not (includes gone sg.id)) sgs)) k
      ≡ (includes (ids_of sgs) k && not (includes gone k))
unfolding ids_of keep includes
includes-active gone [] k = refl
includes-active gone (sg ∷ sgs) k = ground (arith, includes-active gone sgs k, ==_iff sg.id k)

-- A cross edge leaves an active subgraph.
from_active :
    (d : ParsedDiagram)
    → IsGrounded d
    → (c : CrossEdge) → Memᴰ c (cross_edges_of d)
    → has_row (empty_rows (active_ids d) []) c.from_subgraph ≡ true
unfolding has_row active_ids active_subgraphs cross_edge skips
from_active d ok c m =
    let (e, from, used, q) = (cross_edges_exact d).0 c m in
    ground (
      arith,
      q,
      used.1,
      ok e from,
      includes-active (discarded d) d.subgraphs e.from_subgraph,
      get-empty_rows (active_ids d) [] e.from_subgraph,
      ap (λ (x : CrossEdge). x.from_subgraph) q,
    )

module _ (d : ParsedDiagram) (ok : IsGrounded d) where
  -- The pieces that `analyze` puts together.
  assembled :
      (g : FlowGraph) × (entries : List Text) × (flows : List SubFlow) × (analyze d ≡ some g)
      × (g ≡ graph_of d entries flows)
      × (map (λ (f : SubFlow). f.entry_subgraph) flows ≡ entries)
      × ((k : Text) → includes (entries_of d) k ≡ true → includes entries k ≡ true)
      × ((f : SubFlow)
          → Memᴰ f flows
          → (v : Text)
          → (includes f.subgraph_ids v ≡ true) ↔ Leads (cross_edges_of d) f.entry_subgraph v)
  unfolding analyze left_over AllExact IsExact
  assembled =
      let (adj, built) =
        build_returns (empty_rows (active_ids d) []) (cross_edges_of d) (from_active d ok) in
      let (fs, found, names, all) = sub_flows_exact d adj built (entries_of d) in
      let apart = λ (k : Text) (h : includes (left_over d fs) k ≡ true).
        let both = includes-keep (λ j. not (includes (reached_by fs) j)) (active_ids d) k in
        let gone : includes (reached_by fs) k ≡ false = ground arith in gone in
      let (g, entries, flows, e, shape, named, more, exact) =
        finish_exact d adj built fs (left_over d fs) names all apart in
      (g, entries, flows, rw (built, found) e, shape, named, more, exact)

-- On a diagram whose every edge starts in one of its subgraphs, `analyze` returns a graph: its
-- sub-flows belong to its entry points, one each and in their order, and the ids of a sub-flow are
-- exactly those to which a walk of cross edges that stay in the flow leads from its entry.
pub analyze_flows :
    (d : ParsedDiagram)
    → IsGrounded d
    → (g : FlowGraph) × (analyze d ≡ some g)
      × (map (λ (f : SubFlow). f.entry_subgraph) g.sub_flows ≡ g.entry_points)
      × ((f : SubFlow)
          → Memᴰ f g.sub_flows
          → (v : Text)
          → (includes f.subgraph_ids v ≡ true) ↔ Leads g.cross_edges f.entry_subgraph v)
unfolding graph_of
analyze_flows d ok =
    let (g, entries, flows, e, shape, names, more, exact) = assembled d ok in
    (graph_of d entries flows, e ∙ ap (λ (x : FlowGraph). some x) shape, names, exact)

-- In the graph that `analyze` returns for a diagram whose every edge starts in one of its
-- subgraphs, every active subgraph to which no arc leads is an entry point, and the terminals are
-- exactly the active subgraphs that no cross edge leaves.
pub analyze_ends :
    (d : ParsedDiagram)
    → IsGrounded d
    → (g : FlowGraph) × (analyze d ≡ some g)
      × ((k : Text)
          → includes (active_ids d) k ≡ true
          → ((u : Text) → ¬ Arc g.cross_edges u k)
          → includes g.entry_points k ≡ true)
      × ((k : Text)
          → (includes g.terminals k ≡ true) ↔ (
              (includes (active_ids d) k ≡ true)
              × ((e : CrossEdge) → Memᴰ e g.cross_edges → e.from_subgraph ≢ k)))
unfolding graph_of entries_of terminals_of
analyze_ends d ok =
    let (g, entries, flows, e, shape, names, more, exact) = assembled d ok in
    (
      graph_of d entries flows,
      e ∙ ap (λ (x : FlowGraph). some x) shape,
      λ k act free. more k ((in_zero (active_ids d) (cross_edges_of d) k).1 (act, free)),
      λ k. out_zero (active_ids d) (cross_edges_of d) k,
    )
