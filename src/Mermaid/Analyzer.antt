-- ===== src/Mermaid/Analyzer.antt =====
-- graph-analyzer.service.ts: from a parsed diagram to the graph of its flows. `none` stands for
-- the TypeError of the non-null assertion `adjacency.get(e.fromSubgraph)!.add`; the search runs
-- on fuel, one more than the number of edges.
pub mod Search
pub mod Edges
pub mod Rows
pub mod Graph
use f_chat_backend.Prelude.{
  ℕ, zero, suc, ◌+◌, Text, text, ◌==◌, includes, trim, to_lower, Option, none, some, List, [], ◌∷◌,
  ◌++◌, map, Bool, true, false, not, keep, length, if◌then◌else◌, or_else, ◌>>=◌,
}
use f_chat_backend.Prelude.Map
use f_chat_backend.Prelude.Map.{Map}
use f_chat_backend.Mermaid.{
  ParsedSubgraph, ParsedEdge, ParsedDiagram, CrossEdge, SubFlow, FlowGraph,
}

is_closure : ParsedSubgraph → Bool
is_closure sg = to_lower (trim sg.name) == text "cierre"

pub discarded : ParsedDiagram → List Text
discarded d = map (λ (sg : ParsedSubgraph). sg.id) (keep is_closure d.subgraphs)

pub active_subgraphs : ParsedDiagram → List ParsedSubgraph
active_subgraphs d = keep (λ sg. not (includes (discarded d) sg.id)) d.subgraphs

bool_text : Bool → Text
bool_text true = text "true"
bool_text false = text "false"

-- The template literal `from|to|label|isInternal|toDiscarded`.
pub edge_key : CrossEdge → Text
unfolding bool_text
edge_key e =
    e.from_subgraph
    ++ text "|"
    ++ e.to_subgraph
    ++ text "|"
    ++ or_else e.label []
    ++ text "|"
    ++ bool_text e.is_internal
    ++ text "|"
    ++ bool_text e.goes_to_router

pub cross_edge : List Text → ParsedEdge → CrossEdge
cross_edge gone e = record {
  from_subgraph = e.from_subgraph;
  to_subgraph = e.to_subgraph;
  label = e.label;
  is_internal = e.is_internal;
  goes_to_router = includes gone e.to_subgraph;
}

-- The loop that collects the cross edges; `seen` holds the keys so far. The two `continue`s for
-- an edge inside one subgraph and for one that leaves a closure are `skips`.
pub skips : List Text → ParsedEdge → Bool
skips gone e = if e.from_subgraph == e.to_subgraph then true else includes gone e.from_subgraph

pub collect : List Text → List Text → List CrossEdge → List ParsedEdge → List CrossEdge
unfolding skips cross_edge
collect gone seen out [] = out
collect gone seen out (e ∷ es) =
    let ce = cross_edge gone e in
    let key = edge_key ce in
    let same = collect gone seen out es in
    let more = collect gone (seen ++ key ∷ []) (out ++ ce ∷ []) es in
    if skips gone e then same else if includes seen key then same else more

-- The degree maps: every active subgraph starts at 0, and an edge adds one.
pub zeros : List Text → Map ℕ → Map ℕ
zeros [] m = m
zeros (k ∷ ks) m = zeros ks (Map.set m k 0)

pub bump : Map ℕ → Text → Map ℕ
bump m k = Map.set m k (or_else (Map.get m k) 0 + 1)

pub in_degrees : Map ℕ → List CrossEdge → Map ℕ
in_degrees m [] = m
in_degrees m (e ∷ es) = in_degrees (if e.goes_to_router then m else bump m e.to_subgraph) es

pub out_degrees : Map ℕ → List CrossEdge → Map ℕ
out_degrees m [] = m
out_degrees m (e ∷ es) = out_degrees (bump m e.from_subgraph) es

-- The ids whose degree is 0: `(degree.get(id) ?? 0) === 0`.
pub degree_zero : Map ℕ → List Text → List Text
degree_zero m ids = keep (λ k. elim (or_else (Map.get m k) 0) [ zero ↦ true | suc n ↦ false ]) ids

-- set.add(v)
pub add : List Text → Text → List Text
add s v = if includes s v then s else s ++ v ∷ []

pub empty_rows : List Text → Map (List Text) → Map (List Text)
empty_rows [] m = m
empty_rows (k ∷ ks) m = empty_rows ks (Map.set m k [])

add_edge : Map (List Text) → CrossEdge → Option (Map (List Text))
unfolding add
add_edge adj e =
    if e.goes_to_router
    then some adj
    else (Map.get adj e.from_subgraph >>= λ row.
        some (Map.set adj e.from_subgraph (add row e.to_subgraph)))

pub build : Map (List Text) → List CrossEdge → Option (Map (List Text))
unfolding add_edge
build adj [] = some adj
build adj (e ∷ es) = add_edge adj e >>= λ adj'. build adj' es

-- adjacency.get(current) ?? []
pub neighbours : Map (List Text) → Text → List Text
neighbours adj v = or_else (Map.get adj v) []

-- The fuel of one search: one more than the number of edges in the rows of what is not reached.
pub waiting : Map (List Text) → List Text → ℕ
waiting [] reached = 0
waiting ((k, row) ∷ adj) reached =
    let rest = waiting adj reached in if includes reached k then rest else length row + rest

pub fuel_for : Map (List Text) → ℕ
unfolding waiting
fuel_for adj = suc (waiting adj [])

-- The inner loop: the neighbours that are not reached yet go to the end of the queue.
pub unreached : List Text → List Text → List Text
unreached reached vs = keep (λ v. not (includes reached v)) vs

-- The `while` loop over the queue.
pub search : ℕ → Map (List Text) → List Text → List Text → Option (List Text)
unfolding neighbours unreached
search zero adj queue reached = elim queue [ [] ↦ some reached | _ ∷ _ ↦ none ]
search (suc fuel) adj queue reached = elim queue [
  | [] ↦ some reached
  | current ∷ rest ↦
      let skip = search fuel adj rest reached in
      let reached' = reached ++ current ∷ [] in
      let expand = search fuel adj (rest ++ unreached reached' (neighbours adj current)) reached' in
      if includes reached current then skip else expand
]

pub sub_flow : Map (List Text) → Text → Option SubFlow
unfolding search fuel_for
sub_flow adj entry = search (fuel_for adj) adj (entry ∷ []) [] >>= λ r.
    some (record { entry_subgraph = entry; subgraph_ids = r })

pub sub_flows_of : Map (List Text) → List Text → Option (List SubFlow)
unfolding sub_flow
sub_flows_of adj [] = some []
sub_flows_of adj (k ∷ ks) = sub_flow adj k >>= λ f. sub_flows_of adj ks >>= λ fs. some (f ∷ fs)

-- `globallyReached`, as the search of each entry filled it.
pub reached_by : List SubFlow → List Text
reached_by [] = []
reached_by (f ∷ fs) = f.subgraph_ids ++ reached_by fs

unfoldable pub ids_of : List ParsedSubgraph → List Text
ids_of = map (λ sg. sg.id)

pub cross_edges_of : ParsedDiagram → List CrossEdge
unfolding collect discarded
cross_edges_of d = collect (discarded d) [] [] d.edges

pub active_ids : ParsedDiagram → List Text
unfolding ids_of active_subgraphs
active_ids d = ids_of (active_subgraphs d)

pub entries_of : ParsedDiagram → List Text
unfolding in_degrees zeros degree_zero active_ids cross_edges_of
entries_of d = degree_zero (in_degrees (zeros (active_ids d) []) (cross_edges_of d)) (active_ids d)

pub terminals_of : ParsedDiagram → List Text
unfolding out_degrees zeros degree_zero active_ids cross_edges_of
terminals_of d =
    degree_zero (out_degrees (zeros (active_ids d) []) (cross_edges_of d)) (active_ids d)

-- What is left when the entries are searched: the first such node is a synthetic entry.
left_over : ParsedDiagram → List SubFlow → List Text
unfolding active_ids reached_by
left_over d flows = keep (λ k. not (includes (reached_by flows) k)) (active_ids d)

graph_of : ParsedDiagram → List Text → List SubFlow → FlowGraph
unfolding active_subgraphs cross_edges_of terminals_of discarded
graph_of d entries flows = record {
  subgraphs = active_subgraphs d;
  cross_edges = cross_edges_of d;
  entry_points = entries;
  terminals = terminals_of d;
  sub_flows = flows;
  discarded_closure_subgraphs = discarded d;
}

finish : ParsedDiagram → Map (List Text) → List SubFlow → List Text → Option FlowGraph
unfolding graph_of entries_of sub_flow
finish d adj flows [] = some (graph_of d (entries_of d) flows)
finish d adj flows (k ∷ ks) =
    let entries = entries_of d in
    sub_flow adj k >>= λ f.
    some (graph_of d (if includes entries k then entries else entries ++ k ∷ []) (flows ++ f ∷ []))

pub analyze : ParsedDiagram → Option FlowGraph
unfolding build empty_rows active_ids cross_edges_of sub_flows_of entries_of left_over finish
analyze d = build (empty_rows (active_ids d) []) (cross_edges_of d) >>= λ adj.
    sub_flows_of adj (entries_of d) >>= λ flows. finish d adj flows (left_over d flows)
