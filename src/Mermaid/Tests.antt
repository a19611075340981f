-- ===== src/Mermaid/Tests.antt =====
-- A diagram as the flow generator writes them, run through the parser and the analyzer, and the
-- theorems at it.
use f_chat_backend.Prelude.{
  keep, ◌==◌, any, to_lower, starts_with, every, trim, Text, text, none, some, List, [], ◌∷◌, map,
  true, false, ◌≡◌, ◌↔◌, refl, Memᴰ, includes, IsDistinct,
}
use mathlib.Core.Logic.{◌≢◌}
use f_chat_backend.Prelude.Map
use f_chat_backend.Mermaid.{
  ParsedSubgraph, ParsedEdge, ParsedDiagram, CrossEdge, SubFlow, FlowGraph,
}
use f_chat_backend.Mermaid.Lexer.{
  is_letter, is_word, not_bar, match_arrow, arrow_kind, edge_label, match_node, node_of, node_label,
  next_token, is_blank, tokenize_line, solid, dotted, tokenize_line, next_token, is_blank,
  match_arrow, arrow_kind, edge_label, match_node, node_of, node_label,
}
use f_chat_backend.Mermaid.Lexer.Chains.{Link, print_chain, chain_tokens, tokenize_line-print_chain}
use f_chat_backend.Mermaid.Parser.{parse, lines_of}
use f_chat_backend.Mermaid.Parser.Invariant.{step_ids}
use f_chat_backend.Mermaid.Parser.Pipeline.{parse_edges, parse-analyze, parse_steps}
use f_chat_backend.Mermaid.Parser.Balance.{parse_throws_iff, open_count}
use f_chat_backend.Mermaid.Analyzer.{analyze, active_ids, ids_of, search, fuel_for}
use f_chat_backend.Mermaid.Analyzer.Search.{Walk, search_decides}
use f_chat_backend.Mermaid.Analyzer.Rows.{Arc}
use f_chat_backend.Mermaid.Analyzer.Graph.{Leads, analyze_flows, analyze_ends}

abbrev sample : Text
sample =
    text
      "flowchart TD\nsubgraph S1[Saludo]\n A1[Hola] --> B1{ver}\nend\nsubgraph S2[\"Pago\"]\n C[\"x]y\"]\nend\nB1 -->|si| C\nA1-.->I1"

abbrev first_edge : ParsedEdge
first_edge = record {
  from_step = text "A1";
  to_step = text "B1";
  from_subgraph = text "S1";
  to_subgraph = text "S1";
  label = none;
  is_internal = false;
}

abbrev second_edge : ParsedEdge
second_edge = record {
  from_step = text "B1";
  to_step = text "C";
  from_subgraph = text "S1";
  to_subgraph = text "S2";
  label = some (text "si");
  is_internal = false;
}

abbrev diagram : ParsedDiagram
diagram = record {
  subgraphs =
      record {
        id = text "S1";
        name = text "Saludo";
        steps =
            record { id = text "A1"; label = text "Hola" }
            ∷ record { id = text "B1"; label = text "ver" }
            ∷ [];
      }
      ∷ record {
        id = text "S2";
        name = text "Pago";
        steps = record { id = text "C"; label = text "x]y" } ∷ [];
      }
      ∷ [];
  edges = first_edge ∷ second_edge ∷ [];
  step_to_subgraph = (text "A1", text "S1") ∷ (text "B1", text "S1") ∷ (text "C", text "S2") ∷ [];
}

parsed : parse sample ≡ some diagram
unfolding parse tokenize_line next_token is_blank match_arrow arrow_kind edge_label match_node
    node_of node_label keep ◌==◌ Map.has Map.set Map.get is_letter is_word not_bar trim includes
    every any to_lower starts_with
parsed = refl

parse_edges_example :
    (Map.get diagram.step_to_subgraph (text "B1") ≡ some (text "S1"))
    × (Map.get diagram.step_to_subgraph (text "C") ≡ some (text "S2"))
    × (includes (ids_of diagram.subgraphs) (text "S1") ≡ true)
    × (includes (ids_of diagram.subgraphs) (text "S2") ≡ true)
parse_edges_example = parse_edges sample diagram second_edge parsed (Memᴰ.tail (Memᴰ.head refl))

parse-analyze_example : (g : FlowGraph) × (analyze diagram ≡ some g)
parse-analyze_example = parse-analyze sample diagram parsed

parse_steps_example :
    ((sg : ParsedSubgraph) → Memᴰ sg diagram.subgraphs → IsDistinct (step_ids sg))
    × ((x k : Text)
        → Map.get diagram.step_to_subgraph x ≡ some k
        → includes (ids_of diagram.subgraphs) k ≡ true
        → (sg : ParsedSubgraph) × Memᴰ sg diagram.subgraphs
          × (sg.id ≡ k)
          × (includes (step_ids sg) x ≡ true))
parse_steps_example = parse_steps sample diagram parsed

parse_throws_iff_example :
    (parse (text "end\nA --> B") ≡ none) ↔ (open_count (lines_of (text "end\nA --> B")) 0 ≡ none)
parse_throws_iff_example = parse_throws_iff (text "end\nA --> B")

analyze_flows_example :
    (g : FlowGraph) × (analyze diagram ≡ some g)
    × (map (λ (f : SubFlow). f.entry_subgraph) g.sub_flows ≡ g.entry_points)
    × ((f : SubFlow)
        → Memᴰ f g.sub_flows
        → (v : Text) → (includes f.subgraph_ids v ≡ true) ↔ Leads g.cross_edges f.entry_subgraph v)
analyze_flows_example = analyze_flows diagram (λ e m. (parse_edges sample diagram e parsed m).2)

analyze_ends_example :
    (g : FlowGraph) × (analyze diagram ≡ some g)
    × ((k : Text)
        → includes (active_ids diagram) k ≡ true
        → ((u : Text) → ¬ Arc g.cross_edges u k)
        → includes g.entry_points k ≡ true)
    × ((k : Text)
        → (includes g.terminals k ≡ true) ↔ (
            (includes (active_ids diagram) k ≡ true)
            × ((e : CrossEdge) → Memᴰ e g.cross_edges → e.from_subgraph ≢ k)))
analyze_ends_example = analyze_ends diagram (λ e m. (parse_edges sample diagram e parsed m).2)

abbrev rows : Map.Map (List Text)
rows = (text "S1", text "S2" ∷ text "S1" ∷ []) ∷ (text "S2", []) ∷ []

search_decides_example :
    (r : List Text) × (search (fuel_for rows) rows (text "S1" ∷ []) [] ≡ some r)
    × ((v : Text) → (includes r v ≡ true) ↔ Walk rows (text "S1") v)
search_decides_example = search_decides rows (text "S1")

abbrev links : List Link
links =
    record { kind = solid; label = some (text "si"); to = text "B" }
    ∷ record { kind = dotted; label = none; to = text "C2" }
    ∷ []

print_chain_example : tokenize_line (print_chain (text "A") links) ≡ chain_tokens (text "A") links
unfolding is_letter is_word not_bar every trim
print_chain_example =
    tokenize_line-print_chain (text "A") links (refl, refl)
      ((refl, refl), (refl, refl), (tt, (refl, refl), tt))
