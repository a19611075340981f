-- ===== src/Mermaid.antt =====
-- The Mermaid diagrams of src/modules/nodes/mermaid-parser: the shapes that the parser and the
-- graph analyzer share (types.ts).
pub mod Lexer
pub mod Parser
pub mod Analyzer
mod Tests
use f_chat_backend.Prelude.{Text, Option, List, Bool}
use f_chat_backend.Prelude.Map.{Map}

pub record ParsedStep : Type 0 where
  pub id : Text
  pub label : Text

pub record ParsedSubgraph : Type 0 where
  pub id : Text
  pub name : Text
  pub steps : List ParsedStep

pub record ParsedEdge : Type 0 where
  pub from_step : Text
  pub to_step : Text
  pub from_subgraph : Text
  pub to_subgraph : Text
  pub label : Option Text
  pub is_internal : Bool

pub record ParsedDiagram : Type 0 where
  pub subgraphs : List ParsedSubgraph
  pub edges : List ParsedEdge
  pub step_to_subgraph : Map Text

pub record CrossEdge : Type 0 where
  pub from_subgraph : Text
  pub to_subgraph : Text
  pub label : Option Text
  pub is_internal : Bool
  pub goes_to_router : Bool

pub record SubFlow : Type 0 where
  pub entry_subgraph : Text
  pub subgraph_ids : List Text

pub record FlowGraph : Type 0 where
  pub subgraphs : List ParsedSubgraph
  pub cross_edges : List CrossEdge
  pub entry_points : List Text
  pub terminals : List Text
  pub sub_flows : List SubFlow
  pub discarded_closure_subgraphs : List Text
