-- ===== src/Mermaid/Parser.antt =====
-- mermaid-parser.service.ts: the loop over the lines and what is made of its state at the end.
-- `none` is the thrown error `unexpected 'end' without open subgraph`. The arrays that the code
-- pushes to grow at the end here too; `subgraphOrder` is the order of the entries of the map.
pub mod Invariant
mod Loop
pub mod Pipeline
pub mod Balance
use f_chat_backend.Prelude.{
  ℕ, zero, suc, Text, text, ◌==◌, includes, starts_with, trim, to_lower, Option, none, some, List,
  [], ◌∷◌, ◌++◌, map, Bool, true, false, not, ◌&&◌, ◌||◌, nat_eq, leb, if◌then◌else◌, length,
  get_last?, keep, any, every, ◌>>=◌, or_else,
}
use f_chat_backend.Prelude.Map
use f_chat_backend.Prelude.Map.{Map}
use f_chat_backend.Mermaid.{ParsedStep, ParsedSubgraph, ParsedEdge, ParsedDiagram}
use f_chat_backend.Mermaid.Lexer.{
  Arrow, solid, dotted, Token, node, arrow, Opening, strip_trailing_comment, is_ignorable,
  parse_subgraph_open, tokenize_line,
}

pub record State : Type 0 where
  pub subgraphs : Map ParsedSubgraph
  pub edges : List ParsedEdge
  pub step_to_subgraph : Map Text
  pub stack : List Text

pub add_step : ParsedSubgraph → Text → Option Text → ParsedSubgraph
add_step sg id label =
    if any (λ (s : ParsedStep). s.id == id) sg.steps
    then sg
    else record sg { steps = sg.steps ++ record { id = id; label = trim (or_else label id) } ∷ [] }

-- this.addStepToSubgraph(subgraphsById.get(sg)!, id, label)
pub add_step_to : Text → Text → Option Text → State → State
unfolding add_step
add_step_to sg id label s = elim (Map.get s.subgraphs sg) [
  | none ↦ s
  | some found ↦ record s { subgraphs = Map.set s.subgraphs sg (add_step found id label) }
]

-- stepToSubgraph.set(id, sg)
pub place : Text → Text → State → State
place id sg s = record s { step_to_subgraph = Map.set s.step_to_subgraph id sg }

-- A line that is one node declares it in the subgraph that is open.
pub declare : Option Text → Text → Option Text → State → State
unfolding add_step_to place
declare none id label s = s
declare (some sg) id label s =
    let t = add_step_to sg id label s in if Map.has s.step_to_subgraph id then t else place id sg t

pub is_truthy : Option Text → Bool
is_truthy none = false
is_truthy (some []) = false
is_truthy (some (c ∷ l)) = true

-- A node inside a chain is declared if it has a label and has no subgraph yet.
pub declare_inline : Option Text → Text → Option Text → State → State
unfolding is_truthy add_step_to place
declare_inline none id label s = s
declare_inline (some sg) id label s =
    if is_truthy label && not (Map.has s.step_to_subgraph id)
    then place id sg (add_step_to sg id label s)
    else s

is_dotted : Arrow → Bool
is_dotted solid = false
is_dotted dotted = true

pub push_edge : Text → Text → Arrow → Option Text → State → State
unfolding is_dotted
push_edge a b kind label s = record s {
  edges =
      s.edges
      ++ record {
        from_step = a;
        to_step = b;
        from_subgraph = [];
        to_subgraph = [];
        label = label;
        is_internal = is_dotted kind;
      }
        ∷ [];
}

-- One round of the chain's loop; tokens in another order are passed over.
pub link : Option Text → Token → Token → Token → State → State
unfolding declare_inline push_edge
link current (node a la) (arrow kind label) (node b lb) s =
    push_edge a b kind label (declare_inline current b lb (declare_inline current a la s))
link current _ _ _ s = s

pub chain : Option Text → List Token → State → State
unfolding link
chain current (x ∷ y ∷ z ∷ ts) s = chain current (z ∷ ts) (link current x y z s)
chain current _ s = s

pub graph_line : List Token → State → State
unfolding declare chain
graph_line (node id label ∷ []) s = declare (get_last? s.stack) id label s
graph_line ts s = chain (get_last? s.stack) ts s

-- stack.pop()
pub pop : List Text → List Text
pop [] = []
pop (x ∷ []) = []
pop (x ∷ y ∷ xs) = x ∷ pop (y ∷ xs)

pub close_subgraph : State → Option State
unfolding pop
close_subgraph s = elim s.stack [ [] ↦ none | _ ∷ _ ↦ some (record s { stack = pop s.stack }) ]

pub open_subgraph : Opening → State → State
open_subgraph o s = record s {
  subgraphs =
      if Map.has s.subgraphs o.id
      then s.subgraphs
      else Map.set s.subgraphs o.id (record { id = o.id; name = o.name; steps = [] });
  stack = s.stack ++ o.id ∷ [];
}

-- What a line is, by the order of the tests.
pub data Line : Type 0 where
  skipped closing : Line
  opening : Opening → Line
  graph : List Token → Line

classify_open : Text → Line
unfolding parse_subgraph_open tokenize_line
classify_open line = elim (parse_subgraph_open line) [
  | some o ↦ opening o
  | none ↦ graph (tokenize_line line)
]

is_empty : Text → Bool
is_empty [] = true
is_empty (c ∷ s) = false

pub classify : Text → Line
unfolding is_empty strip_trailing_comment is_ignorable classify_open
classify raw =
    let line = strip_trailing_comment raw in
    if is_empty line
    then skipped
    else if is_ignorable line
    then skipped
    else if line == text "end"
    then closing
    else classify_open line

pub step : Line → State → Option State
unfolding close_subgraph open_subgraph graph_line
step skipped s = some s
step closing s = close_subgraph s
step (opening o) s = some (open_subgraph o s)
step (graph ts) s = some (graph_line ts s)

pub steps : List Line → State → Option State
unfolding step
steps [] s = some s
steps (l ∷ ls) s = step l s >>= λ t. steps ls t

-- text.split('\n')
pub split_lines : Text → List Text
split_lines [] = [] ∷ []
split_lines (c ∷ s) =
    let rest = split_lines s in
    elim rest [ [] ↦ (c ∷ []) ∷ [] | l ∷ ls ↦ if nat_eq c 10 then [] ∷ l ∷ ls else (c ∷ l) ∷ ls ]

pub lines_of : Text → List Line
unfolding split_lines trim is_empty classify
lines_of mermaid = map classify (keep (λ l. not (is_empty l)) (map trim (split_lines mermaid)))

pub initial : State
initial = record { subgraphs = []; edges = []; step_to_subgraph = []; stack = [] }

-- /^I[0-9]+$/
is_internal_step : Text → Bool
is_internal_step [] = false
is_internal_step (c ∷ s) =
    nat_eq c b'I' && (not (is_empty s) && every (λ d. leb 48 d && leb d 57) s)

pub is_internal_subgraph : ParsedSubgraph → Bool
unfolding is_internal_step is_empty to_lower trim starts_with
is_internal_subgraph sg =
    let name = to_lower (trim sg.name) in
    let id = to_lower sg.id in
    (starts_with name (text "internal")
      || starts_with name (text "interno")
      || starts_with id (text "internal")
      || starts_with id (text "interno"))
    || elim sg.steps [
      | [] ↦ false
      | x ∷ xs ↦ every (λ (s : ParsedStep). is_internal_step s.id) (x ∷ xs)
    ]

pub all_subgraphs : State → List ParsedSubgraph
all_subgraphs s = map (λ (e : Text × ParsedSubgraph). e.1) s.subgraphs

pub internal_ids : List ParsedSubgraph → List Text
unfolding is_internal_subgraph
internal_ids sgs = map (λ (sg : ParsedSubgraph). sg.id) (keep is_internal_subgraph sgs)

-- An edge is resolved if both of its steps have a subgraph and neither is an internal one.
resolve_in : List Text → ParsedEdge → Option Text → Option Text → List ParsedEdge
resolve_in internals e (some from) (some to) =
    if includes internals to || includes internals from
    then []
    else record e { from_subgraph = from; to_subgraph = to } ∷ []
resolve_in internals e _ _ = []

pub resolve : List Text → Map Text → List ParsedEdge → List ParsedEdge
unfolding resolve_in
resolve internals places [] = []
resolve internals places (e ∷ es) =
    resolve_in internals e (Map.get places e.from_step) (Map.get places e.to_step)
    ++ resolve internals places es

pub diagram_of : State → ParsedDiagram
unfolding all_subgraphs internal_ids resolve
diagram_of s =
    let all = all_subgraphs s in
    let internals = internal_ids all in
    record {
      subgraphs = keep (λ sg. not (includes internals sg.id)) all;
      edges = resolve internals s.step_to_subgraph s.edges;
      step_to_subgraph = s.step_to_subgraph;
    }

unfoldable pub parse : Text → Option ParsedDiagram
unfolding steps lines_of initial diagram_of
parse mermaid = steps (lines_of mermaid) initial >>= λ s. some (diagram_of s)
