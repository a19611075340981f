-- ===== src/Mermaid/Parser/Loop.antt =====
-- The invariant of the loop over the lines of mermaid-parser.service.ts, line by line.
use f_chat_backend.Prelude.{
  Text, ==_iff, ==_refl, includes, includes-append, some, List, [], ◌∷◌, ◌++◌, true, false,
  get_last?, ◌≡◌, refl, sym, subst, inl, inr, Bool-cases, Option-cases, arith,
}
use mathlib.Core.List.Memᴰ
use f_chat_backend.Prelude.Map
use f_chat_backend.Prelude.Map.{Map, get-set}
use f_chat_backend.Mermaid.{ParsedSubgraph}
use f_chat_backend.Mermaid.Lexer.{Token, node, Opening}
use f_chat_backend.Mermaid.Parser.{
  State, graph_line, pop, close_subgraph, open_subgraph, Line, skipped, closing, opening, graph,
  step, steps, initial,
}
use f_chat_backend.Mermaid.Parser.Invariant.{
  Inv, Grows, Inv-grow, keyed-set, IsKnown, declare-Inv, chain-Inv,
}

last-IsKnown :
    (stack : List Text) (s : State)
    → ((k : Text) → includes stack k ≡ true → Map.has s.subgraphs k ≡ true)
    → IsKnown (get_last? stack) s
unfolding includes
last-IsKnown [] s h = tt
last-IsKnown (x ∷ []) s h = h x (ground (arith, ==_refl x))
last-IsKnown (x ∷ y ∷ xs) s h = last-IsKnown (y ∷ xs) s (λ k m. h k (ground arith))

graph_line-Inv : (ts : List Token) (s : State) → Inv s → Inv (graph_line ts s)
unfolding graph_line
graph_line-Inv (node id label ∷ []) s h =
    declare-Inv (get_last? s.stack) id label s (last-IsKnown s.stack s h.stack_known) h
graph_line-Inv ts s h = chain-Inv (get_last? s.stack) ts s (last-IsKnown s.stack s h.stack_known) h

includes-pop : (xs : List Text) (k : Text) → includes (pop xs) k ≡ true → includes xs k ≡ true
unfolding pop includes
includes-pop [] k h = h
includes-pop (x ∷ []) k h = cc
includes-pop (x ∷ y ∷ xs) k h = ground (arith, includes-pop (y ∷ xs) k)

popped : State → State
popped s = record s { stack = pop s.stack }

close_lem : (s t : State) → close_subgraph s ≡ some t → t ≡ popped s
unfolding close_subgraph popped
close_lem s t e = ground arith

close-Inv : (s t : State) → close_subgraph s ≡ some t → Inv s → Inv t
unfolding popped
close-Inv s t e h = subst Inv (sym (close_lem s t e)) (record {
  keyed = h.keyed;
  stack_known = λ k m. h.stack_known k (includes-pop s.stack k m);
  placed = h.placed;
})

-- A subgraph under a new key.
Grows-add :
    (m : Map ParsedSubgraph) (k : Text) (new : ParsedSubgraph)
    → Map.has m k ≡ false
    → Grows m (Map.set m k new)
unfolding Map.has
Grows-add m k new absent = record {
  has = λ j h. ground (arith, get-set m k j new);
  holds = λ j x h. record {
    subgraph = h.subgraph;
    found = ground (arith, get-set m k j new, h.found, ==_iff k j);
    listed = h.listed;
  };
}

push : Text → State → State
push k s = record s { stack = s.stack ++ k ∷ [] }

push-Inv : (k : Text) (s : State) → Map.has s.subgraphs k ≡ true → Inv s → Inv (push k s)
unfolding push includes
push-Inv k s known h = record {
  keyed = h.keyed;
  stack_known =
      λ j m. ground (arith, includes-append s.stack (k ∷ []) j, h.stack_known j, ==_iff k j);
  placed = h.placed;
}

has-set_self :
    (m : Map ParsedSubgraph) (k : Text) (sg : ParsedSubgraph) → Map.has (Map.set m k sg) k ≡ true
unfolding Map.has
has-set_self m k sg = rw (get-set, ==_refl) refl

open-Inv : (o : Opening) (s : State) → Inv s → Inv (open_subgraph o s)
unfolding open_subgraph push
open-Inv o s h = elim (Bool-cases (Map.has s.subgraphs o.id)) [
  | inl old ↦ rw old (push-Inv o.id s old h)
  | inr new ↦
      let sg : ParsedSubgraph = record { id = o.id; name = o.name; steps = [] } in
      let m = Map.set s.subgraphs o.id sg in
      let inv =
        Inv-grow s m
          (keyed-set s.subgraphs o.id sg (record { named = refl; steps_distinct = tt }) h.keyed)
          (Grows-add s.subgraphs o.id sg new) h in
      rw new (push-Inv o.id (record s { subgraphs = m }) (has-set_self s.subgraphs o.id sg) inv)
]

some_eq : {s t : State} → some s ≡ some t → s ≡ t
some_eq e = cc

step-Inv : (l : Line) (s t : State) → step l s ≡ some t → Inv s → Inv t
unfolding step
step-Inv skipped s t e h = subst Inv (some_eq e) h
step-Inv closing s t e h = close-Inv s t e h
step-Inv (opening o) s t e h = subst Inv (some_eq e) (open-Inv o s h)
step-Inv (graph ts) s t e h = subst Inv (some_eq e) (graph_line-Inv ts s h)

-- Every state that the loop passes through keeps the maps and the stack consistent.
pub steps-Inv : (ls : List Line) (s t : State) → steps ls s ≡ some t → Inv s → Inv t
unfolding steps
steps-Inv [] s t e h = subst Inv (some_eq e) h
steps-Inv (l ∷ ls) s t e h = elim (Option-cases (step l s)) [
  | inl stop ↦ cc (rw stop at e)
  | inr (u, q) ↦ steps-Inv ls u t (rw q at e) (step-Inv l s u q h)
]

pub initial-Inv : Inv initial
unfolding initial includes Map.get
initial-Inv = record {
  keyed = λ k sg e. absurd (Memᴰ.not-nil e);
  stack_known = λ k e. cc;
  placed = λ x k e. cc;
}
