-- ===== src/Mermaid/Parser/Balance.antt =====
-- When mermaid-parser.service.ts throws.
use f_chat_backend.Prelude.{
  ℕ, zero, suc, ◌+◌, ◌-◌, Text, Option, none, some, List, [], ◌∷◌, length, length-append, get_last?,
  ◌>>=◌, ◌≡◌, refl, ap, ◌∙◌, inl, inr, ◌↔◌, Option-cases, arith,
}
use f_chat_backend.Mermaid.Lexer.{Token, node, arrow}
use f_chat_backend.Mermaid.Parser.{
  State, add_step_to, place, declare, declare_inline, push_edge, close_subgraph, pop, graph_line,
  chain, link, Line, skipped, closing, opening, graph, step, steps, initial, lines_of, parse,
}

stack-add_step_to :
    (k x : Text) (label : Option Text) (s : State) → (add_step_to k x label s).stack ≡ s.stack
unfolding add_step_to
stack-add_step_to k x label s = ground arith

stack-declare :
    (o : Option Text) (x : Text) (label : Option Text) (s : State)
    → (declare o x label s).stack ≡ s.stack
unfolding declare place
stack-declare none x label s = refl
stack-declare (some k) x label s = ground (arith, stack-add_step_to k x label s)

stack-declare_inline :
    (o : Option Text) (x : Text) (label : Option Text) (s : State)
    → (declare_inline o x label s).stack ≡ s.stack
unfolding declare_inline place
stack-declare_inline none x label s = refl
stack-declare_inline (some k) x label s = ground (arith, stack-add_step_to k x label s)

stack-link : (o : Option Text) (x y z : Token) (s : State) → (link o x y z s).stack ≡ s.stack
unfolding link push_edge
stack-link o (node a la) (arrow kind label) (node b lb) s =
    stack-declare_inline o b lb (declare_inline o a la s) ∙ stack-declare_inline o a la s
stack-link o _ _ _ s = refl

stack-chain : (o : Option Text) (ts : List Token) (s : State) → (chain o ts s).stack ≡ s.stack
unfolding chain
stack-chain o (x ∷ y ∷ z ∷ ts) s = stack-chain o (z ∷ ts) (link o x y z s) ∙ stack-link o x y z s
stack-chain o _ s = refl

stack-graph_line : (ts : List Token) (s : State) → (graph_line ts s).stack ≡ s.stack
unfolding graph_line
stack-graph_line (node id label ∷ []) s = stack-declare (get_last? s.stack) id label s
stack-graph_line ts s = stack-chain (get_last? s.stack) ts s

length-pop : (xs : List Text) → length (pop xs) ≡ length xs - 1
unfolding pop
length-pop [] = omega arith
length-pop (x ∷ []) = omega arith
length-pop (x ∷ y ∷ xs) = omega (arith, length-pop (y ∷ xs))

-- How many subgraphs are open after a line; `none` where an `end` has nothing to close.
pub open_after : Line → ℕ → Option ℕ
open_after skipped n = some n
open_after closing zero = none
open_after closing (suc n) = some n
open_after (opening o) n = some (suc n)
open_after (graph ts) n = some n

pub open_count : List Line → ℕ → Option ℕ
open_count [] n = some n
open_count (l ∷ ls) n = open_after l n >>= λ k. open_count ls k

abbrev opened : Option State → Option ℕ
opened none = none
opened (some s) = some (length s.stack)

opened-close : (s : State) → opened (close_subgraph s) ≡ open_after closing (length s.stack)
unfolding close_subgraph open_after
opened-close s = ground (arith, length-pop s.stack)

omega_some : {m n : ℕ} → m ≡ n + 1 → some m ≡ some (suc n)
omega_some e = ground arith

opened-step : (l : Line) (s : State) → opened (step l s) ≡ open_after l (length s.stack)
unfolding step open_after
opened-step skipped s = refl
opened-step closing s = opened-close s
opened-step (opening o) s = omega_some (length-append s.stack (o.id ∷ []))
opened-step (graph ts) s = ap (λ (xs : List Text). some (length xs)) (stack-graph_line ts s)

opened-steps : (ls : List Line) (s : State) → opened (steps ls s) ≡ open_count ls (length s.stack)
unfolding steps open_count
opened-steps [] s = refl
opened-steps (l ∷ ls) s = elim (Option-cases (step l s)) [
  | inl e ↦
      let here : open_after l (length s.stack) ≡ none = cc (opened-step l s, ap opened e) in
      rw (e, here) refl
  | inr (t, e) ↦
      let here : open_after l (length s.stack) ≡ some (length t.stack) =
        cc (opened-step l s, ap opened e) in
      rw (e, here) (opened-steps ls t)
]

-- `parse` throws exactly where some line `end` comes while no subgraph is open.
pub parse_throws_iff :
    (mermaid : Text) → (parse mermaid ≡ none) ↔ (open_count (lines_of mermaid) 0 ≡ none)
unfolding parse initial
parse_throws_iff mermaid =
    let count = opened-steps (lines_of mermaid) initial in
    elim (Option-cases (steps (lines_of mermaid) initial)) [
      | inl e ↦
          let none_open : open_count (lines_of mermaid) 0 ≡ none = cc (count, ap opened e) in
          (λ _. none_open, λ _. rw e refl)
      | inr (t, e) ↦
          let some_open : open_count (lines_of mermaid) 0 ≡ some (length t.stack) =
            cc (count, ap opened e) in
          (λ p. cc (rw e at p), λ p. cc)
    ]
