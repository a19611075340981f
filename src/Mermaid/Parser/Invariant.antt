-- ===== src/Mermaid/Parser/Invariant.antt =====
-- What the loop over the lines of mermaid-parser.service.ts keeps of its maps and its stack.
use f_chat_backend.Prelude.{
  Text, ◌==◌, ==_iff, ==_refl, ==_sound, includes, includes-append, Option, none, some, List, [],
  ◌∷◌, map, true, not, ◌&&◌, ◌||◌, any, ◌≡◌, refl, sym, subst, inl, inr, Bool-cases, Option-cases,
  arith, Memᴰ, IsDistinct, IsDistinct-append, map-concat,
}
use f_chat_backend.Prelude.Map
use f_chat_backend.Prelude.Map.{Map, get-set, mem-set, mem-get}
use f_chat_backend.Mermaid.{ParsedStep, ParsedSubgraph}
use f_chat_backend.Mermaid.Lexer.{Arrow, Token, node, arrow}
use f_chat_backend.Mermaid.Parser.{
  State, add_step, add_step_to, place, declare, is_truthy, declare_inline, push_edge, link, chain,
}

abbrev pub step_ids : ParsedSubgraph → List Text
step_ids sg = map (λ (s : ParsedStep). s.id) sg.steps

-- The subgraph under a key has that id, and no two steps of one id.
pub record IsSubgraphOf (k : Text) (sg : ParsedSubgraph) : Type 0 where
  pub named : sg.id ≡ k
  pub steps_distinct : IsDistinct (step_ids sg)

-- The subgraph under the key `k` has a step `x`.
pub record Holds (m : Map ParsedSubgraph) (k x : Text) : Type 0 where
  pub subgraph : ParsedSubgraph
  pub found : Map.get m k ≡ some subgraph
  pub listed : includes (step_ids subgraph) x ≡ true

pub record Inv (s : State) : Type 0 where
  pub keyed : (k : Text) (sg : ParsedSubgraph) → Memᴰ (k, sg) s.subgraphs → IsSubgraphOf k sg
  pub stack_known : (k : Text) → includes s.stack k ≡ true → Map.has s.subgraphs k ≡ true
  pub placed : (x k : Text) → Map.get s.step_to_subgraph x ≡ some k → Holds s.subgraphs k x

any-step :
    (xs : List ParsedStep) (x : Text)
    → any (λ (s : ParsedStep). s.id == x) xs ≡ includes (map (λ (s : ParsedStep). s.id) xs) x
unfolding any includes
any-step [] x = refl
any-step (s ∷ xs) x = rw (any-step xs x)

add_one :
    (xs : List Text) (x y : Text)
    → (includes xs y || includes (x ∷ []) y) ≡ (includes xs y || (x == y))
unfolding includes
add_one xs x y = ground arith

-- Adding a step keeps the id, keeps the steps distinct, adds the step and loses none.
add_step_lem :
    (k : Text) (sg : ParsedSubgraph) (x : Text) (label : Option Text)
    → IsSubgraphOf k sg
    → IsSubgraphOf k (add_step sg x label)
      × ((y : Text)
          → includes (step_ids (add_step sg x label)) y ≡ (includes (step_ids sg) y || (x == y)))
unfolding add_step
add_step_lem k sg x label h = elim (Bool-cases (includes (step_ids sg) x)) [
  | inl old ↦ rw (any-step sg.steps x, old) (h, λ y. ground (arith, old, ==_iff x y))
  | inr new ↦
      rw (any-step sg.steps x, new)
        (
          record {
            named = h.named;
            steps_distinct = rw map-concat (IsDistinct-append (step_ids sg) x h.steps_distinct new);
          },
          λ y. rw (map-concat, includes-append) (add_one (step_ids sg) x y),
        )
]

-- Where every subgraph of one map is still there in another, with its steps.
pub record Grows (m m' : Map ParsedSubgraph) : Type 0 where
  pub has : (k : Text) → Map.has m k ≡ true → Map.has m' k ≡ true
  pub holds : (k x : Text) → Holds m k x → Holds m' k x

-- The three ways in which the loop changes the maps.
pub Inv-grow :
    (s : State) (m' : Map ParsedSubgraph)
    → ((k : Text) (sg : ParsedSubgraph) → Memᴰ (k, sg) m' → IsSubgraphOf k sg)
    → Grows s.subgraphs m'
    → Inv s
    → Inv (record s { subgraphs = m' })
Inv-grow s m' keyed g h = record {
  keyed = keyed;
  stack_known = λ k q. g.has k (h.stack_known k q);
  placed = λ x k e. g.holds k x (h.placed x k e);
}

Inv-place : (x sg : Text) (s : State) → Holds s.subgraphs sg x → Inv s → Inv (place x sg s)
unfolding place
Inv-place x sg s here h = record {
  keyed = h.keyed;
  stack_known = h.stack_known;
  placed = λ y k e. elim (Bool-cases (x == y)) [
    | inl q ↦
        let k_is : sg ≡ k = ground (arith, get-set s.step_to_subgraph x y sg) in
        subst (λ z. Holds s.subgraphs z y) k_is (subst (Holds s.subgraphs sg) (==_sound x y q) here)
    | inr q ↦ h.placed y k (ground (arith, get-set s.step_to_subgraph x y sg))
  ];
}

-- Setting the subgraph of a key to one that has all the steps of the old one.
pub Grows-set :
    (m : Map ParsedSubgraph) (k : Text) (old new : ParsedSubgraph)
    → Map.get m k ≡ some old
    → ((x : Text) → includes (step_ids old) x ≡ true → includes (step_ids new) x ≡ true)
    → Grows m (Map.set m k new)
unfolding Map.has
Grows-set m k old new e more = record {
  has = λ j h. ground (arith, get-set m k j new);
  holds = λ j x h. elim (Bool-cases (k == j)) [
    | inl q ↦ record {
      subgraph = new;
      found = rw (get-set, q) refl;
      listed = more x (ground (arith, h.listed, h.found, e, ==_sound k j q));
    }
    | inr q ↦ record { subgraph = h.subgraph; found = rw (get-set, q) h.found; listed = h.listed }
  ];
}

pub keyed-set :
    (m : Map ParsedSubgraph) (k : Text) (new : ParsedSubgraph)
    → IsSubgraphOf k new
    → ((j : Text) (sg : ParsedSubgraph) → Memᴰ (j, sg) m → IsSubgraphOf j sg)
    → (j : Text) (sg : ParsedSubgraph) → Memᴰ (j, sg) (Map.set m k new)
    → IsSubgraphOf j sg
keyed-set m k new fine keyed j sg e = elim (mem-set m k new j sg e) [
  | inl old ↦ keyed j sg old
  | inr (key, value) ↦
      subst (IsSubgraphOf j) (sym value) (subst (λ z. IsSubgraphOf z new) (sym key) fine)
]

add_step_to_lem :
    (k x : Text) (label : Option Text) (s : State)
    → Map.has s.subgraphs k ≡ true
    → Inv s
    → Inv (add_step_to k x label s) × Holds (add_step_to k x label s).subgraphs k x
unfolding add_step_to Map.has
add_step_to_lem k x label s known h = elim (Option-cases (Map.get s.subgraphs k)) [
  | inl e ↦ cc (rw e at known)
  | inr (sg, e) ↦
      let (fine, ids) = add_step_lem k sg x label (h.keyed k sg (mem-get s.subgraphs k sg e)) in
      let new = add_step sg x label in
      rw (e, add_step_to)
        (
          Inv-grow s (Map.set s.subgraphs k new) (keyed-set s.subgraphs k new fine h.keyed)
              (Grows-set s.subgraphs k sg new e (λ y m. rw (ids y, m) refl)) h,
          record {
            subgraph = new;
            found = rw (get-set, ==_refl) refl;
            listed = rw ids (ground (arith, ==_refl x, Bool-cases (includes (step_ids sg) x)));
          },
        )
]

-- Whatever subgraph is open on the stack is in the map.
abbrev pub IsKnown : Option Text → State → Type 0
IsKnown none s = Unit
IsKnown (some k) s = Map.has s.subgraphs k ≡ true

has-add_step_to :
    (k j x : Text) (label : Option Text) (s : State)
    → Map.has s.subgraphs j ≡ true
    → Map.has (add_step_to k x label s).subgraphs j ≡ true
unfolding add_step_to Map.has
has-add_step_to k j x label s h = elim (Option-cases (Map.get s.subgraphs k)) [
  | inl e ↦ rw (e, add_step_to) h
  | inr (sg, e) ↦
      rw (e, add_step_to) (ground (arith, get-set s.subgraphs k j (add_step sg x label)))
]

pub declare-Inv :
    (open_id : Option Text) (x : Text) (label : Option Text) (s : State)
    → IsKnown open_id s
    → Inv s
    → Inv (declare open_id x label s)
unfolding declare
declare-Inv none x label s known h = h
declare-Inv (some k) x label s known h =
    let (inv, holds) = add_step_to_lem k x label s known h in
    elim (Bool-cases (Map.has s.step_to_subgraph x)) [
      | inl old ↦ rw old inv
      | inr new ↦ rw new (Inv-place x k (add_step_to k x label s) holds inv)
    ]

declare_inline-Inv :
    (open_id : Option Text) (x : Text) (label : Option Text) (s : State)
    → IsKnown open_id s
    → Inv s
    → Inv (declare_inline open_id x label s) × IsKnown open_id (declare_inline open_id x label s)
unfolding declare_inline
declare_inline-Inv none x label s known h = (h, tt)
declare_inline-Inv (some k) x label s known h =
    let (inv, holds) = add_step_to_lem k x label s known h in
    elim (Bool-cases (is_truthy label && not (Map.has s.step_to_subgraph x))) [
      | inl go ↦
          rw go
            (Inv-place x k (add_step_to k x label s) holds inv, has-add_step_to k k x label s known)
      | inr stay ↦ rw stay (h, known)
    ]

push_edge-Inv :
    (a b : Text) (kind : Arrow) (label : Option Text) (s : State)
    → Inv s
    → Inv (push_edge a b kind label s)
unfolding push_edge
push_edge-Inv a b kind label s h = record {
  keyed = h.keyed;
  stack_known = h.stack_known;
  placed = h.placed;
}

IsKnown-push_edge :
    (open_id : Option Text) (a b : Text) (kind : Arrow) (label : Option Text) (s : State)
    → IsKnown open_id s
    → IsKnown open_id (push_edge a b kind label s)
unfolding push_edge
IsKnown-push_edge none a b kind label s h = tt
IsKnown-push_edge (some k) a b kind label s h = h

link-Inv :
    (open_id : Option Text) (x y z : Token) (s : State)
    → IsKnown open_id s
    → Inv s
    → Inv (link open_id x y z s) × IsKnown open_id (link open_id x y z s)
unfolding link
link-Inv open_id (node a la) (arrow kind label) (node b lb) s known h =
    let (one, known') = declare_inline-Inv open_id a la s known h in
    let (two, known'') =
      declare_inline-Inv open_id b lb (declare_inline open_id a la s) known' one in
    let end = declare_inline open_id b lb (declare_inline open_id a la s) in
    (push_edge-Inv a b kind label end two, IsKnown-push_edge open_id a b kind label end known'')
link-Inv open_id _ _ _ s known h = (h, known)

pub chain-Inv :
    (open_id : Option Text) (ts : List Token) (s : State)
    → IsKnown open_id s
    → Inv s
    → Inv (chain open_id ts s)
unfolding chain
chain-Inv open_id (x ∷ y ∷ z ∷ ts) s known h =
    let (inv, known') = link-Inv open_id x y z s known h in
    chain-Inv open_id (z ∷ ts) (link open_id x y z s) known' inv
chain-Inv open_id _ s known h = h
