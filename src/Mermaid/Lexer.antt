-- ===== src/Mermaid/Lexer.antt =====
-- The text level of mermaid-parser.service.ts: what one line is, and its tokens. The code walks an
-- index through the line and looks only at `line.slice(i)`; here the slice itself is walked. The
-- regular expressions are written out as the matches that they find.
pub mod Fuel
pub mod Chains
use f_chat_backend.Prelude.{
  ℕ, zero, suc, Text, text, starts_with, trim, trim_start, is_space, Option, none, some, List, [],
  ◌∷◌, ◌++◌, map, Bool, true, false, not, ◌&&◌, ◌||◌, nat_eq, leb, if◌then◌else◌, length, drop,
  get_last?, ◌>>=◌, or_else,
}

-- The longest prefix whose units pass the test, and what follows it.
pub span : (ℕ → Bool) → Text → Text × Text
span p [] = ([], [])
span p (c ∷ s) = let (run, rest) = span p s in if p c then (c ∷ run, rest) else ([], c ∷ s)

unfoldable pub is_letter : ℕ → Bool
is_letter c = (leb 65 c && leb c 90) || (leb 97 c && leb c 122)

is_digit : ℕ → Bool
is_digit c = leb 48 c && leb c 57

-- [A-Za-z0-9_]
unfoldable pub is_word : ℕ → Bool
unfolding is_letter is_digit
is_word c = is_letter c || is_digit c || nat_eq c b'_'

-- [A-Za-zÀ-ÿ0-9_]
pub is_subgraph_unit : ℕ → Bool
unfolding is_word
is_subgraph_unit c = is_word c || (leb 0xc0 c && leb c 0xff)

-- The text before the first occurrence of a part: `s.slice(0, s.indexOf(part))`.
pub before : Text → Text → Option Text
before part [] = if starts_with [] part then some [] else none
before part (c ∷ s) =
    let rest = before part s in
    if starts_with (c ∷ s) part then some [] else (rest >>= λ b. some (c ∷ b))

unfoldable pub strip_trailing_comment : Text → Text
unfolding before trim
strip_trailing_comment line = elim (before (text "%%") line) [ none ↦ line | some b ↦ trim b ]

unfoldable pub is_ignorable : Text → Bool
unfolding starts_with
is_ignorable line =
    starts_with line (text "%")
    || starts_with line (text "flowchart")
    || starts_with line (text "graph ")
    || starts_with line (text "style ")
    || starts_with line (text "classDef ")
    || starts_with line (text "class ")
    || starts_with line (text "direction ")

-- The tail `"?\s*\]` of the bracket's pattern.
closes_bracket : Text → Bool
unfolding trim_start starts_with
closes_bracket s =
    starts_with s (text "]")
    || (starts_with s (text "\"") && starts_with (trim_start (drop 1 s)) (text "]"))

drop_quote : Text → Text
unfolding starts_with
drop_quote s = if starts_with s (text "\"") then drop 1 s else s

is_name_unit : ℕ → Bool
is_name_unit c = not (nat_eq c b'"' || nat_eq c b']')

-- The group of `^\[\s*"?([^"\]]+)"?\s*\]`, trimmed. Where the group would be empty the pattern
-- gives back one of the spaces before it, if there is one, and the trimmed group is empty.
bracket_group : Text → Text → Text → Option Text
unfolding closes_bracket trim starts_with
bracket_group spaces (c ∷ name) tail = if closes_bracket tail then some (trim (c ∷ name)) else none
bracket_group [] [] tail = none
bracket_group (_ ∷ _) [] tail = if starts_with tail (text "]") then some [] else none

bracket_name : Text → Option Text
unfolding span is_space is_name_unit bracket_group drop_quote starts_with
bracket_name s =
    let (spaces, body) = span is_space (drop 1 s) in
    let (name, tail) = span is_name_unit (drop_quote body) in
    if starts_with s (text "[") then bracket_group spaces name tail else none

-- id.replace(/_/g, ' ')
spaced : Text → Text
spaced = map (λ c. if nat_eq c b'_' then b' ' else c)

pub record Opening : Type 0 where
  pub id : Text
  pub name : Text

pub opening_of : Text → Text → Option Opening
unfolding bracket_name spaced trim
opening_of [] after_id = none
opening_of (c ∷ id) after_id =
    some (record { id = c ∷ id; name = or_else (bracket_name (trim after_id)) (spaced (c ∷ id)) })

unfoldable pub parse_subgraph_open : Text → Option Opening
unfolding starts_with opening_of span is_subgraph_unit trim
parse_subgraph_open line =
    let rest = trim (drop 8 line) in
    let (id, after_id) = span is_subgraph_unit rest in
    if starts_with line (text "subgraph") then opening_of id after_id else none

pub data Arrow : Type 0 where
  solid dotted : Arrow

pub data Token : Type 0 where
  node : Text → Option Text → Token
  arrow : Arrow → Option Text → Token

unfoldable pub not_bar : ℕ → Bool
not_bar c = not (nat_eq c b'|')

-- The optional group `(\s*\|([^|]*)\|)?`: the trimmed label and what follows.
unfoldable pub edge_label : Text → Option Text × Text
edge_label s =
    let (label, tail) = span not_bar (drop 1 (trim_start s)) in
    if starts_with (trim_start s) (text "|") && starts_with tail (text "|")
    then (some (trim label), drop 1 tail)
    else (none, s)

unfoldable pub arrow_kind : Text → Option (Arrow × Text)
unfolding starts_with
arrow_kind s =
    if starts_with s (text "-->")
    then some (solid, drop 3 s)
    else if starts_with s (text "-.->")
    then some (dotted, drop 4 s)
    else if starts_with s (text "==>")
    then some (solid, drop 3 s)
    else none

unfoldable pub match_arrow : Text → Option (Token × Text)
match_arrow s = arrow_kind s >>= λ (a, after).
    let (label, rest) = edge_label after in some (arrow a label, rest)

-- `findClose`, which skips what stands between double quotes: what is before the close, and what
-- follows it.
find_close : Text → Bool → Text → Option (Text × Text)
find_close close quoted [] = none
find_close close quoted (c ∷ s) =
    let opens = find_close close (not quoted) s >>= λ (b, r). some (c ∷ b, r) in
    let on = find_close close quoted s >>= λ (b, r). some (c ∷ b, r) in
    if nat_eq c b'"'
    then opens
    else if not quoted && starts_with (c ∷ s) close
    then some ([], drop (length close) (c ∷ s))
    else on

-- The opening of a node's shape and its closing, in the order of the pattern's alternatives.
shape_of : Text → Option (Text × Text)
unfolding starts_with
shape_of s =
    if starts_with s (text "[[")
    then some (text "[[", text "]]")
    else if starts_with s (text "[(")
    then some (text "[(", text ")]")
    else if starts_with s (text "((")
    then some (text "((", text "))")
    else if starts_with s (text "{{")
    then some (text "{{", text "}}")
    else if starts_with s (text "[")
    then some (text "[", text "]")
    else if starts_with s (text "(")
    then some (text "(", text ")")
    else if starts_with s (text "{")
    then some (text "{", text "}")
    else if starts_with s (text ">")
    then some (text ">", text "]")
    else if starts_with s (text "/")
    then some (text "/", text "/")
    else none

-- s.slice(1, -1)
but_last : Text → Text
but_last [] = []
but_last (c ∷ []) = []
but_last (c ∷ d ∷ s) = c ∷ but_last (d ∷ s)

ends_with_unit : ℕ → Text → Bool
ends_with_unit c s = elim (get_last? s) [ none ↦ false | some d ↦ nat_eq d c ]

unquote : Text → Text
unfolding starts_with ends_with_unit but_last
unquote label =
    if (starts_with label (text "\"") && ends_with_unit b'"' label)
      || (starts_with label (text "'") && ends_with_unit 39 label)
    then but_last (drop 1 label)
    else label

-- The shape behind a node's id, if it is closed: the label, and what follows.
unfoldable pub node_label : Text → Option (Text × Text)
unfolding shape_of find_close unquote trim
node_label s = shape_of s >>= λ (open_mark, close).
    find_close close false (drop (length open_mark) s) >>= λ (label, rest).
    some (unquote (trim label), rest)

unfoldable pub node_of : Text → Text → Token × Text
node_of id after = elim (node_label after) [
  | none ↦ (node id none, after)
  | some (label, rest) ↦ (node id (some label), rest)
]

-- The id is `[A-Za-z][A-Za-z0-9_]*`.
unfoldable pub match_node : Text → Option (Token × Text)
match_node [] = none
match_node (c ∷ s) =
    let (id, after) = span is_word (c ∷ s) in if is_letter c then some (node_of id after) else none

unfoldable pub is_blank : ℕ → Bool
is_blank c = nat_eq c b' ' || nat_eq c 9

abbrev pub if_none : Option (Token × Text) → Option (Token × Text) → Option (Token × Text)
if_none (some r) other = some r
if_none none other = other

-- First an arrow is tried, then a node.
unfoldable pub next_token : Text → Option (Token × Text)
next_token s = if_none (match_arrow s) (match_node s)

-- The loop of `tokenizeLine`, on fuel: a round consumes at least one unit.
pub tokens : ℕ → Text → List Token
tokens zero s = []
tokens (suc fuel) [] = []
tokens (suc fuel) (c ∷ s) =
    let skip = tokens fuel s in
    let read : List Token = elim (next_token (c ∷ s)) [
      | some (t, rest) ↦ t ∷ tokens fuel rest
      | none ↦ tokens fuel s
    ] in
    if is_blank c then skip else read

unfoldable pub tokenize_line : Text → List Token
unfolding tokens
tokenize_line line = tokens (length line) line
