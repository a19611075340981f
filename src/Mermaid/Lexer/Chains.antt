-- ===== src/Mermaid/Lexer/Chains.antt =====
-- A printer for chains of nodes and arrows, and the tokenizer of mermaid-parser.service.ts after
-- it.
use f_chat_backend.Prelude.{
  ℕ, Text, text, starts_with, trim, trim_start, is_space, Option, none, some, List, [], ◌∷◌, ◌++◌,
  ◌≡◌, refl, ap, ◌∙◌, Bool, true, false, every, nat_eq, arith,
}
use mathlib.Core.List.{append_assoc}
use f_chat_backend.Mermaid.Lexer.{
  Arrow, solid, dotted, Token, node, arrow, span, is_letter, is_word, not_bar, edge_label,
  arrow_kind, match_arrow, match_node, node_of, node_label, is_blank, next_token, tokenize_line,
}
use f_chat_backend.Mermaid.Lexer.Fuel.{tokenize_line_unfolds}

pub record Link : Type 0 where
  pub kind : Arrow
  pub label : Option Text
  pub to : Text

print_arrow : Arrow → Text
print_arrow solid = text "-->"
print_arrow dotted = text "-.->"

print_label : Option Text → Text
print_label none = []
print_label (some l) = b'|' ∷ (l ++ b'|' ∷ [])

-- `A -->|label| B -.-> C`
pub print_chain : Text → List Link → Text
unfolding print_arrow print_label
print_chain id [] = id
print_chain id (l ∷ ls) =
    id ++ b' ' ∷ (print_arrow l.kind ++ (print_label l.label ++ b' ' ∷ print_chain l.to ls))

pub chain_tokens : Text → List Link → List Token
chain_tokens id [] = node id none ∷ []
chain_tokens id (l ∷ ls) = node id none ∷ arrow l.kind l.label ∷ chain_tokens l.to ls

-- [A-Za-z][A-Za-z0-9_]*
abbrev pub IsName : Text → Type 0
IsName [] = ⊥
IsName (c ∷ s) = (is_letter c ≡ true) × (every is_word s ≡ true)

-- A label that the pattern's group can hold and `trim` leaves alone.
abbrev pub IsLabel : Option Text → Type 0
IsLabel none = Unit
IsLabel (some l) = (every not_bar l ≡ true) × (trim l ≡ l)

abbrev pub AreLinks : List Link → Type 0
AreLinks [] = Unit
AreLinks (l ∷ ls) = IsLabel l.label × IsName l.to × AreLinks ls

-- A run ends where the next unit fails the test.
span_run :
    (p : ℕ → Bool) (s : Text) (c : ℕ) (rest : Text)
    → every p s ≡ true
    → p c ≡ false
    → span p (s ++ c ∷ rest) ≡ (s, c ∷ rest)
unfolding span every
span_run p [] c rest h stop = rw stop refl
span_run p (a ∷ s) c rest h stop = ground (arith, span_run p s c rest)

span_all : (p : ℕ → Bool) (s : Text) → every p s ≡ true → span p s ≡ (s, [])
unfolding span every
span_all p [] h = refl
span_all p (a ∷ s) h = ground (arith, span_all p s)

letter_marks :
    (c : ℕ)
    → is_letter c ≡ true
    → (nat_eq c 45 ≡ false)
      × (nat_eq c 61 ≡ false)
      × (is_space c ≡ false)
      × (nat_eq c 124 ≡ false)
      × (is_blank c ≡ false)
unfolding is_letter is_space is_blank
letter_marks c h = ground arith

letter_no_arrow : (c : ℕ) (s : Text) → is_letter c ≡ true → match_arrow (c ∷ s) ≡ none
unfolding match_arrow arrow_kind
letter_no_arrow c s h = let m = letter_marks c h in rw (m.0, m.1) refl

letter_is_word : (c : ℕ) → is_letter c ≡ true → is_word c ≡ true
unfolding is_word
letter_is_word c h = rw h refl

-- No shape opens at a blank, nor at the end of the line.
no_shape :
    (id rest : Text)
    → (node_of id (b' ' ∷ rest) ≡ (node id none, b' ' ∷ rest))
      × (node_of id [] ≡ (node id none, []))
unfolding node_of node_label
no_shape id rest = (refl, refl)

-- A name is read as a node, if a blank or nothing follows it.
read_name :
    (c : ℕ) (s rest : Text)
    → is_letter c ≡ true
    → every is_word s ≡ true
    → (next_token ((c ∷ s) ++ b' ' ∷ rest) ≡ some (node (c ∷ s) none, b' ' ∷ rest))
      × (next_token (c ∷ s) ≡ some (node (c ∷ s) none, []))
unfolding next_token match_node
read_name c s rest h w =
    let word : every is_word (c ∷ s) ≡ true = unfold every in rw (letter_is_word c h) w in
    (
      rw
          (
            letter_no_arrow c (s ++ b' ' ∷ rest) h,
            h,
            span_run is_word (c ∷ s) b' ' rest word (unfold is_word in refl),
            (no_shape (c ∷ s) rest).0,
          )
          refl,
      rw (letter_no_arrow c s h, h, span_all is_word (c ∷ s) word, (no_shape (c ∷ s) []).1) refl,
    )

trim_blank : (c : ℕ) (rest : Text) → is_letter c ≡ true → trim_start (b' ' ∷ c ∷ rest) ≡ c ∷ rest
unfolding trim_start is_letter
trim_blank c rest h = ground arith

no_bar : (c : ℕ) (rest : Text) → is_letter c ≡ true → starts_with (c ∷ rest) (text "|") ≡ false
unfolding starts_with
no_bar c rest h = rw (letter_marks c h).3 refl

bar_first : (s : Text) → trim_start (b'|' ∷ s) ≡ b'|' ∷ s
unfolding trim_start
bar_first s = refl

unlabelled :
    (c : ℕ) (rest : Text)
    → is_letter c ≡ true
    → edge_label (b' ' ∷ c ∷ rest) ≡ (none, b' ' ∷ c ∷ rest)
unfolding edge_label
unlabelled c rest h = rw (trim_blank c rest h, no_bar c rest h) refl

labelled :
    (l rest : Text)
    → every not_bar l ≡ true
    → trim l ≡ l
    → edge_label (b'|' ∷ (l ++ b'|' ∷ rest)) ≡ (some l, rest)
unfolding edge_label
labelled l rest bars trimmed = rw (bar_first (l ++ b'|' ∷ rest)) (
    rw (span_run not_bar l b'|' rest bars (unfold not_bar in refl), trimmed)
      (unfold starts_with in refl))

-- The label of an arrow, before a blank and a name.
read_label :
    (label : Option Text) (c : ℕ) (rest : Text)
    → IsLabel label
    → is_letter c ≡ true
    → edge_label (print_label label ++ b' ' ∷ c ∷ rest) ≡ (label, b' ' ∷ c ∷ rest)
unfolding print_label
read_label none c rest ok h = unlabelled c rest h
read_label (some l) c rest ok h = rw append_assoc (labelled l (b' ' ∷ c ∷ rest) ok.0 ok.1)

-- An arrow and its label are read before a blank and a name.
read_arrow :
    (kind : Arrow) (label : Option Text) (c : ℕ) (rest : Text)
    → IsLabel label
    → is_letter c ≡ true
    → match_arrow (print_arrow kind ++ (print_label label ++ b' ' ∷ c ∷ rest))
      ≡ some (arrow kind label, b' ' ∷ c ∷ rest)
unfolding match_arrow arrow_kind print_arrow
read_arrow solid label c rest ok h = rw (read_label label c rest ok h) refl
read_arrow dotted label c rest ok h = rw (read_label label c rest ok h) refl

skip_blank : (s : Text) → tokenize_line (b' ' ∷ s) ≡ tokenize_line s
unfolding is_blank
skip_blank s = rw (tokenize_line_unfolds b' ' s) refl

-- A unit that is no blank begins the token that is read there.
take_token :
    (c : ℕ) (s : Text) (t : Token) (rest : Text)
    → is_blank c ≡ false
    → next_token (c ∷ s) ≡ some (t, rest)
    → tokenize_line (c ∷ s) ≡ t ∷ tokenize_line rest
take_token c s t rest h e = rw (tokenize_line_unfolds c s, h, e) refl

take_arrow :
    (kind : Arrow) (label : Option Text) (c : ℕ) (rest : Text)
    → IsLabel label
    → is_letter c ≡ true
    → tokenize_line (print_arrow kind ++ (print_label label ++ b' ' ∷ c ∷ rest))
      ≡ arrow kind label ∷ tokenize_line (b' ' ∷ c ∷ rest)
unfolding print_arrow next_token is_blank
take_arrow solid label c rest ok h =
    take_token b'-' _ (arrow solid label) (b' ' ∷ c ∷ rest) refl
      (unfold next_token in rw (read_arrow solid label c rest ok h) refl)
take_arrow dotted label c rest ok h =
    take_token b'-' _ (arrow dotted label) (b' ' ∷ c ∷ rest) refl
      (unfold next_token in rw (read_arrow dotted label c rest ok h) refl)

chain_first :
    (c : ℕ) (s : Text) (ls : List Link) → (rest : Text) × (print_chain (c ∷ s) ls ≡ c ∷ rest)
unfolding print_chain
chain_first c s [] = (s, refl)
chain_first c s (l ∷ ls) =
    (s ++ b' ' ∷ (print_arrow l.kind ++ (print_label l.label ++ b' ' ∷ print_chain l.to ls)), refl)

-- Between two names: the arrow is taken, and then the blanks are passed over.
take_link :
    (kind : Arrow) (label : Option Text) (to : Text) (ls : List Link)
    → IsLabel label
    → IsName to
    → tokenize_line (b' ' ∷ (print_arrow kind ++ (print_label label ++ b' ' ∷ print_chain to ls)))
      ≡ arrow kind label ∷ tokenize_line (print_chain to ls)
take_link kind label [] ls ok name = absurd name
take_link kind label (c ∷ s) ls ok name =
    let (rest, e) = chain_first c s ls in
    rw (e, skip_blank, take_arrow kind label c rest ok name.0, skip_blank) refl

-- Tokenizing a printed chain gives back its names, arrows and labels, for names that start with a
-- letter and go on with word characters, and labels without a bar or outer white space.
pub tokenize_line-print_chain :
    (id : Text) (ls : List Link)
    → IsName id
    → AreLinks ls
    → tokenize_line (print_chain id ls) ≡ chain_tokens id ls
unfolding print_chain chain_tokens
tokenize_line-print_chain [] ls name links = absurd name
tokenize_line-print_chain (c ∷ s) [] name links =
    take_token c s (node (c ∷ s) none) [] (letter_marks c name.0).4
      (read_name c s [] name.0 name.1).1
    ∙ ap (λ (ts : List Token). node (c ∷ s) none ∷ ts) (unfold tokenize_line in refl)
tokenize_line-print_chain (c ∷ s) (l ∷ ls) name (label_ok, to_ok, links) =
    let after = print_arrow l.kind ++ (print_label l.label ++ b' ' ∷ print_chain l.to ls) in
    take_token c (s ++ b' ' ∷ after) (node (c ∷ s) none) (b' ' ∷ after) (letter_marks c name.0).4
      (read_name c s after name.0 name.1).0
    ∙ ap (λ (ts : List Token). node (c ∷ s) none ∷ ts)
        (take_link l.kind l.label l.to ls label_ok to_ok
          ∙ ap (λ (ts : List Token). arrow l.kind l.label ∷ ts)
              (tokenize_line-print_chain l.to ls to_ok links))
