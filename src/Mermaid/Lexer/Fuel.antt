-- ===== src/Mermaid/Lexer/Fuel.antt =====
-- The fuel of the tokenizer of mermaid-parser.service.ts, and what its matches consume.
use f_chat_backend.Prelude.{
  ℕ, zero, suc, ◌≤◌, ◌<◌, Text, text, starts_with, trim_start, Option, none, some, List, [], ◌∷◌,
  ◌≡◌, refl, Bool, true, false, not, ◌&&◌, if◌then◌else◌, length, drop, Bool-cases, Option-cases,
  inl, inr, arith,
}
use f_chat_backend.Mermaid.Lexer.{
  is_letter, is_word, span, Arrow, not_bar, edge_label, arrow_kind, match_arrow, find_close,
  shape_of, node_label, node_of, match_node, is_blank, next_token, Token, tokens, tokenize_line,
}

length-drop {ℓ} : {A : Type ℓ} (n : ℕ) (xs : List A) → length (drop n xs) ≤ length xs
length-drop zero xs = omega arith
length-drop (suc n) [] = omega arith
length-drop (suc n) (x ∷ xs) = omega (arith, length-drop n xs)

length-span : (p : ℕ → Bool) (s : Text) → length (span p s).1 ≤ length s
unfolding span
length-span p [] = omega arith
length-span p (c ∷ s) = ground (arith, length-span p s)

length-trim_start : (s : Text) → length (trim_start s) ≤ length s
unfolding trim_start
length-trim_start [] = omega arith
length-trim_start (c ∷ s) = ground (arith, length-trim_start s)

length-edge_label : (s : Text) → length (edge_label s).1 ≤ length s
unfolding edge_label
length-edge_label s =
    let inner = span not_bar (drop 1 (trim_start s)) in
    let most : length (drop 1 inner.1) ≤ length s = omega (
      arith,
      length-drop {0} 1 inner.1,
      length-span not_bar (drop 1 (trim_start s)),
      length-drop {0} 1 (trim_start s),
      length-trim_start s,
    ) in
    elim (Bool-cases (starts_with (trim_start s) (text "|") && starts_with inner.1 (text "|"))) [
      | inl e ↦ rw e most
      | inr e ↦ rw e (omega arith)
    ]

-- A text that starts with a part of some length loses at least one unit when it is dropped.
drop_consumes :
    (s part : Text) (n : ℕ)
    → starts_with s part ≡ true
    → 0 < length part
    → length (drop (suc n) s) < length s
unfolding starts_with
drop_consumes [] [] n h p = absurd (omega arith)
drop_consumes [] (c ∷ part) n h p = cc
drop_consumes (c ∷ s) part n h p = omega (arith, length-drop {0} n s)

arrow_kind_consumes :
    (s : Text) (a : Arrow) (rest : Text) → arrow_kind s ≡ some (a, rest) → length rest < length s
unfolding arrow_kind
arrow_kind_consumes s a rest h = elim (Bool-cases (starts_with s (text "-->"))) [
  | inl e ↦ ground (arith, drop_consumes s (text "-->") 2 e)
  | inr n ↦ elim (Bool-cases (starts_with s (text "-.->"))) [
    | inl e ↦ ground (arith, drop_consumes s (text "-.->") 3 e)
    | inr m ↦ elim (Bool-cases (starts_with s (text "==>"))) [
      | inl e ↦ ground (arith, drop_consumes s (text "==>") 2 e)
      | inr k ↦ ground arith
    ]
  ]
]

match_arrow_consumes :
    (s : Text) (t : Token) (rest : Text) → match_arrow s ≡ some (t, rest) → length rest < length s
unfolding match_arrow
match_arrow_consumes s t rest h = elim (Option-cases (arrow_kind s)) [
  | inl e ↦ cc (rw e at h)
  | inr ((a, after), e) ↦ ground (arith, arrow_kind_consumes s a after e, length-edge_label after)
]

-- How much is left behind a match.
abbrev left {ℓ} : {A : Type ℓ} → Option (A × Text) → ℕ
left none = 0
left (some (a, rest)) = length rest

left-find_close :
    (close : Text) (quoted : Bool) (s : Text) → left (find_close close quoted s) ≤ length s
unfolding find_close
left-find_close close quoted [] = omega arith
left-find_close close quoted (c ∷ s) = ground (
  arith,
  left-find_close close (not quoted) s,
  left-find_close close quoted s,
  length-drop {0} (length close) (c ∷ s),
)

left-node_label : (s : Text) → left (node_label s) ≤ length s
unfolding node_label
left-node_label s = elim (Option-cases (shape_of s)) [
  | inl e ↦ rw e (omega arith)
  | inr ((open_mark, close), e) ↦ rw e (
      ground (
        arith,
        left-find_close close false (drop (length open_mark) s),
        length-drop {0} (length open_mark) s,
      ))
]

length-node_of : (id after : Text) → length (node_of id after).1 ≤ length after
unfolding node_of
length-node_of id after = ground (arith, left-node_label after)

span_first : (p : ℕ → Bool) (c : ℕ) (s : Text) → p c ≡ true → length (span p (c ∷ s)).1 ≤ length s
unfolding span
span_first p c s h = ground (arith, length-span p s)

letter-is_word : (c : ℕ) → is_letter c ≡ true → is_word c ≡ true
unfolding is_word
letter-is_word c h = rw h refl

match_node_consumes :
    (s : Text) (t : Token) (rest : Text) → match_node s ≡ some (t, rest) → length rest < length s
unfolding match_node
match_node_consumes [] t rest h = cc
match_node_consumes (c ∷ s) t rest h = elim (Bool-cases (is_letter c)) [
  | inl e ↦
      let halves = span is_word (c ∷ s) in
      ground (
        arith,
        rw e at h,
        span_first is_word c s (letter-is_word c e),
        length-node_of halves.0 halves.1,
      )
  | inr e ↦ cc (rw e at h)
]

pub next_token_consumes :
    (s : Text) (t : Token) (rest : Text) → next_token s ≡ some (t, rest) → length rest < length s
unfolding next_token
next_token_consumes s t rest h = elim (Option-cases (match_arrow s)) [
  | inl e ↦ match_node_consumes s t rest (rw e at h)
  | inr ((u, r), e) ↦ ground (arith, match_arrow_consumes s u r e)
]

-- What a round leaves does not depend on the fuel.
pub tokens-fuel : (f g : ℕ) (s : Text) → length s ≤ f → length s ≤ g → tokens f s ≡ tokens g s
unfolding tokens
tokens-fuel zero zero s hf hg = refl
tokens-fuel zero (suc g) [] hf hg = refl
tokens-fuel zero (suc g) (c ∷ s) hf hg = absurd (omega arith)
tokens-fuel (suc f) zero [] hf hg = refl
tokens-fuel (suc f) zero (c ∷ s) hf hg = absurd (omega arith)
tokens-fuel (suc f) (suc g) [] hf hg = refl
tokens-fuel (suc f) (suc g) (c ∷ s) hf hg = elim (Option-cases (next_token (c ∷ s))) [
  | inl e ↦ rw e (ground (arith, tokens-fuel f g s))
  | inr ((t, rest), e) ↦
      let fewer = next_token_consumes (c ∷ s) t rest e in
      rw e (
        cc (
          tokens-fuel f g s (omega arith) (omega arith),
          tokens-fuel f g rest (omega arith) (omega arith),
        ))
]

-- One round of the loop, on the fuel that is the length of the line.
pub tokenize_line_unfolds :
    (c : ℕ) (s : Text)
    → tokenize_line (c ∷ s) ≡ (
        if is_blank c then tokenize_line s else elim (next_token (c ∷ s)) [
          | some (t, rest) ↦ t ∷ tokenize_line rest
          | none ↦ tokenize_line s
        ])
unfolding tokenize_line
tokenize_line_unfolds c s = elim (Option-cases (next_token (c ∷ s))) [
  | inl e ↦ rw e refl
  | inr ((t, rest), e) ↦
      let fewer = next_token_consumes (c ∷ s) t rest e in
      rw e (rw (tokens-fuel (length s) (length rest) rest (omega arith) (omega arith)) refl)
]
