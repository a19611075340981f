-- ===== src/Mermaid/Analyzer/Edges.antt =====
-- The cross edges that graph-analyzer.service.ts collects.
use f_chat_backend.Prelude.{
  Text, ==_iff, ==_refl, includes, includes-append, List, [], ◌∷◌, ◌++◌, ◌≡◌, ◌≢◌, refl, ◌↔◌, ◌⊎◌,
  inl, inr, Bool, true, false, ◌||◌, Bool-cases, arith, Memᴰ, map, map-concat, IsDistinct,
  IsDistinct-append,
}
use mathlib.Core.Logic.{⊎_elim}
use mathlib.Core.List.Memᴰ
use f_chat_backend.Mermaid.{ParsedEdge, ParsedDiagram, CrossEdge}
use f_chat_backend.Mermaid.Analyzer.{
  discarded, edge_key, cross_edge, skips, collect, cross_edges_of,
}

abbrev pub keys : List CrossEdge → List Text
keys = map edge_key

map-snoc :
    (out : List CrossEdge) (c : CrossEdge) → keys (out ++ c ∷ []) ≡ keys out ++ edge_key c ∷ []
map-snoc out c = map-concat edge_key out c

collect-IsDistinct :
    (gone : List Text) (out : List CrossEdge) (es : List ParsedEdge)
    → IsDistinct (keys out)
    → IsDistinct (keys (collect gone (keys out) out es))
unfolding collect
collect-IsDistinct gone out [] h = h
collect-IsDistinct gone out (e ∷ es) h = elim (Bool-cases (skips gone e)) [
  | inl skip ↦ rw skip (collect-IsDistinct gone out es h)
  | inr use_it ↦ elim (Bool-cases (includes (keys out) (edge_key (cross_edge gone e)))) [
    | inl old ↦ rw (use_it, old) (collect-IsDistinct gone out es h)
    | inr new ↦
        rw (use_it, new, ← map-snoc)
          (collect-IsDistinct gone (out ++ cross_edge gone e ∷ []) es
            (rw map-snoc (IsDistinct-append (keys out) (edge_key (cross_edge gone e)) h new)))
  ]
]

-- Where a collected edge comes from.
abbrev pub Source : List Text → List ParsedEdge → CrossEdge → Type 0
Source gone es c = (e : ParsedEdge) × Memᴰ e es × (skips gone e ≡ false) × (c ≡ cross_edge gone e)

later :
    (gone : List Text) (x : ParsedEdge) (es : List ParsedEdge) (c : CrossEdge)
    → Source gone es c
    → Source gone (x ∷ es) c
later gone x es c (e, m, s, q) = (e, Memᴰ.tail m, s, q)

collect_sound :
    (gone seen : List Text) (out : List CrossEdge) (es : List ParsedEdge) (c : CrossEdge)
    → Memᴰ c (collect gone seen out es)
    → Memᴰ c out ⊎ Source gone es c
unfolding collect
collect_sound gone seen out [] c m = inl m
collect_sound gone seen out (e ∷ es) c m = elim (Bool-cases (skips gone e)) [
  | inl skip ↦
      ⊎_elim inl (λ s. inr (later gone e es c s)) (collect_sound gone seen out es c (rw skip at m))
  | inr use_it ↦ elim (Bool-cases (includes seen (edge_key (cross_edge gone e)))) [
    | inl old ↦
        ⊎_elim inl (λ s. inr (later gone e es c s))
          (collect_sound gone seen out es c (rw (use_it, old) at m))
    | inr new ↦
        ⊎_elim
          (λ o.
            ⊎_elim inl (λ one. inr (e, Memᴰ.head refl, use_it, Memᴰ.eq_of_singleton one))
              (Memᴰ.append_cases out o))
          (λ s. inr (later gone e es c s))
          (collect_sound gone (seen ++ edge_key (cross_edge gone e) ∷ [])
            (out ++ cross_edge gone e ∷ []) es c (rw (use_it, new) at m))
  ]
]

collect_keeps :
    (gone : List Text) (out : List CrossEdge) (es : List ParsedEdge) (k : Text)
    → includes (keys out) k ≡ true
    → includes (keys (collect gone (keys out) out es)) k ≡ true
unfolding collect
collect_keeps gone out [] k h = h
collect_keeps gone out (e ∷ es) k h = elim (Bool-cases (skips gone e)) [
  | inl skip ↦ rw skip (collect_keeps gone out es k h)
  | inr use_it ↦ elim (Bool-cases (includes (keys out) (edge_key (cross_edge gone e)))) [
    | inl old ↦ rw (use_it, old) (collect_keeps gone out es k h)
    | inr new ↦
        rw (use_it, new, ← map-snoc)
          (collect_keeps gone (out ++ cross_edge gone e ∷ []) es k
            (rw (map-snoc, includes-append) (ground (arith))))
  ]
]

last_in : (b : Bool) (k : Text) → (b || includes (k ∷ []) k) ≡ true
unfolding includes
last_in b k = ground (arith, ==_refl k)

collect_complete :
    (gone : List Text) (out : List CrossEdge) (es : List ParsedEdge) (x : ParsedEdge)
    → Memᴰ x es
    → skips gone x ≡ false
    → includes (keys (collect gone (keys out) out es)) (edge_key (cross_edge gone x)) ≡ true
unfolding collect
collect_complete gone out [] x m h = absurd (Memᴰ.not-nil m)
collect_complete gone out (e ∷ es) x m h = elim (Bool-cases (skips gone e)) [
  | inl skip ↦ elim (Memᴰ.cases_cons m) [
    | inl q ↦ cc
    | inr r ↦ rw skip (collect_complete gone out es x r h)
  ]
  | inr use_it ↦ elim (Bool-cases (includes (keys out) (edge_key (cross_edge gone e)))) [
    | inl old ↦ elim (Memᴰ.cases_cons m) [
      | inl q ↦ rw (use_it, old) (collect_keeps gone out es _ (rw q old))
      | inr r ↦ rw (use_it, old) (collect_complete gone out es x r h)
    ]
    | inr new ↦
        let ce = cross_edge gone e in
        rw (use_it, new, ← map-snoc)
          (elim (Memᴰ.cases_cons m) [
            | inl q ↦ collect_keeps gone (out ++ ce ∷ []) es _ (
                rw (map-snoc, includes-append, q)
                  (last_in (includes (keys out) (edge_key ce)) (edge_key ce)))
            | inr r ↦ collect_complete gone (out ++ ce ∷ []) es x r h
          ])
  ]
]

-- An edge that leads from one subgraph to another, and not out of a closure.
abbrev pub Crosses : List Text → ParsedEdge → Type 0
Crosses gone e = (e.from_subgraph ≢ e.to_subgraph) × (includes gone e.from_subgraph ≡ false)

skips_iff : (gone : List Text) (e : ParsedEdge) → (skips gone e ≡ false) ↔ Crosses gone e
unfolding skips
skips_iff gone e = (
  λ h. ground (arith, ==_iff e.from_subgraph e.to_subgraph),
  λ h. ground (arith, ==_iff e.from_subgraph e.to_subgraph),
)

pub cross_edges_exact :
    (d : ParsedDiagram)
    → ((c : CrossEdge)
        → Memᴰ c (cross_edges_of d)
        → (e : ParsedEdge) × Memᴰ e d.edges
          × Crosses (discarded d) e
          × (c ≡ cross_edge (discarded d) e))
      × ((e : ParsedEdge)
          → Memᴰ e d.edges
          → Crosses (discarded d) e
          → includes (keys (cross_edges_of d)) (edge_key (cross_edge (discarded d) e)) ≡ true)
      × IsDistinct (keys (cross_edges_of d))
unfolding cross_edges_of
cross_edges_exact d = (
  λ c m.
      let (e, from, used, q) =
        ⊎_elim {B = Source (discarded d) d.edges c} (λ n. absurd (Memᴰ.not-nil n)) (λ s. s)
          (collect_sound (discarded d) [] [] d.edges c m) in
      (e, from, (skips_iff (discarded d) e).0 used, q),
  λ e m h. collect_complete (discarded d) [] d.edges e m ((skips_iff (discarded d) e).1 h),
  collect-IsDistinct (discarded d) [] d.edges tt,
)
