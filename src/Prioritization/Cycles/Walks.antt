-- ===== src/Prioritization/Cycles/Walks.antt =====
-- Walks along the edges of a dependency graph, and what a new edge adds to them.
use capacityos.Base.{
  ℕ, ◌≡◌, refl, sym, ◌⊎◌, inl, inr, true, List, [], ◌∷◌, arith, ◌==◌, if◌then◌else◌, Any,
  Bool-cases, subst,
}
use capacityos.Prioritization.{Edge, targets, contains}

-- There is an edge from one project to another.
abbrev pub HasEdge : List Edge → ℕ → ℕ → Type 0
HasEdge edges a b = Any (λ e. (e.0 ≡ a) × (e.1 ≡ b)) edges

-- A walk along edges, of any length.
pub data Reaches (edges : List Edge) : ℕ → ℕ → Type 0 where
  stay : (a : ℕ) → Reaches edges a a
  walk : (a b : ℕ) {c : ℕ} → HasEdge edges a b → Reaches edges b c → Reaches edges a c

-- No walk of at least one edge comes back to where it started.
abbrev pub IsAcyclic : List Edge → Type 0
IsAcyclic edges = (a b : ℕ) → HasEdge edges a b → ¬ Reaches edges b a

pub Any-targets :
    (P : ℕ → Type 0) (n : ℕ) (edges : List Edge)
    → Any P (targets n edges)
    → (m : ℕ) × HasEdge edges n m × P m
Any-targets P n [] h = absurd h
Any-targets P n ((from, to) ∷ rest) h = elim (Bool-cases (from == n)) [
  | inl here ↦
      let same : from ≡ n = ground arith in
      elim (subst (λ b. Any P (if b then to ∷ targets n rest else targets n rest)) here h) [
        | inl p ↦ (to, inl (same, refl), p)
        | inr q ↦ let (m, e, p) = Any-targets P n rest q in (m, inr e, p)
      ]
  | inr other ↦
      let q = subst (λ b. Any P (if b then to ∷ targets n rest else targets n rest)) other h in
      let (m, e, p) = Any-targets P n rest q in (m, inr e, p)
]

pub contains-targets :
    (n m : ℕ) (edges : List Edge) → HasEdge edges n m → contains m (targets n edges) ≡ true
contains-targets n m [] h = absurd h
contains-targets n m ((from, to) ∷ rest) (inl (a, b)) = ground arith
contains-targets n m ((from, to) ∷ rest) (inr h) = ground (arith, contains-targets n m rest h)

-- A walk with one edge more avoids that edge, or splits around it.
pub Reaches-new_edge :
    (edges : List Edge) (from to a b : ℕ)
    → Reaches ((from, to) ∷ edges) a b
    → Reaches edges a b ⊎ (Reaches edges a from × Reaches edges to b)
Reaches-new_edge edges from to a _ (stay _) = inl (stay a)
Reaches-new_edge edges from to a c (walk _ b (inl (e, k)) w) =
    let at = subst (λ n. Reaches edges a n) (sym e) (stay a) in
    elim (Reaches-new_edge edges from to b c w) [
      | inl old ↦ inr (at, subst (λ n. Reaches edges n c) (sym k) old)
      | inr (_, rest) ↦ inr (at, rest)
    ]
Reaches-new_edge edges from to a c (walk _ b (inr e) w) =
    elim (Reaches-new_edge edges from to b c w) [
      | inl old ↦ inl (walk a b e old)
      | inr (before, rest) ↦ inr (walk a b e before, rest)
    ]

pub Reaches-trans :
    (edges : List Edge) (a b c : ℕ) → Reaches edges a b → Reaches edges b c → Reaches edges a c
Reaches-trans edges a _ c (stay _) v = v
Reaches-trans edges a b c (walk _ k e w) v = walk a k e (Reaches-trans edges k b c w v)

-- An edge that no walk leads back from leaves the graph acyclic.
pub new_edge-IsAcyclic :
    (edges : List Edge) (from to : ℕ)
    → IsAcyclic edges
    → ¬ Reaches edges to from
    → IsAcyclic ((from, to) ∷ edges)
new_edge-IsAcyclic edges from to acyclic apart a b (inl (e, k)) w =
    elim (Reaches-new_edge edges from to b a w) [
      | inl old ↦
          apart
            (subst (λ n. Reaches edges n from) (sym k) (subst (λ n. Reaches edges b n) (sym e) old))
      | inr (before, rest) ↦ apart (subst (λ n. Reaches edges n from) (sym k) before)
    ]
new_edge-IsAcyclic edges from to acyclic apart a b (inr e) w =
    elim (Reaches-new_edge edges from to b a w) [
      | inl old ↦ acyclic a b e old
      | inr (before, rest) ↦ apart (Reaches-trans edges to a from rest (walk a b e before))
    ]
