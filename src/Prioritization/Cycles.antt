-- ===== src/Prioritization/Cycles.antt =====
-- The cycle check against reachability in the graph of edges.
pub mod Walks
mod Search
use capacityos.Base.{
  ℕ, zero, suc, ◌+◌, ◌≤◌, ◌≡◌, refl, sym, ◌∙◌, ◌↔◌, Bool, true, false, Option, none, some, List, [],
  ◌∷◌, arith, ◌==◌, if◌then◌else◌, subst, Bool-cases, inl, inr, length,
}
use capacityos.Prioritization.{Edge, contains, search_from, enough_fuel, detects_cycle}
use Walks.{HasEdge, Reaches, stay, walk, IsAcyclic, new_edge-IsAcyclic}
use Search.{unvisited, search_from_total, search_from_sound, search_from_complete, IsClosedWithout}

enough_fuel-unvisited : (edges : List Edge) → suc (unvisited [] edges) ≡ enough_fuel edges
enough_fuel-unvisited [] = refl
enough_fuel-unvisited (e ∷ edges) = omega (arith, enough_fuel-unvisited edges)

closed_within :
    (edges : List Edge) (goal : ℕ) (all : List ℕ) (a b : ℕ)
    → IsClosedWithout edges goal all
    → contains a all ≡ true
    → Reaches edges a b
    → contains b all ≡ true
closed_within edges goal all a _ c h (stay _) = h
closed_within edges goal all a b c h (walk _ k e w) =
    closed_within edges goal all k b c (c.1 a k h e) w

no_walk :
    (edges : List Edge) (from to : ℕ)
    → (from == to) ≡ false
    → search_from (enough_fuel edges) edges from [] (to ∷ []) ≡ some false
    → ¬ Reaches edges to from
no_walk edges from to other h w =
    let (all, closed, in_stack, _) =
      search_from_complete (enough_fuel edges) edges from [] (to ∷ []) refl
        (λ a b c e. absurd (ground arith)) h in
    let back = closed_within edges from all to from closed (in_stack to (ground arith)) w in
    let clash = sym closed.0 ∙ back in cc

-- The cycle check always ends within its fuel, and it answers yes exactly when a walk along the
-- existing edges leads from the end of the new edge back to its start.
pub detects_cycle_iff :
    (edges : List Edge) (from to : ℕ)
    → (b : Bool) × (detects_cycle edges (from, to) ≡ some b) × ((b ≡ true) ↔ Reaches edges to from)
unfolding detects_cycle
detects_cycle_iff edges from to = elim (Bool-cases (from == to)) [
  | inl same ↦
      let e : from ≡ to = ground arith in
      (true, ground arith, (λ _. subst (λ k. Reaches edges to k) (sym e) (stay to), λ _. refl))
  | inr other ↦
      let total =
        search_from_total (enough_fuel edges) edges from [] (to ∷ [])
          (omega (arith, enough_fuel-unvisited edges)) in
      let (b, e) = total in
      elim (Bool-cases b) [
        | inl found ↦ (
          true,
          ground arith,
          (
            λ _.
                elim (search_from_sound (enough_fuel edges) edges from [] (to ∷ [])
                  (ground arith)) [ inl w ↦ w | inr nothing ↦ absurd nothing ],
            λ _. refl,
          ),
        )
        | inr absent ↦ (
          false,
          ground arith,
          (λ h. absurd (cc), λ w. absurd (no_walk edges from to other (ground arith) w)),
        )
      ]
]

-- Adding an edge that the check lets pass to a graph without cycles gives a graph without cycles.
pub detects_cycle-IsAcyclic :
    (edges : List Edge) (from to : ℕ)
    → IsAcyclic edges
    → detects_cycle edges (from, to) ≡ some false
    → IsAcyclic ((from, to) ∷ edges)
detects_cycle-IsAcyclic edges from to acyclic h =
    let (b, e, iff) = detects_cycle_iff edges from to in
    new_edge-IsAcyclic edges from to acyclic λ w. let yes_it_is = iff.1 w in cc
