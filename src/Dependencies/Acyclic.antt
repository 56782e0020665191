-- ===== src/Dependencies/Acyclic.antt =====
-- The `blocks` edges of every organization never form a cycle.
use capacityos.Base.{
  ℕ, ◌≡◌, ◌↔◌, ◌≢◌, inl, inr, Bool, true, false, ◌&&◌, not, some, List, [], ◌∷◌, map, arith, ◌==◌,
  any, keep, find, if◌then◌else◌, Bool-cases, Option-cases, subst,
}
use capacityos.Base.Errors.{domain_validation_error, ok, err}
use capacityos.Capacity.{Uuid}
use capacityos.Prioritization.{Edge, detects_cycle}
use capacityos.Prioritization.Cycles.{detects_cycle_iff, detects_cycle-IsAcyclic}
use capacityos.Prioritization.Cycles.Walks.{HasEdge, Reaches, stay, walk, IsAcyclic}
use capacityos.Dependencies.{
  ProjectDependencyType, blocks, same_type, ProjectDependency, Graph, has_project, is_edge,
  is_blocks, edge_of, list_blocks_edges, answers_yes, create, delete,
}

-- No organization's `blocks` edges have a cycle.
abbrev pub IsOrdered : Graph → Type 0
IsOrdered g = (org : Uuid) → IsAcyclic (list_blocks_edges org g.dependencies)

pub Reaches-mono :
    (es fs : List Edge)
    → ((a b : ℕ) → HasEdge es a b → HasEdge fs a b)
    → (a b : ℕ) → Reaches es a b
    → Reaches fs a b
Reaches-mono es fs h a _ (stay _) = stay a
Reaches-mono es fs h a b (walk _ k e w) = walk a k (h a k e) (Reaches-mono es fs h k b w)

-- A row that a test drops takes no edge but its own away.
kept-HasEdge :
    (org : Uuid) (test : ProjectDependency → Bool) (rows : List ProjectDependency) (a b : ℕ)
    → HasEdge (list_blocks_edges org (keep test rows)) a b
    → HasEdge (list_blocks_edges org rows) a b
kept-HasEdge org test [] a b h = h
kept-HasEdge org test (d ∷ rows) a b h = elim (Bool-cases (test d)) [
  | inr dropped ↦
      let rest = kept-HasEdge org test rows a b (
        subst
          (λ t.
            HasEdge (list_blocks_edges org (if t then d ∷ keep test rows else keep test rows)) a b)
          dropped h) in
      elim (Bool-cases (is_blocks org d)) [ inl e ↦ rw e (inr rest) | inr e ↦ rw e rest ]
  | inl kept ↦
      let h' =
        subst
          (λ t.
            HasEdge (list_blocks_edges org (if t then d ∷ keep test rows else keep test rows)) a b)
          kept h in
      elim (Bool-cases (is_blocks org d)) [
        | inl e ↦
            rw e
              (elim (subst
                (λ t.
                  HasEdge
                    (map edge_of (
                      if t
                      then d ∷ keep (is_blocks org) (keep test rows)
                      else keep (is_blocks org) (keep test rows)))
                    a b)
                e h') [
                  | inl here ↦ inl here
                  | inr there ↦ inr (kept-HasEdge org test rows a b there)
                ])
        | inr e ↦ rw e (
            kept-HasEdge org test rows a b (
              subst
                (λ t.
                  HasEdge
                    (map edge_of (
                      if t
                      then d ∷ keep (is_blocks org) (keep test rows)
                      else keep (is_blocks org) (keep test rows)))
                    a b)
                e h'))
      ]
]

delete-IsOrdered :
    (org from dependency_id : Uuid) (g g' : Graph)
    → IsOrdered g
    → delete org from dependency_id g ≡ ok g'
    → IsOrdered g'
unfolding delete
delete-IsOrdered org from dependency_id g g' ordered h =
    elim (Option-cases
      (find (λ d. d.id == dependency_id && d.organization_id == org) g.dependencies)) [
        | inl missing ↦ absurd (ground arith)
        | inr (d, found) ↦
            let test : ProjectDependency → Bool = λ r. not (r.id == dependency_id) in
            let e : record g { dependencies = keep test g.dependencies } ≡ g' = ground arith in
            subst IsOrdered e λ o a b edge w.
              ordered o a b (kept-HasEdge o test g.dependencies a b edge)
                (Reaches-mono _ _ (λ x y. kept-HasEdge o test g.dependencies x y) b a w)
      ]

pub answered_no :
    (edges : List Edge) (from to : ℕ)
    → answers_yes (detects_cycle edges (from, to)) ≡ false
    → detects_cycle edges (from, to) ≡ some false
answered_no edges from to h = let (b, e, _) = detects_cycle_iff edges from to in ground arith

-- Creating an edge that the service accepts leaves the `blocks` edges of every organization
-- without a cycle, whatever the edge's type is.
pub create-IsOrdered :
    (org from to : Uuid) (type : ProjectDependencyType) (new_id : Uuid) (g g' : Graph)
    → IsOrdered g
    → create org from to type new_id g ≡ ok g'
    → IsOrdered g'
unfolding create
create-IsOrdered org from to type new_id g g' ordered h =
    let row : ProjectDependency = record {
      id = new_id;
      organization_id = org;
      from_project_id = from;
      to_project_id = to;
      dependency_type = type;
    } in
    let e : record g { dependencies = row ∷ g.dependencies } ≡ g' = ground arith in
    subst IsOrdered e λ o. elim (Bool-cases (is_blocks o row)) [
      | inr other ↦ rw other (ordered o)
      | inl hit ↦
          let at : org ≡ o = ground arith in
          let is : same_type type blocks ≡ true = ground arith in
          let passed : answers_yes (detects_cycle (list_blocks_edges org g.dependencies) (from, to))
              ≡ false =
            ground arith in
          let safe = answered_no (list_blocks_edges org g.dependencies) from to passed in
          rw hit (
            detects_cycle-IsAcyclic (list_blocks_edges o g.dependencies) from to (ordered o) (
              subst
                (λ k. detects_cycle (list_blocks_edges k g.dependencies) (from, to) ≡ some false) at
                safe))
    ]

-- For two different projects of the organization, a `blocks` edge that does not exist yet is
-- refused by a validation error exactly when the existing `blocks` edges lead from its end back to
-- its start.
pub create_refused_iff :
    (org from to new_id : Uuid) (g : Graph)
    → has_project from org g ≡ true
    → has_project to org g ≡ true
    → from ≢ to
    → any (is_edge from to blocks org) g.dependencies ≡ false
    → (create org from to blocks new_id g ≡ err domain_validation_error)
      ↔ Reaches (list_blocks_edges org g.dependencies) to from
unfolding create
create_refused_iff org from to new_id g p q apart fresh =
    let (b, e, iff) = detects_cycle_iff (list_blocks_edges org g.dependencies) from to in
    let different : (from == to) ≡ false = ground arith in
    elim (Bool-cases b) [
      | inl found ↦ (λ _. iff.0 found, λ w. ground arith)
      | inr none_there ↦ (λ h. absurd (ground arith), λ w. let back = iff.1 w in cc)
    ]

-- The requests on the graph that succeed, one after another, from an empty table of dependencies.
pub data Step : Graph → Graph → Type 0 where
  created :
      (org from to : Uuid) (type : ProjectDependencyType) (new_id : Uuid) {g g' : Graph}
      → create org from to type new_id g ≡ ok g'
      → Step g g'
  deleted :
      (org from dependency_id : Uuid) {g g' : Graph}
      → delete org from dependency_id g ≡ ok g'
      → Step g g'

pub data Reach (projects : List (Uuid × Uuid)) : Graph → Type 0 where
  start : Reach projects (record { projects = projects; dependencies = [] })
  then_step : {g g' : Graph} → Reach projects g → Step g g' → Reach projects g'

-- After any sequence of accepted requests that create and delete edges, from no edges on, the
-- `blocks` edges of each organization have no cycle.
pub Reach-IsOrdered : (projects : List (Uuid × Uuid)) (g : Graph) → Reach projects g → IsOrdered g
Reach-IsOrdered projects _ start = λ org a b edge w. edge
Reach-IsOrdered projects g' (then_step {g} r (created org from to type new_id h)) =
    create-IsOrdered org from to type new_id g g' (Reach-IsOrdered projects g r) h
Reach-IsOrdered projects g' (then_step {g} r (deleted org from dependency_id h)) =
    delete-IsOrdered org from dependency_id g g' (Reach-IsOrdered projects g r) h
