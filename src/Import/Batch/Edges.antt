-- ===== src/Import/Batch/Edges.antt =====
-- The cycle check of a file of project dependencies: `_check_project_dependency_cycle` and the loop
-- of `_prepare_project_dependency` of apps/api/app/services/import_service.py, from the `blocks`
-- edges of the organization.
use capacityos.Base.{
  ℕ, ◌≡◌, refl, inl, inr, true, false, Option, none, some, List, [], ◌∷◌, ◌++◌, if◌then◌else◌,
  Bool-cases, Option-cases, append_assoc, append-nil,
}
use capacityos.Prioritization.{Edge, detects_cycle}
use capacityos.Prioritization.Cycles.{detects_cycle-IsAcyclic}
use capacityos.Prioritization.Cycles.Walks.{HasEdge, IsAcyclic}
use capacityos.Dependencies.{same_type, blocks, answers_yes}
use capacityos.Dependencies.Acyclic.{Reaches-mono, answered_no}
use capacityos.Import.{FieldError, domain_rule_violated}
use capacityos.Import.Outcomes.{
  Action, create, Payload, for_create, Outcome, no_outcome, has_errors,
}
use capacityos.Import.Decisions.{DependencyPayload}

abbrev pub DependencyOutcome : Type 0
DependencyOutcome = Outcome (Payload DependencyPayload (Unit {0}))

abbrev pub cycle_error : FieldError
cycle_error = record { field = none; code = domain_rule_violated }

-- The edge that a row adds: that of a creation without errors whose type is `blocks`.
abbrev pub new_edge : Option Action → Option (Payload DependencyPayload (Unit {0})) → Option Edge
new_edge (some create) (some (for_create p)) =
    if same_type p.dependency_type blocks then some (p.from_project_id, p.to_project_id) else none
new_edge _ _ = none

abbrev pub edge_of_row : DependencyOutcome → Option Edge
edge_of_row o = if has_errors o then none else new_edge o.action o.payload

-- The outcome, and the edges with the row's.
unfoldable pub check_project_dependency_cycle :
    DependencyOutcome → List Edge → DependencyOutcome × List Edge
check_project_dependency_cycle o edges = elim (edge_of_row o) [
  | none ↦ (o, edges)
  | some edge ↦
      if answers_yes (detects_cycle edges edge)
      then (no_outcome o.matched_id o.identity cycle_error [], edges)
      else (o, edges ++ edge ∷ [])
]

-- The loop over the rows' outcomes, in the order of the file.
unfoldable pub check_dependencies :
    List DependencyOutcome → List Edge → List DependencyOutcome × List Edge
check_dependencies [] edges = ([], edges)
check_dependencies (o ∷ outcomes) edges =
    let first = check_project_dependency_cycle o edges in
    let rest = check_dependencies outcomes first.1 in (first.0 ∷ rest.0, rest.1)

HasEdge-snoc :
    (es : List Edge) (e : Edge) (a b : ℕ) → HasEdge (es ++ e ∷ []) a b → HasEdge (e ∷ es) a b
HasEdge-snoc [] e a b h = h
HasEdge-snoc (d ∷ es) e a b (inl here) = inr (inl here)
HasEdge-snoc (d ∷ es) e a b (inr there) = elim (HasEdge-snoc es e a b there) [
  | inl new ↦ inl new
  | inr old ↦ inr (inr old)
]

snoc-IsAcyclic :
    (es : List Edge) (e : Edge)
    → IsAcyclic es
    → answers_yes (detects_cycle es e) ≡ false
    → IsAcyclic (es ++ e ∷ [])
snoc-IsAcyclic es (from, to) acyclic h a b edge w =
    detects_cycle-IsAcyclic es from to acyclic (answered_no es from to h) a b
      (HasEdge-snoc es (from, to) a b edge)
      (Reaches-mono (es ++ (from, to) ∷ []) ((from, to) ∷ es) (HasEdge-snoc es (from, to)) b a w)

-- The edges of the rows that are left without errors.
abbrev pub added_edges : List DependencyOutcome → List Edge
added_edges [] = []
added_edges (o ∷ outcomes) = elim (edge_of_row o) [
  | none ↦ added_edges outcomes
  | some edge ↦ edge ∷ added_edges outcomes
]

module _ (o : DependencyOutcome) (outcomes : List DependencyOutcome) where
  added-none : edge_of_row o ≡ none → added_edges (o ∷ outcomes) ≡ added_edges outcomes
  added-none e = rw (e, added_edges) refl

  added-some :
      (edge : Edge)
      → edge_of_row o ≡ some edge
      → added_edges (o ∷ outcomes) ≡ edge ∷ added_edges outcomes
  added-some edge e = rw (e, added_edges) refl

module _ (o : DependencyOutcome) (edges : List Edge) where
  check-none : edge_of_row o ≡ none → check_project_dependency_cycle o edges ≡ (o, edges)
  unfolding check_project_dependency_cycle
  check-none e = rw (e, check_project_dependency_cycle) refl

  check-refused :
      (edge : Edge)
      → edge_of_row o ≡ some edge
      → answers_yes (detects_cycle edges edge) ≡ true
      → check_project_dependency_cycle o edges
        ≡ (no_outcome o.matched_id o.identity cycle_error [], edges)
  unfolding check_project_dependency_cycle
  check-refused edge e h = rw (e, check_project_dependency_cycle) (rw h refl)

  check-added :
      (edge : Edge)
      → edge_of_row o ≡ some edge
      → answers_yes (detects_cycle edges edge) ≡ false
      → check_project_dependency_cycle o edges ≡ (o, edges ++ edge ∷ [])
  unfolding check_project_dependency_cycle
  check-added edge e h = rw (e, check_project_dependency_cycle) (rw h refl)

-- From edges without a cycle, the edges of all the rows of a file that pass the check, with those
-- that there were, have no cycle either, whichever rows the file has and in whichever order.
pub check_dependencies-IsAcyclic :
    (outcomes : List DependencyOutcome) (edges : List Edge)
    → IsAcyclic edges
    → IsAcyclic (edges ++ added_edges (check_dependencies outcomes edges).0)
unfolding check_dependencies
check_dependencies-IsAcyclic [] edges h = rw (append-nil edges) h
check_dependencies-IsAcyclic (o ∷ outcomes) edges h = elim (Option-cases (edge_of_row o)) [
  | inl e ↦
      rw (check-none o edges e)
        (rw (added-none o _ e) (check_dependencies-IsAcyclic outcomes edges h))
  | inr (edge, e) ↦ elim (Bool-cases (answers_yes (detects_cycle edges edge))) [
    | inl cyclic ↦
        rw (check-refused o edges edge e cyclic) (check_dependencies-IsAcyclic outcomes edges h)
    | inr free ↦ rw (check-added o edges edge e free) (
        rw (added-some o _ edge e) (
          rw (← append_assoc edges (edge ∷ []) _) (
            check_dependencies-IsAcyclic outcomes (edges ++ edge ∷ [])
              (snoc-IsAcyclic edges edge h free))))
  ]
]
