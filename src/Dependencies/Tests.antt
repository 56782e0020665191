-- ===== src/Dependencies/Tests.antt =====
-- Runs of the dependency service and its theorems on two projects.
use capacityos.Base.{◌≡◌, refl, ◌↔◌, [], ◌∷◌, arith}
use capacityos.Base.Errors.{domain_validation_error, ok, err}
use capacityos.Prioritization.{detects_cycle}
use capacityos.Prioritization.Cycles.Walks.{Reaches}
use capacityos.Dependencies.{ProjectDependency, blocks, Graph, list_blocks_edges, create}
use capacityos.Dependencies.Acyclic.{
  IsOrdered, create_refused_iff, created, start, then_step, Reach-IsOrdered,
}

-- Projects 1 and 2 of organization 9.
abbrev empty : Graph
empty = record { projects = (1, 9) ∷ (2, 9) ∷ []; dependencies = [] }

abbrev edge : ProjectDependency
edge = record {
  id = 50;
  organization_id = 9;
  from_project_id = 1;
  to_project_id = 2;
  dependency_type = blocks;
}

abbrev one_edge : Graph
one_edge = record empty { dependencies = edge ∷ [] }

create_run : create 9 1 2 blocks 50 empty ≡ ok one_edge
unfolding create detects_cycle
create_run = refl

cycle_run : create 9 2 1 blocks 51 one_edge ≡ err domain_validation_error
unfolding create detects_cycle
cycle_run = refl

Reach-IsOrdered_example : IsOrdered one_edge
Reach-IsOrdered_example =
    Reach-IsOrdered ((1, 9) ∷ (2, 9) ∷ []) one_edge
      (then_step start (created 9 1 2 blocks 50 create_run))

create_refused_iff_example :
    (create 9 2 1 blocks 51 one_edge ≡ err domain_validation_error)
    ↔ Reaches (list_blocks_edges 9 one_edge.dependencies) 1 2
create_refused_iff_example = create_refused_iff 9 2 1 51 one_edge refl refl (λ e. ground arith) refl
