-- ===== src/Dependencies.antt =====
-- apps/api/app/services/project_dependency.py with the queries of
-- apps/api/app/repositories/project_dependency.py: edges between the projects of an organization.
-- A table has no order of its own; a new row is written at its front. The id of a new row is chosen
-- by the database driver and is an argument.
pub mod Acyclic
mod Tests
use capacityos.Base.{
  ℕ, Bool, true, false, ◌&&◌, not, Option, none, some, List, [], ◌∷◌, map, ◌==◌, find, any, keep,
  if◌then◌else◌,
}
use capacityos.Base.Errors.{
  not_found_error, conflict_error, domain_validation_error, Result, ok, err, ◌>>=◌, ◌>>◌, raise_if,
  or_raise,
}
use capacityos.Capacity.{Uuid}
use capacityos.Prioritization.{Edge, detects_cycle}

pub data ProjectDependencyType : Type 0 where
  blocks related enables : ProjectDependencyType

abbrev pub same_type : ProjectDependencyType → ProjectDependencyType → Bool
same_type blocks blocks = true
same_type related related = true
same_type enables enables = true
same_type _ _ = false

pub record ProjectDependency : Type 0 where
  pub id : Uuid
  pub organization_id : Uuid
  pub from_project_id : Uuid
  pub to_project_id : Uuid
  pub dependency_type : ProjectDependencyType

-- `projects` has the organization of each project.
pub record Graph : Type 0 where
  pub projects : List (Uuid × Uuid)
  pub dependencies : List ProjectDependency

-- `project_repository.get(id, organization_id) is not None`
abbrev pub has_project : Uuid → Uuid → Graph → Bool
has_project project org g = any (λ p. p.0 == project && p.1 == org) g.projects

abbrev pub is_edge : Uuid → Uuid → ProjectDependencyType → Uuid → ProjectDependency → Bool
is_edge from to type org d =
    d.from_project_id == from
    && d.to_project_id == to
    && same_type d.dependency_type type
    && d.organization_id == org

abbrev pub is_blocks : Uuid → ProjectDependency → Bool
is_blocks org d = d.organization_id == org && same_type d.dependency_type blocks

abbrev pub edge_of : ProjectDependency → Edge
edge_of d = (d.from_project_id, d.to_project_id)

abbrev pub list_blocks_edges : Uuid → List ProjectDependency → List Edge
list_blocks_edges org rows = map edge_of (keep (is_blocks org) rows)

-- The answer of the cycle check, whose fuel never runs out.
abbrev pub answers_yes : Option Bool → Bool
answers_yes none = false
answers_yes (some b) = b

unfoldable pub create : Uuid → Uuid → Uuid → ProjectDependencyType → Uuid → Graph → Result Graph
create org from to type new_id g = do
  raise_if (not (has_project from org g)) not_found_error
  raise_if (not (has_project to org g)) not_found_error
  raise_if (from == to) domain_validation_error
  raise_if (any (is_edge from to type org) g.dependencies) conflict_error
  raise_if
      (same_type type blocks
        && answers_yes (detects_cycle (list_blocks_edges org g.dependencies) (from, to)))
      domain_validation_error
  let dependency : ProjectDependency = record {
    id = new_id;
    organization_id = org;
    from_project_id = from;
    to_project_id = to;
    dependency_type = type;
  }
  ok (record g { dependencies = dependency ∷ g.dependencies })

unfoldable pub delete : Uuid → Uuid → Uuid → Graph → Result Graph
delete org from dependency_id g = do
  dependency ←
      or_raise (find (λ d. d.id == dependency_id && d.organization_id == org) g.dependencies)
        not_found_error
  raise_if (not (dependency.from_project_id == from)) not_found_error
  ok (record g { dependencies = keep (λ d. not (d.id == dependency_id)) g.dependencies })
