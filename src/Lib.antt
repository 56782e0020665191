-- ===== src/Lib.antt =====
-- CapacityOS: the planning core of the API (apps/api/app) and what makes it correct.
--
-- CapacityOS plans the capacity of people, teams and projects for organizations. Its engines are
-- pure functions over facts (apps/api/app/domain); its services (apps/api/app/services) guard the
-- tables that the facts are loaded from, by queries of apps/api/app/repositories.
--
-- The files and what they model:
--   Base, Base/*: the names that the files share: Boolean tests, measured lists, integers, sorting,
--     and the exceptions (apps/api/app/core/exceptions.py) as values of `Error`.
--   Dates: apps/api/app/domain/dates.py. A date is its ordinal.
--   Capacity: apps/api/app/domain/capacity.py, the capacity engine: the ledger of a day (Day), the
--     spreading of an allocation over its days (Phasing), periods (Period), teams (Team) and the
--     demand of projects (Demand).
--   Scenario: apps/api/app/domain/scenario.py, planning states and the operations on them: clipping
--     exceptions (Clip), availability (Availability), moves and removals (Move), shifts (Shift). It
--     hands a state to the functions of Capacity.
--   Authorization: apps/api/app/domain/authorization.py, roles and permissions.
--   Membership: apps/api/app/services/organization_membership.py and user.py with the guarded updates
--     of apps/api/app/repositories/organization_membership.py and user.py, and the check of the
--     route that adds a member (apps/api/app/api/v1/organizations.py). Its roles are those of
--     Authorization. Owners and Accounts follow the active Owners through each operation, Reach
--     through sequences of requests, and Refusals has the error paths.
--   Organizations: apps/api/app/services/organization.py with apps/api/app/repositories/organization.py
--     and its routes, on the tables of Membership: what the requests do to the Owners (Owned),
--     sequences of requests (Recovery) and the guard of the deactivation (Deactivation).
--   Prioritization: apps/api/app/domain/prioritization.py: scores (Scores), ranks (Ranking) and the
--     cycle check (Cycles).
--   Dependencies: apps/api/app/services/project_dependency.py, which calls the cycle check.
--   Schedules: apps/api/app/services/working_schedule.py, which calls the overlap test of Dates; Effective
--     says what the capacity engine gets from it.
--   Insights: apps/api/app/domain/insights.py and risk.py, signals on the numbers of Capacity.
--   Sessions: apps/api/app/services/auth.py: login, lockout and sessions, on the memberships of
--     Membership.
--   Skills: apps/api/app/domain/skills.py, the coverage and the concentration of skills (Coverage).
--   Portfolio: apps/api/app/domain/portfolio_snapshot.py, the comparison of two frozen rankings
--     (Comparison, with what an item says in Items).
--   Import: apps/api/app/domain/import_export_parsing.py and import_export_diff.py and
--     apps/api/app/services/import_service.py: the cells of a row (Cells, with the packed cells that
--     apps/api/app/services/export_service.py writes), references to other records (References) and
--     the queries that find them (Lookups), what a row comes to (Outcomes), the fourteen
--     normalizations (Directory, Planning, Decisions, Packed) and what they have in common
--     (Classified), and a file as a whole (Batch): duplicates (Identities), modes (Policy), the
--     cycle check that calls Prioritization (Edges), the overlap check that calls Dates
--     (Overlaps), and reports and writing (Reports).
--
-- How the model corresponds to the code. A dataclass or the columns of a row that the code uses
-- are a record, an enum is a data type, and a function or a method has a function of its name. A
-- table is a list of rows, an UPDATE rewrites the rows that its WHERE clause selects, and a
-- request that raises leaves the tables as they were, as its transaction is rolled back. Requests
-- are steps one after the other. For the guarded changes of memberships, accounts and organizations
-- this holds of concurrent requests too, since the guards are part of the UPDATE statements; all
-- else is read before it is written, and the theorems on it are about requests that do not
-- overlap. A uuid is its 128-bit integer. Hours are hundredths of an hour, never negative
-- where the columns are not; a difference is an integer; a quotient is rounded half up once.
--
-- Bounds and fuel. A date lies in 1..3652059, the range of `datetime.date`. The loop of the cycle
-- check runs on fuel, one step more than there are edges: each step takes an entry from the stack,
-- and an edge is pushed at most once, when its start is first visited.
--
-- Parameters. `decimal.Decimal` is the interface `Decimals` of Prioritization, with the laws of
-- its order; the password hasher, the hash of tokens, random tokens, fresh ids and the time are
-- arguments. A pydantic schema is the record `Model` of Import/Outcomes: what it makes of a
-- dictionary, and what it dumps, where the values of an existing row pass the validation again;
-- the csv and json modules give rows, and the reading of a text as a uuid is an argument. The
-- services that an import calls are the interface `Writer` of Import/Batch.
--
-- Not modelled: the routes, request schemas and table declarations, which validate and store; the
-- services that only store rows after a lookup; the reading of an uploaded file and the
-- `_prepare_` methods of an import, and exports; the AI assistant, the audit log, configuration,
-- logging and the database connection, which are input and output; the web client.
pub mod Base
pub mod Dates
pub mod Capacity
pub mod Scenario
pub mod Authorization
pub mod Membership
pub mod Organizations
pub mod Prioritization
pub mod Dependencies
pub mod Schedules
pub mod Insights
pub mod Skills
pub mod Portfolio
pub mod Import
pub mod Sessions
