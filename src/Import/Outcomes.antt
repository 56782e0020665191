-- ===== src/Import/Outcomes.antt =====
-- What a row comes to: `NormalizeOutcome`, `_validation_errors`, `_unchanged`, `_present_fields` and
-- `apply_mode_policy` of apps/api/app/domain/import_export_diff.py. A schema is a parameter: what
-- pydantic makes of a dictionary, and what it dumps.
use Prim.Native.String.{String, ◌++◌}
use text.Mathlib.Text.{◌==◌ as str_eq}
use capacityos.Base.{
  Bool, true, false, ◌&&◌, not, Option, none, some, List, [], ◌∷◌, map, any, ◌==◌, if◌then◌else◌,
}
use capacityos.Capacity.{Uuid}
use capacityos.Import.{FieldError, ImportErrorCode, ImportMode, create_only, update_only, Json}

-- The `loc` and the `type` of one of `exc.errors()`.
pub record Detail : Type 0 where
  pub loc : List String
  pub kind : String

-- What `model_validate` returns; a ValidationError has at least one error.
pub data Validated (P : Type 0) : Type 0 where
  valid : P → Validated P
  invalid : Detail → List Detail → Validated P

-- A pydantic model: `model_validate`, the constructor on the values of an existing row, the JSON
-- dump of a field and the fields that are set. The constructor is total: the values of a row are
-- taken to pass the validation that they passed when they were written. The code does not catch the
-- ValidationError that other values would raise.
pub record Model (P : Type 0) : Type 0 where
  pub validate : List (String × Json) → Validated P
  pub construct : List (String × Json) → P
  pub dump : P → String → Json
  pub fields_set : P → List String

pub data Action : Type 0 where
  create update unchanged : Action

-- `XCreate | XUpdate`, with the ids that a wrapper carries.
pub data Payload (C U : Type 0) : Type 0 where
  for_create : C → Payload C U
  for_update : U → Payload C U

-- NormalizeOutcome
pub record Outcome (P : Type 0) : Type 0 where
  pub action : Option Action
  pub payload : Option P
  pub matched_id : Option Uuid
  pub identity : Option String
  pub errors : List FieldError

abbrev pub join_dots : List String → String
join_dots [] = ""
join_dots (s ∷ []) = s
join_dots (s ∷ t ∷ ss) = s ++ ("." ++ join_dots (t ∷ ss))

abbrev pub or_none : String → Option String
or_none String.[] = none
or_none (String.◌∷◌ c s) = some (String.◌∷◌ c s)

-- `_CONSTRAINT_ERROR_TYPES`
abbrev pub constraint_error_types : List String
constraint_error_types =
    "value_error" ∷ "greater_than" ∷ "greater_than_equal" ∷ "less_than" ∷ "less_than_equal"
    ∷ "too_short" ∷ "too_long" ∷ "string_too_short" ∷ "string_too_long" ∷ []

abbrev pub code_of : String → ImportErrorCode
code_of kind =
    if str_eq kind "missing"
    then ImportErrorCode.field_required
    else if any (λ t. str_eq kind t) constraint_error_types
    then ImportErrorCode.field_constraint_violated
    else ImportErrorCode.field_type_invalid

-- `_validation_errors`
unfoldable pub validation_errors : List Detail → List FieldError
validation_errors details =
    map (λ e. record { field = or_none (join_dots e.loc); code = code_of e.kind }) details

-- The lists are compared apart: the fields that hold them are excluded.
unfoldable pub json_eq : Json → Json → Bool
json_eq Json.null Json.null = true
json_eq (Json.text s) (Json.text t) = str_eq s t
json_eq (Json.flag true) (Json.flag b) = b
json_eq (Json.flag false) (Json.flag b) = not b
json_eq (Json.ref i) (Json.ref j) = i == j
json_eq _ _ = false

-- `_present_fields`
unfoldable pub present_fields : List (String × Option Json) → List (String × Json)
present_fields [] = []
present_fields ((k, none) ∷ fields) = present_fields fields
present_fields ((k, some v) ∷ fields) = (k, v) ∷ present_fields fields

-- `_unchanged`, with the fields that are excluded.
unfoldable pub is_unchanged : {P : Type 0} → Model P → List String → P → P → Bool
unfolding json_eq
is_unchanged model excluded payload current = not (
    any
      (λ k.
        not (any (λ e. str_eq k e) excluded)
        && not (json_eq (model.dump payload k) (model.dump current k)))
      (model.fields_set payload))

abbrev pub no_outcome :
    {P : Type 0} → Option Uuid → Option String → FieldError → List FieldError → Outcome P
no_outcome matched identity e es = record {
  action = none;
  payload = none;
  matched_id = matched;
  identity = identity;
  errors = e ∷ es;
}

abbrev pub error_of : Detail → FieldError
error_of d = record { field = or_none (join_dots d.loc); code = code_of d.kind }

module _ {C U D : Type 0} where
  -- `try: payload = XCreate.model_validate(...)` and the outcomes that follow.
  abbrev pub create_outcome : (D → C) → Option String → Validated D → Outcome (Payload C U)
  create_outcome wrap identity (invalid d ds) =
      no_outcome none identity (error_of d) (validation_errors ds)
  create_outcome wrap identity (valid payload) = record {
    action = some create;
    payload = some (for_create (wrap payload));
    matched_id = none;
    identity = identity;
    errors = [];
  }

  -- `try: payload = XUpdate.model_validate(...)` and the outcomes that follow.
  abbrev pub update_outcome :
      (D → U) → Uuid → Option String → (D → Bool) → Validated D → Outcome (Payload C U)
  update_outcome wrap existing identity same (invalid d ds) =
      no_outcome (some existing) identity (error_of d) (validation_errors ds)
  update_outcome wrap existing identity same (valid payload) = record {
    action = some (if same payload then unchanged else update);
    payload = some (for_update (wrap payload));
    matched_id = some existing;
    identity = identity;
    errors = [];
  }

-- A row whose record exists and has nothing to update.
abbrev pub unchanged_outcome : {P : Type 0} → Option String → Outcome P
unchanged_outcome identity = record {
  action = some unchanged;
  payload = none;
  matched_id = none;
  identity = identity;
  errors = [];
}

abbrev pub conflict_error : FieldError
conflict_error = record { field = none; code = ImportErrorCode.conflict }

abbrev pub no_match_error : FieldError
no_match_error = record { field = none; code = ImportErrorCode.no_match_for_update_only }

abbrev pub policy_on : {P : Type 0} → ImportMode → Action → Outcome P → Outcome P
policy_on create_only update o = no_outcome o.matched_id o.identity conflict_error []
policy_on create_only unchanged o = no_outcome o.matched_id o.identity conflict_error []
policy_on update_only create o = no_outcome none o.identity no_match_error []
policy_on _ _ o = o

abbrev pub has_errors : {P : Type 0} → Outcome P → Bool
has_errors o = elim o.errors [ [] ↦ false | _ ∷ _ ↦ true ]

-- `if outcome.errors or outcome.action is None: return outcome`
unfoldable pub apply_mode_policy : {P : Type 0} → Outcome P → ImportMode → Outcome P
apply_mode_policy o mode =
    if has_errors o then o else elim o.action [ none ↦ o | some action ↦ policy_on mode action o ]
