-- ===== src/Import/Fields.antt =====
-- What the `normalize_…_row` functions of apps/api/app/domain/import_export_diff.py do alike with
-- the cells of a row.
use Prim.Native.String.{String, ◌++◌}
use capacityos.Base.{Option, none, some, List, map}
use capacityos.Capacity.{Uuid}
use capacityos.Import.{Row, Json}
use capacityos.Import.Cells.{coerce_optional_str}

abbrev pub to_json : Option String → Option Json
to_json none = none
to_json (some s) = some (Json.text s)

-- `"name": coerce_optional_str(row.get("name"))`
unfoldable pub cell : Row → String → String × Option Json
cell row name = (name, to_json (coerce_optional_str (row name)))

abbrev pub cells : Row → List String → List (String × Option Json)
cells row names = map (cell row) names

-- The argument of a constructor, for a field of an existing row that may be null.
abbrev pub or_null : Option String → Json
or_null none = Json.null
or_null (some s) = Json.text s

abbrev pub ref_or_null : Option Uuid → Json
ref_or_null none = Json.null
ref_or_null (some i) = Json.ref i

-- `mapping.get(key) if key else None`
abbrev pub match_by : {F : Type 0} → (String → Option F) → Option String → Option F
match_by mapping none = none
match_by mapping (some key) = mapping key

-- `f"email={email}" if email else None`
abbrev pub identity_by : String → Option String → Option String
identity_by name none = none
identity_by name (some key) = some (name ++ ("=" ++ key))
