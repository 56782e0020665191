-- ===== src/Import/Cells.antt =====
-- The cells of a row: `coerce_optional_str`, `coerce_entries_cell`, `coerce_criterion_values_cell`
-- and `sanitize_csv_cell` of apps/api/app/domain/import_export_parsing.py, with Python's `strip`,
-- `split` and `partition` on a separator of one character.
pub mod RoundTrip
use Prim.Native.Char.{Char, code}
use Prim.Native.String.{String}
use text.Mathlib.Text.{◌==◌ as str_eq}
use capacityos.Base.{
  ℕ, Bool, true, false, ◌&&◌, ◌||◌, not, Option, none, some, List, [], ◌∷◌, ◌==◌, leb,
  if◌then◌else◌,
}
use capacityos.Base.Errors.{value_error, Result, ok, err, ◌>>=◌}
use capacityos.Import.{Cell, blank, written, other, listed}

-- `str.isspace`
abbrev pub is_space : Char → Bool
is_space c =
    (leb 9 (code c) && leb (code c) 13)
    || (leb 28 (code c) && leb (code c) 32)
    || code c == 133
    || code c == 160
    || code c == 5760
    || (leb 8192 (code c) && leb (code c) 8202)
    || code c == 8232
    || code c == 8233
    || code c == 8239
    || code c == 8287
    || code c == 12288

abbrev pub is_empty : String → Bool
is_empty String.[] = true
is_empty (String.◌∷◌ c s) = false

unfoldable pub strip_left : String → String
strip_left String.[] = String.[]
strip_left (String.◌∷◌ c s) = if is_space c then strip_left s else String.◌∷◌ c s

unfoldable pub strip_right : String → String
strip_right String.[] = String.[]
strip_right (String.◌∷◌ c s) =
    let rest = strip_right s in if is_empty rest && is_space c then String.[] else String.◌∷◌ c rest

unfoldable pub strip : String → String
unfolding strip_left strip_right
strip s = strip_right (strip_left s)

unfoldable pub coerce_text : String → Option String
unfolding strip
coerce_text raw = let text = strip raw in if is_empty text then none else some text

unfoldable pub coerce_optional_str : Cell → Option String
unfolding coerce_text
coerce_optional_str blank = none
coerce_optional_str (written raw) = coerce_text raw
coerce_optional_str (other printed) = coerce_text printed
coerce_optional_str (listed printed items) = coerce_text printed

-- `raw.split(sep)`: the chunk in front of the first separator, and the others.
unfoldable pub split_on : ℕ → String → String × List String
split_on sep String.[] = (String.[], [])
split_on sep (String.◌∷◌ c s) =
    let (chunk, others) = split_on sep s in
    if code c == sep then (String.[], chunk ∷ others) else (String.◌∷◌ c chunk, others)

-- `chunk.partition(sep)`, or nothing if there is no separator.
unfoldable pub partition : ℕ → String → Option (String × String)
partition sep String.[] = none
partition sep (String.◌∷◌ c s) =
    let rest = partition sep s in
    if code c == sep
    then some (String.[], s)
    else elim rest [ none ↦ none | some (before, after) ↦ some (String.◌∷◌ c before, after) ]

-- The loop over the chunks; an empty one is skipped.
unfoldable pub parse_chunks : List String → Result (List (String × String))
unfolding strip partition
parse_chunks [] = ok []
parse_chunks (raw ∷ chunks) =
    let rest = parse_chunks chunks in
    let chunk = strip raw in
    if is_empty chunk then rest else elim (partition b':' chunk) [
      | none ↦ err value_error
      | some (key, value) ↦ rest >>= λ entries. ok ((strip key, strip value) ∷ entries)
    ]

unfoldable pub coerce_criterion_values_cell : String → Result (List (String × String))
unfolding split_on parse_chunks
coerce_criterion_values_cell raw =
    let (chunk, others) = split_on b',' raw in parse_chunks (chunk ∷ others)

abbrev pub refuse_empty : List (String × String) → Result (List (String × String))
refuse_empty [] = err value_error
refuse_empty (entry ∷ entries) = ok (entry ∷ entries)

unfoldable pub coerce_entries_cell : String → Result (List (String × String))
unfolding split_on parse_chunks
coerce_entries_cell raw =
    let (chunk, others) = split_on b',' raw in parse_chunks (chunk ∷ others) >>= refuse_empty

-- `_INJECTION_TRIGGER_CHARS`
abbrev pub is_trigger : Char → Bool
is_trigger c = code c == b'=' || code c == b'+' || code c == b'-' || code c == b'@'

unfoldable pub sanitize_csv_cell : String → String
sanitize_csv_cell String.[] = String.[]
sanitize_csv_cell (String.◌∷◌ c s) =
    if is_trigger c then String.◌∷◌ "'" (String.◌∷◌ c s) else String.◌∷◌ c s
