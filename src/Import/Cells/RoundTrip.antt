-- ===== src/Import/Cells/RoundTrip.antt =====
-- The packed cells that apps/api/app/services/export_service.py writes for the entries of a working
-- schedule and the values of a priority score, read back by import_export_parsing.py. `sanitize_csv_cell`, which puts
-- an apostrophe before a cell that begins like a formula, leaves a cell that begins with a weekday's
-- digit or a key as it is, and is left out.
use Prim.Native.Char.{Char, code}
use Prim.Native.String.{String}
use capacityos.Base.{ℕ, ◌≡◌, refl, true, false, some, List, [], ◌∷◌, ◌==◌, arith, All}
use capacityos.Base.Errors.{ok}
use capacityos.Import.Cells.{
  is_space, is_empty, strip_left, strip_right, strip, split_on, partition, parse_chunks,
  coerce_criterion_values_cell, coerce_entries_cell,
}

abbrev append : String → String → String
append String.[] t = t
append (String.◌∷◌ c s) t = String.◌∷◌ c (append s t)

-- `f"{weekday}:{hours}"` and `f"{key}:{value}"`
unfoldable pub print_pair : String × String → String
print_pair (key, value) = append key (String.◌∷◌ ":" value)

-- `",".join(...)`
unfoldable pub print_pairs : List (String × String) → String
unfolding print_pair
print_pairs [] = String.[]
print_pairs (pair ∷ []) = print_pair pair
print_pairs (pair ∷ next ∷ pairs) =
    append (print_pair pair) (String.◌∷◌ "," (print_pairs (next ∷ pairs)))

-- No character of the text is the separator.
abbrev pub IsFree : ℕ → String → Type 0
IsFree sep String.[] = Unit
IsFree sep (String.◌∷◌ c s) = ((code c == sep) ≡ false) × IsFree sep s

abbrev pub StartsClean : String → Type 0
StartsClean String.[] = Unit
StartsClean (String.◌∷◌ c s) = is_space c ≡ false

-- A text with no comma, no colon and no space at either end.
abbrev pub IsPlain : String → Type 0
IsPlain s = IsFree b',' s × IsFree b':' s × StartsClean s × (strip_right s ≡ s)

abbrev pub IsPlainPair : String × String → Type 0
IsPlainPair p = IsPlain p.0 × IsPlain p.1

strip_clean : (s : String) → StartsClean s → strip_right s ≡ s → strip s ≡ s
unfolding strip strip_left
strip_clean String.[] a b = refl
strip_clean (String.◌∷◌ c s) a b = rw a b

strip_right-append :
    (s t : String)
    → is_empty t ≡ false
    → strip_right t ≡ t
    → (strip_right (append s t) ≡ append s t) × (is_empty (append s t) ≡ false)
unfolding strip_right
strip_right-append String.[] t e h = (h, e)
strip_right-append (String.◌∷◌ c s) t e h =
    let (same, nonempty) = strip_right-append s t e h in (rw (same, nonempty) refl, refl)

StartsClean-append : (s t : String) → StartsClean s → StartsClean t → StartsClean (append s t)
StartsClean-append String.[] t a b = b
StartsClean-append (String.◌∷◌ c s) t a b = a

IsFree-append : (sep : ℕ) (s t : String) → IsFree sep s → IsFree sep t → IsFree sep (append s t)
IsFree-append sep String.[] t a b = b
IsFree-append sep (String.◌∷◌ c s) t a b = (a.0, IsFree-append sep s t a.1 b)

split_on-free : (sep : ℕ) (s : String) → IsFree sep s → split_on sep s ≡ (s, [])
unfolding split_on
split_on-free sep String.[] h = refl
split_on-free sep (String.◌∷◌ c s) h = rw (split_on-free sep s h.1) (rw h.0 refl)

split_on-append :
    (sep : ℕ) (s : String) (c : Char) (t : String)
    → IsFree sep s
    → (code c == sep) ≡ true
    → split_on sep (append s (String.◌∷◌ c t)) ≡ (s, (split_on sep t).0 ∷ (split_on sep t).1)
unfolding split_on
split_on-append sep String.[] c t h e = rw e refl
split_on-append sep (String.◌∷◌ d s) c t h e = rw (split_on-append sep s c t h.1 e) (rw h.0 refl)

partition-append :
    (sep : ℕ) (s : String) (c : Char) (t : String)
    → IsFree sep s
    → (code c == sep) ≡ true
    → partition sep (append s (String.◌∷◌ c t)) ≡ some (s, t)
unfolding partition
partition-append sep String.[] c t h e = rw e refl
partition-append sep (String.◌∷◌ d s) c t h e = rw (partition-append sep s c t h.1 e) (rw h.0 refl)

-- A printed pair is left alone by `strip`, has no comma, is not empty, and is split again.
strip-print_pair : (p : String × String) → IsPlainPair p → strip (print_pair p) ≡ print_pair p
unfolding print_pair strip_right
strip-print_pair (key, value) h =
    let tail : strip_right (String.◌∷◌ ":" value) ≡ String.◌∷◌ ":" value = ground (arith, h.1.3) in
    let ends = strip_right-append key (String.◌∷◌ ":" value) refl tail in
    strip_clean (append key (String.◌∷◌ ":" value))
      (StartsClean-append key (String.◌∷◌ ":" value) h.0.2 refl) ends.0

is_empty-append :
    (s : String) (c : Char) (t : String) → is_empty (append s (String.◌∷◌ c t)) ≡ false
is_empty-append String.[] c t = refl
is_empty-append (String.◌∷◌ d s) c t = refl

IsFree-print_pair : (p : String × String) → IsPlainPair p → IsFree b',' (print_pair p)
unfolding print_pair
IsFree-print_pair (key, value) h = IsFree-append b',' key (String.◌∷◌ ":" value) h.0.0 (refl, h.1.0)

parse_chunks-print_pair :
    (p : String × String) (chunks : List String) (ps : List (String × String))
    → IsPlainPair p
    → parse_chunks chunks ≡ ok ps
    → parse_chunks (print_pair p ∷ chunks) ≡ ok (p ∷ ps)
unfolding parse_chunks
parse_chunks-print_pair (key, value) chunks ps h rest = rw (strip-print_pair (key, value) h) (
    unfold print_pair in
    rw
      (
        is_empty-append key ":" value,
        partition-append b':' key ":" value h.0.1 refl,
        strip_clean key h.0.2 h.0.3,
        strip_clean value h.1.2 h.1.3,
        rest,
      )
      refl)

parse-print_pairs :
    (p : String × String) (ps : List (String × String))
    → All IsPlainPair (p ∷ ps)
    → parse_chunks
        ((split_on b',' (print_pairs (p ∷ ps))).0 ∷ (split_on b',' (print_pairs (p ∷ ps))).1)
      ≡ ok (p ∷ ps)
unfolding print_pairs
parse-print_pairs p [] h =
    rw (split_on-free b',' (print_pair p) (IsFree-print_pair p h.0))
      (parse_chunks-print_pair p [] [] h.0 (unfold parse_chunks in refl))
parse-print_pairs p (q ∷ ps) h =
    rw
      (split_on-append b',' (print_pair p) "," (print_pairs (q ∷ ps)) (IsFree-print_pair p h.0)
        refl)
      (parse_chunks-print_pair p _ (q ∷ ps) h.0 (parse-print_pairs q ps h.1))

-- The cell that the export writes for a non-empty list of criterion keys and values, or of weekdays
-- and hours, is read back by the import as that list, by both functions that read such cells, when
-- no key and no value has a comma, a colon or a space at an end.
pub coerce-print_pairs :
    (p : String × String) (ps : List (String × String))
    → All IsPlainPair (p ∷ ps)
    → (coerce_criterion_values_cell (print_pairs (p ∷ ps)) ≡ ok (p ∷ ps))
      × (coerce_entries_cell (print_pairs (p ∷ ps)) ≡ ok (p ∷ ps))
unfolding coerce_criterion_values_cell coerce_entries_cell
coerce-print_pairs p ps h = (parse-print_pairs p ps h, rw (parse-print_pairs p ps h) refl)
