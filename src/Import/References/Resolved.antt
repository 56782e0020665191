-- ===== src/Import/References/Resolved.antt =====
-- A reference that is resolved is the id of a record that the lookup has:
-- apps/api/app/domain/import_export_diff.py.
use Prim.Native.String.{String}
use capacityos.Base.{◌≡◌, refl, ◌⊎◌, inl, inr, Option, none, some, arith, Option-cases}
use capacityos.Capacity.{Uuid}
use capacityos.Import.{Row, FieldError}
use capacityos.Import.Cells.{coerce_optional_str}
use capacityos.Import.References.{
  FrameworkFact, ReferenceLookup, Reference, found, refused, id_or_refuse, resolve_optional,
  resolve, resolve_framework_reference,
}

module _ {F : Type 0} (id_of : F → Uuid) where
  -- The mapping has a record with this id, under this key.
  abbrev pub Finds : {K : Type 0} → (K → Option F) → K → Uuid → Type 0
  Finds mapping key i = (f : F) × (mapping key ≡ some f) × (id_of f ≡ i)

  -- How a row names a record: by a literal id, or with no id by the natural key.
  abbrev pub Names :
      (String → Option Uuid)
      → (Uuid → Option F)
      → (String → Option F)
      → String
      → String
      → Row
      → Uuid
      → Type 0
  Names read_uuid by_id by_key id_field key_field row i =
      ((raw : String) × (j : Uuid) × (coerce_optional_str (row id_field) ≡ some raw)
        × (read_uuid raw ≡ some j)
        × Finds by_id j i)
      ⊎ ((key : String) × (coerce_optional_str (row id_field) ≡ none)
          × (coerce_optional_str (row key_field) ≡ some key)
          × Finds by_key key i)

  id_or_refuse-found :
      (field : String) (o : Option F) (i : Uuid)
      → id_or_refuse id_of field o ≡ found i
      → (f : F) × (o ≡ some f) × (id_of f ≡ i)
  id_or_refuse-found field none i h = absurd (ground arith)
  id_or_refuse-found field (some f) i h = (f, ground arith, ground arith)

  -- A reference is resolved to an id only if the lookup has a record with that id, under the id
  -- that the row gives, or under the natural key that it gives when the id's column is blank: an id
  -- that is given and is no id, or is nobody's, is never passed over in favour of the natural key.
  pub resolve-found :
      (read_uuid : String → Option Uuid) (by_id : Uuid → Option F) (by_key : String → Option F)
      (id_field key_field : String) (row : Row) (i : Uuid)
      → resolve read_uuid id_of by_id by_key id_field key_field row ≡ found i
      → Names read_uuid by_id by_key id_field key_field row i
  unfolding resolve resolve_optional
  resolve-found read_uuid by_id by_key id_field key_field row i h =
      elim (Option-cases (coerce_optional_str (row id_field))) [
        | inr (raw, given) ↦ elim (Option-cases (read_uuid raw)) [
          | inl unread ↦ absurd (ground arith)
          | inr (j, read) ↦
              inl (raw, j, given, read, id_or_refuse-found id_field (by_id j) i (ground arith))
        ]
        | inl blank_id ↦ elim (Option-cases (coerce_optional_str (row key_field))) [
          | inl blank_key ↦ absurd (ground arith)
          | inr (key, given) ↦
              inr (key, blank_id, given, id_or_refuse-found key_field (by_key key) i (ground arith))
        ]
      ]

pub Reference-cases :
    (r : Reference) → ((e : FieldError) × (r ≡ refused e)) ⊎ ((i : Uuid) × (r ≡ found i))
Reference-cases (refused e) = inl (e, refl)
Reference-cases (found i) = inr (i, refl)

-- The mappings of the frameworks, of which the one by name is made from the one by id.
pub record IsConsistent (lookup : ReferenceLookup) : Type 0 where
  pub keyed : (i : Uuid) (f : FrameworkFact) → lookup.frameworks_by_id i ≡ some f → f.id ≡ i
  pub named :
      (n : String) (f : FrameworkFact)
      → lookup.frameworks_by_name n ≡ some f
      → lookup.frameworks_by_id f.id ≡ some f

-- The framework that a row's reference is resolved to is in the mapping by id.
pub framework_is_known :
    (read_uuid : String → Option Uuid) (row : Row) (lookup : ReferenceLookup) (i : Uuid)
    → IsConsistent lookup
    → resolve_framework_reference read_uuid row lookup ≡ found i
    → (f : FrameworkFact) × (lookup.frameworks_by_id i ≡ some f)
unfolding resolve_framework_reference
framework_is_known read_uuid row lookup i c h =
    elim (resolve-found (λ f. f.id) read_uuid lookup.frameworks_by_id lookup.frameworks_by_name
      "framework_id" "framework_name" row i h) [
        | inl (raw, j, given, read, (f, has, same)) ↦ (f, ground (arith, c.keyed j f))
        | inr (key, blank_id, given, (f, has, same)) ↦ (f, ground (arith, c.named key f))
      ]
