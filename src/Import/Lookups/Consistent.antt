-- ===== src/Import/Lookups/Consistent.antt =====
-- The mappings that are built for a file agree: apps/api/app/services/import_service.py.
use Prim.Native.String.{String}
use capacityos.Base.{
  ◌≡◌, refl, inl, inr, Bool, true, false, Option, some, List, [], ◌∷◌, arith, ◌==◌, ==_iff,
  if◌then◌else◌, Bool-cases, Option-cases, All, keep, any, ap, subst,
}
use capacityos.Capacity.{Uuid}
use capacityos.Import.{Row}
use capacityos.Import.References.{FrameworkFact}
use capacityos.Import.References.Resolved.{IsConsistent}
use capacityos.Import.Lookups.{
  put, get, put_all, has_key, get_by_key, lookup_map, Catalog, Needs, framework_lookup_map,
  build_lookup,
}

module _ {F : Type 0} (id_of : F → Uuid) where
  -- Every fact stands under its own id, and no id twice.
  abbrev pub IsKeyed : List (Uuid × F) → Type 0
  IsKeyed [] = Unit
  IsKeyed ((i, fact) ∷ d) =
      (id_of fact ≡ i) × All (λ (p : Uuid × F). (p.0 == i) ≡ false) d × IsKeyed d

  All-put :
      (j i : Uuid) (fact : F) (d : List (Uuid × F))
      → (i == j) ≡ false
      → All (λ (p : Uuid × F). (p.0 == j) ≡ false) d
      → All (λ (p : Uuid × F). (p.0 == j) ≡ false) (put i fact d)
  All-put j i fact [] e a = (e, tt)
  All-put j i fact ((k, old) ∷ d) e a = elim (Bool-cases (k == i)) [
    | inl here ↦ rw here (e, a.1)
    | inr away ↦ rw away (a.0, All-put j i fact d e a.1)
  ]

  put-IsKeyed : (fact : F) (d : List (Uuid × F)) → IsKeyed d → IsKeyed (put (id_of fact) fact d)
  put-IsKeyed fact [] h = (refl, tt, tt)
  put-IsKeyed fact ((k, old) ∷ d) h = elim (Bool-cases (k == id_of fact)) [
    | inl here ↦
        let same : k ≡ id_of fact = (==_iff k (id_of fact)).0 here in
        rw here (refl, subst (λ n. All (λ (p : Uuid × F). (p.0 == n) ≡ false) d) same h.1, h.2)
    | inr away ↦
        rw away (h.0, All-put k (id_of fact) fact d (ground arith) h.1, put-IsKeyed fact d h.2)
  ]

  put_all-IsKeyed :
      (facts : List F) (d : List (Uuid × F)) → IsKeyed d → IsKeyed (put_all id_of facts d)
  put_all-IsKeyed [] d h = h
  put_all-IsKeyed (fact ∷ facts) d h =
      put_all-IsKeyed facts (put (id_of fact) fact d) (put-IsKeyed fact d h)

  pub lookup_map-IsKeyed :
      (key_of : F → Option String) (table : List F) (ids : List Uuid) (keys : List String)
      → IsKeyed (lookup_map id_of key_of table ids keys)
  unfolding lookup_map
  lookup_map-IsKeyed key_of table ids keys =
      put_all-IsKeyed (keep (λ f. any (λ k. has_key (key_of f) k) keys) table) _
        (put_all-IsKeyed (keep (λ f. any (λ i. i == id_of f) ids) table) [] tt)

  pub get-id : (d : List (Uuid × F)) (i : Uuid) (f : F) → IsKeyed d → get d i ≡ some f → id_of f ≡ i
  get-id [] i f h e = cc
  get-id ((j, fact) ∷ d) i f h e = elim (Bool-cases (j == i)) [
    | inl here ↦
        let same : fact ≡ f = ground arith in
        let own : id_of f ≡ j = subst (λ g. id_of g ≡ j) same h.0 in ground arith
    | inr away ↦ get-id d i f h.2 (ground arith)
  ]

  get-apart :
      (d : List (Uuid × F)) (j i : Uuid) (f : F)
      → All (λ (p : Uuid × F). (p.0 == j) ≡ false) d
      → get d i ≡ some f
      → (j == i) ≡ false
  get-apart [] j i f a e = cc
  get-apart ((k, fact) ∷ d) j i f a e = elim (Bool-cases (k == i)) [
    | inl here ↦ ground (arith, a.0)
    | inr away ↦ get-apart d j i f a.1 (ground arith)
  ]

  pub get_by_key-get :
      (key_of : F → Option String) (d : List (Uuid × F)) (key : String) (f : F)
      → IsKeyed d
      → get_by_key key_of d key ≡ some f
      → get d (id_of f) ≡ some f
  get_by_key-get key_of [] key f h e = cc
  get_by_key-get key_of ((j, fact) ∷ d) key f h e = elim (Option-cases (get_by_key key_of d key)) [
    | inr (later, l) ↦
        let same : later ≡ f = ground arith in
        let found = get_by_key-get key_of d key f h.2 (rw l (ap some same)) in
        rw (get-apart d j (id_of f) f h.1 found) found
    | inl none_later ↦
        let same : fact ≡ f = ground arith in
        let own : id_of f ≡ j = subst (λ g. id_of g ≡ j) same h.0 in ground arith
  ]

framework_lookup_map-IsKeyed :
    (read_uuid : String → Option Uuid) (rows : List Row) (table : List FrameworkFact)
    (needed : Bool)
    → IsKeyed
        (λ (f : FrameworkFact). f.id)
        (if needed then framework_lookup_map read_uuid rows table else [])
unfolding framework_lookup_map
framework_lookup_map-IsKeyed read_uuid rows table true =
    lookup_map-IsKeyed (λ f. f.id) (λ f. some f.name) table _ _
framework_lookup_map-IsKeyed read_uuid rows table false = tt

-- The mappings of frameworks that `build_lookup` makes of the file's rows and the organization's
-- frameworks agree, whether the frameworks are needed or not: what the mapping by id has stands
-- under its own id, and what the mapping by name has, the one by id has too.
pub build_lookup-IsConsistent :
    (read_uuid : String → Option Uuid) (rows : List Row) (catalog : Catalog) (needs : Needs)
    → IsConsistent (build_lookup read_uuid rows catalog needs)
unfolding build_lookup framework_lookup_map
build_lookup-IsConsistent read_uuid rows catalog needs =
    let d =
      if needs.frameworks then framework_lookup_map read_uuid rows catalog.frameworks else [] in
    let keyed : IsKeyed (λ (f : FrameworkFact). f.id) d =
      framework_lookup_map-IsKeyed read_uuid rows catalog.frameworks needs.frameworks in
    record {
      keyed = λ i f h. get-id (λ (f : FrameworkFact). f.id) d i f keyed h;
      named =
          λ n f h. get_by_key-get (λ (f : FrameworkFact). f.id) (λ f. some f.name) d n f keyed h;
    }
