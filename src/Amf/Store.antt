-- ===== src/Amf/Store.antt =====
-- `BridgePropertyStore` of src/amfrt_bridge.c, lines 30-46 and 129-205, with the accessors that
-- DEFINE_PROPERTY_METHODS makes of it. The list holds the first `count` entries of the array.
pub mod Laws
use driver_uu_remote.Base.{
  ℕ, zero, suc, ◌+◌, ◌≡◌, Bool, true, false, List, [], ◌∷◌, ◌++◌, Option, none, some, length,
  get_elem?, ◌==◌, ◌&&◌, if◌then◌else◌,
}
use driver_uu_remote.Amf.Results.{
  AmfResult, ok, out_of_memory, invalid_arg, not_found, out_of_range,
}

-- A name is a `wchar_t` text without its final zero.
abbrev pub Name : Type 0
Name = List ℕ

-- `wcscmp(left, right) == 0`.
abbrev pub same_name : Name → Name → Bool
same_name [] [] = true
same_name [] (d ∷ right) = false
same_name (c ∷ left) [] = false
same_name (c ∷ left) (d ∷ right) = (c == d) && same_name left right

abbrev pub max_properties : ℕ
max_properties = 64

-- The variants of the AMF headers: `AMFVariantInit` makes `empty`, and `AMFVariantCopy` into a
-- variant that is empty or cleared answers with a result and leaves a value there.
pub record VariantOps : Type 1 where
  pub Variant : Type 0
  pub empty : Variant
  pub copy : Variant → AmfResult × Variant

module _ (ops : VariantOps) where
  open ops use {Variant, empty, copy}

  abbrev pub Store : Type 0
  Store = List (Name × Variant)

  -- `property_find`: the value of the first entry with the name.
  unfoldable pub property_find : Store → Name → Option Variant
  property_find [] name = none
  property_find ((key, value) ∷ entries) name =
      if same_name key name then some value else property_find entries name

  -- A write through the entry that `property_find` points at.
  unfoldable pub overwrite : Store → Name → Variant → Store
  overwrite [] name value = []
  overwrite ((key, old) ∷ entries) name value =
      if same_name key name
      then (key, value) ∷ entries
      else (key, old) ∷ overwrite entries name value

  -- `property_set`; `allocated` tells whether `malloc` finds room for the name of a new entry.
  unfoldable pub property_set : Bool → Store → Option Name → Variant → AmfResult × Store
  unfolding property_find overwrite
  property_set allocated store none value = (invalid_arg, store)
  property_set allocated store (some name) value =
      let (result, copied) = copy value in
      elim (property_find store name) [
        | none ↦
            if length store == max_properties
            then (out_of_memory, store)
            else (if allocated
                then (result, store ++ ((name, copied) ∷ []))
                else (out_of_memory, store))
        | some old ↦ (result, overwrite store name copied)
      ]

  -- `property_get` with a place for the value, which it leaves empty for a missing name.
  unfoldable pub property_get : Store → Option Name → AmfResult × Variant
  unfolding property_find
  property_get store none = (invalid_arg, empty)
  property_get store (some name) = elim (property_find store name) [
    | none ↦ (not_found, empty)
    | some value ↦ copy value
  ]

  unfoldable pub property_has : Store → Name → Bool
  unfolding property_find
  property_has store name = elim (property_find store name) [ none ↦ false | some value ↦ true ]

  unfoldable pub property_count : Store → ℕ
  property_count store = length store

  -- `prefix##_at`: the entry at an index, its name cut to the room that the caller gives.
  unfoldable pub property_at : Store → ℕ → AmfResult × Option (Name × Variant)
  property_at store index = elim (get_elem? store index) [
    | none ↦ (out_of_range, none)
    | some (name, value) ↦ let (result, copied) = copy value in (result, some (name, copied))
  ]

  unfoldable pub property_store_clear : Store → Store
  property_store_clear store = []

-- `property_get_i64` and `property_get_rate`: the stored value if it has the type that `project`
-- recognises, and else the fallback.
unfoldable pub property_get_as :
    (ops : VariantOps) {A : Type 0} → (VariantOps.Variant ops → Option A) → Store ops → Name → A → A
unfolding property_find
property_get_as ops project store name fallback = elim (property_find ops store name) [
  | none ↦ fallback
  | some value ↦ elim (project value) [ none ↦ fallback | some x ↦ x ]
]
