-- ===== src/Amf/Store/Laws.antt =====
-- A property store is a bounded map: what is set is found, nothing else changes, the names are
-- distinct, and there are never more than 64 of them.
use driver_uu_remote.Base.{
  ◌≤◌, ◌<◌, ◌≡◌, ◌≢◌, refl, ap, inl, inr, Bool, true, false, [], ◌∷◌, ◌++◌, Option, none, some,
  length, length-append, ◌==◌, Bool-cases, Option-cases, if◌then◌else◌, arith,
}
use driver_uu_remote.Amf.Results.{ok, out_of_memory}
use driver_uu_remote.Amf.Store.{
  Name, same_name, max_properties, VariantOps, Store, property_find, overwrite, property_set,
}

pub same_name_refl : (a : Name) → same_name a a ≡ true
same_name_refl [] = refl
same_name_refl (c ∷ a) = ground (arith, same_name_refl a)

pub same_name-eq : (a b : Name) → same_name a b ≡ true → a ≡ b
same_name-eq [] [] h = refl
same_name-eq [] (d ∷ b) h = cc
same_name-eq (c ∷ a) [] h = cc
same_name-eq (c ∷ a) (d ∷ b) h = ground (arith, same_name-eq a b)

same_name_trans : (a b c : Name) → same_name a b ≡ true → same_name a c ≡ same_name b c
same_name_trans a b c h = ap (λ x. same_name x c) (same_name-eq a b h)

same_name_comm : (a b : Name) → same_name a b ≡ same_name b a
same_name_comm [] [] = refl
same_name_comm [] (d ∷ b) = refl
same_name_comm (c ∷ a) [] = refl
same_name_comm (c ∷ a) (d ∷ b) = ground (arith, same_name_comm a b)

module _ (ops : VariantOps) where
  open ops use {Variant, empty, copy}

  find-append :
      (store : Store ops) (name key : Name) (value : Variant)
      → property_find ops store name ≡ none
      → property_find ops (store ++ ((name, value) ∷ [])) key
        ≡ (if same_name name key then some value else property_find ops store key)
  unfolding property_find
  find-append [] name key value h = refl
  find-append ((k, v) ∷ store) name key value h =
      ground (
        arith,
        find-append store name key value,
        same_name_trans k key name,
        same_name_comm key name,
      )

  find-overwrite :
      (store : Store ops) (name key : Name) (value old : Variant)
      → property_find ops store name ≡ some old
      → property_find ops (overwrite ops store name value) key
        ≡ (if same_name name key then some value else property_find ops store key)
  unfolding property_find overwrite
  find-overwrite [] name key value old h = cc
  find-overwrite ((k, v) ∷ store) name key value old h = ground (
    arith,
    find-overwrite store name key value old,
    same_name_trans k name key,
    same_name_trans k key name,
    same_name_comm key name,
  )

  -- A `property_set` that reports success stores the value under the name and leaves what is found
  -- under every other name.
  pub find-property_set :
      (allocated : Bool) (store : Store ops) (name key : Name) (value : Variant)
      → (property_set ops allocated store (some name) value).0 ≡ ok
      → property_find ops (property_set ops allocated store (some name) value).1 key
        ≡ (if same_name name key then some (copy value).1 else property_find ops store key)
  unfolding property_set
  find-property_set allocated store name key value h =
      elim (Option-cases (property_find ops store name)) [
        | inl e ↦ elim (Bool-cases (length store == max_properties)) [
          | inl full ↦ absurd (ne (rw (e, property_set, full) at h))
          | inr room ↦ elim (Bool-cases allocated) [
            | inl yes' ↦
                rw (e, property_set, room, yes') (find-append store name key (copy value).1 e)
            | inr no' ↦ absurd (ne (rw (e, property_set, room, no') at h))
          ]
        ]
        | inr (old, e) ↦ rw (e, property_set) (find-overwrite store name key (copy value).1 old e)
      ]
    where
      ne : out_of_memory ≡ ok → ⊥
      ne p = cc

  -- The names of a store are distinct.
  abbrev pub IsDistinct : Store ops → Type 0
  IsDistinct [] = Unit {0}
  IsDistinct ((k, v) ∷ store) = (property_find ops store k ≡ none) × IsDistinct store

  pub record IsStore (store : Store ops) : Type 0 where
    pub bounded : length store ≤ max_properties
    pub distinct : IsDistinct store

  IsDistinct-append :
      (store : Store ops) (name : Name) (value : Variant)
      → property_find ops store name ≡ none
      → IsDistinct store
      → IsDistinct (store ++ ((name, value) ∷ []))
  unfolding property_find
  IsDistinct-append [] name value h d = (refl, tt)
  IsDistinct-append ((k, v) ∷ store) name value h d = (
    ground (arith, find-append store name k value, same_name_comm k name),
    IsDistinct-append store name value (ground arith) d.1,
  )

  missing-overwrite :
      (store : Store ops) (name key : Name) (value : Variant)
      → property_find ops store key ≡ none
      → property_find ops (overwrite ops store name value) key ≡ none
  unfolding property_find overwrite
  missing-overwrite [] name key value h = refl
  missing-overwrite ((k, v) ∷ store) name key value h =
      ground (arith, missing-overwrite store name key value)

  IsDistinct-overwrite :
      (store : Store ops) (name : Name) (value : Variant)
      → IsDistinct store
      → IsDistinct (overwrite ops store name value)
  unfolding overwrite
  IsDistinct-overwrite [] name value d = tt
  IsDistinct-overwrite ((k, v) ∷ store) name value d = elim (Bool-cases (same_name k name)) [
    | inl e ↦ rw e d
    | inr e ↦
        rw e (missing-overwrite store name k value d.0, IsDistinct-overwrite store name value d.1)
  ]

  length-overwrite :
      (store : Store ops) (name : Name) (value : Variant)
      → length (overwrite ops store name value) ≡ length store
  unfolding overwrite
  length-overwrite [] name value = refl
  length-overwrite ((k, v) ∷ store) name value = ground (arith, length-overwrite store name value)

  -- Whatever a `property_set` answers, the store keeps its bound and its names stay distinct.
  pub property_set-IsStore :
      (allocated : Bool) (store : Store ops) (name : Option Name) (value : Variant)
      → IsStore store
      → IsStore (property_set ops allocated store name value).1
  unfolding property_set
  property_set-IsStore allocated store none value s = s
  property_set-IsStore allocated store (some name) value s =
      elim (Option-cases (property_find ops store name)) [
        | inl e ↦ elim (Bool-cases (length store == max_properties)) [
          | inl full ↦ rw (e, property_set, full) s
          | inr room ↦ elim (Bool-cases allocated) [
            | inl yes' ↦
                let more = length-append store ((name, (copy value).1) ∷ []) in
                let short = less store s.bounded room in
                rw (e, property_set, room, yes')
                  (record {
                    bounded = omega arith;
                    distinct = IsDistinct-append store name (copy value).1 e s.distinct;
                  })
            | inr no' ↦ rw (e, property_set, room, no') s
          ]
        ]
        | inr (old, e) ↦
            rw (e, property_set)
              (record {
                bounded = omega (arith, length-overwrite store name (copy value).1, s.bounded);
                distinct = IsDistinct-overwrite store name (copy value).1 s.distinct;
              })
      ]
    where
      less :
          (st : Store ops)
          → length st ≤ max_properties
          → (length st == max_properties) ≡ false
          → length st < 64
      less st h k = ground arith

  -- A failed allocation, a full store and a missing name leave the store as it was.
  pub property_set-unchanged :
      (allocated : Bool) (store : Store ops) (name : Option Name) (value : Variant)
      → (copy value).0 ≡ ok
      → (property_set ops allocated store name value).0 ≢ ok
      → (property_set ops allocated store name value).1 ≡ store
  unfolding property_set
  property_set-unchanged allocated store none value c h = refl
  property_set-unchanged allocated store (some name) value c h =
      elim (Option-cases (property_find ops store name)) [
        | inl e ↦ elim (Bool-cases (length store == max_properties)) [
          | inl full ↦ rw (e, property_set, full)
          | inr room ↦ elim (Bool-cases allocated) [
            | inl yes' ↦ absurd (h (rw (e, property_set, room, yes') c))
            | inr no' ↦ rw (e, property_set, room, no')
          ]
        ]
        | inr (old, e) ↦ absurd (h (rw (e, property_set) c))
      ]
