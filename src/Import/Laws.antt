-- ===== src/Import/Laws.antt =====
-- Patching an import table redirects one function: the table is described by what it resolves a name
-- to, and by the one entry that is written.
use driver_uu_remote.Base.{
  ℕ, ◌≡◌, ◌≢◌, refl, sym, ap, ◌∙◌, subst, inl, inr, Bool, true, false, ◌&&◌, Bool-cases,
  Option-cases, List, [], ◌∷◌, Option, none, some, ◌==◌, ==_iff, if◌then◌else◌,
}
use driver_uu_remote.Amf.Store.{Name, same_name}
use driver_uu_remote.Amf.Store.Laws.{same_name-eq}
use driver_uu_remote.Import.{
  Thunk, Descriptor, Image, is_function, Scan, missing, ended, patch_entry, keep, patch_thunks,
  patch_descriptors, finish_patch, patch_import, first_of,
}

-- The address of the first entry of a name, and the table with that address replaced.
unfoldable pub address_of : Name → List Thunk → Option ℕ
address_of function [] = none
address_of function (t ∷ ts) =
    if is_function function t then some t.address else address_of function ts

unfoldable pub redirect : Name → ℕ → List Thunk → List Thunk
redirect function replacement [] = []
redirect function replacement (t ∷ ts) =
    if is_function function t
    then record t { address = replacement } ∷ ts
    else t ∷ redirect function replacement ts

-- What a scan ends with if the name resolves to the given address.
unfoldable pub outcome {ℓ} : {A : Type ℓ} → Bool → ℕ → Option ℕ → A → A → Scan A
outcome unlocked replacement none same patched = missing
outcome unlocked replacement (some address) same patched =
    if address == replacement
    then ended true same none
    else if unlocked
    then ended true patched (some address)
    else ended false same none

keep-outcome {ℓ κ} :
    {A : Type ℓ} {B : Type κ} (f : A → B) (unlocked : Bool) (r : ℕ) (found : Option ℕ)
    (same patched : A)
    → keep f (outcome unlocked r found same patched) ≡ outcome unlocked r found (f same) (f patched)
unfolding keep outcome
keep-outcome f unlocked r none same patched = refl
keep-outcome f true r (some a) same patched = elim (Bool-cases (a == r)) [
  | inl e ↦ rw e
  | inr e ↦ rw e
]
keep-outcome f false r (some a) same patched = elim (Bool-cases (a == r)) [
  | inl e ↦ rw e
  | inr e ↦ rw e
]

patch_entry-outcome :
    (unlocked : Bool) (r : ℕ) (t : Thunk) (ts : List Thunk)
    → ended
        (patch_entry unlocked r t).0
        ((patch_entry unlocked r t).1 ∷ ts)
        (patch_entry unlocked r t).2
      ≡ outcome unlocked r (some t.address) (t ∷ ts) (record t { address = r } ∷ ts)
unfolding patch_entry outcome
patch_entry-outcome true r t ts = elim (Bool-cases (t.address == r)) [ inl e ↦ rw e | inr e ↦ rw e ]
patch_entry-outcome false r t ts = elim (Bool-cases (t.address == r)) [
  | inl e ↦ rw e
  | inr e ↦ rw e
]

patch_thunks-outcome :
    (unlocked : Bool) (function : Name) (r : ℕ) (ts : List Thunk)
    → patch_thunks unlocked function r ts
      ≡ outcome unlocked r (address_of function ts) ts (redirect function r ts)
unfolding patch_thunks address_of redirect
patch_thunks-outcome unlocked function r [] = unfold outcome in refl
patch_thunks-outcome unlocked function r (t ∷ ts) = elim (Bool-cases (is_function function t)) [
  | inl e ↦ rw e (patch_entry-outcome unlocked r t ts)
  | inr e ↦
      rw (e, patch_thunks-outcome unlocked function r ts)
        (keep-outcome (λ more. t ∷ more) unlocked r (address_of function ts) ts
          (redirect function r ts))
]

address_of-redirect :
    (function : Name) (r : ℕ) (ts : List Thunk) (found : ℕ)
    → address_of function ts ≡ some found
    → address_of function (redirect function r ts) ≡ some r
unfolding address_of redirect is_function
address_of-redirect function r [] found h = cc
address_of-redirect function r (t ∷ ts) found h = elim (Bool-cases (is_function function t)) [
  | inl e ↦ rw (e, address_of, e) refl
  | inr e ↦ rw (e, address_of, e) (address_of-redirect function r ts found (rw e at h))
]

-- An entry of one name is not one of another.
is_function-ne :
    (function other : Name) (t : Thunk)
    → same_name function other ≡ false
    → is_function function t ≡ true
    → is_function other t ≡ false
unfolding is_function
is_function-ne function other t ne h = elim (Option-cases t.name) [
  | inl e ↦ rw e refl
  | inr (name, e) ↦
      rw e
        (subst (λ n. same_name n other ≡ false) (sym (same_name-eq name function (rw e at h))) ne)
]

address_of-redirect_ne :
    (function other : Name) (r : ℕ) (ts : List Thunk)
    → same_name function other ≡ false
    → address_of other (redirect function r ts) ≡ address_of other ts
unfolding address_of redirect
address_of-redirect_ne function other r [] ne = refl
address_of-redirect_ne function other r (t ∷ ts) ne = elim (Bool-cases (is_function function t)) [
  | inl e ↦
      let miss : is_function other t ≡ false = is_function-ne function other t ne e in
      let again : is_function other (record t { address = r }) ≡ false =
        unfold is_function in miss in
      rw (e, address_of, miss, again) refl
  | inr e ↦ elim (Bool-cases (is_function other t)) [
    | inl f ↦ rw (e, address_of, f) refl
    | inr f ↦ rw (e, address_of, f) (address_of-redirect_ne function other r ts ne)
  ]
]

keep_missing {ℓ κ} :
    {A : Type ℓ} {B : Type κ} (f : A → B) (unlocked : Bool) (r : ℕ) (same patched : A)
    → keep f (outcome unlocked r none same patched) ≡ missing
unfolding keep outcome
keep_missing f unlocked r same patched = refl

-- The same for a whole module, whose libraries are compared as Windows does.
module _ (same_library : Name → Name → Bool) where
  unfoldable pub address_in : Name → Name → Descriptor → Option ℕ
  unfolding address_of
  address_in library function d =
      if same_library d.library library then address_of function d.thunks else none

  unfoldable pub imported : Name → Name → List Descriptor → Option ℕ
  unfolding address_in first_of
  imported library function [] = none
  imported library function (d ∷ ds) =
      first_of (address_in library function d) (imported library function ds)

  unfoldable pub redirect_import : Name → Name → ℕ → List Descriptor → List Descriptor
  unfolding address_in redirect
  redirect_import library function r [] = []
  redirect_import library function r (d ∷ ds) = elim (address_in library function d) [
    | none ↦ d ∷ redirect_import library function r ds
    | some address ↦ record d { thunks = redirect function r d.thunks } ∷ ds
  ]

  pub patch_descriptors-outcome :
      (unlocked : Bool) (library function : Name) (r : ℕ) (ds : List Descriptor)
      → patch_descriptors same_library unlocked library function r ds
        ≡ outcome unlocked r
            (imported library function ds)
            ds
            (redirect_import library function r ds)
  unfolding patch_descriptors imported redirect_import address_in first_of
  patch_descriptors-outcome unlocked library function r [] = unfold outcome in refl
  patch_descriptors-outcome unlocked library function r (d ∷ ds) =
      let rest = patch_descriptors-outcome unlocked library function r ds in
      let kept =
        keep-outcome (λ more. d ∷ more) unlocked r (imported library function ds) ds
          (redirect_import library function r ds) in
      elim (Bool-cases (same_library d.library library)) [
        | inr e ↦ rw (e, rest, redirect_import) kept
        | inl e ↦
            rw (e, patch_thunks-outcome unlocked function r d.thunks)
              (elim (Option-cases (address_of function d.thunks)) [
                | inl n ↦
                    rw
                      (
                        n,
                        keep_missing (λ (ts : List Thunk). record d { thunks = ts } ∷ ds) unlocked r
                            d.thunks (redirect function r d.thunks),
                        rest,
                        redirect_import,
                        e,
                      )
                      kept
                | inr (a, n) ↦ elim (Bool-cases (a == r)) [
                  | inl s ↦ unfold outcome keep in rw (n, s) refl
                  | inr s ↦ elim (Bool-cases unlocked) [
                    | inl u ↦ unfold outcome keep in rw (n, s, u, redirect_import, e) refl
                    | inr u ↦ unfold outcome keep in rw (n, s, u) refl
                  ]
                ]
              ])
      ]

  address_in-redirect :
      (library function : Name) (r : ℕ) (d : Descriptor) (a : ℕ)
      → address_in library function d ≡ some a
      → address_in library function (record d { thunks = redirect function r d.thunks }) ≡ some r
  unfolding address_in
  address_in-redirect library function r d a h =
      elim (Bool-cases (same_library d.library library)) [
        | inl e ↦ rw e (address_of-redirect function r d.thunks a (rw (address_in, e) at h))
        | inr e ↦ absurd (none-ne (rw (address_in, e) at h))
      ]
    where
      none-ne : none ≢ some a
      none-ne p = cc

  address_in-redirect_ne :
      (function lib other : Name) (r : ℕ) (d : Descriptor)
      → same_name function other ≡ false
      → address_in lib other (record d { thunks = redirect function r d.thunks })
        ≡ address_in lib other d
  unfolding address_in
  address_in-redirect_ne function lib other r d ne =
      rw (address_of-redirect_ne function other r d.thunks ne) refl

  pub imported-redirect_import :
      (library function : Name) (r : ℕ) (ds : List Descriptor) (found : ℕ)
      → imported library function ds ≡ some found
      → imported library function (redirect_import library function r ds) ≡ some r
  unfolding imported redirect_import
  imported-redirect_import library function r [] found h = cc
  imported-redirect_import library function r (d ∷ ds) found h =
      elim (Option-cases (address_in library function d)) [
        | inl n ↦
            rw (n, imported, n, first_of)
              (imported-redirect_import library function r ds found
                (rw (imported, n, first_of) at h))
        | inr (a, n) ↦ rw (n, imported, address_in-redirect library function r d a n, first_of) refl
      ]

  -- Another function of any library resolves as before.
  pub imported-redirect_import_ne :
      (library function lib other : Name) (r : ℕ) (ds : List Descriptor)
      → same_name function other ≡ false
      → imported lib other (redirect_import library function r ds) ≡ imported lib other ds
  unfolding imported redirect_import
  imported-redirect_import_ne library function lib other r [] ne = refl
  imported-redirect_import_ne library function lib other r (d ∷ ds) ne =
      elim (Option-cases (address_in library function d)) [
        | inl n ↦
            rw (n, imported, imported-redirect_import_ne library function lib other r ds ne) refl
        | inr (a, n) ↦ rw (n, imported, address_in-redirect_ne function lib other r d ne) refl
      ]

  abbrev pub resolved : Name → Name → Option Image → Option ℕ
  resolved library function none = none
  resolved library function (some image) = imported library function image.descriptors

  -- What the call has done to a module with both signatures: nothing, where it fails or has been
  -- done before, or the one entry is redirected and its address stored.
  pub data Patched (library function : Name) (r : ℕ) (image : Image) (answer : Bool)
      (after : Option Image) (original : Option ℕ) : Type 0 where
    refused :
        answer ≡ false
        → after ≡ some image
        → original ≡ none
        → Patched library function r image answer after original
    already :
        answer ≡ true
        → after ≡ some image
        → original ≡ none
        → imported library function image.descriptors ≡ some r
        → Patched library function r image answer after original
    redirected :
        (a : ℕ)
        → answer ≡ true
        → imported library function image.descriptors ≡ some a
        → original ≡ some a
        → after
          ≡ some
              (record image { descriptors = redirect_import library function r image.descriptors })
        → Patched library function r image answer after original

  pub patch_import-Patched :
      (unlocked : Bool) (library function : Name) (r : ℕ) (image : Image)
      → let (answer, after, original) =
          patch_import same_library unlocked library function r (some image) in
        Patched library function r image answer after original
  unfolding patch_import
  patch_import-Patched unlocked library function r image =
      rw (patch_descriptors-outcome unlocked library function r image.descriptors)
        (elim (Bool-cases (image.is_dos && image.is_nt)) [
          | inr bad ↦ rw bad (refused refl refl refl)
          | inl good ↦ rw good (elim (Option-cases (imported library function image.descriptors)) [
            | inl n ↦ unfold outcome finish_patch in rw n (refused refl refl refl)
            | inr (a, n) ↦ elim (Bool-cases (a == r)) [
              | inl s ↦
                  unfold outcome finish_patch in
                  rw (n, s) (already refl refl refl (n ∙ ap some ((==_iff a r).0 s)))
              | inr s ↦ elim (Bool-cases unlocked) [
                | inl u ↦
                    unfold outcome finish_patch in rw (n, s, u) (redirected a refl n refl refl)
                | inr u ↦ unfold outcome finish_patch in rw (n, s, u) (refused refl refl refl)
              ]
            ]
          ])
        ])
