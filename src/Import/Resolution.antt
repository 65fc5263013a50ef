-- ===== src/Import/Resolution.antt =====
-- What a call of `patch_import` makes of the functions that a module imports.
use driver_uu_remote.Base.{
  ℕ, ◌≡◌, ◌≢◌, refl, inl, inr, Bool, true, false, ◌&&◌, Option, none, some, Bool-cases, ◌==◌,
  ==_iff,
}
use driver_uu_remote.Amf.Store.{Name, same_name}
use driver_uu_remote.Import.{Image, patch_import, finish_patch}
use driver_uu_remote.Import.Laws.{
  imported-redirect_import, imported-redirect_import_ne, refused, already, redirected,
  patch_import-Patched, patch_descriptors-outcome, outcome, resolved,
}

-- A module with both signatures.
abbrev pub is_signed : Option Image → Bool
is_signed none = false
is_signed (some image) = image.is_dos && image.is_nt

module _ (same_library : Name → Name → Bool) (unlocked : Bool) (library function : Name)
    (r : ℕ) where
  -- A call of `patch_import` that answers true leaves a module in which the function resolves to
  -- the replacement, while every other function of every library resolves to what it did.
  pub patch_import-resolved :
      (image : Option Image)
      → (patch_import same_library unlocked library function r image).0 ≡ true
      → let after = (patch_import same_library unlocked library function r image).1 in
        (resolved same_library library function after ≡ some r)
        × ((lib other : Name)
            → same_name function other ≡ false
            → resolved same_library lib other after ≡ resolved same_library lib other image)
  patch_import-resolved none h = unfold patch_import in cc
  patch_import-resolved (some image) h =
      elim (patch_import-Patched same_library unlocked library function r image) [
        | refused n same o ↦ cc
        | already y same o f ↦ rw same (f, λ lib other ne. refl)
        | redirected a y f o same ↦ rw same (
          imported-redirect_import same_library library function r image.descriptors a f,
          λ lib other ne.
              imported-redirect_import_ne same_library library function lib other r
                image.descriptors ne,
        )
      ]

  -- A call that answers false, for any module or none, writes nothing and stores nothing.
  pub patch_import_failed :
      (image : Option Image)
      → (patch_import same_library unlocked library function r image).0 ≡ false
      → ((patch_import same_library unlocked library function r image).1 ≡ image)
        × ((patch_import same_library unlocked library function r image).2 ≡ none)
  patch_import_failed none h = unfold patch_import in (refl, refl)
  patch_import_failed (some image) h =
      elim (patch_import-Patched same_library unlocked library function r image) [
        | refused n same o ↦ (same, o)
        | already y same o f ↦ cc
        | redirected a y f o same ↦ cc
      ]

  -- The address that a call which answers true stores, unless it finds its own replacement.
  pub patch_import_stored :
      (image : Option Image) (a : ℕ)
      → (patch_import same_library unlocked library function r image).0 ≡ true
      → resolved same_library library function image ≡ some a
      → a ≢ r
      → (patch_import same_library unlocked library function r image).2 ≡ some a
  patch_import_stored none a h f ne = unfold patch_import in cc
  patch_import_stored (some image) a h f ne =
      elim (patch_import-Patched same_library unlocked library function r image) [
        | refused n same o ↦ cc
        | already y same o g ↦ absurd (ne cc)
        | redirected b y g o same ↦ cc
      ]

  -- Only a module with both signatures is patched, and it keeps them.
  pub patch_import-is_signed :
      (image : Option Image)
      → (patch_import same_library unlocked library function r image).0 ≡ true
      → is_signed (patch_import same_library unlocked library function r image).1 ≡ true
  patch_import-is_signed none h = unfold patch_import in cc
  patch_import-is_signed (some image) h = elim (Bool-cases (image.is_dos && image.is_nt)) [
    | inr bad ↦ unfold patch_import in absurd (false-ne (rw bad at h))
    | inl good ↦ elim (patch_import-Patched same_library unlocked library function r image) [
      | refused n same o ↦ cc
      | already y same o f ↦ rw same good
      | redirected a y f o same ↦ rw same good
    ]
  ]
    where
      false-ne : false ≢ true
      false-ne p = cc

  -- A module that has both signatures and resolves the function to the replacement already.
  pub patch_import_done :
      (image : Option Image)
      → is_signed image ≡ true
      → resolved same_library library function image ≡ some r
      → patch_import same_library unlocked library function r image ≡ (true, image, none)
  unfolding patch_import outcome finish_patch
  patch_import_done none good f = cc
  patch_import_done (some image) good f =
      let s : (r == r) ≡ true = (==_iff r r).1 refl in
      rw
        (
          patch_descriptors-outcome same_library unlocked library function r image.descriptors,
          good,
          f,
          s,
        )
        refl
