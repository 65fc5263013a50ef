-- ===== src/Import.antt =====
-- Import tables and their patching: `patch_import` of src/server_compat_hook.c, and
-- `patch_send_input_import` and `patch_bitblt_import` of src/wayland_capture_hook.c, which repeat it
-- for one function each.
-- A module's memory is what the code reads of it: whether its two signatures are right, and the
-- descriptors up to the one without a name. Addresses are numbers.
pub mod Laws
pub mod Resolution
pub mod Compat
use driver_uu_remote.Base.{
  ℕ, Bool, true, false, not, ◌&&◌, ◌||◌, List, [], ◌∷◌, Option, none, some, ◌==◌, if◌then◌else◌,
}
use driver_uu_remote.Amf.Store.{Name, same_name}

-- An entry of the two parallel tables: `none` is an import by ordinal.
pub record Thunk : Type 0 where
  pub name : Option Name
  pub address : ℕ

pub record Descriptor : Type 0 where
  pub library : Name
  pub thunks : List Thunk

pub record Image : Type 0 where
  pub is_dos : Bool
  pub is_nt : Bool
  pub descriptors : List Descriptor

-- `strcmp` finds the function's name in an entry that has a name.
unfoldable pub is_function : Name → Thunk → Bool
is_function function thunk = elim thunk.name [ none ↦ false | some name ↦ same_name name function ]

-- What the scan of a table ends with: no entry of the name, or the answer of the whole call with the
-- table and the address that the entry had, if that was stored in `*original`.
pub data Scan {ℓ} (A : Type ℓ) : Type ℓ where
  missing : Scan A
  ended : Bool → A → Option ℕ → Scan A

-- A stored address takes the place of an older one.
unfoldable pub first_of : Option ℕ → Option ℕ → Option ℕ
first_of none rest = rest
first_of (some address) rest = some address

-- The entry that is found. `unlocked` tells whether the first VirtualProtect succeeds.
unfoldable pub patch_entry : Bool → ℕ → Thunk → Bool × Thunk × Option ℕ
patch_entry unlocked replacement thunk =
    if thunk.address == replacement
    then (true, thunk, none)
    else if unlocked
    then (true, record thunk { address = replacement }, some thunk.address)
    else (false, thunk, none)

unfoldable pub keep {ℓ κ} : {A : Type ℓ} {B : Type κ} → (A → B) → Scan A → Scan B
keep f missing = missing
keep f (ended answer rest original) = ended answer (f rest) original

-- The inner loop.
unfoldable pub patch_thunks : Bool → Name → ℕ → List Thunk → Scan (List Thunk)
unfolding patch_entry keep is_function
patch_thunks unlocked function replacement [] = missing
patch_thunks unlocked function replacement (thunk ∷ thunks) =
    let (answer, patched, original) = patch_entry unlocked replacement thunk in
    let rest = patch_thunks unlocked function replacement thunks in
    if is_function function thunk
    then ended answer (patched ∷ thunks) original
    else keep (λ more. thunk ∷ more) rest

-- `lstrcmpiA` belongs to Windows: it answers whether two names of libraries are the same but for the
-- case of their letters.
module _ (same_library : Name → Name → Bool) where
  -- The outer loop goes on behind a table without the function.
  unfoldable pub patch_descriptors :
      Bool → Name → Name → ℕ → List Descriptor → Scan (List Descriptor)
  unfolding patch_thunks keep
  patch_descriptors unlocked library function replacement [] = missing
  patch_descriptors unlocked library function replacement (d ∷ ds) =
      let rest =
        keep (λ more. d ∷ more) (patch_descriptors unlocked library function replacement ds) in
      let patched =
        keep (λ thunks. record d { thunks = thunks } ∷ ds)
          (patch_thunks unlocked function replacement d.thunks) in
      if same_library d.library library
      then elim patched [ missing ↦ rest | ended answer all original ↦ ended answer all original ]
      else rest

  unfoldable pub finish_patch : Image → Scan (List Descriptor) → Bool × Image × Option ℕ
  finish_patch image missing = (false, image, none)
  finish_patch image (ended answer descriptors original) =
      (answer, record image { descriptors = descriptors }, original)

  -- A null module is none.
  unfoldable pub patch_import :
      Bool → Name → Name → ℕ → Option Image → Bool × Option Image × Option ℕ
  unfolding patch_descriptors finish_patch
  patch_import unlocked library function replacement none = (false, none, none)
  patch_import unlocked library function replacement (some image) =
      let scanned =
        finish_patch image
          (patch_descriptors unlocked library function replacement image.descriptors) in
      if image.is_dos && image.is_nt
      then (scanned.0, some scanned.1, scanned.2)
      else (false, some image, none)
