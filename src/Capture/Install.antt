-- ===== src/Capture/Install.antt =====
-- The installation of the hooks: `patch_bitblt_import`, `patch_send_input_import`, `patch_gvinput_send`,
-- `uu_install_wayland_capture_hook` and `uu_wayland_capture_hook_thread` of
-- src/wayland_capture_hook.c.
-- A module is its place in the list of the loaded ones, so that two handles can be the same.
pub mod Laws
use driver_uu_remote.Base.{
  ℕ, zero, suc, Bool, true, false, not, ◌&&◌, ◌||◌, List, [], ◌∷◌, ◌++◌, Option, none, some, take,
  drop, set, get_elem?, ◌==◌, if◌then◌else◌,
}
use driver_uu_remote.Amf.Store.{Name, same_name}
use driver_uu_remote.Import.{Image, patch_import, first_of}

-- `code` is the memory from GVINPUT_SEND_RVA on.
pub record Module : Type 0 where
  pub image : Image
  pub size_of_image : ℕ
  pub code : List ℕ

pub record Hooks : Type 0 where
  pub modules : List Module
  pub original_bitblt : Option ℕ
  pub original_send_input : Option ℕ

-- Addresses of the two replacements, and whether each call of VirtualProtect that unlocks succeeds:
-- for the given module, for the process, for its code, and for BitBlt.
pub record HookPlan : Type 0 where
  pub bitblt_hook : ℕ
  pub send_input_hook : ℕ
  pub unlocked_module : Bool
  pub unlocked_process : Bool
  pub unlocked_code : Bool
  pub unlocked_bitblt : Bool

-- "gdi32.dll", "BitBlt", "user32.dll" and "SendInput"
abbrev pub gdi32_dll : Name
gdi32_dll = 103 ∷ 100 ∷ 105 ∷ 51 ∷ 50 ∷ 46 ∷ 100 ∷ 108 ∷ 108 ∷ []

abbrev pub bit_blt : Name
bit_blt = 66 ∷ 105 ∷ 116 ∷ 66 ∷ 108 ∷ 116 ∷ []

abbrev pub user32_dll : Name
user32_dll = 117 ∷ 115 ∷ 101 ∷ 114 ∷ 51 ∷ 50 ∷ 46 ∷ 100 ∷ 108 ∷ 108 ∷ []

abbrev pub send_input : Name
send_input = 83 ∷ 101 ∷ 110 ∷ 100 ∷ 73 ∷ 110 ∷ 112 ∷ 117 ∷ 116 ∷ []

abbrev pub gvinput_image_size : ℕ
gvinput_image_size = 0x1ea4000

abbrev pub expected : List ℕ
expected = 0x48 ∷ 0x89 ∷ 0x5c ∷ 0x24 ∷ 0x08 ∷ 0x48 ∷ []

abbrev pub replacement : List ℕ
replacement = 0xff ∷ 0x25 ∷ 0xfa ∷ 0xf7 ∷ 0x6c ∷ 0x01 ∷ []

-- The module at a handle; a null handle is none.
unfoldable pub module_at : List Module → Option ℕ → Option Module
module_at modules none = none
module_at modules (some handle) = get_elem? modules handle

unfoldable pub write_image : List Module → Option ℕ → Option Image → List Module
write_image modules (some handle) (some image) = elim (get_elem? modules handle) [
  | none ↦ modules
  | some m ↦ set modules handle (record m { image = image })
]
write_image modules none image = modules
write_image modules (some handle) none = modules

abbrev pub image_of : Option Module → Option Image
image_of none = none
image_of (some m) = some m.image

module _ (same_library : Name → Name → Bool) where
  unfoldable pub patch_send_input_import : Bool → ℕ → Option ℕ → Hooks → Bool × Hooks
  unfolding module_at write_image first_of
  patch_send_input_import unlocked capture handle hooks =
      let (answer, image, original) =
        patch_import same_library unlocked user32_dll send_input capture
          (image_of (module_at hooks.modules handle)) in
      (
        answer,
        record hooks {
          modules = write_image hooks.modules handle image;
          original_send_input = first_of original hooks.original_send_input;
        },
      )

  unfoldable pub patch_bitblt_import : Bool → ℕ → Option ℕ → Hooks → Bool × Hooks
  unfolding module_at write_image first_of
  patch_bitblt_import unlocked capture handle hooks =
      let (answer, image, original) =
        patch_import same_library unlocked gdi32_dll bit_blt capture
          (image_of (module_at hooks.modules handle)) in
      (
        answer,
        record hooks {
          modules = write_image hooks.modules handle image;
          original_bitblt = first_of original hooks.original_bitblt;
        },
      )

-- The code of the module, `unlocked` telling whether it can be written.
unfoldable pub patch_code : Bool → Module → Bool × Module
patch_code unlocked m =
    let patched = record m { code = replacement ++ drop 6 m.code } in
    if not (m.image.is_dos && (m.image.is_nt && (m.size_of_image == gvinput_image_size)))
    then (false, m)
    else if same_name (take 6 m.code) replacement
    then (true, m)
    else if not (same_name (take 6 m.code) expected)
    then (false, m)
    else if unlocked
    then (true, patched)
    else (false, m)

unfoldable pub patch_gvinput_send : Bool → ℕ → Hooks → Bool × Hooks
unfolding patch_code
patch_gvinput_send unlocked handle hooks = elim (get_elem? hooks.modules handle) [
  | none ↦ (false, hooks)
  | some m ↦
      let (answer, patched) = patch_code unlocked m in
      (answer, record hooks { modules = set hooks.modules handle patched })
]

module _ (same_library : Name → Name → Bool) where
  -- The part with the process's own module.
  unfoldable pub patch_process : HookPlan → Option ℕ → Bool × Hooks → Bool × Hooks
  unfolding patch_send_input_import patch_gvinput_send
  patch_process plan none state = state
  patch_process plan (some process) (input_patched, hooks) =
      let (answer, patched) =
        patch_send_input_import same_library plan.unlocked_process plan.send_input_hook
          (some process) hooks in
      let coded = (patch_gvinput_send plan.unlocked_code process patched).1 in
      let both = answer || input_patched in (both, if both then coded else patched)

  -- With the sections initialised; `started` is whether WSAStartup succeeds. `&&` calls
  -- `patch_bitblt_import` in any case.
  unfoldable pub uu_install_wayland_capture_hook :
      Bool → HookPlan → Option ℕ → Option ℕ → Hooks → Bool × Hooks
  unfolding patch_process patch_bitblt_import
  uu_install_wayland_capture_hook started plan process handle hooks =
      let sent =
        patch_send_input_import same_library plan.unlocked_module plan.send_input_hook handle
          hooks in
      let (input_patched, patched) = patch_process plan process sent in
      let (answer, done) =
        patch_bitblt_import same_library plan.unlocked_bitblt plan.bitblt_hook handle patched in
      if started then (answer && input_patched, done) else (false, hooks)

  -- The search for "streamer.dll": what each of the 200 turns finds.
  unfoldable pub find_streamer : ℕ → List (Option ℕ) → Option ℕ
  find_streamer zero answers = none
  find_streamer (suc attempts) [] = none
  find_streamer (suc attempts) (some streamer ∷ answers) = some streamer
  find_streamer (suc attempts) (none ∷ answers) = find_streamer attempts answers

  unfoldable pub uu_wayland_capture_hook_thread :
      Bool → HookPlan → Option ℕ → List (Option ℕ) → Hooks → ℕ × Hooks
  unfolding find_streamer uu_install_wayland_capture_hook
  uu_wayland_capture_hook_thread started plan process answers hooks =
      elim (find_streamer 200 answers) [
        | none ↦ (1, hooks)
        | some streamer ↦
            let (answer, done) =
              uu_install_wayland_capture_hook started plan process (some streamer) hooks in
            ((if answer then 0 else 1), done)
      ]
