-- ===== src/Tests/Hooking.antt =====
-- The patched import tables and the proxy at concrete inputs.
use driver_uu_remote.Base.{ℕ, ◌≡◌, refl, Bool, true, false, [], ◌∷◌, none, some, arith}
use driver_uu_remote.Amf.Store.{Name, same_name}
use driver_uu_remote.Import.{Thunk, Image, is_function, patch_import}
use driver_uu_remote.Import.Laws.{imported, resolved}
use driver_uu_remote.Import.Resolution.{patch_import-resolved}
use driver_uu_remote.Import.Compat.{
  config_code, GetChild, compat_cm_get_child, setupapi_dll, cm_get_child,
  cm_query_and_remove_subtree, CompatState, Replacements, uu_install_server_compat_hook,
}
use driver_uu_remote.Import.Compat.Laws.{install-install, install-compat_cm_get_child}
use driver_uu_remote.Capture.Install.{
  Module, Hooks, HookPlan, gdi32_dll, bit_blt, user32_dll, send_input, module_at, image_of,
  expected, uu_install_wayland_capture_hook,
}
use driver_uu_remote.Capture.Install.Laws.{uu_install_wayland_capture_hook-resolved}
use driver_uu_remote.Proxy.{ProxyState, ProxyWorld, Created}

abbrev thunk : Name → ℕ → Thunk
thunk name address = record { name = some name; address = address }

abbrev server_image : Image
server_image = record {
  is_dos = true;
  is_nt = true;
  descriptors =
      record {
        library = setupapi_dll;
        thunks =
            record { name = none; address = 3 }
            ∷ thunk cm_get_child 11
            ∷ thunk cm_query_and_remove_subtree 12
            ∷ [];
      }
      ∷ [];
}

patches : (patch_import same_name true setupapi_dll cm_get_child 21 (some server_image)).0 ≡ true
unfolding patch_import
patches = refl

patch_import-resolved_example :
    let after = (patch_import same_name true setupapi_dll cm_get_child 21 (some server_image)).1 in
    (resolved same_name setupapi_dll cm_get_child after ≡ some 21)
    × ((lib other : Name)
        → same_name cm_get_child other ≡ false
        → resolved same_name lib other after ≡ resolved same_name lib other (some server_image))
patch_import-resolved_example =
    patch_import-resolved same_name true setupapi_dll cm_get_child 21 (some server_image) patches

abbrev fresh : CompatState
fresh = record {
  process = some server_image;
  original_cm_get_child = none;
  original_cm_query_and_remove_subtree = none;
}

abbrev ours : Replacements
ours = record { get_child = 21; query_and_remove = 22 }

installs : (uu_install_server_compat_hook same_name ours true true fresh).0 ≡ true
unfolding uu_install_server_compat_hook patch_import
installs = refl

install-install_example :
    let after = (uu_install_server_compat_hook same_name ours true true fresh).1 in
    uu_install_server_compat_hook same_name ours false false after ≡ (true, after)
install-install_example = install-install same_name ours true true fresh false false installs

abbrev windows : ℕ → GetChild
windows address has_child parent flags = (config_code address, some parent)

imports : resolved same_name setupapi_dll cm_get_child (some server_image) ≡ some 11
unfolding imported is_function
imports = refl

install-compat_cm_get_child_example :
    compat_cm_get_child windows
      (uu_install_server_compat_hook same_name ours true true fresh).1.original_cm_get_child
      true
      5
      0
    ≡ windows 11 true 5 0
install-compat_cm_get_child_example =
    install-compat_cm_get_child same_name ours true true fresh windows 11 true 5 0 installs imports
      eleven refl
  where
    eleven : ((◌≡◌ {A = ℕ}) 11 21) → ⊥
    eleven h = omega (arith, h)

abbrev host_module : Module
host_module = record {
  image = record {
    is_dos = true;
    is_nt = true;
    descriptors =
        record { library = gdi32_dll; thunks = thunk bit_blt 5 ∷ [] }
        ∷ record { library = user32_dll; thunks = thunk send_input 6 ∷ [] }
        ∷ [];
  };
  size_of_image = 0x1ea4000;
  code = expected;
}

abbrev hooks : Hooks
hooks = record { modules = host_module ∷ []; original_bitblt = none; original_send_input = none }

abbrev plan : HookPlan
plan = record {
  bitblt_hook = 31;
  send_input_hook = 32;
  unlocked_module = true;
  unlocked_process = true;
  unlocked_code = true;
  unlocked_bitblt = true;
}

hooked : (uu_install_wayland_capture_hook same_name true plan (some 0) (some 0) hooks).0 ≡ true
unfolding uu_install_wayland_capture_hook patch_import
hooked = refl

uu_install_wayland_capture_hook-resolved_example :
    let after = (uu_install_wayland_capture_hook same_name true plan (some 0) (some 0) hooks).1 in
    ((◌≡◌ {A = Bool}) true true)
    × (resolved same_name gdi32_dll bit_blt (image_of (module_at after.modules (some 0))) ≡ some 31)
uu_install_wayland_capture_hook-resolved_example =
    uu_install_wayland_capture_hook-resolved same_name true plan (some 0) (some 0) hooks hooked

abbrev dxvk_world : ProxyWorld
dxvk_world = record {
  dxvk = some 1;
  dxvk_export = λ handle name. some 40;
  bridge = some 2;
  install = λ handle. true;
  immediate = λ device. some 60;
}

abbrev creates : ℕ → Created
creates address = record { hr = 0; device = some 50; context = none }

abbrev unloaded : ProxyState
unloaded = record { dxvk_module = none; installed = []; references = 0 }
