-- ===== src/Proxy.antt =====
-- The Direct3D 11 proxy, src/d3d11_proxy.c: which processes it hooks, and how the functions that create
-- devices go on to DXVK's and install the video bridge.
-- `lstrcmpiW` belongs to Windows, and so do the modules and their exports.
pub mod Laws
use driver_uu_remote.Base.{
  ℕ, ◌+◌, ◌-◌, ◌^◌, min, Bool, true, false, not, ◌&&◌, ◌||◌, List, [], ◌∷◌, ◌++◌, Option, none,
  some, length, ltb, leb, ◌==◌, if◌then◌else◌,
}
use driver_uu_remote.Amf.Store.{Name}

abbrev pub path_capacity : ℕ
path_capacity = 260

-- "0", "false", "GameViewerServer.exe", "GameViewerServer.real.exe"
abbrev zero_text : Name
zero_text = 48 ∷ []

abbrev false_text : Name
false_text = 102 ∷ 97 ∷ 108 ∷ 115 ∷ 101 ∷ []

abbrev pub server_stem : Name → Name
server_stem more =
    71 ∷ 97 ∷ 109 ∷ 101 ∷ 86 ∷ 105 ∷ 101 ∷ 119 ∷ 101 ∷ 114 ∷ 83 ∷ 101 ∷ 114 ∷ 118 ∷ 101 ∷ 114 ∷ more

abbrev pub server_exe : Name
server_exe = server_stem (46 ∷ 101 ∷ 120 ∷ 101 ∷ [])

abbrev pub server_real_exe : Name
server_real_exe = server_stem (46 ∷ 114 ∷ 101 ∷ 97 ∷ 108 ∷ 46 ∷ 101 ∷ 120 ∷ 101 ∷ [])

abbrev pub path_separator : ℕ → Bool
path_separator c = (c == 92) || (c == 47)

unfoldable pub has_separator : List ℕ → Bool
has_separator [] = false
has_separator (c ∷ cs) = path_separator c || has_separator cs

-- What stands behind the last separator.
unfoldable pub file_name : List ℕ → List ℕ
unfolding has_separator
file_name [] = []
file_name (c ∷ cs) =
    let rest = file_name cs in
    if has_separator cs then rest else if path_separator c then cs else c ∷ cs

-- What the environment and the system hold for the process.
pub record Process : Type 0 where
  pub force : Option Name
  pub disable : Option Name
  pub wayland_display : Option Name
  pub path : List ℕ

module _ (same_text : Name → Name → Bool) where
  -- A text of more than seven characters does not fit.
  unfoldable pub environment_enabled : Option Name → Bool
  environment_enabled none = false
  environment_enabled (some value) =
      ltb 0 (length value)
      && (ltb (length value) 8
          && (not (same_text value zero_text) && not (same_text value false_text)))

  unfoldable pub controlled_host_process : Process → Bool
  unfolding environment_enabled file_name
  controlled_host_process process =
      let size = min (length process.path) path_capacity in
      let name = file_name process.path in
      if environment_enabled process.force
      then true
      else if environment_enabled process.disable
      then false
      else if (size == 0) || leb path_capacity size
      then false
      else same_text name server_exe || same_text name server_real_exe

  -- Whether `DllMain` starts the thread; `attached` is whether it is called for the process's start.
  unfoldable pub dll_main : Bool → Process → Bool
  unfolding controlled_host_process
  dll_main attached process =
      let displayed = elim process.wayland_display as (λ w. Bool) [
        | none ↦ false
        | some display ↦ ltb 0 (length display)
      ] in
      attached && (displayed && controlled_host_process process)

-- The functions of "d3d11_dxvk.dll" that are called.
pub data Export : Type 0 where
  d3d11_create_device d3d11_create_device_and_swap_chain d3d11_core_create_device : Export
  d3d11_on_12_create_device : Export

-- `dxvk_module`, the devices and contexts for which the bridge is installed, and the references that
-- are held on contexts.
pub record ProxyState : Type 0 where
  pub dxvk_module : Option ℕ
  pub installed : List (ℕ × ℕ)
  pub references : ℕ

-- What `LoadLibraryW` and `GetProcAddress` answer, and the immediate context of a device.
pub record ProxyWorld : Type 0 where
  pub dxvk : Option ℕ
  pub dxvk_export : ℕ → Export → Option ℕ
  pub bridge : Option ℕ
  pub install : ℕ → Bool
  pub immediate : ℕ → Option ℕ

unfoldable pub loaded : Option ℕ → Option ℕ → Option ℕ
loaded none found = found
loaded (some handle) found = some handle

unfoldable pub export_of : ProxyWorld → Export → Option ℕ → Option ℕ
export_of world name none = none
export_of world name (some handle) = world.dxvk_export handle name

unfoldable pub dxvk_proc : ProxyWorld → Export → ProxyState → Option ℕ × ProxyState
unfolding loaded export_of
dxvk_proc world name state =
    let found = loaded state.dxvk_module world.dxvk in
    (export_of world name found, record state { dxvk_module = found })

unfoldable pub installable : ProxyWorld → Bool
installable world = elim world.bridge [ none ↦ false | some bridge ↦ world.install bridge ]

unfoldable pub call_install : ProxyWorld → ℕ → Option ℕ → ProxyState → ProxyState
unfolding installable
call_install world device none state = state
call_install world device (some context) state =
    if installable world
    then record state { installed = state.installed ++ ((device, context) ∷ []) }
    else state

-- A context that is missing is taken from the device, and released at the end.
unfoldable pub with_context : ProxyWorld → ℕ → Option ℕ → ProxyState → ProxyState
unfolding call_install
with_context world device (some context) state = call_install world device (some context) state
with_context world device none state = elim (world.immediate device) [
  | none ↦ call_install world device none state
  | some context ↦
      let held = record state { references = state.references + 1 } in
      let after = call_install world device (some context) held in
      record after { references = after.references - 1 }
]

unfoldable pub install_bridge : ProxyWorld → Option ℕ → Option ℕ → ProxyState → ProxyState
unfolding with_context
install_bridge world none context state = state
install_bridge world (some device) context state = with_context world device context state

-- What a function of DXVK answers: an HRESULT, and what it writes for the device and the context, where
-- `none` is a null pointer of the caller's, or null written.
pub record Created : Type 0 where
  pub hr : ℕ
  pub device : Option ℕ
  pub context : Option ℕ

abbrev pub e_fail : ℕ
e_fail = 0x80004005

abbrev pub succeeded : ℕ → Bool
succeeded hr = ltb hr (2 ^ 31)

-- `create` runs the function at an address with the caller's arguments.
module _ (world : ProxyWorld) (create : ℕ → Created) where
  unfoldable pub finish_create : Option ℕ → Created → ProxyState → ℕ × ProxyState
  unfolding install_bridge
  finish_create context created state =
      let bridged = install_bridge world created.device context state in
      (created.hr, if succeeded created.hr then bridged else state)

  unfoldable pub create_device : ProxyState → ℕ × ProxyState
  unfolding dxvk_proc finish_create
  create_device state =
      let (function, state) = dxvk_proc world d3d11_create_device state in
      elim function [
        | none ↦ (e_fail, state)
        | some address ↦ finish_create (create address).context (create address) state
      ]

  unfoldable pub create_device_and_swap_chain : ProxyState → ℕ × ProxyState
  unfolding dxvk_proc finish_create
  create_device_and_swap_chain state =
      let (function, state) = dxvk_proc world d3d11_create_device_and_swap_chain state in
      elim function [
        | none ↦ (e_fail, state)
        | some address ↦ finish_create (create address).context (create address) state
      ]

  unfoldable pub core_create_device : ProxyState → ℕ × ProxyState
  unfolding dxvk_proc finish_create
  core_create_device state =
      let (function, state) = dxvk_proc world d3d11_core_create_device state in
      elim function [
        | none ↦ (e_fail, state)
        | some address ↦ finish_create none (create address) state
      ]

  unfoldable pub on_12_create_device : ProxyState → ℕ × ProxyState
  unfolding dxvk_proc finish_create
  on_12_create_device state =
      let (function, state) = dxvk_proc world d3d11_on_12_create_device state in
      elim function [
        | none ↦ (e_fail, state)
        | some address ↦ finish_create (create address).context (create address) state
      ]
