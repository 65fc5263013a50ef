-- ===== src/Import/Compat.antt =====
-- The functions that src/server_compat_hook.c puts in the place of two of Windows' device functions,
-- and their installation.
pub mod Laws
use driver_uu_remote.Base.{
  ℕ, Bool, true, false, ◌&&◌, List, [], ◌∷◌, Option, none, some, ◌==◌, if◌then◌else◌,
}
use driver_uu_remote.Amf.Store.{Name}
use driver_uu_remote.Import.{Image, patch_import, first_of}

-- The answers that the file names, and those of the function it replaces.
pub data ConfigRet : Type 0 where
  no_such_devnode failure : ConfigRet
  config_code : ℕ → ConfigRet

-- An answer with what is written to `*child`.
abbrev pub GetChild : Type 0
GetChild = Bool → ℕ → ℕ → ConfigRet × Option ℕ

-- `has_child` tells whether the caller passes an address, and `call` runs the function at one.
unfoldable pub compat_cm_get_child : (ℕ → GetChild) → Option ℕ → Bool → ℕ → ℕ → ConfigRet × Option ℕ
compat_cm_get_child call original has_child parent flags =
    let forwarded = elim original as (λ o. ConfigRet × Option ℕ) [
      | none ↦ (failure, none)
      | some address ↦ call address has_child parent flags
    ] in
    if parent == 0 then (no_such_devnode, (if has_child then some 0 else none)) else forwarded

unfoldable pub compat_cm_query_and_remove_subtree : ℕ → ConfigRet
compat_cm_query_and_remove_subtree ancestor =
    if ancestor == 0 then no_such_devnode else no_such_devnode

-- "setupapi.dll", "CM_Get_Child" and "CM_Query_And_Remove_SubTreeW"
abbrev pub setupapi_dll : Name
setupapi_dll = 115 ∷ 101 ∷ 116 ∷ 117 ∷ 112 ∷ 97 ∷ 112 ∷ 105 ∷ 46 ∷ 100 ∷ 108 ∷ 108 ∷ []

abbrev pub cm_get_child : Name
cm_get_child = 67 ∷ 77 ∷ 95 ∷ 71 ∷ 101 ∷ 116 ∷ 95 ∷ 67 ∷ 104 ∷ 105 ∷ 108 ∷ 100 ∷ []

abbrev pub cm_query_and_remove_subtree : Name
cm_query_and_remove_subtree =
    67 ∷ 77 ∷ 95 ∷ 81 ∷ 117 ∷ 101 ∷ 114 ∷ 121 ∷ 95 ∷ 65 ∷ 110 ∷ 100 ∷ 95 ∷ 82 ∷ 101 ∷ 109 ∷ 111
    ∷ 118 ∷ 101 ∷ 95 ∷ 83 ∷ 117 ∷ 98 ∷ 84 ∷ 114 ∷ 101 ∷ 101 ∷ 87 ∷ []

-- The process's own module and the file's two variables.
pub record CompatState : Type 0 where
  pub process : Option Image
  pub original_cm_get_child : Option ℕ
  pub original_cm_query_and_remove_subtree : Option ℕ

-- The addresses of the two functions above.
pub record Replacements : Type 0 where
  pub get_child : ℕ
  pub query_and_remove : ℕ

module _ (same_library : Name → Name → Bool) (replacements : Replacements) where
  -- Whether VirtualProtect succeeds, for each of the two calls.
  unfoldable pub uu_install_server_compat_hook : Bool → Bool → CompatState → Bool × CompatState
  unfolding first_of
  uu_install_server_compat_hook unlocked unlocked2 state =
      let (child_patched, process, original) =
        patch_import same_library unlocked setupapi_dll cm_get_child replacements.get_child
          state.process in
      let (remove_patched, process2, original2) =
        patch_import same_library unlocked2 setupapi_dll cm_query_and_remove_subtree
          replacements.query_and_remove process in
      (
        child_patched && remove_patched,
        record {
          process = process2;
          original_cm_get_child = first_of original state.original_cm_get_child;
          original_cm_query_and_remove_subtree =
              first_of original2 state.original_cm_query_and_remove_subtree;
        },
      )
