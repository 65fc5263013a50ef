-- ===== src/Import/Compat/Laws.antt =====
-- The installation of src/server_compat_hook.c: what the process imports afterwards, and what its
-- calls of the replaced function then do.
use driver_uu_remote.Base.{ℕ, ◌≡◌, ◌≢◌, refl, ◌∙◌, Bool, true, false, Option, some, ◌==◌, both}
use driver_uu_remote.Amf.Store.{Name, same_name}
use driver_uu_remote.Import.{Image, patch_import, first_of}
use driver_uu_remote.Import.Laws.{resolved}
use driver_uu_remote.Import.Resolution.{
  patch_import-resolved, patch_import_stored, patch_import-is_signed, patch_import_done,
}
use driver_uu_remote.Import.Compat.{
  GetChild, compat_cm_get_child, setupapi_dll, cm_get_child, cm_query_and_remove_subtree,
  CompatState, Replacements, uu_install_server_compat_hook,
}

two_functions : same_name cm_get_child cm_query_and_remove_subtree ≡ false
two_functions = refl

two_functions2 : same_name cm_query_and_remove_subtree cm_get_child ≡ false
two_functions2 = refl

module _ (same_library : Name → Name → Bool) (rs : Replacements) (unlocked unlocked2 : Bool)
    (state : CompatState) where
  abbrev first : Bool × Option Image × Option ℕ
  first = patch_import same_library unlocked setupapi_dll cm_get_child rs.get_child state.process

  abbrev second : Bool × Option Image × Option ℕ
  second =
      patch_import same_library unlocked2 setupapi_dll cm_query_and_remove_subtree
        rs.query_and_remove first.1

  -- Where the installation answers true, both functions of "setupapi.dll" resolve to their replacements
  -- in the process, and every other function of every library to what it did.
  pub install-resolved :
      (uu_install_server_compat_hook same_library rs unlocked unlocked2 state).0 ≡ true
      → let process =
          (uu_install_server_compat_hook same_library rs unlocked unlocked2 state).1.process in
        (resolved same_library setupapi_dll cm_get_child process ≡ some rs.get_child)
        × (resolved same_library setupapi_dll cm_query_and_remove_subtree process
            ≡ some rs.query_and_remove)
        × ((lib other : Name)
            → same_name cm_get_child other ≡ false
            → same_name cm_query_and_remove_subtree other ≡ false
            → resolved same_library lib other process
              ≡ resolved same_library lib other state.process)
  unfolding uu_install_server_compat_hook
  install-resolved h =
      let (h1, h2) = both first.0 second.0 h in
      let (r1, k1) =
        patch_import-resolved same_library unlocked setupapi_dll cm_get_child rs.get_child
          state.process h1 in
      let (r2, k2) =
        patch_import-resolved same_library unlocked2 setupapi_dll cm_query_and_remove_subtree
          rs.query_and_remove first.1 h2 in
      (
        k2 setupapi_dll cm_get_child two_functions2 ∙ r1,
        r2,
        λ lib other ne ne2. k2 lib other ne2 ∙ k1 lib other ne,
      )

  -- After an installation that answers true, installing again answers true and changes nothing,
  -- whatever VirtualProtect would answer.
  pub install-install :
      (unlocked3 unlocked4 : Bool)
      → (uu_install_server_compat_hook same_library rs unlocked unlocked2 state).0 ≡ true
      → let after = (uu_install_server_compat_hook same_library rs unlocked unlocked2 state).1 in
        uu_install_server_compat_hook same_library rs unlocked3 unlocked4 after ≡ (true, after)
  unfolding uu_install_server_compat_hook first_of
  install-install unlocked3 unlocked4 h =
      let (h1, h2) = both first.0 second.0 h in
      let (r1, r2, k) = install-resolved h in
      let signed =
        patch_import-is_signed same_library unlocked2 setupapi_dll cm_query_and_remove_subtree
          rs.query_and_remove first.1 h2 in
      rw
        (
          patch_import_done same_library unlocked3 setupapi_dll cm_get_child rs.get_child second.1
              signed r1,
          patch_import_done same_library unlocked4 setupapi_dll cm_query_and_remove_subtree
              rs.query_and_remove second.1 signed r2,
        )
        refl

  -- After an installation that answers true, a process that imported CM_Get_Child from the address
  -- `a`, other than the replacement's, gets the answer of the function at `a` for every parent but
  -- 0.
  pub install-compat_cm_get_child :
      (call : ℕ → GetChild) (a : ℕ) (has_child : Bool) (parent flags : ℕ)
      → (uu_install_server_compat_hook same_library rs unlocked unlocked2 state).0 ≡ true
      → resolved same_library setupapi_dll cm_get_child state.process ≡ some a
      → a ≢ rs.get_child
      → (parent == 0) ≡ false
      → compat_cm_get_child call
          (uu_install_server_compat_hook same_library rs unlocked unlocked2
            state).1.original_cm_get_child
          has_child
          parent
          flags
        ≡ call a has_child parent flags
  unfolding uu_install_server_compat_hook compat_cm_get_child first_of
  install-compat_cm_get_child call a has_child parent flags h f ne p =
      rw
        (
          patch_import_stored same_library unlocked setupapi_dll cm_get_child rs.get_child
              state.process a (both first.0 second.0 h).0 f ne,
          p,
        )
        refl
