-- ===== src/Capture/Install/Laws.antt =====
-- What the installation has patched where it answers true.
use driver_uu_remote.Base.{
  ℕ, zero, suc, ◌≡◌, ◌⊎◌, not-false, take-append-drop, refl, sym, ap, ◌∙◌, inl, inr, Bool, true,
  false, not, ◌&&◌, Bool-cases, Option-cases, List, [], ◌∷◌, ◌++◌, Option, none, some, take, drop,
  set, get_elem?, ◌==◌, if◌then◌else◌, if-cases, false-ne-true, both,
}
use driver_uu_remote.Amf.Store.{Name, same_name}
use driver_uu_remote.Amf.Store.Laws.{same_name-eq}
use driver_uu_remote.Import.{Image, patch_import}
use driver_uu_remote.Import.Laws.{resolved}
use driver_uu_remote.Import.Resolution.{patch_import-resolved}
use driver_uu_remote.Capture.Install.{
  Module, Hooks, HookPlan, gdi32_dll, bit_blt, gvinput_image_size, expected, replacement, module_at,
  write_image, image_of, patch_bitblt_import, patch_send_input_import, patch_process, patch_code,
  uu_install_wayland_capture_hook,
}

get_elem?-set_self :
    {A : Type 0} (xs : List A) (i : ℕ) (x v : A)
    → get_elem? xs i ≡ some x
    → get_elem? (set xs i v) i ≡ some v
get_elem?-set_self [] i x v h = cc
get_elem?-set_self (y ∷ xs) zero x v h = refl
get_elem?-set_self (y ∷ xs) (suc i) x v h = get_elem?-set_self xs i x v h

-- A patched image is found where it has been written, if the handle was a module's.
image_of-write_image :
    (modules : List Module) (handle : Option ℕ) (m : Module) (image : Option Image) (after : Image)
    → module_at modules handle ≡ some m
    → image ≡ some after
    → image_of (module_at (write_image modules handle image) handle) ≡ some after
unfolding module_at write_image
image_of-write_image modules none m image after h e = cc
image_of-write_image modules (some handle) m none after h e = cc
image_of-write_image modules (some handle) m (some image) after h e =
    let there : get_elem? modules handle ≡ some m = h in
    rw
      (
        write_image,
        there,
        module_at,
        get_elem?-set_self modules handle m (record m { image = image }) there,
      )
      e

module _ (same_library : Name → Name → Bool) where
  -- A call that answers true is one for a module, and stores a module again.
  patched_image :
      (unlocked : Bool) (library function : Name) (r : ℕ) (image : Option Image)
      → (patch_import same_library unlocked library function r image).0 ≡ true
      → (before after : Image) × (image ≡ some before)
        × ((patch_import same_library unlocked library function r image).1 ≡ some after)
  unfolding patch_import
  patched_image unlocked library function r none h = cc
  patched_image unlocked library function r (some image) h =
      elim (Bool-cases (image.is_dos && image.is_nt)) [
        | inr e ↦ false-ne-true (rw e at h)
        | inl e ↦ rw e (image, _, refl, refl)
      ]

  patch_bitblt_import-resolved :
      (unlocked : Bool) (capture : ℕ) (handle : Option ℕ) (hooks : Hooks)
      → (patch_bitblt_import same_library unlocked capture handle hooks).0 ≡ true
      → resolved same_library gdi32_dll bit_blt (
          image_of (
            module_at
              (patch_bitblt_import same_library unlocked capture handle hooks).1.modules
              handle))
        ≡ some capture
  unfolding patch_bitblt_import
  patch_bitblt_import-resolved unlocked capture handle hooks h =
      let image = image_of (module_at hooks.modules handle) in
      let patched = patch_import same_library unlocked gdi32_dll bit_blt capture image in
      let found =
        (patch_import-resolved same_library unlocked gdi32_dll bit_blt capture image h).0 in
      let (before, after, was, becomes) =
        patched_image unlocked gdi32_dll bit_blt capture image h in
      elim (Option-cases (module_at hooks.modules handle)) [
        | inl n ↦ absurd (none-ne (ap image_of (sym n) ∙ was))
        | inr (m, n) ↦
            ap (resolved same_library gdi32_dll bit_blt)
              (image_of-write_image hooks.modules handle m patched.1 after n becomes ∙ sym becomes)
            ∙ found
      ]
    where
      none-ne : {i : Image} → none ≡ some i → ⊥
      none-ne p = cc

  -- Where the installation of the capture hook answers true, WSAStartup has succeeded and the
  -- module's BitBlt resolves to the hook's, whether or not the module is the process's own.
  pub uu_install_wayland_capture_hook-resolved :
      (started : Bool) (plan : HookPlan) (process handle : Option ℕ) (hooks : Hooks)
      → (uu_install_wayland_capture_hook same_library started plan process handle hooks).0 ≡ true
      → let after =
          (uu_install_wayland_capture_hook same_library started plan process handle hooks).1 in
        (started ≡ true)
        × (resolved same_library gdi32_dll bit_blt (image_of (module_at after.modules handle))
            ≡ some plan.bitblt_hook)
  unfolding uu_install_wayland_capture_hook
  uu_install_wayland_capture_hook-resolved false plan process handle hooks h = cc
  uu_install_wayland_capture_hook-resolved true plan process handle hooks h =
      let sent =
        patch_send_input_import same_library plan.unlocked_module plan.send_input_hook handle
          hooks in
      let (input_patched, patched) = patch_process same_library plan process sent in
      let (answered, rest) =
        both
          (patch_bitblt_import same_library plan.unlocked_bitblt plan.bitblt_hook handle patched).0
          input_patched h in
      (
        refl,
        patch_bitblt_import-resolved plan.unlocked_bitblt plan.bitblt_hook handle patched answered,
      )

-- The patch of the code writes the six bytes over the six that it expects, or over themselves, of a
-- module of the known size, and leaves the memory alone where it answers false.
pub patch_code-lem :
    (unlocked : Bool) (m : Module)
    → let (answer, after) = patch_code unlocked m in
      ((answer ≡ false) × (after ≡ m))
      ⊎ ((answer ≡ true)
          × (after ≡ record m { code = replacement ++ drop 6 m.code })
          × ((take 6 m.code ≡ replacement) ⊎ (take 6 m.code ≡ expected)))
unfolding patch_code
patch_code-lem unlocked m =
    let Outcome : Bool × Module → Type 0 = λ r.
      ((r.0 ≡ false) × (r.1 ≡ m))
      ⊎ ((r.0 ≡ true)
          × (r.1 ≡ record m { code = replacement ++ drop 6 m.code })
          × ((take 6 m.code ≡ replacement) ⊎ (take 6 m.code ≡ expected))) in
    let patched = record m { code = replacement ++ drop 6 m.code } in
    let last = if unlocked then (true, patched) else (false, m) in
    let third = if not (same_name (take 6 m.code) expected) then (false, m) else last in
    let second = if same_name (take 6 m.code) replacement then (true, m) else third in
    if-cases Outcome
      (not (m.image.is_dos && (m.image.is_nt && (m.size_of_image == gvinput_image_size))))
      (false, m) second (λ bad. inl (refl, refl))
      (λ good.
        if-cases Outcome (same_name (take 6 m.code) replacement) (true, m) third
          (λ done.
            let same = same_name-eq (take 6 m.code) replacement done in
            inr (refl, again same, inl same))
          (λ fresh.
            if-cases Outcome (not (same_name (take 6 m.code) expected)) (false, m) last
              (λ strange. inl (refl, refl))
              (λ known.
                let same =
                  same_name-eq (take 6 m.code) expected
                    (not-false (same_name (take 6 m.code) expected) known) in
                if-cases Outcome unlocked (true, patched) (false, m)
                  (λ u. inr (refl, refl, inr same)) (λ l. inl (refl, refl)))))
  where
    again : take 6 m.code ≡ replacement → m ≡ record m { code = replacement ++ drop 6 m.code }
    again same =
        ap (λ c. record m { code = c })
          (sym (take-append-drop 6 m.code) ∙ ap (λ xs. xs ++ drop 6 m.code) same)
