-- ===== src/Proxy/Laws.antt =====
-- The proxy's functions: what they answer, for whom the bridge is installed, and that no reference on a
-- context is kept.
use driver_uu_remote.Base.{ℕ, ◌≡◌, ◌⊎◌, [], ◌∷◌, ◌++◌, Option, some}
use driver_uu_remote.Proxy.{ProxyState}

-- A bridge is installed at most, and for the device; nothing else changes.
pub record Bridged (device : Option ℕ) (before after : ProxyState) : Type 0 where
  pub loaded : after.dxvk_module ≡ before.dxvk_module
  pub balanced : after.references ≡ before.references
  pub installs :
      (after.installed ≡ before.installed)
      ⊎ ((d context : ℕ) × (device ≡ some d)
          × (after.installed ≡ before.installed ++ ((d, context) ∷ [])))
