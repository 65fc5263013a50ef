-- ===== src/Capture/Helper/Eis/Laws.antt =====
-- What the events of libei make of the slots of the EIS connection: `HasSlots` is kept by each of them.
use driver_uu_remote.Base.{
  ℕ, ◌≡◌, refl, inl, inr, Bool, true, false, Bool-cases, List, [], ◌∷◌, Option, none, some, All,
  ◌==◌,
}
use driver_uu_remote.Capture.Helper.Eis.{
  Capability, pointer, pointer_absolute, buttons, scroll, keyboard, EisEvent, device_resumed,
  device_paused, device_removed, disconnect, other, EisCall, motion_absolute, motion, button_button,
  scroll_discrete, keyboard_key, frame, Eis, clear_slot, clear_eis_device, reset_eis,
  set_eis_device, handle_event, handle_events,
}

module _ (has_capability : ℕ → Capability → Bool) where
  -- A slot for a capability.
  unfoldable pub Holds : Capability → Option ℕ → Type 0
  Holds capability none = Unit {0}
  Holds capability (some device) = has_capability device capability ≡ true

  -- A call on a device.
  unfoldable pub Valid : EisCall → Type 0
  Valid (motion_absolute device x y) = has_capability device pointer_absolute ≡ true
  Valid (motion device dx dy) = has_capability device pointer ≡ true
  Valid (button_button device code pressed) = has_capability device buttons ≡ true
  Valid (scroll_discrete device dx dy) = has_capability device scroll ≡ true
  Valid (keyboard_key device code pressed) = has_capability device keyboard ≡ true
  Valid (frame device) = Unit {0}

  pub record HasSlots (eis : Eis) : Type 0 where
    pub pointer_slot : Holds pointer eis.pointer_device
    pub absolute_slot : Holds pointer_absolute eis.absolute_device
    pub button_slot : Holds buttons eis.button_device
    pub scroll_slot : Holds scroll eis.scroll_device
    pub keyboard_slot : Holds keyboard eis.keyboard_device

  -- The slots, that none is filled without a context, and the calls made so far.
  pub record IsSound (eis : Eis) : Type 0 where
    pub slots : HasSlots eis
    pub closed :
        eis.context ≡ false
        → (eis.pointer_device ≡ none)
          × (eis.absolute_device ≡ none)
          × (eis.button_device ≡ none)
          × (eis.scroll_device ≡ none)
          × (eis.keyboard_device ≡ none)
    pub valid : All Valid eis.calls

  clear_slot-Holds :
      (capability : Capability) (device : ℕ) (slot : Option ℕ)
      → Holds capability slot
      → Holds capability (clear_slot device slot)
  unfolding clear_slot Holds
  clear_slot-Holds capability device none h = tt
  clear_slot-Holds capability device (some held) h = elim (Bool-cases (held == device)) [
    | inl e ↦ rw e tt
    | inr e ↦ rw e h
  ]

  set_eis_device-Holds :
      (capability : Capability) (device : ℕ) (slot : Option ℕ)
      → Holds capability slot
      → Holds capability (set_eis_device has_capability capability device slot)
  unfolding set_eis_device Holds
  set_eis_device-Holds capability device none h =
      elim (Bool-cases (has_capability device capability)) [ inl e ↦ rw e e | inr e ↦ rw e tt ]
  set_eis_device-Holds capability device (some held) h = h

  clear_eis_device-HasSlots :
      (device : ℕ) (eis : Eis) → HasSlots eis → HasSlots (clear_eis_device device eis)
  unfolding clear_eis_device
  clear_eis_device-HasSlots device eis h = record {
    pointer_slot = clear_slot-Holds pointer device eis.pointer_device h.pointer_slot;
    absolute_slot = clear_slot-Holds pointer_absolute device eis.absolute_device h.absolute_slot;
    button_slot = clear_slot-Holds buttons device eis.button_device h.button_slot;
    scroll_slot = clear_slot-Holds scroll device eis.scroll_device h.scroll_slot;
    keyboard_slot = clear_slot-Holds keyboard device eis.keyboard_device h.keyboard_slot;
  }

  -- What the loop over the events keeps.
  pub record Kept (before after : Eis) : Type 0 where
    pub slots : HasSlots after
    pub context : after.context ≡ before.context
    pub calls : after.calls ≡ before.calls

  handle_event-Kept :
      (event : EisEvent) (disconnected : Bool) (eis : Eis)
      → HasSlots eis
      → Kept eis (handle_event has_capability event (disconnected, eis)).1
  unfolding handle_event
  handle_event-Kept (device_resumed (some device)) disconnected eis h = record {
    slots = record {
      pointer_slot = set_eis_device-Holds pointer device eis.pointer_device h.pointer_slot;
      absolute_slot =
          set_eis_device-Holds pointer_absolute device eis.absolute_device h.absolute_slot;
      button_slot = set_eis_device-Holds buttons device eis.button_device h.button_slot;
      scroll_slot = set_eis_device-Holds scroll device eis.scroll_device h.scroll_slot;
      keyboard_slot = set_eis_device-Holds keyboard device eis.keyboard_device h.keyboard_slot;
    };
    context = refl;
    calls = refl;
  }
  handle_event-Kept (device_resumed none) disconnected eis h = record {
    slots = h;
    context = refl;
    calls = refl;
  }
  handle_event-Kept (device_paused (some device)) disconnected eis h = record {
    slots = clear_eis_device-HasSlots device eis h;
    context = unfold clear_eis_device in refl;
    calls = unfold clear_eis_device in refl;
  }
  handle_event-Kept (device_paused none) disconnected eis h = record {
    slots = h;
    context = refl;
    calls = refl;
  }
  handle_event-Kept (device_removed (some device)) disconnected eis h = record {
    slots = clear_eis_device-HasSlots device eis h;
    context = unfold clear_eis_device in refl;
    calls = unfold clear_eis_device in refl;
  }
  handle_event-Kept (device_removed none) disconnected eis h = record {
    slots = h;
    context = refl;
    calls = refl;
  }
  handle_event-Kept disconnect disconnected eis h = record {
    slots = h;
    context = refl;
    calls = refl;
  }
  handle_event-Kept other disconnected eis h = record { slots = h; context = refl; calls = refl }

  pub handle_events-Kept :
      (events : List EisEvent) (disconnected : Bool) (eis : Eis)
      → HasSlots eis
      → Kept eis (handle_events has_capability events (disconnected, eis)).1
  unfolding handle_events
  handle_events-Kept [] disconnected eis h = record { slots = h; context = refl; calls = refl }
  handle_events-Kept (event ∷ events) disconnected eis h =
      let (gone, now) = handle_event has_capability event (disconnected, eis) in
      let one = handle_event-Kept event disconnected eis h in
      let more = handle_events-Kept events gone now one.slots in
      record { slots = more.slots; context = cc; calls = cc }

  pub reset_eis-IsSound : (eis : Eis) → All Valid eis.calls → IsSound (reset_eis eis)
  unfolding reset_eis Holds
  reset_eis-IsSound eis v = record {
    slots = record {
      pointer_slot = tt;
      absolute_slot = tt;
      button_slot = tt;
      scroll_slot = tt;
      keyboard_slot = tt;
    };
    closed = λ e. (refl, refl, refl, refl, refl);
    valid = v;
  }
