-- ===== src/Capture/Helper/Keys.antt =====
-- The key codes of src/wayland_capture_helper.cpp: `extended_scan_code` and `virtual_key_code`.
-- The keys are those of Linux's <linux/input.h> that the file names; their numbers are the header's.

use driver_uu_remote.Base.{
  ℕ, ◌+◌, ◌-◌, List, [], ◌∷◌, bit_and, leb, ◌==◌, ◌&&◌, if◌then◌else◌, get_or,
}

pub data Key : Type 0 where
  key_a key_b key_c key_d key_e key_f key_g key_h key_i key_j key_k key_l key_m : Key
  key_n key_o key_p key_q key_r key_s key_t key_u key_v key_w key_x key_y key_z : Key
  key_0 key_1 key_2 key_3 key_4 key_5 key_6 key_7 key_8 key_9 key_kp0 key_kp1 key_kp2 : Key
  key_kp3 key_kp4 key_kp5 key_kp6 key_kp7 key_kp8 key_kp9 key_f1 key_f11 key_f12 : Key
  key_backspace key_tab key_enter key_leftshift key_rightshift key_leftctrl key_rightctrl : Key
  key_leftalt key_rightalt key_pause key_capslock key_esc key_space key_pageup : Key
  key_pagedown key_end key_home key_left key_up key_right key_down key_sysrq key_insert : Key
  key_delete key_leftmeta key_rightmeta key_compose key_kpasterisk key_kpplus key_kpminus : Key
  key_kpdot key_kpslash key_numlock key_scrolllock key_semicolon key_equal key_comma : Key
  key_minus key_dot key_slash key_grave key_leftbrace key_backslash key_rightbrace : Key
  key_apostrophe key_kpenter : Key

-- A `switch`: the key of the first label that fits, or none.
pub record Label : Type 0 where
  pub value : ℕ
  pub key : Key

pub data Found : Type 0 where
  nothing : Found
  found : Key → Found

unfoldable pub switch : ℕ → List Label → Found
switch value [] = nothing
switch value (label ∷ labels) =
    let rest = switch value labels in if value == label.value then found label.key else rest

abbrev label : ℕ → Key → Label
label value key = record { value = value; key = key }

abbrev pub extended_labels : List Label
extended_labels =
    label 0x1c key_kpenter
    ∷ label 0x1d key_rightctrl
    ∷ label 0x35 key_kpslash
    ∷ label 0x37 key_sysrq
    ∷ label 0x38 key_rightalt
    ∷ label 0x47 key_home
    ∷ label 0x48 key_up
    ∷ label 0x49 key_pageup
    ∷ label 0x4b key_left
    ∷ label 0x4d key_right
    ∷ label 0x4f key_end
    ∷ label 0x50 key_down
    ∷ label 0x51 key_pagedown
    ∷ label 0x52 key_insert
    ∷ label 0x53 key_delete
    ∷ label 0x5b key_leftmeta
    ∷ label 0x5c key_rightmeta
    ∷ label 0x5d key_compose
    ∷ []

abbrev pub virtual_labels : List Label
virtual_labels =
    label 0x08 key_backspace
    ∷ label 0x09 key_tab
    ∷ label 0x0d key_enter
    ∷ label 0x10 key_leftshift
    ∷ label 0xa0 key_leftshift
    ∷ label 0xa1 key_rightshift
    ∷ label 0x11 key_leftctrl
    ∷ label 0xa2 key_leftctrl
    ∷ label 0xa3 key_rightctrl
    ∷ label 0x12 key_leftalt
    ∷ label 0xa4 key_leftalt
    ∷ label 0xa5 key_rightalt
    ∷ label 0x13 key_pause
    ∷ label 0x14 key_capslock
    ∷ label 0x1b key_esc
    ∷ label 0x20 key_space
    ∷ label 0x21 key_pageup
    ∷ label 0x22 key_pagedown
    ∷ label 0x23 key_end
    ∷ label 0x24 key_home
    ∷ label 0x25 key_left
    ∷ label 0x26 key_up
    ∷ label 0x27 key_right
    ∷ label 0x28 key_down
    ∷ label 0x2c key_sysrq
    ∷ label 0x2d key_insert
    ∷ label 0x2e key_delete
    ∷ label 0x5b key_leftmeta
    ∷ label 0x5c key_rightmeta
    ∷ label 0x5d key_compose
    ∷ label 0x6a key_kpasterisk
    ∷ label 0x6b key_kpplus
    ∷ label 0x6d key_kpminus
    ∷ label 0x6e key_kpdot
    ∷ label 0x6f key_kpslash
    ∷ label 0x90 key_numlock
    ∷ label 0x91 key_scrolllock
    ∷ label 0xba key_semicolon
    ∷ label 0xbb key_equal
    ∷ label 0xbc key_comma
    ∷ label 0xbd key_minus
    ∷ label 0xbe key_dot
    ∷ label 0xbf key_slash
    ∷ label 0xc0 key_grave
    ∷ label 0xdb key_leftbrace
    ∷ label 0xdc key_backslash
    ∷ label 0xdd key_rightbrace
    ∷ label 0xde key_apostrophe
    ∷ []

abbrev pub letters : List Key
letters =
    key_a ∷ key_b ∷ key_c ∷ key_d ∷ key_e ∷ key_f ∷ key_g ∷ key_h ∷ key_i ∷ key_j ∷ key_k ∷ key_l
    ∷ key_m ∷ key_n ∷ key_o ∷ key_p ∷ key_q ∷ key_r ∷ key_s ∷ key_t ∷ key_u ∷ key_v ∷ key_w ∷ key_x
    ∷ key_y ∷ key_z ∷ []

abbrev pub digits : List Key
digits = key_0 ∷ key_1 ∷ key_2 ∷ key_3 ∷ key_4 ∷ key_5 ∷ key_6 ∷ key_7 ∷ key_8 ∷ key_9 ∷ []

abbrev pub keypad : List Key
keypad =
    key_kp0 ∷ key_kp1 ∷ key_kp2 ∷ key_kp3 ∷ key_kp4 ∷ key_kp5 ∷ key_kp6 ∷ key_kp7 ∷ key_kp8
    ∷ key_kp9 ∷ []

-- `code` is the header's number of a key.
module _ (code : Key → ℕ) where
  -- 0 for no key.
  unfoldable pub found_code : Found → ℕ
  found_code nothing = 0
  found_code (found key) = code key

  unfoldable pub extended_scan_code : ℕ → ℕ
  unfolding switch found_code
  extended_scan_code scan = found_code (switch (bit_and scan 0xff) extended_labels)

  unfoldable pub virtual_key_code : ℕ → ℕ
  unfolding switch found_code
  virtual_key_code key =
      if leb b'A' key && leb key b'Z'
      then code (get_or letters (key - b'A') key_a)
      else if leb b'0' key && leb key b'9'
      then code (get_or digits (key - b'0') key_0)
      else if leb 0x60 key && leb key 0x69
      then code (get_or keypad (key - 0x60) key_kp0)
      else if leb 0x70 key && leb key 0x79
      then code key_f1 + key - 0x70
      else if key == 0x7a
      then code key_f11
      else if key == 0x7b
      then code key_f12
      else found_code (switch key virtual_labels)
