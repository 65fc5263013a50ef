-- ===== src/Dxva/Buffers/Laws.antt =====
-- No buffer of a decoder describes data outside its memory.
use driver_uu_remote.Base.{
  ℕ, zero, suc, ◌+◌, ◌-◌, ◌≤◌, Bool, true, false, Bool-cases, Option-cases, inl, inr, List, [], ◌∷◌,
  Option, none, some, ◌≢◌, subst, ◌≡◌, ◌∙◌, refl, length, All, All-set, get_or, set, leb, ltb,
  arith, if◌then◌else◌, length-set,
}
use driver_uu_remote.H264.Params.{DecoderBuffer}
use driver_uu_remote.Dxva.Buffers.{
  acquire, buffer_count, no_buffer, capacities, reset_buffer, context_get_buffer, BufferDesc, fits,
  submit_one, submit_loop, context_submit,
}

unfoldable pub InBounds : Option (List ℕ) → ℕ → ℕ → ℕ → Type 0
InBounds none capacity offset size = (offset ≡ 0) × (size ≡ 0)
InBounds (some memory) capacity offset size =
    (length memory ≡ capacity) × (offset + size ≤ capacity)

-- The memory is as long as `capacity` says, and the submitted data lies within it; a buffer without
-- memory has no data.
unfoldable pub IsBuffer : DecoderBuffer → Type 0
unfolding InBounds
IsBuffer b = InBounds b.memory b.capacity b.offset b.size

-- What a decoder's buffers are between two calls.
unfoldable pub IsBuffers : List DecoderBuffer → Type 0
unfolding IsBuffer
IsBuffers buffers = (length buffers ≡ buffer_count) × All IsBuffer buffers

All-get_or :
    (buffers : List DecoderBuffer) (i : ℕ)
    → All IsBuffer buffers
    → IsBuffer (get_or buffers i no_buffer)
unfolding IsBuffer InBounds
All-get_or [] i h = (refl, refl)
All-get_or (b ∷ bs) zero h = h.0
All-get_or (b ∷ bs) (suc i) h = All-get_or bs i h.1

set-IsBuffers :
    (buffers : List DecoderBuffer) (i : ℕ) (b : DecoderBuffer)
    → IsBuffers buffers
    → IsBuffer b
    → IsBuffers (set buffers i b)
unfolding IsBuffers
set-IsBuffers buffers i b v h = (length-set buffers i b ∙ v.0, All-set IsBuffer buffers i b v.1 h)

fits-InBounds :
    (b : DecoderBuffer) (desc : BufferDesc)
    → IsBuffer b
    → fits b desc ≡ true
    → IsBuffer (record b { offset = desc.data_offset; size = desc.data_size })
unfolding IsBuffer InBounds fits
fits-InBounds b desc h e = elim (Option-cases b.memory) [
  | inl m ↦ absurd (false-ne (rw m at e))
  | inr (memory, m) ↦ rw m ((rw m at h).0, within (rw m at e))
]
  where
    false-ne : false ≢ true
    false-ne p = cc

    within :
        (if ltb b.capacity desc.data_offset
            then false
            else leb desc.data_size (b.capacity - desc.data_offset))
          ≡ true
        → desc.data_offset + desc.data_size ≤ b.capacity
    within e = ground arith

submit_one-IsBuffers :
    (buffers : List DecoderBuffer) (desc : BufferDesc) (next : List DecoderBuffer)
    → IsBuffers buffers
    → submit_one buffers desc ≡ some next
    → IsBuffers next
unfolding submit_one IsBuffers
submit_one-IsBuffers buffers desc next v e = elim (Bool-cases (leb buffer_count desc.buffer_type)) [
  | inl out ↦ subst IsBuffers (some-same (rw out at e)) v
  | inr known ↦ elim (Bool-cases (fits buffer desc)) [
    | inl good ↦ subst IsBuffers (some-same (rw (known, good) at e)) (stored good)
    | inr bad ↦ absurd (none-ne (rw (known, bad) at e))
  ]
]
  where
    buffer : DecoderBuffer
    buffer = get_or buffers desc.buffer_type no_buffer

    changed : DecoderBuffer
    changed = record buffer { offset = desc.data_offset; size = desc.data_size }

    some-same : {xs : List DecoderBuffer} → some xs ≡ some next → xs ≡ next
    some-same p = cc

    none-ne : none ≢ some next
    none-ne p = cc

    stored : fits buffer desc ≡ true → IsBuffers (set buffers desc.buffer_type changed)
    stored good =
        set-IsBuffers buffers desc.buffer_type changed v
          (fits-InBounds buffer desc (All-get_or buffers desc.buffer_type v.1) good)

submit_loop-IsBuffers :
    (buffers : List DecoderBuffer) (descs : List BufferDesc)
    → IsBuffers buffers
    → IsBuffers (submit_loop buffers descs).1
unfolding submit_loop
submit_loop-IsBuffers buffers [] v = v
submit_loop-IsBuffers buffers (desc ∷ descs) v = elim (Option-cases (submit_one buffers desc)) [
  | inl e ↦ rw (submit_loop, e) v
  | inr (next, e) ↦
      rw (submit_loop, e)
        (submit_loop-IsBuffers next descs (submit_one-IsBuffers buffers desc next v e))
]

-- Whatever descriptors the application submits, and whichever of them ends the call, every buffer
-- describes data within its own memory afterwards.
pub context_submit-IsBuffers :
    (known : Bool) (buffers : List DecoderBuffer) (descs : List BufferDesc)
    → IsBuffers buffers
    → IsBuffers (context_submit known buffers descs).1
unfolding context_submit
context_submit-IsBuffers false buffers descs v = v
context_submit-IsBuffers true buffers descs v = submit_loop-IsBuffers buffers descs v

acquire-IsBuffer :
    (needed : ℕ) (b : DecoderBuffer) (allocated : Option (List ℕ))
    → ((memory : List ℕ) → allocated ≡ some memory → length memory ≡ needed)
    → IsBuffer b
    → IsBuffer (acquire b.memory allocated needed b).1
      × IsBuffer (reset_buffer (acquire b.memory allocated needed b).1)
unfolding IsBuffer InBounds acquire reset_buffer
acquire-IsBuffer needed b none long h = elim (Option-cases b.memory) [
  | inl m ↦ rw m (rw m at h, (refl, refl))
  | inr (memory, m) ↦ rw m (rw m at h, ((rw m at h).0, omega arith))
]
acquire-IsBuffer needed b (some got) long h = elim (Option-cases b.memory) [
  | inl m ↦ rw m ((long got refl, empty (rw m at h)), (long got refl, omega arith))
  | inr (memory, m) ↦ rw m (rw m at h, ((rw m at h).0, omega arith))
]
  where
    empty : (b.offset ≡ 0) × (b.size ≡ 0) → b.offset + b.size ≤ needed
    empty p = let (e, f) = p in omega arith

-- Getting a buffer, which may allocate its memory or fail to, leaves every buffer describing data
-- within its own memory, if `malloc` answers with as much memory as it was asked for.
pub context_get_buffer-IsBuffers :
    (malloc : ℕ → Option (List ℕ)) (known : Bool) (buffers : List DecoderBuffer) (type : ℕ)
    → ((n : ℕ) (memory : List ℕ) → malloc n ≡ some memory → length memory ≡ n)
    → IsBuffers buffers
    → IsBuffers (context_get_buffer malloc known buffers type).2
unfolding context_get_buffer IsBuffers
context_get_buffer-IsBuffers malloc false buffers type long v = v
context_get_buffer-IsBuffers malloc true buffers type long v =
    elim (Bool-cases (leb buffer_count type)) [
      | inl out ↦ rw out v
      | inr known ↦ elim (Bool-cases there) [
        | inl got ↦ rw (known, got) (set-IsBuffers buffers type (reset_buffer acquired) v kept.1)
        | inr failed ↦ rw (known, failed) (set-IsBuffers buffers type acquired v kept.0)
      ]
    ]
  where
    needed : ℕ
    needed = get_or capacities type 0

    buffer : DecoderBuffer
    buffer = get_or buffers type no_buffer

    there : Bool
    there = (acquire buffer.memory (malloc needed) needed buffer).0

    acquired : DecoderBuffer
    acquired = (acquire buffer.memory (malloc needed) needed buffer).1

    kept : IsBuffer acquired × IsBuffer (reset_buffer acquired)
    kept =
        acquire-IsBuffer needed buffer (malloc needed) (long needed) (All-get_or buffers type v.1)
