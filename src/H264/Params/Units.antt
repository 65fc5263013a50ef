-- ===== src/H264/Params/Units.antt =====
-- The sequence and picture parameter sets of src/dxva_bridge.c as a decoder receives them.
use driver_uu_remote.Base.{
  ℕ, ◌+◌, ◌-◌, ◌%◌, ◌^◌, ◌≤◌, ◌<◌, ◌≡◌, ap, ◌∙◌, inl, inr, ◌||◌, List, [], ◌++◌, some, length, ltb,
  Bool-cases, Option-cases, drop, arith,
}
use driver_uu_remote.H264.Writer.{BitWriter, cleared, bw_trailing}
use driver_uu_remote.H264.Writer.Laws.{Wrote, Wrote-trans, written, cleared-IsWriter, bits_of}
use driver_uu_remote.H264.Nal.{append_nal}
use driver_uu_remote.H264.Nal.Laws.{read_nal, payload, read_nal-append_nal, length-append_nal}
use driver_uu_remote.H264.Params.{
  PicParams, Call, write_calls, Sample, sps_calls, pps_calls, write_sps, write_pps, parameter_sets,
  DecoderBuffer, build_h264_parameter_sets,
}
use driver_uu_remote.H264.Params.Laws.{
  calls_bits, write_calls-Wrote, trailing_bits, bw_trailing-Wrote, IsPic,
}
use driver_uu_remote.H264.Params.Sizes.{sps_total, pps_total}

-- A writer that holds the bits of the calls, the stop bit and the padding, in whole bytes.
pub record Holds (calls : List Call) (w : BitWriter) : Type 0 where
  pub content : written w ≡ calls_bits calls ++ trailing_bits (length (calls_bits calls))
  pub aligned : w.bits % 8 ≡ 0
  pub size : w.bits ≤ length (calls_bits calls) + 8

module _ (calls : List Call) (room : length (calls_bits calls) < 2048) where
  calls-Wrote : Wrote cleared (calls_bits calls) (write_calls cleared calls)
  calls-Wrote = write_calls-Wrote calls cleared cleared-IsWriter (omega arith)

  trailing-Holds : Holds calls (bw_trailing (write_calls cleared calls))
  unfolding bits_of
  trailing-Holds =
      let n : (write_calls cleared calls).bits ≡ length (calls_bits calls) =
        omega (arith, calls-Wrote.count) in
      let (last, aligned, size) =
        bw_trailing-Wrote (write_calls cleared calls) calls-Wrote.valid (omega arith) in
      record {
        content =
            (Wrote-trans calls-Wrote last).content
            ∙ ap (λ k. calls_bits calls ++ trailing_bits k) n;
        aligned = aligned;
        size = omega arith;
      }

module _ (pic : PicParams) (p : IsPic pic) where
  -- For every picture in range the two writers hold the calls' bits, closed by the stop bit and
  -- padded to a byte.
  pub parameter_sets-Holds :
      (sample : Sample)
      → Holds (sps_calls pic sample) (write_sps pic sample) × Holds (pps_calls pic) (write_pps pic)
  unfolding write_sps write_pps
  parameter_sets-Holds sample = (
    trailing-Holds (sps_calls pic sample) (omega (arith, sps_total pic p sample)),
    trailing-Holds (pps_calls pic) (omega (arith, pps_total pic p)),
  )

  pub length-parameter_sets : (sample : Sample) → length (parameter_sets pic sample) ≤ 600
  unfolding parameter_sets
  length-parameter_sets sample =
      let (s, q) = parameter_sets-Holds sample in
      omega (
        arith,
        s.size,
        q.size,
        sps_total pic p sample,
        pps_total pic p,
        length-append_nal [] 0x67 (write_sps pic sample),
        length-append_nal (append_nal [] 0x67 (write_sps pic sample)) 0x68 (write_pps pic),
      )

-- A decoder finds two units: the sequence set behind 0x67 and the picture set behind 0x68.
pub parameter_sets-units :
    (pic : PicParams) (sample : Sample)
    → (sps pps : List ℕ) × (parameter_sets pic sample ≡ sps ++ pps)
      × (read_nal sps ≡ some (0x67, payload (write_sps pic sample)))
      × (read_nal pps ≡ some (0x68, payload (write_pps pic)))
unfolding parameter_sets
parameter_sets-units pic sample =
    let (sps, e, r) = read_nal-append_nal [] 0x67 (write_sps pic sample) in
    let (pps, f, q) =
      read_nal-append_nal (append_nal [] 0x67 (write_sps pic sample)) 0x68 (write_pps pic) in
    (sps, pps, f ∙ ap (λ xs. xs ++ pps) e, r, q)

-- Whatever the buffer of picture parameters holds, the function writes at most the 600 bytes of
-- the caller's array, if dxva.h reads its fields in the ranges of their types.
pub length-build_h264_parameter_sets :
    (size_of_pic : ℕ) (read_pic : List ℕ → PicParams)
    (in_range : (memory : List ℕ) → IsPic (read_pic memory)) (parameters : DecoderBuffer)
    (sample : Sample)
    → length (build_h264_parameter_sets size_of_pic read_pic parameters sample) ≤ 600
unfolding build_h264_parameter_sets
length-build_h264_parameter_sets size_of_pic read_pic in_range parameters sample =
    elim (Option-cases parameters.memory) [
      | inl e ↦ rw e (omega arith)
      | inr (memory, e) ↦
          rw e
            (elim (Bool-cases (
              ltb parameters.size size_of_pic
              || ltb ((parameters.capacity + 2 ^ 64 - size_of_pic) % 2 ^ 64) parameters.offset)) [
                | inl t ↦ rw t (omega arith)
                | inr t ↦ rw t (
                    length-parameter_sets (read_pic (drop parameters.offset memory))
                      (in_range (drop parameters.offset memory)) sample)
              ])
    ]
