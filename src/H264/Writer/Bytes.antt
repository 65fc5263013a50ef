-- ===== src/H264/Writer/Bytes.antt =====
-- What one `|=` of `bw_bit` does to a byte whose low bits are still clear, checked by evaluation.
use driver_uu_remote.Base.{
  ℕ, zero, suc, ◌+◌, ◌*◌, ◌/◌, ◌%◌, ◌^◌, ◌<◌, ◌≡◌, refl, Bool, true, false, ◌&&◌, ltb, ◌==◌, ==_iff,
  ltb→lt, if◌then◌else◌, bit_or, arith,
}

-- Whether a test holds of every number below the given one.
holds_below : (ℕ → Bool) → ℕ → Bool
holds_below test zero = true
holds_below test (suc n) = holds_below test n && test n

holds_below-at : (test : ℕ → Bool) (n k : ℕ) → k < n → holds_below test n ≡ true → test k ≡ true
unfolding holds_below
holds_below-at test zero k below all = absurd (omega arith)
holds_below-at test (suc n) k below all = ground (arith, holds_below-at test n k)

and_true : (a b : Bool) → (a && b) ≡ true → (a ≡ true) × (b ≡ true)
and_true true b h = (refl, h)
and_true false b h = cc

-- `x` is the byte after the write of bit `v` at place `s` of `d`.
same_above : ℕ → ℕ → ℕ → ℕ → Bool
same_above x d s j = if ltb s j then x / 2 ^ j % 2 == d / 2 ^ j % 2 else true

abbrev writes_one : ℕ → ℕ → ℕ → ℕ → Bool
writes_one x d s v =
    (x / 2 ^ s % 2 == v) && (ltb x 256 && ((x % 2 ^ s == 0) && holds_below (same_above x d s) 8))

abbrev entry : ℕ → ℕ → ℕ → Bool
entry d s v = if d % 2 ^ (s + 1) == 0 then writes_one (bit_or d (v * 2 ^ s)) d s v else true

table : holds_below (λ d. holds_below (λ s. holds_below (entry d s) 2) 8) 256 ≡ true
unfolding holds_below same_above
table = refl

entry-true : (d s v : ℕ) → d < 256 → s < 8 → v < 2 → entry d s v ≡ true
entry-true d s v hd hs hv = holds_below-at (entry d s) 2 v hv (
    holds_below-at (λ s. holds_below (entry d s) 2) 8 s hs
      (holds_below-at (λ d. holds_below (λ s. holds_below (entry d s) 2) 8) 256 d hd table))

module _ (d s v : ℕ) (hd : d < 256) (hs : s < 8) (hv : v < 2) (clean : d % 2 ^ (s + 1) ≡ 0) where
  abbrev pub after : ℕ
  after = bit_or d (v * 2 ^ s)

  whole : writes_one after d s v ≡ true
  whole = ground (arith, entry-true d s v hd hs hv)

  three :
      (after / 2 ^ s % 2 ≡ v)
      × (after < 256)
      × (after % 2 ^ s ≡ 0)
      × (holds_below (same_above after d s) 8 ≡ true)
  three =
      let (p, q) = and_true _ _ whole in
      let (q, r) = and_true _ _ q in
      let (r, t) = and_true _ _ r in ((==_iff _ _).0 p, ltb→lt _ _ q, (==_iff _ _).0 r, t)

  pub or_bit : (after / 2 ^ s % 2 ≡ v) × (after < 256) × (after % 2 ^ s ≡ 0)
  or_bit = let (p, q, r, t) = three in (p, q, r)

  pub or_above : (j : ℕ) → s < j → j < 8 → after / 2 ^ j % 2 ≡ d / 2 ^ j % 2
  unfolding same_above
  or_above j lo hi =
      let (p, q, r, t) = three in
      let e : same_above after d s j ≡ true = holds_below-at (same_above after d s) 8 j hi t in
      ground (arith, e)
