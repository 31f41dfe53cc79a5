-- ===== src/Mmu/Segments.antt =====
-- The segment and task-state descriptors that kernel/mmu.cc builds, against the layout of the two
-- words, and the bytes that such a segment spans.
use p12_group.Base.{
  ℕ, ◌+◌, ◌*◌, ◌/◌, ◌%◌, ◌^◌, ◌≤◌, ◌<◌, ◌≡◌, arith, ltb, if◌then◌else◌, Bool-cases, inl, inr,
}
use p12_group.Base.Words.{◌>>>◌}
use p12_group.Mmu.{
  Descriptor, mms, set_f0, set_f1, set_null_descriptor, set_base, set_limit, set_p, set_g, set_d,
  set_b, set_s, set_k, set_c, set_r, set_a, set_e, set_w, set_dpl, set_code_descriptor,
  set_data_descriptor,
}
use p12_group.Mmu.Descriptors.{stage}

-- Base and 20-bit limit in their pieces, the granularity bit, and the rest of the high word.
abbrev pub IsSegment : ℕ → ℕ → ℕ → ℕ → Descriptor → Type 0
IsSegment base limit g flags p =
    (p.f0 ≡ base % 2 ^ 16 * 2 ^ 16 + limit % 2 ^ 16)
    × (p.f1
        ≡ base / 2 ^ 16 % 2 ^ 8
          + base / 2 ^ 24 * 2 ^ 24
          + limit / 2 ^ 16 * 2 ^ 16
          + g * 2 ^ 23
          + flags)

-- The 20-bit limit and the granularity bit that a byte limit gets.
abbrev pub stored_limit : ℕ → ℕ
stored_limit limit = if ltb 0xfffff limit then limit / 2 ^ 12 else limit

abbrev pub granularity : ℕ → ℕ
granularity limit = if ltb 0xfffff limit then 1 else 0

-- The last byte of the segment, as the processor reads the two.
abbrev pub last_byte : ℕ → ℕ → ℕ
last_byte g limit = if ltb 0 g then limit * 2 ^ 12 + 0xfff else limit

module _ (base limit g dpl : ℕ) (hb : base < 2 ^ 32) (hl : limit < 2 ^ 20) (hg : g < 2)
    (hd : dpl < 4) where
  segment_low : mms (mms 0 (base >>> 0) 31 16) limit 15 0 ≡ base % 2 ^ 16 * 2 ^ 16 + limit % 2 ^ 16
  segment_low =
      let e : mms 0 (base >>> 0) 31 16 ≡ base % 2 ^ 16 * 2 ^ 16 = omega (
        arith,
        stage 0 (base >>> 0) 16 15 (omega arith) (omega arith) (omega arith) (omega arith),
      ) in
      let s = base % 2 ^ 16 * 2 ^ 16 in
      rw e
        (omega (arith, stage s limit 0 15 (omega arith) (omega arith) (omega arith) (omega arith)))

  code_high :
      mms
        (mms
          (mms
            (mms
              (mms
                (mms
                  (mms
                    (mms
                      (mms
                        (mms
                          (mms (mms 0 (base >>> 16) 7 0) (base >>> 24) 31 24)
                          (limit >>> 16)
                          19
                          16)
                        g
                        23
                        23)
                      dpl
                      14
                      13)
                    1
                    15
                    15)
                  1
                  22
                  22)
                1
                12
                12)
              1
              11
              11)
            1
            10
            10)
          1
          9
          9)
        0
        8
        8
      ≡ base / 2 ^ 16 % 2 ^ 8
        + base / 2 ^ 24 * 2 ^ 24
        + limit / 2 ^ 16 * 2 ^ 16
        + g * 2 ^ 23
        + (2 ^ 22 + 2 ^ 15 + dpl * 2 ^ 13 + 2 ^ 12 + 2 ^ 11 + 2 ^ 10 + 2 ^ 9)
  code_high =
      let e1 : mms 0 (base >>> 16) 7 0 ≡ base / 2 ^ 16 % 2 ^ 8 = omega (
        arith,
        stage 0 (base >>> 16) 0 7 (omega arith) (omega arith) (omega arith) (omega arith),
      ) in
      let s1 = base / 2 ^ 16 % 2 ^ 8 in
      let e2 : mms s1 (base >>> 24) 31 24 ≡ s1 + base / 2 ^ 24 * 2 ^ 24 = omega (
        arith,
        stage s1 (base >>> 24) 24 7 (omega arith) (omega arith) (omega arith) (omega arith),
      ) in
      let s2 = s1 + base / 2 ^ 24 * 2 ^ 24 in
      let e3 : mms s2 (limit >>> 16) 19 16 ≡ s2 + limit / 2 ^ 16 * 2 ^ 16 = omega (
        arith,
        stage s2 (limit >>> 16) 16 3 (omega arith) (omega arith) (omega arith) (omega arith),
      ) in
      let s3 = s2 + limit / 2 ^ 16 * 2 ^ 16 in
      let e4 : mms s3 g 23 23 ≡ s3 + g * 2 ^ 23 =
        omega (arith, stage s3 g 23 0 (omega arith) (omega arith) (omega arith) (omega arith)) in
      let s4 = s3 + g * 2 ^ 23 in
      let e5 : mms s4 dpl 14 13 ≡ s4 + dpl * 2 ^ 13 =
        omega (arith, stage s4 dpl 13 1 (omega arith) (omega arith) (omega arith) (omega arith)) in
      let s5 = s4 + dpl * 2 ^ 13 in
      let e6 : mms s5 1 15 15 ≡ s5 + 2 ^ 15 =
        omega (arith, stage s5 1 15 0 (omega arith) (omega arith) (omega arith) (omega arith)) in
      let s6 = s5 + 2 ^ 15 in
      let e7 : mms s6 1 22 22 ≡ s6 + 2 ^ 22 =
        omega (arith, stage s6 1 22 0 (omega arith) (omega arith) (omega arith) (omega arith)) in
      let s7 = s6 + 2 ^ 22 in
      let e8 : mms s7 1 12 12 ≡ s7 + 2 ^ 12 =
        omega (arith, stage s7 1 12 0 (omega arith) (omega arith) (omega arith) (omega arith)) in
      let s8 = s7 + 2 ^ 12 in
      let e9 : mms s8 1 11 11 ≡ s8 + 2 ^ 11 =
        omega (arith, stage s8 1 11 0 (omega arith) (omega arith) (omega arith) (omega arith)) in
      let s9 = s8 + 2 ^ 11 in
      let e10 : mms s9 1 10 10 ≡ s9 + 2 ^ 10 =
        omega (arith, stage s9 1 10 0 (omega arith) (omega arith) (omega arith) (omega arith)) in
      let s10 = s9 + 2 ^ 10 in
      let e11 : mms s10 1 9 9 ≡ s10 + 2 ^ 9 =
        omega (arith, stage s10 1 9 0 (omega arith) (omega arith) (omega arith) (omega arith)) in
      let s11 = s10 + 2 ^ 9 in
      let e12 : mms s11 0 8 8 ≡ s11 =
        omega (arith, stage s11 0 8 0 (omega arith) (omega arith) (omega arith) (omega arith)) in
      let s12 = s11 in rw (e1, e2, e3, e4, e5, e6, e7, e8, e9, e10, e11, e12) (omega arith)

  data_high :
      mms
        (mms
          (mms
            (mms
              (mms
                (mms
                  (mms
                    (mms
                      (mms
                        (mms (mms (mms 0 (base >>> 16) 7 0) (base >>> 24) 31 24) g 23 23)
                        (limit >>> 16)
                        19
                        16)
                      dpl
                      14
                      13)
                    1
                    15
                    15)
                  1
                  22
                  22)
                1
                12
                12)
              0
              11
              11)
            1
            9
            9)
          0
          10
          10)
        0
        8
        8
      ≡ base / 2 ^ 16 % 2 ^ 8
        + base / 2 ^ 24 * 2 ^ 24
        + limit / 2 ^ 16 * 2 ^ 16
        + g * 2 ^ 23
        + (2 ^ 22 + 2 ^ 15 + dpl * 2 ^ 13 + 2 ^ 12 + 2 ^ 9)
  data_high =
      let e1 : mms 0 (base >>> 16) 7 0 ≡ base / 2 ^ 16 % 2 ^ 8 = omega (
        arith,
        stage 0 (base >>> 16) 0 7 (omega arith) (omega arith) (omega arith) (omega arith),
      ) in
      let s1 = base / 2 ^ 16 % 2 ^ 8 in
      let e2 : mms s1 (base >>> 24) 31 24 ≡ s1 + base / 2 ^ 24 * 2 ^ 24 = omega (
        arith,
        stage s1 (base >>> 24) 24 7 (omega arith) (omega arith) (omega arith) (omega arith),
      ) in
      let s2 = s1 + base / 2 ^ 24 * 2 ^ 24 in
      let e3 : mms s2 g 23 23 ≡ s2 + g * 2 ^ 23 =
        omega (arith, stage s2 g 23 0 (omega arith) (omega arith) (omega arith) (omega arith)) in
      let s3 = s2 + g * 2 ^ 23 in
      let e4 : mms s3 (limit >>> 16) 19 16 ≡ s3 + limit / 2 ^ 16 * 2 ^ 16 = omega (
        arith,
        stage s3 (limit >>> 16) 16 3 (omega arith) (omega arith) (omega arith) (omega arith),
      ) in
      let s4 = s3 + limit / 2 ^ 16 * 2 ^ 16 in
      let e5 : mms s4 dpl 14 13 ≡ s4 + dpl * 2 ^ 13 =
        omega (arith, stage s4 dpl 13 1 (omega arith) (omega arith) (omega arith) (omega arith)) in
      let s5 = s4 + dpl * 2 ^ 13 in
      let e6 : mms s5 1 15 15 ≡ s5 + 2 ^ 15 =
        omega (arith, stage s5 1 15 0 (omega arith) (omega arith) (omega arith) (omega arith)) in
      let s6 = s5 + 2 ^ 15 in
      let e7 : mms s6 1 22 22 ≡ s6 + 2 ^ 22 =
        omega (arith, stage s6 1 22 0 (omega arith) (omega arith) (omega arith) (omega arith)) in
      let s7 = s6 + 2 ^ 22 in
      let e8 : mms s7 1 12 12 ≡ s7 + 2 ^ 12 =
        omega (arith, stage s7 1 12 0 (omega arith) (omega arith) (omega arith) (omega arith)) in
      let s8 = s7 + 2 ^ 12 in
      let e9 : mms s8 0 11 11 ≡ s8 =
        omega (arith, stage s8 0 11 0 (omega arith) (omega arith) (omega arith) (omega arith)) in
      let s9 = s8 in
      let e10 : mms s9 1 9 9 ≡ s9 + 2 ^ 9 =
        omega (arith, stage s9 1 9 0 (omega arith) (omega arith) (omega arith) (omega arith)) in
      let s10 = s9 + 2 ^ 9 in
      let e11 : mms s10 0 10 10 ≡ s10 =
        omega (arith, stage s10 0 10 0 (omega arith) (omega arith) (omega arith) (omega arith)) in
      let s11 = s10 in
      let e12 : mms s11 0 8 8 ≡ s11 =
        omega (arith, stage s11 0 8 0 (omega arith) (omega arith) (omega arith) (omega arith)) in
      let s12 = s11 in rw (e1, e2, e3, e4, e5, e6, e7, e8, e9, e10, e11, e12) (omega arith)

module _ (base limit dpl : ℕ) (hb : base < 2 ^ 32) (hl : limit < 2 ^ 32) (hd : dpl < 4) where
  -- For a 32-bit base and limit and a privilege level below 4, `setCodeDescriptor` makes the
  -- present 32-bit readable, conforming code segment for them, whatever the descriptor held, with
  -- the limit in bytes or in pages of 4096; it spans the byte `limit` and less than a page more.
  pub set_code_descriptor-IsSegment :
      (p : Descriptor)
      → IsSegment base
          (stored_limit limit)
          (granularity limit)
          (2 ^ 22 + 2 ^ 15 + dpl * 2 ^ 13 + 2 ^ 12 + 2 ^ 11 + 2 ^ 10 + 2 ^ 9)
          (set_code_descriptor p base limit dpl)
        × (limit ≤ last_byte (granularity limit) (stored_limit limit))
        × (last_byte (granularity limit) (stored_limit limit) < limit + 2 ^ 12)
  unfolding set_code_descriptor set_null_descriptor set_base set_limit set_g set_dpl set_p set_d
      set_s set_k set_c set_r set_a set_f0 set_f1
  set_code_descriptor-IsSegment p = elim (Bool-cases (ltb 0xfffff limit)) [
    | inl e ↦ rw e (
      (
        segment_low base (limit / 2 ^ 12) 1 dpl hb (omega arith) (omega arith) hd,
        code_high base (limit / 2 ^ 12) 1 dpl hb (omega arith) (omega arith) hd,
      ),
      omega arith,
      omega arith,
    )
    | inr e ↦
        let short : limit < 2 ^ 20 = ground arith in
        rw e (
          (
            segment_low base limit 0 dpl hb short (omega arith) hd,
            code_high base limit 0 dpl hb short (omega arith) hd,
          ),
          omega arith,
          omega arith,
        )
  ]

  -- A data segment, likewise: present, 32-bit, writable.
  pub set_data_descriptor-IsSegment :
      (p : Descriptor)
      → IsSegment base
          (stored_limit limit)
          (granularity limit)
          (2 ^ 22 + 2 ^ 15 + dpl * 2 ^ 13 + 2 ^ 12 + 2 ^ 9)
          (set_data_descriptor p base limit dpl)
        × (limit ≤ last_byte (granularity limit) (stored_limit limit))
        × (last_byte (granularity limit) (stored_limit limit) < limit + 2 ^ 12)
  unfolding set_data_descriptor set_null_descriptor set_base set_limit set_g set_dpl set_p set_b
      set_d set_s set_k set_w set_e set_a set_f0 set_f1
  set_data_descriptor-IsSegment p = elim (Bool-cases (ltb 0xfffff limit)) [
    | inl e ↦ rw e (
      (
        segment_low base (limit / 2 ^ 12) 1 dpl hb (omega arith) (omega arith) hd,
        data_high base (limit / 2 ^ 12) 1 dpl hb (omega arith) (omega arith) hd,
      ),
      omega arith,
      omega arith,
    )
    | inr e ↦
        let short : limit < 2 ^ 20 = ground arith in
        rw e (
          (
            segment_low base limit 0 dpl hb short (omega arith) hd,
            data_high base limit 0 dpl hb short (omega arith) hd,
          ),
          omega arith,
          omega arith,
        )
  ]
