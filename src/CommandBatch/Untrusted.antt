-- ===== src/CommandBatch/Untrusted.antt =====
-- The reader on bytes that anyone may have written: what is accepted is a row of valid records, and
-- the bytes behind the length do not matter.
use bionic_vulkan_bridge.Prelude.{
  ℕ, zero, suc, ◌+◌, ◌^◌, ◌≤◌, ◌<◌, ◌≡◌, List, [], ◌∷◌, arith, refl, ok, true, false, Bool-cases,
  inl, inr,
}
use native.Mathlib.Decide.{dec_le}
use bionic_vulkan_bridge.Wire.{Buffer, get_u16, get_u32, from}
use bionic_vulkan_bridge.Wire.Canonical.{AgreeTo}
use bionic_vulkan_bridge.CommandBatch.{
  CommandRecord, BatchInfo, header_size, max_bytes, record_header_size, record_length, as_proto,
  record_is_bad, validate_loop, header_is_bad, validate,
}
use bionic_vulkan_bridge.CommandBatch.Payload.{payload_is_valid}
use bionic_vulkan_bridge.CommandBatch.Payload.Local.{payload_is_valid-agree}
use bionic_vulkan_bridge.CommandBatch.Payload.Words.Reads.{u32_same, u64_same}
use bionic_vulkan_bridge.CommandBatch.Layout.{get_u16-agree, AreAt, behind}
use bionic_vulkan_bridge.CommandBatch.Building.{AreCommands, record_length_lem}

abbrev pub record_at : Buffer → ℕ → CommandRecord
record_at b o = record {
  opcode = get_u16 b o;
  payload = from b (o + record_header_size);
  payload_length = get_u32 b (o + 4);
}

-- The records that stand in the bytes from an offset on.
abbrev pub records_from : Buffer → ℕ → ℕ → List CommandRecord
records_from b zero o = []
records_from b (suc k) o = record_at b o ∷ records_from b k (behind o (record_at b o))

good_record_lem :
    (b : Buffer) (n o : ℕ)
    → record_is_bad b n o ≡ false
    → (get_u16 b (o + 2) ≡ 0)
      × (behind o (record_at b o) ≤ n)
      × (payload_is_valid (get_u16 b o) (from b (o + 8)) (get_u32 b (o + 4)) ≡ true)
unfolding record_is_bad
good_record_lem b n o e = ground (arith, e)

get_u16-le : (b : Buffer) (o : ℕ) → get_u16 b o < 2 ^ 16
unfolding get_u16
get_u16-le b o = omega arith

validate_loop_sound :
    (b : Buffer) (n k o e : ℕ)
    → n ≤ max_bytes
    → validate_loop b n k o ≡ ok e
    → AreAt b o (records_from b k o) e × AreCommands (records_from b k o)
unfolding validate_loop
validate_loop_sound b n zero o e small h = (ground (arith, h), tt)
validate_loop_sound b n (suc k) o e small h = elim (Bool-cases (record_is_bad b n o)) [
  | inl bad ↦ absurd (ground (arith, h, bad))
  | inr good ↦
      let (flags, fits, valid) = good_record_lem b n o good in
      let step = record_length_lem (get_u16 b o) (from b (o + 8)) (get_u32 b (o + 4)) valid in
      let (rest, commands) =
        validate_loop_sound b n k (behind o (record_at b o)) e small (rw (good, step) at h) in
      (
        (
          record {
            opcode_lem = refl;
            flags_lem = flags;
            length_lem = refl;
            payload_lem = λ i l. refl;
          },
          rest,
        ),
        (
          record {
            opcode_fits = get_u16-le b o;
            length_fits = omega (arith, fits, small);
            valid = valid;
          },
          commands,
        ),
      )
]

validate_lem :
    (b : Buffer) (n : ℕ) (info : BatchInfo)
    → validate b n ≡ ok info
    → (n ≤ max_bytes)
      × (info.byte_length ≡ n)
      × (info.command_count ≡ get_u32 b 12)
      × (validate_loop b n (get_u32 b 12) header_size ≡ ok n)
unfolding validate header_is_bad as_proto
validate_lem b n info e = ground (arith, e)

-- What validate accepts, whoever wrote the bytes, is a row of records that starts behind the header, ends
-- at the length and has as many records as it reports, each with flags zero and a payload of its opcode.
pub validate_sound :
    (b : Buffer) (n : ℕ) (info : BatchInfo)
    → validate b n ≡ ok info
    → (info.byte_length ≡ n)
      × AreAt b header_size (records_from b info.command_count header_size) n
      × AreCommands (records_from b info.command_count header_size)
validate_sound b n info e =
    let (small, same, count, loop) = validate_lem b n info e in
    let (laid, commands) = validate_loop_sound b n (get_u32 b 12) header_size n small loop in
    (same, rw count laid, rw count commands)

module _ (n : ℕ) (p q : Buffer) (h : AgreeTo n p q) where
  header_same :
      (o : ℕ) → o + 8 ≤ n → (get_u16 p o ≡ get_u16 q o) × (get_u16 p (o + 2) ≡ get_u16 q (o + 2))
  header_same o l = (
    get_u16-agree p q o (λ i a b. h i (omega (arith, l, b))),
    get_u16-agree p q (o + 2) (λ i a b. h i (omega (arith, l, b))),
  )

  record_is_bad-agree : (o : ℕ) → record_is_bad p n o ≡ record_is_bad q n o
  unfolding record_is_bad
  record_is_bad-agree o = elim (dec_le (o + 8) n) [
    | yes l ↦
        let (opcode, flags) = header_same o l in
        rw (opcode, flags, u32_same n p q h (o + 4) (omega (arith, l)))
          (elim (dec_le (o + 8 + get_u32 q (o + 4)) n) [
            | yes fits ↦
                rw
                  (payload_is_valid-agree (get_u16 q o) (get_u32 q (o + 4)) (from p (o + 8))
                    (from q (o + 8)) (λ i b. h (o + 8 + i) (omega (arith, fits, b))))
                  refl
            | no long ↦ ground (arith, long)
          ])
    | no short ↦ ground (arith, short)
  ]

  short_record_is_bad : (o : ℕ) → n < o + 8 → record_is_bad q n o ≡ true
  unfolding record_is_bad
  short_record_is_bad o l = ground (arith, l)

  validate_loop-agree : (k o : ℕ) → validate_loop p n k o ≡ validate_loop q n k o
  unfolding validate_loop
  validate_loop-agree zero o = refl
  validate_loop-agree (suc k) o = rw (record_is_bad-agree o) (elim (dec_le (o + 8) n) [
    | yes l ↦
        rw
          (
            u32_same n p q h (o + 4) (omega (arith, l)),
            validate_loop-agree k (o + record_length (get_u32 q (o + 4))),
          )
          refl
    | no short ↦ rw (short_record_is_bad o (omega (arith, short))) refl
  ])

validate_same : (n : ℕ) (p q : Buffer) → AgreeTo n p q → validate p n ≡ validate q n
unfolding validate header_is_bad as_proto
validate_same n p q h = elim (dec_le 32 n) [
  | yes l ↦
      let (version, zero_field) = header_same n p q h 4 (omega (arith, l)) in
      rw
        (
          u32_same n p q h 0 (omega (arith, l)),
          version,
          zero_field,
          u32_same n p q h 8 (omega (arith, l)),
          u32_same n p q h 12 (omega (arith, l)),
          u64_same n p q h 16 (omega (arith, l)),
          u64_same n p q h 24 (omega (arith, l)),
          validate_loop-agree n p q h (get_u32 q 12) 32,
        )
        refl
  | no short ↦ ground (arith, short)
]

-- What validate decides on the record at any offset, and so what it returns, depends on the first `length`
-- bytes alone, whatever counts and lengths stand in the bytes.
pub validate-agree :
    (n : ℕ) (p q : Buffer)
    → AgreeTo n p q
    → ((o : ℕ) → record_is_bad p n o ≡ record_is_bad q n o) × (validate p n ≡ validate q n)
validate-agree n p q h = (record_is_bad-agree n p q h, validate_same n p q h)
