-- ===== src/CommandBatch/Iterating.antt =====
-- The iterator: the records that it returns, one call after the other, until it reports the end.
use bionic_vulkan_bridge.Prelude.{
  ℕ, zero, suc, ◌+◌, ◌≤◌, ◌≡◌, List, [], ◌∷◌, arith, refl, ok, none, some, length, Result-cases,
  inl, inr,
}
use bionic_vulkan_bridge.Wire.{Buffer, get_u16, get_u32, from}
use bionic_vulkan_bridge.Wire.Canonical.{AgreeTo}
use bionic_vulkan_bridge.CommandBatch.{
  Builder, CommandRecord, BatchInfo, BatchIterator, finish, validate, iterator_init, next, current,
  advanced, header_size,
}
use bionic_vulkan_bridge.CommandBatch.Layout.{AreAt, AreAt-order, behind}
use bionic_vulkan_bridge.CommandBatch.Building.{Holds, IsCommand, AreCommands, record_length_lem}
use bionic_vulkan_bridge.CommandBatch.Reading.{validate-finish, finished_laid, info_of}
use bionic_vulkan_bridge.CommandBatch.Untrusted.{records_from, record_at, validate_sound}

-- The calls of next from an iterator on return these records, and then the end.
pub data Reads : BatchIterator → List CommandRecord → Type 0 where
  at_end : {it : BatchIterator} → next it ≡ ok none → Reads it []
  returns :
      {it after : BatchIterator} {r : CommandRecord} {rs : List CommandRecord}
      → next it ≡ ok (some (r, after))
      → Reads after rs
      → Reads it (r ∷ rs)

-- The same opcode and length, and the same payload within it.
pub record SameRecord (r s : CommandRecord) : Type 0 where
  pub opcode_same : r.opcode ≡ s.opcode
  pub length_same : r.payload_length ≡ s.payload_length
  pub payload_same : AgreeTo s.payload_length r.payload s.payload

abbrev pub SameRecords : List CommandRecord → List CommandRecord → Type 0
SameRecords [] [] = Unit {0}
SameRecords (r ∷ rs) (s ∷ ss) = SameRecord r s × SameRecords rs ss
SameRecords _ _ = ⊥

abbrev iterator_at : Buffer → ℕ → ℕ → ℕ → BatchIterator
iterator_at b n o k = record { bytes = b; length = n; offset = o; remaining = k }

next_record :
    (b : Buffer) (n o k : ℕ)
    → o ≤ n
    → IsCommand (record_at b o)
    → next (iterator_at b n o (suc k))
      ≡ ok (some (record_at b o, iterator_at b n (behind o (record_at b o)) k))
unfolding next current advanced
next_record b n o k l c =
    let step = record_length_lem (get_u16 b o) (from b (o + 8)) (get_u32 b (o + 4)) c.valid in
    rw step (ground (arith, l))

next_end : (b : Buffer) (n o : ℕ) → o ≤ n → next (iterator_at b n o 0) ≡ ok none
unfolding next
next_end b n o l = ground (arith, l)

-- From the start of a row of records, the iterator reads them all.
row-Reads :
    (b : Buffer) (n o k : ℕ)
    → AreAt b o (records_from b k o) n
    → AreCommands (records_from b k o)
    → Reads (iterator_at b n o k) (records_from b k o)
row-Reads b n o zero h cs = at_end (next_end b n o (omega (arith, h)))
row-Reads b n o (suc k) (first, rest) (c, cs) =
    let order =
      AreAt-order b (behind o (record_at b o)) n (records_from b k (behind o (record_at b o)))
        rest in
    returns (next_record b n o k (omega (arith, order)) c)
      (row-Reads b n (behind o (record_at b o)) k rest cs)

row_same :
    (b : Buffer) (o e : ℕ) (rs : List CommandRecord)
    → AreAt b o rs e
    → SameRecords (records_from b (length rs) o) rs
row_same b o e [] h = tt
row_same b o e (r ∷ rs) (first, rest) = (
  record {
    opcode_same = first.opcode_lem;
    length_same = first.length_lem;
    payload_same = first.payload_lem;
  },
  rw first.length_lem (row_same b (behind o r) e rs rest),
)

iterator_init_lem :
    (b : Buffer) (n : ℕ) (info : BatchInfo)
    → validate b n ≡ ok info
    → iterator_init b n ≡ ok (iterator_at b n header_size info.command_count)
unfolding iterator_init
iterator_init_lem b n info e = rw e refl

iterator_init_inv :
    (b : Buffer) (n : ℕ) (it : BatchIterator)
    → iterator_init b n ≡ ok it
    → (info : BatchInfo) × (validate b n ≡ ok info)
      × (it ≡ iterator_at b n header_size info.command_count)
unfolding iterator_init
iterator_init_inv b n it e = elim (Result-cases (validate b n)) [
  | inl (info, accepted) ↦ (info, accepted, ground (arith, e, accepted))
  | inr (error, refused) ↦ absurd (ground (arith, e, refused))
]

-- On whatever bytes iterator_init accepts, next returns the records that stand in them one by one, each
-- valid for its opcode, and reports the end at the end of the bytes: it never fails.
pub iterator_init-Reads :
    (b : Buffer) (n : ℕ) (it : BatchIterator)
    → iterator_init b n ≡ ok it
    → (k : ℕ) × Reads it (records_from b k header_size)
      × AreAt b header_size (records_from b k header_size) n
      × AreCommands (records_from b k header_size)
iterator_init-Reads b n it e =
    let (info, accepted, same) = iterator_init_inv b n it e in
    let (_, laid, commands) = validate_sound b n info accepted in
    (
      info.command_count,
      rw same (row-Reads b n header_size info.command_count laid commands),
      laid,
      commands,
    )

-- The records that a builder holds are those that the iterator over the finished batch returns, in their
-- order and none more.
pub iterator_init-finish :
    (b b' : Builder) (rs : List CommandRecord) (n : ℕ)
    → Holds b rs
    → finish b ≡ ok (b', n)
    → (it : BatchIterator) × (read : List CommandRecord) × (iterator_init b'.bytes n ≡ ok it)
      × Reads it read
      × SameRecords read rs
iterator_init-finish b b' rs n h e =
    let accepted = validate-finish b b' rs n h e in
    let (_, laid, commands) = validate_sound b'.bytes n (info_of b) accepted in
    let same = row_same b'.bytes header_size n rs (finished_laid b b' rs n h e) in
    (
      iterator_at b'.bytes n header_size b.command_count,
      records_from b'.bytes b.command_count header_size,
      iterator_init_lem b'.bytes n (info_of b) accepted,
      row-Reads b'.bytes n header_size b.command_count laid commands,
      rw h.counted same,
    )
