-- ===== src/Handle/Ids.antt =====
-- Typed wire ids are built and taken apart without loss.
use bionic_vulkan_bridge.Prelude.{
  ℕ, ◌+◌, ◌*◌, ◌/◌, ◌%◌, ◌^◌, ◌≤◌, ◌<◌, ◌≡◌, ◌≢◌, ◌↔◌, arith, true, success,
}
use bionic_vulkan_bridge.Prelude.Bits.{bit_and-ones, bit_or_high_low}
use bionic_vulkan_bridge.Handle.{
  handle_serial_mask, object_type_is_valid, handle_id, handle_type, handle_serial, handle_expect,
}

-- A serial is what the mask keeps.
pub handle_serial-mod : (w : ℕ) → handle_serial w ≡ w % 2 ^ 56
unfolding handle_serial
handle_serial-mod w = bit_and-ones 56 w

handle_id_sum :
    (type serial : ℕ)
    → object_type_is_valid type ≡ true
    → serial ≢ 0
    → serial ≤ handle_serial_mask
    → handle_id type serial ≡ type * 2 ^ 56 + serial
unfolding handle_id
handle_id_sum type serial valid nonzero small =
    ground (arith, bit_or_high_low 56 type serial (omega arith))

-- An id made from a valid type and a nonzero serial of at most 56 bits is a nonzero 64-bit word that
-- gives back its type and its serial, and is accepted as an object of that type.
pub handle_id_fields :
    (type serial : ℕ)
    → object_type_is_valid type ≡ true
    → serial ≢ 0
    → serial ≤ handle_serial_mask
    → (handle_type (handle_id type serial) ≡ type)
      × (handle_serial (handle_id type serial) ≡ serial)
      × (handle_expect (handle_id type serial) type ≡ success)
      × (handle_id type serial < 2 ^ 64)
handle_id_fields type serial valid nonzero small =
    rw (handle_id_sum type serial valid nonzero small) (
      unfold handle_type handle_expect in
      ground (arith, handle_serial-mod (type * 2 ^ 56 + serial)))

-- On every 64-bit word, `handle_expect` succeeds exactly at the nonzero ids that `handle_id` makes
-- from the expected type and the word's serial.
pub handle_expect_iff :
    (w type : ℕ)
    → w < 2 ^ 64
    → (handle_expect w type ≡ success) ↔ ((w ≢ 0) × (handle_id type (handle_serial w) ≡ w))
handle_expect_iff w type h = (
  unfold handle_expect handle_type handle_id in
      ground (arith, handle_serial-mod w, bit_or_high_low 56 (w / 2 ^ 56) (handle_serial w)),
  unfold handle_expect handle_type handle_id in
      ground (arith, handle_serial-mod w, bit_or_high_low 56 type (handle_serial w)),
)

-- Zero is the id of no object.
pub handle_expect_nonzero : (w type : ℕ) → handle_expect w type ≡ success → w ≢ 0
unfolding handle_expect handle_serial
handle_expect_nonzero w type e = ground (arith, e, handle_serial-mod w)
