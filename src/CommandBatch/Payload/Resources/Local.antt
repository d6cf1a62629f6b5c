-- ===== src/CommandBatch/Payload/Resources/Local.antt =====
-- The validators of Resources read within the length of their payload.
use bionic_vulkan_bridge.Prelude.{
  ℕ, ◌+◌, ◌*◌, ◌≤◌, ◌≡◌, arith, refl, ap, ◌!=◌, all_below, all_below_ext,
}
use bionic_vulkan_bridge.Wire.{Buffer, get_u32, get_u64}
use bionic_vulkan_bridge.Wire.Canonical.{AgreeTo}
use bionic_vulkan_bridge.CommandBatch.Payload.Words.Reads.{
  u32_same, u64_same, range_same, zero_range_same, zeros_same,
}
use bionic_vulkan_bridge.CommandBatch.Payload.Resources.{
  fill_buffer_is_valid, buffer_host_read_barrier_is_valid, buffer_barriers_are_valid,
  image_barriers_are_valid, image_barrier_is_valid, ranges_are_valid,
  clear_color_image_general_is_valid, depth_ranges_are_valid, clear_depth_stencil_image_is_valid,
  attachments_are_valid, rects_are_valid, clear_attachments_is_valid, region_is_valid,
  regions_are_valid, transfer_is_valid, update_buffer_is_valid, clear_color_image_is_valid,
  images_are_valid, init_image_barrier_is_valid,
}
use bionic_vulkan_bridge.CommandBatch.Payload.Opcodes.{Opcode}

module _ (n : ℕ) (p q : Buffer) (h : AgreeTo n p q) where
  pub fill_buffer_is_valid-agree : 32 ≤ n → fill_buffer_is_valid p ≡ fill_buffer_is_valid q
  unfolding fill_buffer_is_valid
  fill_buffer_is_valid-agree l =
      rw
        (
          u64_same n p q h 0 (omega (arith, l)),
          u64_same n p q h 8 (omega (arith, l)),
          u64_same n p q h 16 (omega (arith, l)),
          u32_same n p q h 28 (omega (arith, l)),
        )
        refl

  pub buffer_host_read_barrier_is_valid-agree :
      24 ≤ n → buffer_host_read_barrier_is_valid p ≡ buffer_host_read_barrier_is_valid q
  unfolding buffer_host_read_barrier_is_valid
  buffer_host_read_barrier_is_valid-agree l =
      rw (u64_same n p q h 0 (omega (arith, l)), u64_same n p q h 16 (omega (arith, l))) refl

  buffer_barriers_are_valid-agree :
      (o count : ℕ)
      → o + count * 64 ≤ n
      → buffer_barriers_are_valid p o count ≡ buffer_barriers_are_valid q o count
  unfolding buffer_barriers_are_valid
  buffer_barriers_are_valid-agree o count l = all_below_ext count (λ i b.
      rw
        (
          u64_same n p q h (o + i * 64 + 40) (omega (arith, b, l)),
          u64_same n p q h (o + i * 64 + 56) (omega (arith, b, l)),
        )
        refl)

  image_barriers_are_valid-agree :
      (o count : ℕ)
      → o + count * 80 ≤ n
      → image_barriers_are_valid p o count ≡ image_barriers_are_valid q o count
  unfolding image_barriers_are_valid
  image_barriers_are_valid-agree o count l = all_below_ext count (λ i b.
      rw
        (
          u64_same n p q h (o + i * 80 + 48) (omega (arith, b, l)),
          range_same n p q h (o + i * 80 + 56) (omega (arith, b, l)),
        )
        refl)

  pub image_barrier_is_valid-agree :
      16 + get_u32 p 4 * 32 + get_u32 p 8 * 64 + get_u32 p 12 * 80 ≤ n
      → image_barrier_is_valid p ≡ image_barrier_is_valid q
  unfolding image_barrier_is_valid
  image_barrier_is_valid-agree l =
      let buffers = 16 + get_u32 p 4 * 32 in
      rw
        (
          buffer_barriers_are_valid-agree buffers (get_u32 p 8) (omega (arith, l)),
          image_barriers_are_valid-agree (buffers + get_u32 p 8 * 64) (get_u32 p 12)
              (omega (arith, l)),
          u32_same n p q h 0 (omega (arith, l)),
          u32_same n p q h 4 (omega (arith, l)),
          u32_same n p q h 8 (omega (arith, l)),
          u32_same n p q h 12 (omega (arith, l)),
        )
        refl

  ranges_are_valid-agree :
      (o count : ℕ) → o + 96 ≤ n → ranges_are_valid p o count ≡ ranges_are_valid q o count
  unfolding ranges_are_valid
  ranges_are_valid-agree o count l = all_below_ext 4 (λ i b.
      rw
        (
          range_same n p q h (o + i * 24) (omega (arith, b, l)),
          zero_range_same n p q h (o + i * 24) (omega (arith, b, l)),
        )
        refl)

  pub clear_color_image_general_is_valid-agree :
      128 ≤ n → clear_color_image_general_is_valid p ≡ clear_color_image_general_is_valid q
  unfolding clear_color_image_general_is_valid
  clear_color_image_general_is_valid-agree l =
      rw
        (
          u64_same n p q h 0 (omega (arith, l)),
          u32_same n p q h 8 (omega (arith, l)),
          u32_same n p q h 12 (omega (arith, l)),
          ranges_are_valid-agree 32 (get_u32 q 12) l,
        )
        refl

  depth_ranges_are_valid-agree :
      (count : ℕ) → 120 ≤ n → depth_ranges_are_valid p count ≡ depth_ranges_are_valid q count
  unfolding depth_ranges_are_valid
  depth_ranges_are_valid-agree count l = all_below_ext 4 (λ i b.
      rw
        (
          range_same n p q h (24 + i * 24) (omega (arith, b, l)),
          zero_range_same n p q h (24 + i * 24) (omega (arith, b, l)),
          u32_same n p q h (24 + i * 24) (omega (arith, b, l)),
        )
        refl)

  pub clear_depth_stencil_image_is_valid-agree :
      120 ≤ n → clear_depth_stencil_image_is_valid p ≡ clear_depth_stencil_image_is_valid q
  unfolding clear_depth_stencil_image_is_valid
  clear_depth_stencil_image_is_valid-agree l =
      rw
        (
          u64_same n p q h 0 (omega (arith, l)),
          u32_same n p q h 8 (omega (arith, l)),
          u32_same n p q h 12 (omega (arith, l)),
          u32_same n p q h 16 (omega (arith, l)),
          depth_ranges_are_valid-agree (get_u32 q 12) l,
        )
        refl

  attachments_are_valid-agree :
      (count : ℕ) → 200 ≤ n → attachments_are_valid p count ≡ attachments_are_valid q count
  unfolding attachments_are_valid
  attachments_are_valid-agree count l = all_below_ext 8 (λ i b.
      rw
        (
          u32_same n p q h (8 + i * 24) (omega (arith, b, l)),
          zeros_same n p q h (8 + i * 24) 24 (omega (arith, b, l)),
        )
        refl)

  rects_are_valid-agree : (count : ℕ) → 392 ≤ n → rects_are_valid p count ≡ rects_are_valid q count
  unfolding rects_are_valid
  rects_are_valid-agree count l = all_below_ext 8 (λ i b.
      rw
        (
          u32_same n p q h (200 + i * 24 + 8) (omega (arith, b, l)),
          u32_same n p q h (200 + i * 24 + 12) (omega (arith, b, l)),
          u32_same n p q h (200 + i * 24 + 20) (omega (arith, b, l)),
          zeros_same n p q h (200 + i * 24) 24 (omega (arith, b, l)),
        )
        refl)

  pub clear_attachments_is_valid-agree :
      392 ≤ n → clear_attachments_is_valid p ≡ clear_attachments_is_valid q
  unfolding clear_attachments_is_valid
  clear_attachments_is_valid-agree l =
      rw
        (
          u32_same n p q h 0 (omega (arith, l)),
          u32_same n p q h 4 (omega (arith, l)),
          attachments_are_valid-agree (get_u32 q 0) (omega (arith, l)),
          rects_are_valid-agree (get_u32 q 4) l,
        )
        refl

  region_is_valid-agree :
      (opcode : Opcode) (o : ℕ)
      → o + 128 ≤ n
      → region_is_valid opcode p o ≡ region_is_valid opcode q o
  unfolding region_is_valid
  region_is_valid-agree opcode o l =
      rw
        (
          u64_same n p q h (o + 16) (omega (arith, l)),
          u32_same n p q h (o + 32) (omega (arith, l)),
          u32_same n p q h (o + 44) (omega (arith, l)),
          u32_same n p q h (o + 48) (omega (arith, l)),
          u32_same n p q h (o + 60) (omega (arith, l)),
          u32_same n p q h (o + 112) (omega (arith, l)),
          u32_same n p q h (o + 116) (omega (arith, l)),
          u32_same n p q h (o + 120) (omega (arith, l)),
          u32_same n p q h (o + 124) (omega (arith, l)),
        )
        refl

  regions_are_valid-agree :
      (opcode : Opcode) (count : ℕ)
      → 32 + count * 128 ≤ n
      → regions_are_valid opcode p count ≡ regions_are_valid opcode q count
  unfolding regions_are_valid
  regions_are_valid-agree opcode count l =
      all_below_ext count (λ i b. region_is_valid-agree opcode (32 + i * 128) (omega (arith, b, l)))

  pub transfer_is_valid-agree :
      (opcode : Opcode)
      → 32 + get_u32 p 28 * 128 ≤ n
      → transfer_is_valid opcode p ≡ transfer_is_valid opcode q
  unfolding transfer_is_valid
  transfer_is_valid-agree opcode l =
      rw
        (
          regions_are_valid-agree opcode (get_u32 p 28) l,
          u64_same n p q h 0 (omega (arith, l)),
          u64_same n p q h 8 (omega (arith, l)),
          u32_same n p q h 16 (omega (arith, l)),
          u32_same n p q h 20 (omega (arith, l)),
          u32_same n p q h 24 (omega (arith, l)),
          u32_same n p q h 28 (omega (arith, l)),
        )
        refl

  pub update_buffer_is_valid-agree : 24 ≤ n → update_buffer_is_valid p ≡ update_buffer_is_valid q
  unfolding update_buffer_is_valid
  update_buffer_is_valid-agree l =
      rw
        (
          u64_same n p q h 0 (omega (arith, l)),
          u64_same n p q h 8 (omega (arith, l)),
          u32_same n p q h 16 (omega (arith, l)),
          u32_same n p q h 20 (omega (arith, l)),
        )
        refl

  pub clear_color_image_is_valid-agree :
      16 ≤ n → clear_color_image_is_valid p ≡ clear_color_image_is_valid q
  unfolding clear_color_image_is_valid
  clear_color_image_is_valid-agree l =
      rw (u64_same n p q h 0 (omega (arith, l)), u64_same n p q h 8 (omega (arith, l))) refl

  earlier-agree :
      (index id : ℕ)
      → 8 + index * 8 ≤ n
      → all_below index (λ earlier. id != get_u64 p (8 + earlier * 8))
        ≡ all_below index (λ earlier. id != get_u64 q (8 + earlier * 8))
  earlier-agree index id l =
      all_below_ext index
        (λ i b. ap (λ w. id != w) (u64_same n p q h (8 + i * 8) (omega (arith, b, l))))

  images_are_valid-agree :
      (count : ℕ) → 40 ≤ n → images_are_valid p count ≡ images_are_valid q count
  unfolding images_are_valid
  images_are_valid-agree count l = all_below_ext 4 (λ i b.
      rw
        (
          u64_same n p q h (8 + i * 8) (omega (arith, b, l)),
          earlier-agree i (get_u64 q (8 + i * 8)) (omega (arith, b, l)),
        )
        refl)

  pub init_image_barrier_is_valid-agree :
      40 ≤ n → init_image_barrier_is_valid p ≡ init_image_barrier_is_valid q
  unfolding init_image_barrier_is_valid
  init_image_barrier_is_valid-agree l =
      rw
        (
          u32_same n p q h 0 (omega (arith, l)),
          u32_same n p q h 4 (omega (arith, l)),
          images_are_valid-agree (get_u32 q 0) l,
        )
        refl
