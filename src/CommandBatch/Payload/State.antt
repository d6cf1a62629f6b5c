-- ===== src/CommandBatch/Payload/State.antt =====
-- validate_payload of src/command_batch.c for the commands that set state, and for queries.
pub mod Local
use bionic_vulkan_bridge.Prelude.{
  ℕ, ◌+◌, ◌-◌, ◌*◌, Bool, true, false, not, ◌&&◌, ◌||◌, ltb, leb, ◌==◌, ◌!=◌, if◌then◌else◌, Option,
  none, some, all_below,
}
use bionic_vulkan_bridge.Wire.{Buffer, get_u32, get_u64}
use bionic_vulkan_bridge.Handle.{object_pipeline_layout, object_descriptor_set, object_query_pool}
use bionic_vulkan_bridge.CommandBatch.Payload.Opcodes.{
  max_bound_descriptor_sets, max_dynamic_offsets, max_push_constant_bytes, max_dynamic_state_values,
}
use bionic_vulkan_bridge.CommandBatch.Payload.Words.{
  is_object, within_mask, is_multiple_of_4, float_word_is_finite, float_lt, float_is_depth,
}

pub sets_are_valid : Buffer → ℕ → Bool
sets_are_valid payload set_count = all_below max_bound_descriptor_sets (λ index.
    let set_id = get_u64 payload (24 + index * 8) in
    if ltb index set_count then is_object set_id object_descriptor_set else set_id == 0)

-- No dynamic offset behind the first `dynamic_count`.
pub offsets_are_zero : Buffer → ℕ → Bool
offsets_are_zero payload dynamic_count = all_below max_dynamic_offsets (λ index.
    ltb index dynamic_count
    || get_u32 payload (24 + max_bound_descriptor_sets * 8 + index * 4) == 0)

pub bind_descriptor_sets_is_valid : Buffer → Bool
bind_descriptor_sets_is_valid payload =
    let set_count = get_u32 payload 16 in
    let dynamic_count = get_u32 payload 20 in
    is_object (get_u64 payload 0) object_pipeline_layout
    && leb (get_u32 payload 8) 1
    && set_count != 0
    && leb set_count max_bound_descriptor_sets
    && leb dynamic_count max_dynamic_offsets
    && sets_are_valid payload set_count
    && offsets_are_zero payload dynamic_count

pub constants_are_zero : Buffer → ℕ → Bool
constants_are_zero payload size =
    all_below max_push_constant_bytes (λ index. ltb index size || payload (24 + index) == 0)

pub push_constants_is_valid : Buffer → Bool
push_constants_is_valid payload =
    let offset = get_u32 payload 12 in
    let size = get_u32 payload 16 in
    is_object (get_u64 payload 0) object_pipeline_layout
    && get_u32 payload 8 != 0
    && size != 0
    && leb size max_push_constant_bytes
    && is_multiple_of_4 offset
    && is_multiple_of_4 size
    && leb offset (max_push_constant_bytes - size)
    && get_u32 payload 20 == 0
    && constants_are_zero payload size

-- The kinds of dynamic state, enum bvb_vulkan_dynamic_state_kind.
abbrev kind_cull_mode : ℕ
kind_cull_mode = 1

abbrev kind_front_face : ℕ
kind_front_face = 2

abbrev kind_primitive_topology : ℕ
kind_primitive_topology = 3

abbrev kind_depth_test_enable : ℕ
kind_depth_test_enable = 4

abbrev kind_depth_write_enable : ℕ
kind_depth_write_enable = 5

abbrev kind_depth_compare_op : ℕ
kind_depth_compare_op = 6

abbrev kind_depth_bounds_test_enable : ℕ
kind_depth_bounds_test_enable = 7

abbrev kind_stencil_test_enable : ℕ
kind_stencil_test_enable = 8

abbrev kind_stencil_op : ℕ
kind_stencil_op = 9

abbrev kind_rasterizer_discard_enable : ℕ
kind_rasterizer_discard_enable = 10

abbrev kind_depth_bias_enable : ℕ
kind_depth_bias_enable = 11

abbrev kind_primitive_restart_enable : ℕ
kind_primitive_restart_enable = 12

abbrev kind_depth_bias : ℕ
kind_depth_bias = 13

abbrev kind_depth_bounds : ℕ
kind_depth_bounds = 14

abbrev kind_stencil_compare_mask : ℕ
kind_stencil_compare_mask = 15

abbrev kind_stencil_write_mask : ℕ
kind_stencil_write_mask = 16

abbrev kind_stencil_reference : ℕ
kind_stencil_reference = 17

abbrev kind_line_width : ℕ
kind_line_width = 18

abbrev kind_blend_constants : ℕ
kind_blend_constants = 19

-- The kinds whose only value is 0 or 1.
pub kind_is_enable : ℕ → Bool
kind_is_enable kind =
    kind == kind_depth_test_enable
    || kind == kind_depth_write_enable
    || kind == kind_depth_bounds_test_enable
    || kind == kind_stencil_test_enable
    || kind == kind_rasterizer_discard_enable
    || kind == kind_depth_bias_enable
    || kind == kind_primitive_restart_enable

pub kind_is_stencil_pair : ℕ → Bool
kind_is_stencil_pair kind =
    kind == kind_stencil_compare_mask
    || kind == kind_stencil_write_mask
    || kind == kind_stencil_reference

pub kind_is_float : ℕ → Bool
kind_is_float kind =
    kind == kind_depth_bias
    || kind == kind_depth_bounds
    || kind == kind_line_width
    || kind == kind_blend_constants

-- How many values a kind has; no other number is a kind.
pub expected_values : ℕ → Option ℕ
unfolding kind_is_enable kind_is_stencil_pair
expected_values kind =
    if kind_is_enable kind
      || kind == kind_cull_mode
      || kind == kind_front_face
      || kind == kind_primitive_topology
      || kind == kind_depth_compare_op
      || kind == kind_line_width
    then some 1
    else if kind_is_stencil_pair kind || kind == kind_depth_bounds
    then some 2
    else if kind == kind_depth_bias
    then some 3
    else if kind == kind_blend_constants
    then some 4
    else if kind == kind_stencil_op
    then some 5
    else none

-- The values that a kind may have.
pub dynamic_values_are_valid : ℕ → ℕ → (ℕ → ℕ) → Bool
dynamic_values_are_valid kind count values =
    (kind != kind_cull_mode || within_mask (values 0) 3)
    && (kind != kind_front_face || leb (values 0) 1)
    && (kind != kind_primitive_topology || leb (values 0) 14)
    && (kind != kind_depth_compare_op || leb (values 0) 7)
    && (not (kind_is_enable kind) || leb (values 0) 1)
    && (kind != kind_stencil_op
        || within_mask (values 0) 3
          && values 0 != 0
          && leb (values 1) 7
          && leb (values 2) 7
          && leb (values 3) 7
          && leb (values 4) 7)
    && (not (kind_is_stencil_pair kind) || within_mask (values 0) 3 && values 0 != 0)
    && (not (kind_is_float kind) || all_below count (λ index. float_word_is_finite (values index)))
    && (kind != kind_depth_bounds
        || float_is_depth (values 0)
          && float_is_depth (values 1)
          && not (float_lt (values 1) (values 0)))
    && (kind != kind_line_width || float_lt 0 (values 0))

abbrev pub value_at : Buffer → ℕ → ℕ
value_at payload index = get_u32 payload (8 + index * 4)

-- No value behind the first `count`.
pub values_are_zero : Buffer → ℕ → Bool
values_are_zero payload count =
    all_below max_dynamic_state_values (λ index. ltb index count || value_at payload index == 0)

-- The values of a kind that has `expected` of them; `none` is the default case of the switch.
pub values_are_valid : Option ℕ → Buffer → ℕ → ℕ → Bool
values_are_valid none payload kind count = false
values_are_valid (some expected) payload kind count =
    count == expected
    && values_are_zero payload count
    && dynamic_values_are_valid kind count (value_at payload)

pub dynamic_state_is_valid : Buffer → Bool
dynamic_state_is_valid payload =
    let kind = get_u32 payload 0 in
    let count = get_u32 payload 4 in values_are_valid (expected_values kind) payload kind count

-- What each kind of query command, enum bvb_vulkan_query_command_kind, asks of the other fields.
pub query_kind_is_valid : ℕ → ℕ → ℕ → ℕ → ℕ → Bool
query_kind_is_valid kind stage count flags index =
    if kind == 1
    then stage == 0 && flags == 0 && index == 0
    else if kind == 2
    then stage == 0 && count == 1 && within_mask flags 1 && index == 0
    else if kind == 3
    then stage == 0 && count == 1 && flags == 0 && index == 0
    else if kind == 4 || kind == 5
    then stage != 0 && count == 1 && flags == 0 && index == 0
    else if kind == 6
    then stage == 0 && count == 1 && within_mask flags 1
    else kind == 7 && stage == 0 && count == 1 && flags == 0

pub query_is_valid : Buffer → Bool
query_is_valid payload =
    let count = get_u32 payload 20 in
    is_object (get_u64 payload 0) object_query_pool
    && count != 0
    && get_u32 payload 36 == 0
    && query_kind_is_valid (get_u32 payload 32) (get_u64 payload 8) count (get_u32 payload 24)
        (get_u32 payload 28)

pub begin_is_valid : Buffer → Bool
begin_is_valid payload = within_mask (get_u32 payload 0) 1 && get_u32 payload 4 == 0
