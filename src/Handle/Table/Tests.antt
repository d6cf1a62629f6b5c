-- ===== src/Handle/Table/Tests.antt =====
-- Tests of the handle functions on small tables, and the theorems at concrete inputs.
use bionic_vulkan_bridge.Prelude.{
  ℕ, ◌+◌, ◌^◌, ◌<◌, ◌≡◌, ◌≢◌, refl, arith, none, some, ok, err, success, eexist, ◌==◌,
  if◌then◌else◌, update, ltb, einval,
}
use bionic_vulkan_bridge.Handle.{
  object_type_is_valid, handle_id, handle_type, handle_serial, handle_expect,
}
use bionic_vulkan_bridge.Handle.Ids.{handle_id_fields, handle_expect_iff}
use bionic_vulkan_bridge.Handle.Table.{
  HandleTable, zero_entry, new_entry, removed_entry, cleared, init, insert, insert_at, insert_loop,
  hash_wire_id, store, lookup, remove, remove_loop, release, find_entry, find_loop, is_typed,
}
use bionic_vulkan_bridge.Handle.Table.Invariant.{IsWellFormed, init-IsWellFormed}
use bionic_vulkan_bridge.Handle.Table.Map.{
  IsInsertable, view, status_of, insert_status, insert_refines, lookup-insert, remove_status,
  remove_refines,
}

-- The ids of an instance and of a device.
abbrev instance_id : ℕ
instance_id = 0x0100_0000_0000_0005

abbrev device_id : ℕ
device_id = 0x0300_0000_0000_0006

ids_are_made : (handle_id 1 5 ≡ instance_id) × (handle_id 26 5 ≡ 0) × (handle_id 3 6 ≡ device_id)
unfolding handle_id
ids_are_made = (refl, refl, refl)

handle_id_fields_example :
    (handle_type (handle_id 3 6) ≡ 3)
    × (handle_serial (handle_id 3 6) ≡ 6)
    × (handle_expect (handle_id 3 6) 3 ≡ success)
    × (handle_id 3 6 < 2 ^ 64)
unfolding object_type_is_valid
handle_id_fields_example = handle_id_fields 3 6 refl (omega arith) (omega arith)

handle_expect_iff_example :
    (instance_id ≢ 0) × (handle_id 1 (handle_serial instance_id) ≡ instance_id)
unfolding handle_expect handle_type handle_serial
handle_expect_iff_example = (handle_expect_iff instance_id 1 (omega arith)).0 refl

abbrev blank : HandleTable
blank = record {
  entries = λ i. if ltb i 8 then zero_entry else zero_entry;
  capacity = 8;
  count = 0;
}

-- After an insert of the instance, whose probes start at slot 2.
abbrev one_held : HandleTable
one_held = record {
  entries = update blank.entries 2 (new_entry instance_id 0 77);
  capacity = 8;
  count = 1;
}

abbrev removed : HandleTable
removed = record { entries = update one_held.entries 2 removed_entry; capacity = 8; count = 0 }

init-blank : init (λ _. zero_entry) 8 ≡ ok blank
unfolding init cleared
init-blank = refl

insert-one_held : insert blank instance_id 0 77 ≡ ok one_held
unfolding insert insert_at insert_loop handle_type handle_serial store hash_wire_id
insert-one_held = refl

remove-removed : remove one_held instance_id 1 ≡ ok (removed, 77)
unfolding remove remove_loop handle_expect handle_type handle_serial release hash_wire_id
remove-removed = refl

acceptable : IsInsertable instance_id 0 77
unfolding is_typed handle_type handle_serial
acceptable = (refl, omega arith, refl)

init-IsWellFormed_example : IsWellFormed blank × ((w : ℕ) → find_entry blank w ≡ none)
init-IsWellFormed_example = init-IsWellFormed (λ _. zero_entry) 8 blank (omega arith) init-blank

blank-IsWellFormed : IsWellFormed blank
blank-IsWellFormed = (init-IsWellFormed (λ _. zero_entry) 8 blank (omega arith) init-blank).0

one_held-IsWellFormed : IsWellFormed one_held
one_held-IsWellFormed =
    (insert_refines blank one_held instance_id 0 77 blank-IsWellFormed acceptable insert-one_held).0

insert_refines_example :
    IsWellFormed one_held
    × (one_held.count ≡ blank.count + 1)
    × (view blank instance_id ≡ none)
    × ((k : ℕ) → view one_held k ≡ (if instance_id == k then some (0, 77) else view blank k))
insert_refines_example =
    insert_refines blank one_held instance_id 0 77 blank-IsWellFormed acceptable insert-one_held

-- The id is there already.
insert_status_example : status_of (insert one_held instance_id 0 77) ≡ err eexist
unfolding find_entry find_loop hash_wire_id
insert_status_example = insert_status one_held instance_id 0 77 one_held-IsWellFormed acceptable

lookup-insert_example :
    (lookup one_held instance_id 1 ≡ ok (0, 77))
    × ((k other : ℕ) → instance_id ≢ k → lookup one_held k other ≡ lookup blank k other)
unfolding handle_expect handle_type handle_serial
lookup-insert_example =
    lookup-insert blank one_held instance_id 0 77 1 blank-IsWellFormed acceptable refl
      insert-one_held

-- Asked for as a device, the instance is refused.
remove_status_example : status_of (remove one_held instance_id 3) ≡ err einval
unfolding handle_expect handle_type handle_serial
remove_status_example = remove_status one_held instance_id 3 one_held-IsWellFormed

remove_refines_example :
    IsWellFormed removed
    × (removed.count + 1 ≡ one_held.count)
    × ((parent : ℕ) × (view one_held instance_id ≡ some (parent, 77)))
    × ((k : ℕ) → view removed k ≡ (if instance_id == k then none else view one_held k))
remove_refines_example =
    remove_refines one_held removed instance_id 1 77 one_held-IsWellFormed remove-removed
