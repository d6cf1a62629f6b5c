-- ===== src/Lib.antt =====
-- bionic-vulkan-bridge: a glibc game stack reaches Android's native Vulkan driver through a versioned
-- bridge. This library models the parts of the bridge that keep state or take bytes apart, and proves
-- what the rest relies on.
--
-- The parts, and the files that model them (paths from the repository's root):
-- - Wire: the little-endian words of src/protocol.c, bvb_wire_put_* and bvb_wire_get_*, over buffers
--   as families of bytes. src/lifecycle.c repeats them as static functions.
-- - Handle: typed wire ids and the proxy table of src/handle.c and include/bvb/handle.h. The service
--   gives each native Vulkan object an id and looks the object up again by it. handle_id, handle_type,
--   handle_serial and handle_expect are in Handle, the table with init, insert, lookup and remove in
--   Handle/Table. The array is the family of its entries.
-- - Futex: the clock, the deadline and the futex waits that the shared-memory parts have in common.
-- - FrameSync: the two-sided handshake page of src/frame_sync.c.
-- - FrameRing: the ring of images between game and Activity of src/wsi_frame_ring.c.
-- - Lifecycle: the records and acknowledgements that the Activity and the service exchange, and the
--   hexadecimal token, of src/lifecycle.c. token_loop is the loop of bvb_lifecycle_token_from_hex.
-- - Protocol: the message header (Protocol/Header) and the messages of fixed size of src/protocol.c, by
--   what they are about. For each message the record is its struct, put_* the stores of its encoder,
--   get_* the loads of its decoder, and encode_* and decode_* the functions bvb_protocol_encode_* and
--   bvb_protocol_decode_* (with vulkan_ left out of the name). RoundTrip reads back what was encoded,
--   Canonical shows that what is accepted is what the encoder writes.
-- - StreamGeneration: the generations of command streams, the last part of the batch functions of
--   src/command_batch.c, which keep a stream from being executed twice.
-- - CommandBatch: the batch of commands of src/command_batch.c. The builder and the reader are in
--   CommandBatch, what a payload of each opcode is in CommandBatch/Payload: Sizes is
--   expected_payload_size and payload_length_is_valid, and a case of the switch of validate_payload is a
--   function *_is_valid of Drawing, Resources or State, true where the case returns 0. A float is its
--   32-bit pattern.
-- - DescriptorRing: the shared region of src/descriptor_transaction_ring.c. Waiting is
--   wait_for_sequence, Transactions call, wait_request, complete and the two failures, Leases the banks of
--   leased descriptor sets. What call does before its wait is post, and after it receive. Delivery/Whole
--   puts both sides and their waits together.
--
-- Conventions. A C function that updates an object returns the new object beside its status; a negated
-- errno is `err`. error_of gives the error of an errno value that a system call has set or that another
-- process has published negated, so that a published -71 is the EPROTO of the code itself.
-- Pointers are taken to be valid: a null argument has no counterpart, but where a function is given a
-- raw address (the two initialize functions). Machine words are natural numbers with their wrap-around
-- written out where it can happen.
-- A wait takes the list of what happens at each futex call: the clock, the outcome, and the shared
-- memory afterwards. The list is the environment, not a bound: where it ends the call still waits, and
-- the theorems on termination say after which entries it does not.
--
-- Where a decoder fails the model returns the error alone; some decoders have then already stored the
-- rejected value behind their out pointer.
--
-- Not modelled: the messages of src/protocol.c with arrays of names, ids or bytes and those checked
-- against constants of the Vulkan headers, the append and decode functions of the single commands of a
-- batch, sockets, the Vulkan loader and driver calls, Android's NativeActivity, generated dispatch tables and
-- the test programs. Between its waits each call on shared memory is one step; the single atomic
-- accesses inside a call are not interleaved with the other process.
pub mod Prelude
pub mod Wire
pub mod Handle
pub mod Futex
pub mod FrameSync
pub mod FrameRing
pub mod Lifecycle
pub mod Protocol
pub mod StreamGeneration
pub mod CommandBatch
pub mod DescriptorRing
