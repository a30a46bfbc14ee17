-- ===== src/Protocol/Blocks.antt =====
-- protocol.cpp: what the validators of the shared blocks accept, and the status message.
use lsfg_nx.Base.{
  ℕ, ◌-◌, ◌%◌, ◌≤◌, ◌≡◌, ◌≢◌, ◌⊎◌, ◌↔◌, refl, ◌∙◌, arith, List, length, take, replicate, min,
  length-append, length-take, length-replicate, take-take_append, take-min_length,
}
use lsfg_nx.Base.Bits.{bit_and-one}
use lsfg_nx.Error.{ErrorCode}
use lsfg_nx.Protocol.{
  ControlBlock, StatusBlock, abi_version, control_block_size, message_capacity, validate_control,
  validate_status, validate_reports, set_message, message_view, initialize_control,
  initialize_status, initialize_reports,
}

-- A control block that the plugin acts on.
pub record ControlOk (c : ControlBlock) : Type 0 where
  pub abi : c.abi_version ≡ 2
  pub whole : c.struct_size ≡ 32
  pub stable : c.sequence % 2 ≡ 0
  pub mode : c.mode ≤ 1
  pub preset : c.preset ≤ 2
  pub debug_view : c.debug_view ≤ 3

-- `validate` accepts exactly the control blocks of this version and size whose writer is not in
-- the middle of an update and whose three enumerators are in range.
pub validate_control_iff : (c : ControlBlock) → (validate_control c ≡ ErrorCode.ok) ↔ ControlOk c
unfolding validate_control
validate_control_iff c =
    (λ h. ground (arith, bit_and-one c.sequence), λ v. ground (arith, bit_and-one c.sequence))

pub record StatusOk (s : StatusBlock) : Type 0 where
  pub abi : s.abi_version ≡ 2
  pub whole : s.struct_size ≡ 208
  pub stable : s.sequence % 2 ≡ 0
  pub state : s.state ≤ 5
  pub api : s.api ≤ 2
  pub message : s.message_size ≤ 96

-- The same for the status block; in particular a message length that passes is within the array.
pub validate_status_iff : (s : StatusBlock) → (validate_status s ≡ ErrorCode.ok) ↔ StatusOk s
unfolding validate_status
validate_status_iff s =
    (λ h. ground (arith, bit_and-one s.sequence), λ v. ground (arith, bit_and-one s.sequence))

-- A block of another version or size is reported as a version mismatch whatever else is wrong with
-- it, and any other rejected block as an invalid message.
pub validate_control_mismatch :
    (c : ControlBlock)
    → (validate_control c ≡ ErrorCode.protocol_version_mismatch)
      ↔ ((c.abi_version ≢ abi_version) ⊎ (c.struct_size ≢ control_block_size))
unfolding validate_control
validate_control_mismatch c = (λ h. ground arith, λ v. ground arith)

-- `set_message` stores the first 96 bytes of the message and fills the array to its end.
pub set_message_lem :
    (s : StatusBlock) (message : List ℕ)
    → (message_view (set_message s message) ≡ take message_capacity message)
      × (length (set_message s message).message ≡ message_capacity)
unfolding set_message message_view
set_message_lem s message = (shown, filled)
  where
    size : ℕ
    size = min (length message) message_capacity

    shown : message_view (set_message s message) ≡ take message_capacity message
    shown =
        let e : size % 65536 ≡ size = omega arith in
        rw e (
          take-take_append size message (replicate (message_capacity - size) 0) (omega arith)
          ∙ take-min_length message_capacity message)

    filled : length (set_message s message).message ≡ message_capacity
    filled = omega (
      arith,
      length-append (take size message) (replicate (message_capacity - size) 0),
      length-take size message,
      length-replicate {A = ℕ} (message_capacity - size) 0,
    )

-- A message never makes a valid status block invalid.
pub validate_status-set_message :
    (s : StatusBlock) (message : List ℕ)
    → validate_status s ≡ ErrorCode.ok
    → validate_status (set_message s message) ≡ ErrorCode.ok
unfolding set_message validate_status
validate_status-set_message s message h = ground arith

-- What `initialize` writes passes the validators.
pub initialize_valid :
    (validate_control initialize_control ≡ ErrorCode.ok)
    × (validate_status initialize_status ≡ ErrorCode.ok)
    × (validate_reports initialize_reports ≡ ErrorCode.ok)
unfolding validate_control validate_status validate_reports initialize_control initialize_status
    initialize_reports
initialize_valid = (refl, refl, refl)
