-- ===== src/Protocol.antt =====
-- crates/common/src/protocol.rs: the frames of the control plane and of the data plane, their tags and
-- the errors of reading and writing them. The functions are in the modules below.
pub mod Json
pub mod Encode
pub mod OpenPayload
pub mod RoundTrip
pub mod Wire
pub mod Stream
pub mod Panics
pub mod CutOpen
pub mod Proof
mod Tests
use meshly_core.Common.{ℕ, ◌*◌, Bool, Option, arith, nat_eq, list_eq, ok, err, panic, Bytes, Text}

abbrev pub data_auth_nonce : ℕ
data_auth_nonce = 0x01

abbrev pub data_auth_proof : ℕ
data_auth_proof = 0x02

abbrev pub data_auth_ok : ℕ
data_auth_ok = 0x03

abbrev pub data_auth_err : ℕ
data_auth_err = 0x04

abbrev pub data_open_tag : ℕ
data_open_tag = 0x05

abbrev pub data_auth_hello : ℕ
data_auth_hello = 0x06

abbrev pub control_hello : ℕ
control_hello = 0x10

abbrev pub control_hello_ok : ℕ
control_hello_ok = 0x11

abbrev pub control_register : ℕ
control_register = 0x12

abbrev pub control_register_ok : ℕ
control_register_ok = 0x13

abbrev pub control_subscribe : ℕ
control_subscribe = 0x14

abbrev pub control_subscribe_ok : ℕ
control_subscribe_ok = 0x15

abbrev pub control_heartbeat : ℕ
control_heartbeat = 0x16

abbrev pub control_error_tag : ℕ
control_error_tag = 0x1f

abbrev pub auth_err_bad_proof : ℕ
auth_err_bad_proof = 1

abbrev pub max_frame_payload : ℕ
max_frame_payload = 32 * 1024

-- `io::Error`, by the kinds that the code looks at.
pub data IoError : Type 0 where
  unexpected_eof invalid_data other_io : IoError

pub data FrameError : Type 0 where
  io : IoError → FrameError
  short_header : FrameError
  short_payload : ℕ → ℕ → FrameError
  too_long : ℕ → ℕ → FrameError
  unknown_tag : ℕ → FrameError
  utf8 : FrameError
  auth_failed : ℕ → Text → FrameError

pub record AuthErr : Type 0 where
  pub code : ℕ
  pub reason : Text

pub record Hello : Type 0 where
  pub group_token : Text
  pub client_info : Text

pub record HelloOk : Type 0 where
  pub session_id : ℕ

pub record Register : Type 0 where
  pub service : Text

pub record RegisterOk : Type 0 where
  pub service : Text

pub record Subscribe : Type 0 where
  pub service : Text

pub record SubscribeOk : Type 0 where
  pub service : Text
  pub provider_node_id : Option Text
  pub relay_required : Bool

pub record DataOpen : Type 0 where
  pub target_service : Text
  pub target_provider : Text
  pub consumer_node_id : Text
  pub proof : Bytes

pub record ControlError : Type 0 where
  pub code : ℕ
  pub reason : Text

-- A `[u8; 32]` is a list whose length `IsWellFormed` of `Protocol.OpenPayload` states.
pub data Frame : Type 0 where
  auth_hello : Frame
  auth_nonce : Bytes → Frame
  auth_proof : Bytes → Frame
  auth_ok : Frame
  auth_err : AuthErr → Frame
  data_open : DataOpen → Frame
  hello : Hello → Frame
  hello_ok : HelloOk → Frame
  register : Register → Frame
  register_ok : RegisterOk → Frame
  subscribe : Subscribe → Frame
  subscribe_ok : SubscribeOk → Frame
  heartbeat : Frame
  control_error : ControlError → Frame

unfoldable pub tag : Frame → ℕ
tag auth_hello = data_auth_hello
tag (auth_nonce _) = data_auth_nonce
tag (auth_proof _) = data_auth_proof
tag auth_ok = data_auth_ok
tag (auth_err _) = data_auth_err
tag (data_open _) = data_open_tag
tag (hello _) = control_hello
tag (hello_ok _) = control_hello_ok
tag (register _) = control_register
tag (register_ok _) = control_register_ok
tag (subscribe _) = control_subscribe
tag (subscribe_ok _) = control_subscribe_ok
tag heartbeat = control_heartbeat
tag (control_error _) = control_error_tag
