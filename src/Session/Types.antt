-- ===== src/Session/Types.antt =====
-- The types of include/net/session.hpp, and those of netTypes.h that it uses.
use mlnsdk.Base.{ℕ, Bool, true, false, Option, List}
use mlnsdk.ByteStream.{ByteStream, PacketManipulator}

pub data SessionType : Type 0 where
  tcp websocket : SessionType

-- `SocketStatus`
pub data SocketStatus : Type 0 where
  open_status pending_close closed : SocketStatus

abbrev pub is_open : SocketStatus → Bool
is_open open_status = true
is_open pending_close = false
is_open closed = false

abbrev pub is_closed : SocketStatus → Bool
is_closed open_status = false
is_closed pending_close = false
is_closed closed = true

abbrev pub is_tcp : SessionType → Bool
is_tcp tcp = true
is_tcp websocket = false

-- `boost::system::error_code`, as far as the code tells values apart.
pub data ErrorCode : Type 0 where
  success shut_down eof operation_aborted : ErrorCode
  other : ℕ → ErrorCode

abbrev pub is_shut_down : ErrorCode → Bool
is_shut_down shut_down = true
is_shut_down _ = false

abbrev pub is_eof : ErrorCode → Bool
is_eof eof = true
is_eof _ = false

-- `shutdown_type`
pub data Shutdown : Type 0 where
  receive send_side both : Shutdown

-- What the handlers post to the strand.
pub data Task : Type 0 where
  dispatch_task close_task : Task
  read_task : ErrorCode → List ℕ → Task

-- What the handlers ask of sockets, timers and the event receiver.
pub data Effect : Type 0 where
  async_read : SessionType → Effect
  async_write : List ℕ → Effect
  arm_keep_alive arm_close_reserve : ℕ → Effect
  cancel_timers close_socket close_websocket retried post_callback : Effect
  shutdown : Shutdown → Effect
  event_close event_expired : Effect

pub record Session : Type 0 where
  pub session_type : SessionType
  pub status : SocketStatus
  pub keep_alive_time : ℕ
  pub read_pending : ℕ
  pub retry_count : ℕ
  pub recv_stream : Option ByteStream
  pub packet_manipulator : Option PacketManipulator
  pub has_receiver : Bool
  pub socket_open : Bool
  pub identity : ℕ
  pub user : Option ℕ
  pub queue : List Task
  pub log : List Effect
