-- ===== src/Network/Errors.antt =====
-- src/network/error_network.rs, success_network.rs: how the network tasks end.
-- `JoinError` (tokio) is a parameter; of the errors of the standard library only the payload is kept.
use p2p_network_implementati.Prelude.{ℕ}
use p2p_network_implementati.Bytes.{TryFromSliceError, FromUtf8Error}

-- `std::io::Error`, by the code that the operating system gives.
pub data IoError : Type 0 where
  os_error : ℕ → IoError

-- `std::time::SystemTimeError`: how many seconds the clock stands before the epoch.
pub data SystemTimeError : Type 0 where
  system_time_error : ℕ → SystemTimeError

pub data ErrorCreateVersionMessage : Type 0 where
  error_timestamp : SystemTimeError → ErrorCreateVersionMessage

pub data ErrorLowLevelParsing : Type 0 where
  conversion_error : TryFromSliceError → ErrorLowLevelParsing
  error_parse_utf8 : FromUtf8Error → ErrorLowLevelParsing
  not_enough_bytes : ErrorLowLevelParsing

pub data ErrorParsing : Type 0 where
  conversion_error : TryFromSliceError → ErrorParsing
  invalid_magic_bytes : ErrorParsing
  invalid_command : ErrorParsing
  large_payload_size : ErrorParsing
  invalid_check_sum : ErrorParsing
  error_low_level_parsing : ErrorLowLevelParsing → ErrorParsing

pub data ErrorTaskRead : Type 0 where
  error_input_output : IoError → ErrorTaskRead
  error_channel_peer_closed : ErrorTaskRead
  error_parsing : ErrorParsing → ErrorTaskRead

pub data ErrorTaskWrite : Type 0 where
  error_input_output : IoError → ErrorTaskWrite
  error_channel_peer_closed : ErrorTaskWrite

pub data SuccessTaskRead : Type 0 where
  successful : SuccessTaskRead
  successful_eof : SuccessTaskRead

pub data SuccessTaskWrite : Type 0 where
  successful : SuccessTaskWrite

pub data SuccessPeer : Type 0 where
  successful_task_read_task_write : SuccessPeer
  successful_task_read_broken_pipe_task_write_successful : SuccessPeer

pub data ErrorPeer (JoinError : Type 0) : Type 0 where
  error_remote_address : IoError → ErrorPeer JoinError
  error_local_address : IoError → ErrorPeer JoinError
  error_success_task_read_error_task_write : SuccessTaskRead → ErrorTaskWrite → ErrorPeer JoinError
  error_success_task_write_error_task_read : ErrorTaskRead → SuccessTaskWrite → ErrorPeer JoinError
  error_task_read_task_write : ErrorTaskRead → ErrorTaskWrite → ErrorPeer JoinError
  error_success_task_read_error_join_handle_task_write :
      SuccessTaskRead → JoinError → ErrorPeer JoinError
  error_success_task_write_error_join_handle_task_read :
      JoinError → SuccessTaskWrite → ErrorPeer JoinError
  error_task_read_error_join_handle_task_write : ErrorTaskRead → JoinError → ErrorPeer JoinError
  error_task_write_error_join_handle_task_read : ErrorTaskWrite → JoinError → ErrorPeer JoinError
  error_join_handle_task_read_task_write : JoinError → JoinError → ErrorPeer JoinError
  error_success_task_read : SuccessTaskRead → ErrorPeer JoinError
  error_success_task_write : SuccessTaskWrite → ErrorPeer JoinError
  error_task_read : ErrorTaskRead → ErrorPeer JoinError
  error_task_write : ErrorTaskWrite → ErrorPeer JoinError
  error_task_read_join_handle : JoinError → ErrorPeer JoinError
  error_task_write_join_handle : JoinError → ErrorPeer JoinError

pub data ErrorPeerManager : Type 0 where
  error_channel_thread_network_closed : ErrorPeerManager
  error_channel_loop_listen_closed : ErrorPeerManager
  error_channel_handle_message_closed : ErrorPeerManager
  error_channel_all_peers_closed : ErrorPeerManager

pub data ErrorSendEvents : Type 0 where
  error_channel_peer_closed : ErrorSendEvents
  missing_peer : ErrorSendEvents

pub data ErrorLoopListen : Type 0 where
  error_input_output : IoError → ErrorLoopListen
  error_channel_peer_manager_closed : ErrorLoopListen
  error_channel_thread_network_closed : ErrorLoopListen

pub data ErrorThreadNetwork (JoinError : Type 0) : Type 0 where
  error_input_output : IoError → ErrorThreadNetwork JoinError
  error_peer_manager : ErrorPeerManager → ErrorThreadNetwork JoinError
  error_loop_listen : ErrorLoopListen → ErrorThreadNetwork JoinError
  error_peer_manager_error_loop_listen :
      ErrorPeerManager → ErrorLoopListen → ErrorThreadNetwork JoinError
  error_peer_manager_join_handle_loop_listen :
      ErrorPeerManager → JoinError → ErrorThreadNetwork JoinError
  error_loop_listen_join_handle_peer_manager :
      ErrorLoopListen → JoinError → ErrorThreadNetwork JoinError
  error_peer_manager_join_handle : JoinError → ErrorThreadNetwork JoinError
  error_loop_listen_join_handle : JoinError → ErrorThreadNetwork JoinError
  error_peer_manager_error_loop_listen_join_handle :
      JoinError → JoinError → ErrorThreadNetwork JoinError
