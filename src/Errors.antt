-- ===== src/Errors.antt =====
-- The operations that the operating system can refuse, and the errors of the program as values:
-- one constructor for each message of cli/*.go that a modelled function returns.
use http_capture.Prelude.{ℤ, Bytes}

-- One system call, or one call of a library that ends in system calls, on a path.
pub data Op : Type 0 where
  user_config_dir getwd random_bytes : Op
  make_directory change_mode read_file write_file remove_file stat_file : Bytes → Op
  open_file seek_file create_file sync_file close_file rename_file lock_file : Bytes → Op

pub data Error : Type 0 where
  -- the operating system
  refused_by_system : Op → Error
  not_exist corrupt_file : Bytes → Error
  -- package flag
  bad_flag_syntax undefined_flag missing_flag_value bad_switch_value : Bytes → Error
  help_requested : Error
  -- main.go
  no_active_session positional_arguments clear_only_for_charles unsupported_engine : Error
  active_session_exists : Bytes → Error
  bad_proxy_url bad_proxy_port empty_session_directory : Error
  unsupported_active_engine unsupported_format : Bytes → Error
  charles_refused : Bytes → Error
  -- record_proxify.go
  proxify_not_started proxify_not_running no_format bad_offset : Error
  bad_record : Error
  -- session_manager.go
  other_session : Bytes → Bytes → Error
  charles_address_missing : Error
  stop_failed : Error → Error
  -- control_server.go
  proxify_on_other_port : ℤ → ℤ → Error
  engine_without_control : Bytes → Error
  bad_json bad_identity no_package bad_proxy_address bad_confirmation bad_stop bad_abandonment :
      Error
  other_capture missing_credentials invalid_credentials : Error
  -- control_devices.go
  one_of_device_and_profile no_matching_device : Error
  -- proxy_proxify.go and process_linux.go
  invalid_process_state no_managed_process process_not_running process_did_not_exit : Error
  no_host_found process_running process_exited process_not_ready port_unavailable : Error
  bad_listen_host bad_listen_port bad_body_limit arguments_refused program_missing : Error
  -- web_focus.go, web_export.go
  too_many_rules duplicate_rule_id bad_rule_type bad_rule_method : Error
  empty_rule_pattern long_rule_pattern long_rule_name : Error
  session_without_index session_not_exportable selected_not_exportable nothing_to_export : Error
  -- pairing_server.go
  bad_bundle_size bad_pairing_host pairing_expired : Error
  pairing_failed : Error → Error
  -- export.go
  input_and_output_required har_without_client unsupported_input : Error
  har_without_log har_without_entries cut_off_block : Error
  -- web_index.go and web_incremental.go
  invalid_session_id bad_focus_mode bad_status_class bad_status : Error
  outside_sessions no_plain_directory record_too_large record_changed unknown_body_encoding : Error
  unsupported_encoding undecodable : Bytes → Error
  no_streaming sql_failed offset_beyond_file file_replaced file_unreadable : Error
