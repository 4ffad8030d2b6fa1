-- ===== src/Windows/Errors.antt =====
-- The error numbers of Windows that src/win/impl.c names, by name: their values are the system's. A
-- number that it does not name is `other`.
use libyaooi.Prelude.{ℕ}

pub data WinError : Type 0 where
  error_access_denied error_active_connections error_address_already_associated : WinError
  error_already_exists error_bad_device error_bad_exe_format error_bad_net_name : WinError
  error_bad_net_resp error_bad_netpath error_bad_pathname error_bad_pipe error_bad_unit : WinError
  error_bad_username error_beginning_of_media error_broken_pipe error_buffer_overflow : WinError
  error_bus_reset error_busy error_call_not_implemented error_cancelled : WinError
  error_cannot_make error_cant_resolve_filename error_child_not_complete : WinError
  error_commitment_limit error_connection_aborted error_connection_refused error_crc : WinError
  error_dev_not_exist error_device_door_open error_device_in_use : WinError
  error_device_requires_cleaning error_dir_not_empty error_directory error_disk_corrupt : WinError
  error_disk_full error_ds_generic_error error_dup_name error_ea_list_inconsistent : WinError
  error_ea_table_full error_eas_didnt_fit error_eas_not_supported error_end_of_media : WinError
  error_eom_overflow error_exe_machine_type_mismatch error_exe_marked_invalid : WinError
  error_file_corrupt error_file_exists error_file_invalid error_file_not_found : WinError
  error_filemark_detected error_filename_exced_range error_gen_failure : WinError
  error_handle_disk_full error_handle_eof error_host_unreachable : WinError
  error_insufficient_buffer error_invalid_address error_invalid_at_interrupt_time : WinError
  error_invalid_block_length error_invalid_data error_invalid_drive : WinError
  error_invalid_ea_name error_invalid_exe_signature error_invalid_flags : WinError
  error_invalid_function error_invalid_handle error_invalid_name : WinError
  error_invalid_parameter error_invalid_reparse_data error_invalid_signal_number : WinError
  error_io_device error_io_incomplete error_io_pending error_iopl_not_enabled : WinError
  error_lock_violation error_max_thrds_reached error_meta_expansion_too_long : WinError
  error_mod_not_found error_more_data error_negative_seek error_netname_deleted : WinError
  error_network_unreachable error_no_data_detected error_no_data : WinError
  error_no_media_in_drive error_no_more_files error_no_more_items : WinError
  error_no_more_search_handles error_no_proc_slots error_no_signal_sent : WinError
  error_no_system_resources error_no_token error_no_unicode_translation error_noaccess : WinError
  error_none_mapped error_nonpaged_system_resources error_not_connected : WinError
  error_not_enough_memory error_not_enough_quota error_not_owner error_not_ready : WinError
  error_not_same_device error_not_supported error_open_failed error_open_files : WinError
  error_operation_aborted error_outofmemory error_paged_system_resources : WinError
  error_pagefile_quota error_path_not_found error_pipe_busy error_pipe_connected : WinError
  error_pipe_listening error_pipe_not_connected error_possible_deadlock : WinError
  error_privilege_not_held error_proc_not_found error_process_aborted : WinError
  error_rem_not_list error_sector_not_found error_seek error_sem_timeout : WinError
  error_service_request_timeout error_setmark_detected error_sharing_buffer_exceeded : WinError
  error_sharing_violation error_signal_pending error_signal_refused : WinError
  error_sxs_cant_gen_actctx error_symlink_not_supported error_thread_1_inactive : WinError
  error_timeout error_too_many_links error_too_many_open_files error_unexp_net_err : WinError
  error_wait_no_children error_working_set_quota error_write_protect : WinError
  error_resource_data_not_found error_resource_type_not_found : WinError
  error_resource_name_not_found error_resource_lang_not_found wsaeacces wsaeaddrinuse : WinError
  wsaeaddrnotavail wsaeafnosupport wsaealready wsaeconnaborted wsaeconnrefused : WinError
  wsaeconnreset wsaefault wsaehostunreach wsaeintr wsaeinval wsaeisconn wsaemfile : WinError
  wsaemsgsize wsaenetunreach wsaenobufs wsaenotconn wsaenotsock wsaepfnosupport : WinError
  wsaeprotonosupport wsaeshutdown wsaesocktnosupport wsaetimedout wsaewouldblock : WinError
  wsahost_not_found wsano_data : WinError
  other : ℕ → WinError
