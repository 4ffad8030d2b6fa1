-- ===== src/Windows/Errno.antt =====
-- `yoi_win_conv_errno` of src/win/impl.c.
pub mod Sockets
mod Tests
use libyaooi.Prelude.{Option, none, some}
use libyaooi.Errno.{Code}
use libyaooi.Windows.Errors.{WinError}

-- none is YO_ENOTCONN, which inc/yaooi/errno.h does not declare.
unfoldable pub conv_errno : WinError → Option Code
conv_errno WinError.error_access_denied = some Code.eperm
conv_errno WinError.error_active_connections = some Code.eagain
conv_errno WinError.error_address_already_associated = some Code.eaddrinuse
conv_errno WinError.error_already_exists = some Code.eexist
conv_errno WinError.error_bad_device = some Code.enodev
conv_errno WinError.error_bad_exe_format = some Code.ebadexe
conv_errno WinError.error_bad_net_name = some Code.enoent
conv_errno WinError.error_bad_net_resp = some Code.enoresource
conv_errno WinError.error_bad_netpath = some Code.enoent
conv_errno WinError.error_bad_pathname = some Code.enoent
conv_errno WinError.error_bad_pipe = some Code.enoent
conv_errno WinError.error_bad_unit = some Code.enodev
conv_errno WinError.error_bad_username = some Code.einval
conv_errno WinError.error_beginning_of_media = some Code.eio
conv_errno WinError.error_broken_pipe = some Code.eof
conv_errno WinError.error_buffer_overflow = some Code.efault
conv_errno WinError.error_bus_reset = some Code.eio
conv_errno WinError.error_busy = some Code.ebusy
conv_errno WinError.error_call_not_implemented = some Code.enoresource
conv_errno WinError.error_cancelled = some Code.ecanceled
conv_errno WinError.error_cannot_make = some Code.eperm
conv_errno WinError.error_cant_resolve_filename = some Code.eloop
conv_errno WinError.error_child_not_complete = some Code.ebusy
conv_errno WinError.error_commitment_limit = some Code.eagain
conv_errno WinError.error_connection_aborted = some Code.econnaborted
conv_errno WinError.error_connection_refused = some Code.econnrefused
conv_errno WinError.error_crc = some Code.eio
conv_errno WinError.error_dev_not_exist = some Code.enoent
conv_errno WinError.error_device_door_open = some Code.eio
conv_errno WinError.error_device_in_use = some Code.eagain
conv_errno WinError.error_device_requires_cleaning = some Code.eio
conv_errno WinError.error_dir_not_empty = some Code.enotempty
conv_errno WinError.error_directory = some Code.enotdir
conv_errno WinError.error_disk_corrupt = some Code.eio
conv_errno WinError.error_disk_full = some Code.enoresource
conv_errno WinError.error_ds_generic_error = some Code.eio
conv_errno WinError.error_dup_name = some Code.eexist
conv_errno WinError.error_ea_list_inconsistent = some Code.einval
conv_errno WinError.error_ea_table_full = some Code.enoresource
conv_errno WinError.error_eas_didnt_fit = some Code.enoresource
conv_errno WinError.error_eas_not_supported = some Code.enotsup
conv_errno WinError.error_end_of_media = some Code.enoresource
conv_errno WinError.error_eom_overflow = some Code.eio
conv_errno WinError.error_exe_machine_type_mismatch = some Code.ebadexe
conv_errno WinError.error_exe_marked_invalid = some Code.ebadexe
conv_errno WinError.error_file_corrupt = some Code.eexist
conv_errno WinError.error_file_exists = some Code.eexist
conv_errno WinError.error_file_invalid = some Code.enoent
conv_errno WinError.error_file_not_found = some Code.enoent
conv_errno WinError.error_filemark_detected = some Code.eio
conv_errno WinError.error_filename_exced_range = some Code.erange
conv_errno WinError.error_gen_failure = some Code.eio
conv_errno WinError.error_handle_disk_full = some Code.enoresource
conv_errno WinError.error_handle_eof = some Code.eof
conv_errno WinError.error_host_unreachable = some Code.ehostdown
conv_errno WinError.error_insufficient_buffer = some Code.erange
conv_errno WinError.error_invalid_address = some Code.einval
conv_errno WinError.error_invalid_at_interrupt_time = some Code.einval
conv_errno WinError.error_invalid_block_length = some Code.erange
conv_errno WinError.error_invalid_data = some Code.einval
conv_errno WinError.error_invalid_drive = some Code.enodev
conv_errno WinError.error_invalid_ea_name = some Code.einval
conv_errno WinError.error_invalid_exe_signature = some Code.ebadexe
conv_errno WinError.error_invalid_flags = some Code.einval
conv_errno WinError.error_invalid_function = some Code.eisdir
conv_errno WinError.error_invalid_handle = some Code.ebadfd
conv_errno WinError.error_invalid_name = some Code.enoent
conv_errno WinError.error_invalid_parameter = some Code.einval
conv_errno WinError.error_invalid_reparse_data = some Code.enoent
conv_errno WinError.error_invalid_signal_number = some Code.einval
conv_errno WinError.error_io_device = some Code.eio
conv_errno WinError.error_io_incomplete = some Code.eagain
conv_errno WinError.error_io_pending = some Code.eagain
conv_errno WinError.error_iopl_not_enabled = some Code.ebadexe
conv_errno WinError.error_lock_violation = some Code.ebusy
conv_errno WinError.error_max_thrds_reached = some Code.eagain
conv_errno WinError.error_meta_expansion_too_long = some Code.einval
conv_errno WinError.error_mod_not_found = some Code.enoent
conv_errno WinError.error_more_data = some Code.erange
conv_errno WinError.error_negative_seek = some Code.einval
conv_errno WinError.error_netname_deleted = some Code.econnreset
conv_errno WinError.error_network_unreachable = some Code.enetdown
conv_errno WinError.error_no_data_detected = some Code.eio
conv_errno WinError.error_no_data = some Code.eof
conv_errno WinError.error_no_media_in_drive = some Code.enomedium
conv_errno WinError.error_no_more_files = some Code.enoent
conv_errno WinError.error_no_more_items = some Code.enoent
conv_errno WinError.error_no_more_search_handles = some Code.enoent
conv_errno WinError.error_no_proc_slots = some Code.eagain
conv_errno WinError.error_no_signal_sent = some Code.eio
conv_errno WinError.error_no_system_resources = some Code.efbig
conv_errno WinError.error_no_token = some Code.einval
conv_errno WinError.error_no_unicode_translation = some Code.eutf
conv_errno WinError.error_noaccess = some Code.eperm
conv_errno WinError.error_none_mapped = some Code.einval
conv_errno WinError.error_nonpaged_system_resources = some Code.eagain
conv_errno WinError.error_not_connected = none
conv_errno WinError.error_not_enough_memory = some Code.enomem
conv_errno WinError.error_not_enough_quota = some Code.eio
conv_errno WinError.error_not_owner = some Code.eperm
conv_errno WinError.error_not_ready = some Code.enomedium
conv_errno WinError.error_not_same_device = some Code.exdev
conv_errno WinError.error_not_supported = some Code.enotsup
conv_errno WinError.error_open_failed = some Code.eio
conv_errno WinError.error_open_files = some Code.eagain
conv_errno WinError.error_operation_aborted = some Code.ecanceled
conv_errno WinError.error_outofmemory = some Code.enomem
conv_errno WinError.error_paged_system_resources = some Code.eagain
conv_errno WinError.error_pagefile_quota = some Code.eagain
conv_errno WinError.error_path_not_found = some Code.enoent
conv_errno WinError.error_pipe_busy = some Code.ebusy
conv_errno WinError.error_pipe_connected = some Code.ebusy
conv_errno WinError.error_pipe_listening = some Code.ealready
conv_errno WinError.error_pipe_not_connected = some Code.ebadop
conv_errno WinError.error_possible_deadlock = some Code.eio
conv_errno WinError.error_privilege_not_held = some Code.eperm
conv_errno WinError.error_proc_not_found = some Code.enoent
conv_errno WinError.error_process_aborted = some Code.efault
conv_errno WinError.error_rem_not_list = some Code.enoent
conv_errno WinError.error_sector_not_found = some Code.einval
conv_errno WinError.error_seek = some Code.ebadop
conv_errno WinError.error_sem_timeout = some Code.etimeout
conv_errno WinError.error_service_request_timeout = some Code.etimeout
conv_errno WinError.error_setmark_detected = some Code.eio
conv_errno WinError.error_sharing_buffer_exceeded = some Code.enoresource
conv_errno WinError.error_sharing_violation = some Code.ebusy
conv_errno WinError.error_signal_pending = some Code.ebusy
conv_errno WinError.error_signal_refused = some Code.eio
conv_errno WinError.error_sxs_cant_gen_actctx = some Code.ebadexe
conv_errno WinError.error_symlink_not_supported = some Code.einval
conv_errno WinError.error_thread_1_inactive = some Code.einval
conv_errno WinError.error_timeout = some Code.ebusy
conv_errno WinError.error_too_many_links = some Code.enoresource
conv_errno WinError.error_too_many_open_files = some Code.enoresource
conv_errno WinError.error_unexp_net_err = some Code.eio
conv_errno WinError.error_wait_no_children = some Code.eio
conv_errno WinError.error_working_set_quota = some Code.eagain
conv_errno WinError.error_write_protect = some Code.erofs
conv_errno WinError.error_resource_data_not_found = some Code.einval
conv_errno WinError.error_resource_type_not_found = some Code.einval
conv_errno WinError.error_resource_name_not_found = some Code.einval
conv_errno WinError.error_resource_lang_not_found = some Code.einval
conv_errno WinError.wsaeacces = some Code.eperm
conv_errno WinError.wsaeaddrinuse = some Code.eaddrinuse
conv_errno WinError.wsaeaddrnotavail = some Code.eaddrnotavail
conv_errno WinError.wsaeafnosupport = some Code.enotsup
conv_errno WinError.wsaealready = some Code.ealready
conv_errno WinError.wsaeconnaborted = some Code.econnaborted
conv_errno WinError.wsaeconnrefused = some Code.econnrefused
conv_errno WinError.wsaeconnreset = some Code.econnreset
conv_errno WinError.wsaefault = some Code.efault
conv_errno WinError.wsaehostunreach = some Code.ehostdown
conv_errno WinError.wsaeintr = some Code.ecanceled
conv_errno WinError.wsaeinval = some Code.einval
conv_errno WinError.wsaeisconn = some Code.ealready
conv_errno WinError.wsaemfile = some Code.enoresource
conv_errno WinError.wsaemsgsize = some Code.erange
conv_errno WinError.wsaenetunreach = some Code.enetdown
conv_errno WinError.wsaenobufs = some Code.erange
conv_errno WinError.wsaenotconn = some Code.enetdown
conv_errno WinError.wsaenotsock = some Code.enotsock
conv_errno WinError.wsaepfnosupport = some Code.enotsup
conv_errno WinError.wsaeprotonosupport = some Code.enotsup
conv_errno WinError.wsaeshutdown = some Code.eof
conv_errno WinError.wsaesocktnosupport = some Code.enotsup
conv_errno WinError.wsaetimedout = some Code.etimeout
conv_errno WinError.wsaewouldblock = some Code.eagain
conv_errno WinError.wsahost_not_found = some Code.enoent
conv_errno WinError.wsano_data = some Code.enoent
conv_errno (WinError.other n) = some Code.eunknown
