-- ===== src/Error.antt =====
-- Return codes and their descriptions (include/error.h, src/error.c). A code is a natural number:
-- the program returns these, and positive `errno` values.
use Prim.Native.String.{String}
use inadyn.Prelude.{ℕ, List, [], ◌∷◌, ◌==◌, if◌then◌else◌}

abbrev pub rc_ok : ℕ
rc_ok = 0

abbrev pub rc_error : ℕ
rc_error = 1

abbrev pub rc_invalid_pointer : ℕ
rc_invalid_pointer = 2

abbrev pub rc_out_of_memory : ℕ
rc_out_of_memory = 3

abbrev pub rc_buffer_overflow : ℕ
rc_buffer_overflow = 4

abbrev pub rc_pidfile_exists_already : ℕ
rc_pidfile_exists_already = 5

abbrev pub rc_tcp_socket_create_error : ℕ
rc_tcp_socket_create_error = 10

abbrev pub rc_tcp_bad_parameter : ℕ
rc_tcp_bad_parameter = 11

abbrev pub rc_tcp_invalid_remote_addr : ℕ
rc_tcp_invalid_remote_addr = 12

abbrev pub rc_tcp_connect_failed : ℕ
rc_tcp_connect_failed = 13

abbrev pub rc_tcp_send_error : ℕ
rc_tcp_send_error = 14

abbrev pub rc_tcp_recv_error : ℕ
rc_tcp_recv_error = 15

abbrev pub rc_tcp_object_not_initialized : ℕ
rc_tcp_object_not_initialized = 16

abbrev pub rc_http_object_not_initialized : ℕ
rc_http_object_not_initialized = 22

abbrev pub rc_https_no_trusted_ca_store : ℕ
rc_https_no_trusted_ca_store = 31

abbrev pub rc_https_out_of_memory : ℕ
rc_https_out_of_memory = 32

abbrev pub rc_https_failed_connect : ℕ
rc_https_failed_connect = 33

abbrev pub rc_https_failed_getting_cert : ℕ
rc_https_failed_getting_cert = 34

abbrev pub rc_https_send_error : ℕ
rc_https_send_error = 36

abbrev pub rc_https_recv_error : ℕ
rc_https_recv_error = 37

abbrev pub rc_https_sni_error : ℕ
rc_https_sni_error = 38

abbrev pub rc_https_invalid_request : ℕ
rc_https_invalid_request = 39

abbrev pub rc_ddns_invalid_checkip_rsp : ℕ
rc_ddns_invalid_checkip_rsp = 42

abbrev pub rc_ddns_invalid_option : ℕ
rc_ddns_invalid_option = 45

abbrev pub rc_ddns_rsp_nohost : ℕ
rc_ddns_rsp_nohost = 47

abbrev pub rc_ddns_rsp_notok : ℕ
rc_ddns_rsp_notok = 48

abbrev pub rc_ddns_rsp_retry_later : ℕ
rc_ddns_rsp_retry_later = 49

abbrev pub rc_ddns_rsp_auth_fail : ℕ
rc_ddns_rsp_auth_fail = 50

abbrev pub rc_ddns_rsp_too_frequent : ℕ
rc_ddns_rsp_too_frequent = 51

abbrev pub rc_os_invalid_ip_address : ℕ
rc_os_invalid_ip_address = 61

abbrev pub rc_os_fork_failure : ℕ
rc_os_fork_failure = 62

abbrev pub rc_os_change_persona_failure : ℕ
rc_os_change_persona_failure = 63

abbrev pub rc_os_invalid_uid : ℕ
rc_os_invalid_uid = 64

abbrev pub rc_os_invalid_gid : ℕ
rc_os_invalid_gid = 65

abbrev pub rc_os_install_sighandler_failed : ℕ
rc_os_install_sighandler_failed = 66

abbrev pub rc_file_io_access_error : ℕ
rc_file_io_access_error = 73

abbrev pub rc_file_io_missing_file : ℕ
rc_file_io_missing_file = 74

abbrev pub rc_restart : ℕ
rc_restart = 255

-- A row of the table: a code and its description.
abbrev pub ErrorName : Type 0
ErrorName = ℕ × String

-- The table of src/error.c without the row that ends it.
abbrev pub global_error_table : List ErrorName
global_error_table =
    (rc_ok, "OK")
    ∷ (rc_error, "Error")
    ∷ (rc_invalid_pointer, "Invalid pointer")
    ∷ (rc_out_of_memory, "Out of memory")
    ∷ (rc_buffer_overflow, "Too small internal buffer")
    ∷ (rc_pidfile_exists_already, "Already running")
    ∷ (rc_tcp_socket_create_error, "Failed creating IP socket")
    ∷ (rc_tcp_bad_parameter, "Invalid Internet port")
    ∷ (rc_tcp_invalid_remote_addr, "Temporary network error (DNS)")
    ∷ (rc_tcp_connect_failed, "Failed connecting to DDNS server")
    ∷ (rc_tcp_send_error, "Temporary network error (send)")
    ∷ (rc_tcp_recv_error, "Temporary network error (recv)")
    ∷ (rc_tcp_object_not_initialized, "Internal error (TCP)")
    ∷ (rc_http_object_not_initialized, "Internal error (HTTP)")
    ∷ (rc_https_no_trusted_ca_store, "System has no trusted CA store")
    ∷ (rc_https_out_of_memory, "Out of memory (HTTPS)")
    ∷ (rc_https_failed_connect, "Failed connecting to DDNS server (HTTPS)")
    ∷ (rc_https_failed_getting_cert, "Failed retrieving DDNS server cert (HTTPS)")
    ∷ (rc_https_send_error, "Temporary network error (HTTPS send)")
    ∷ (rc_https_recv_error, "Temporary network error (HTTPS recv)")
    ∷ (rc_https_sni_error, "Failed setting HTTPS server name")
    ∷ (rc_https_invalid_request, "Invalid request (HTTPS)")
    ∷ (rc_ddns_invalid_checkip_rsp, "Check IP server response not OK")
    ∷ (rc_ddns_invalid_option, "Invalid or missing DDNS option")
    ∷ (rc_ddns_rsp_notok, "DDNS server response not OK")
    ∷ (rc_ddns_rsp_retry_later, "DDNS server busy, try later")
    ∷ (rc_ddns_rsp_auth_fail, "Authentication failure")
    ∷ (rc_ddns_rsp_too_frequent, "DDNS warning, your update interval is set too low.")
    ∷ (rc_os_fork_failure, "Failed forking off child")
    ∷ (rc_os_change_persona_failure, "Failed dropping privileges")
    ∷ (rc_os_invalid_uid, "Invalid or unknown UID")
    ∷ (rc_os_invalid_gid, "Invalid or unknown GID")
    ∷ (rc_file_io_access_error, "Failed create/modify file/dir")
    ∷ (rc_file_io_missing_file, "Missing .conf file")
    ∷ []

abbrev pub unknown_error : String
unknown_error = "Unknown error"

find_name : ℕ → List ErrorName → String
find_name rc [] = unknown_error
find_name rc ((code, name) ∷ table) = if code == rc then name else find_name rc table

unfoldable pub error_str : ℕ → String
unfolding find_name
error_str rc = find_name rc global_error_table
