-- ===== src/Tests/Https.antt =====
-- Runs of the back ends for HTTPS.
use inadyn.Prelude.{
  ◌≤◌, ◌≡◌, not, ◌==◌, ◌≢◌, refl, arith, true, false, some, none, List, [], ◌∷◌, Returns,
  if◌then◌else◌, length, ◌==◌,
}
use inadyn.Prelude.Text.{codes}
use inadyn.Prelude.Int.{pos}
use inadyn.Error.{rc_ok}
use inadyn.Tcp.{Sock, Net, tcp_init, init_with, sending_done, bytes}
use inadyn.Tls.Io.{Conn, Step, Tls, got, read_again, write_again, written, Reading}
use inadyn.Tls.Openssl
use inadyn.Tls.Openssl.{Openssl, Policy, with_port}
use inadyn.Tls.Gnutls
use inadyn.Tls.Gnutls.{Gnutls, receipt, shaken, reading_of}
use inadyn.Tls.Mbedtls
use inadyn.Tls.Mbedtls.{Mbedtls}
use inadyn.Tls.Loops.{Received, ssl_recv-Received, ssl_send-want_write, write_until_failure}
use inadyn.Tls.Live.{Accounted, Balanced, ssl_open-Balanced, ssl_open-leaks}

-- No name can be looked up.
abbrev net : Net
net = record {
  getaddrinfo = λ h. none;
  new_socket = λ h. some 7;
  getnameinfo = λ h. true;
  connect = λ h. true;
  in_progress = λ h. true;
  poll = λ h. false;
  send = λ h. sending_done;
  recv = λ h. bytes (codes "good 1");
}

-- The first call of the library has nothing yet.
abbrev reading : List Step → Reading
reading h = elim h [ [] ↦ read_again | c ∷ rest ↦ got (codes "good 1") ]

abbrev openssl : Openssl
openssl = record {
  new_context = λ h. true;
  default_paths = λ h. true;
  load_locations = λ h. true;
  new_session = λ h. true;
  host_name = λ h. true;
  connect = λ h. pos 1;
  certificate = λ h. true;
  write = λ h. if length h == 0 then write_again else written;
  read = reading;
}

abbrev gnutls : Gnutls
gnutls = record {
  is_recent = true;
  system_trust = λ h. true;
  trust_file = λ h. true;
  new_session = λ h. true;
  server_name = λ h. true;
  priority = λ h. true;
  handshake = λ h. shaken;
  peer_certificate = λ h. true;
  certificate_init = λ h. true;
  send = λ h. written;
  recv = λ h. receipt (reading h);
}

abbrev mbedtls : Mbedtls
mbedtls = record {
  seed = λ h. true;
  parse_file = λ h. true;
  net_connect = λ h. true;
  config_defaults = λ h. true;
  setup = λ h. true;
  set_hostname = λ h. true;
  handshake = λ h. shaken;
  write = λ h. written;
  read = reading;
}

abbrev policy : Policy
policy = record { secure_ssl = true; broken_rtc = false; ca_trust_file = none }

abbrev sock : Sock
sock = record {
  remote_host = some (codes "dyn.example");
  port = 0;
  timeout = 5000;
  initialized = false;
  socket = none;
}

abbrev conn : Conn
conn = record { sock = sock; ssl_enabled = true; ssl = false; ssl_ctx = false; connected = false }

abbrev tls : Tls
tls = record { steps = []; live = 0; kernel = record { calls = []; descriptors = [] } }

patient : (h : List Step) → 1 ≤ length h → reading h ≢ read_again
patient [] long = absurd (omega arith)
patient (c ∷ rest) long = λ e. ground (arith, e)

ssl_recv-Received_example :
    Returns (Received 10) (Openssl.ssl_recv net openssl 12 conn 10 tls)
    × Returns (Received 10) (Gnutls.ssl_recv net gnutls 12 conn 10 tls)
    × Returns (λ r. Received 10 r.0) (Mbedtls.ssl_recv net mbedtls 12 conn 10 tls)
ssl_recv-Received_example =
    ssl_recv-Received net openssl gnutls mbedtls 1 patient patient patient 12 10 conn tls
      (omega arith) refl

ssl_send-want_write_example :
    (Openssl.ssl_send net openssl 9 conn (codes "GET") tls
      ≡ write_until_failure openssl 9 (codes "GET") tls)
    × (Openssl.ssl_send net openssl 9 conn (codes "GET") tls ≢ some (0, tls))
ssl_send-want_write_example = ssl_send-want_write net openssl 9 conn (codes "GET") tls tls refl refl

ssl_open-Balanced_example : Balanced 0 (Openssl.ssl_open net openssl policy 0 conn tls)
ssl_open-Balanced_example = ssl_open-Balanced net openssl policy 0 conn tls refl refl refl

unreachable : (tcp_init net 0 (with_port sock) tls.kernel).0 ≢ rc_ok
unfolding tcp_init init_with
unreachable h = ground arith

ssl_open-leaks_example :
    Returns
      (Accounted 0
        (tcp_init net 0 (with_port sock) tls.kernel).0
        (not ((tcp_init net 0 (with_port sock) tls.kernel).0 == rc_ok)))
      (Gnutls.ssl_open net gnutls policy 3 0 conn tls)
unfolding Gnutls.ssl_set_ca_location
ssl_open-leaks_example =
    ssl_open-leaks net gnutls 0 (λ h long e. ground (arith, e)) policy 3 0 conn tls (omega arith)
      refl
