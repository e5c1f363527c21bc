-- ===== src/Tests/Transport.antt =====
-- Runs of the transport.
use inadyn.Prelude.{
  ◌≤◌, ◌≢◌, refl, arith, true, false, some, none, List, [], ◌∷◌, Returns, if◌then◌else◌, length,
  ◌==◌,
}
use inadyn.Prelude.Text.{codes}
use inadyn.World.{inet6, inet}
use inadyn.Tcp.{Sock, Net, Kernel, Call, tcp_init, tcp_recv, sending_done, receiving_again, bytes}
use inadyn.Tcp.Init.{Inits, tcp_init-Inits}
use inadyn.Tcp.Recv.{Received, tcp_recv-Received}

-- Two addresses, of which the first does not answer. Of the answer to come, the first call has
-- nothing yet, and the others six bytes each.
abbrev net : Net
net = record {
  getaddrinfo = λ h. some (inet6 ∷ inet ∷ []);
  new_socket = λ h. some 7;
  getnameinfo = λ h. true;
  connect = λ h. if length h == 3 then false else true;
  in_progress = λ h. true;
  poll = λ h. false;
  send = λ h. sending_done;
  recv = λ h. elim h [ [] ↦ receiving_again | c ∷ rest ↦ bytes (codes "good 1") ];
}

abbrev sock : Sock
sock = record {
  remote_host = some (codes "dyn.example");
  port = 0;
  timeout = 5000;
  initialized = false;
  socket = none;
}

abbrev open_sock : Sock
open_sock = record sock { initialized = true; socket = some 7 }

abbrev kernel : Kernel
kernel = record { calls = []; descriptors = 0 ∷ 1 ∷ 2 ∷ [] }

tcp_init-Inits_example :
    Inits (0 ∷ 1 ∷ 2 ∷ []) (some (codes "dyn.example")) (tcp_init net 1 sock kernel)
tcp_init-Inits_example = tcp_init-Inits net 1 sock kernel refl refl

patient : (h : List Call) → 1 ≤ length h → net.recv h ≢ receiving_again
patient [] long = absurd (omega arith)
patient (c ∷ rest) long = λ e. ground (arith, e)

tcp_recv-Received_example : Returns (Received 10) (tcp_recv net 12 open_sock 10 kernel)
tcp_recv-Received_example =
    tcp_recv-Received net 1 patient 12 10 open_sock kernel (omega arith) refl
