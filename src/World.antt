-- ===== src/World.antt =====
-- What surrounds the program: the network, the clock, the file system, signals and child processes.
-- Every call that leaves the program appends an event to the history, and its answer is a function
-- of the history before it. A theorem over all such functions holds whatever the environment does.
-- The layer below http.c (include/ssl.h, with the TLS libraries under it) is part of it.
use inadyn.Prelude.{ℕ, Bool, Option, some, List, ◌∷◌, if◌then◌else◌}
use inadyn.Prelude.Text.{Str, strcmp_eq}
use inadyn.Prelude.Int.{ℤ}

-- AF_INET, AF_INET6 and the families that are neither.
pub data Family : Type 0 where
  inet inet6 unspec : Family

-- An entry of getifaddrs that has an address: the interface, its family, and what getnameinfo
-- prints, if it does.
pub record IfAddr : Type 0 where
  pub name : Str
  pub family : Family
  pub host : Option Str

-- The signals that the program handles, and any other.
pub data Signal : Type 0 where
  sighup sigint sigterm sigusr1 sigusr2 other : Signal

pub data Event : Type 0 where
  -- ssl_open with the remote name, its port, `ssl_enabled` and the address family that is forced
  opened : Str → ℕ → ℤ → ℕ → Event
  -- ssl_send, ssl_recv with the room in the buffer, ssl_close
  sent : Str → Event
  received : ℕ → Event
  closed : Event
  -- time(), rand(), sleep()
  asked_time : Event
  drew : Event
  slept : ℕ → Event
  -- a moment at which signals that are pending are delivered
  signalled : Event
  -- fopen (path, "w") and what was then written; fopen (path, "r"); a name lookup
  wrote : Str → Str → Event
  read : Str → Event
  looked_up : Str → Event
  -- a script was started with address, name, event and error code
  executed : Str → Str → Str → Str → ℕ → Event
  -- popen (command, "r"); a query of the addresses of an interface
  piped : Str → Event
  queried : Str → Event

abbrev pub History : Type 0
History = List Event

-- A file's content and modification time.
pub record File : Type 0 where
  pub content : Str
  pub mtime : ℕ

-- `fault` is set by an access out of bounds, after which C leaves the behaviour undefined. The model
-- goes on as if the access had changed nothing.
pub record World : Type 0 where
  pub history : History
  pub files : Str → Option File
  pub fault : Bool

-- The answers of the environment.
pub record Env : Type 0 where
  -- return codes of the transport below http.c, and the bytes that ssl_recv stored
  pub ssl_open : History → ℕ
  pub ssl_send : History → ℕ
  pub ssl_recv : History → ℕ × Str
  pub ssl_close : History → ℕ
  pub time : History → ℕ
  pub rand : History → ℕ
  -- the signals delivered at a moment
  pub signals : History → List Signal
  -- whether fopen (path, "w") succeeds
  pub can_write : History → Bool
  -- the numeric address of a name, if getaddrinfo and getnameinfo find one
  pub nslookup : History → Option Str
  -- whether vfork succeeds
  pub can_fork : History → Bool
  -- what a command prints, or `none` for a popen that fails, then with the value of `errno`
  pub popen : History → Option Str
  pub errno : History → ℕ
  -- the addresses of all interfaces; `none` if getifaddrs fails
  pub ifaddrs : History → Option (List IfAddr)
  -- the address that the SIOCGIFADDR ioctl gives
  pub ifaddr_ioctl : History → Option Str

-- Appends an event.
abbrev pub emit : Event → World → World
emit e w = record w { history = e ∷ w.history }

-- The file system after `path` was written at `now`.
abbrev pub write_at : Str → Str → ℕ → World → World
write_at path content now w = record w {
  files =
      λ p. if strcmp_eq path p then some (record { content = content; mtime = now }) else w.files p;
}
