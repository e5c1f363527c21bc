-- ===== src/Conf/Server.antt =====
-- "server:port" (`getserver` and `cfg_getserver` of src/conf.c).
use inadyn.Prelude.{
  ℕ, ◌<◌, ◌+◌, ◌≡◌, ◌≢◌, All, arith, refl, Option, none, some, [], ◌∷◌, ◌++◌, ◌==◌, leb, length,
  length-append, length-take-le, take_all, if◌then◌else◌,
}
use inadyn.Prelude.Text.{Str, strlcpy}
use inadyn.Tcp.{http_default_port}
use inadyn.Plugins.Registry.{before_colon}
use inadyn.Ddns.State.{ServerName, server_name_len}

-- strtonum of the BSD library for 0 to 2^31 - 1: `none` is an error.
abbrev pub Strtonum : Type 0
Strtonum = Str → Option ℕ

-- strchr (str, ':') + 1
unfoldable pub after_colon : Str → Option Str
after_colon [] = none
after_colon (c ∷ s) = if c == b':' then some s else after_colon s

-- A port that is no number, or out of range, is the default one.
unfoldable pub port_number : Strtonum → Str → ℕ
port_number strtonum text = elim (strtonum text) [ none ↦ http_default_port | some n ↦ n ]

-- `none` stands for a result of 1, which leaves `name` as it is. Without a port, it is 0.
unfoldable pub getserver : Strtonum → Str → Option ServerName
unfolding port_number
getserver strtonum server =
    if leb (length server) server_name_len
    then some (record {
      name = strlcpy server_name_len (before_colon server);
      port = elim (after_colon server) [ none ↦ 0 | some text ↦ port_number strtonum text ];
    })
    else none

unfoldable pub cfg_getserver : Strtonum → Option Str → Option ServerName
cfg_getserver strtonum none = none
cfg_getserver strtonum (some str) = getserver strtonum str

-- A name in its buffer.
abbrev pub NameFits : ServerName → Type 0
NameFits n = length n.name < server_name_len

before_colon-append :
    (host text : Str) → All (λ c. c ≢ b':') host → before_colon (host ++ (b':' ∷ text)) ≡ host
unfolding before_colon
before_colon-append [] text h = refl
before_colon-append (c ∷ host) text h = ground (arith, before_colon-append host text h.1)

after_colon-append :
    (host text : Str) → All (λ c. c ≢ b':') host → after_colon (host ++ (b':' ∷ text)) ≡ some text
unfolding after_colon
after_colon-append [] text h = refl
after_colon-append (c ∷ host) text h = ground (arith, after_colon-append host text h.1)

pub getserver-NameFits :
    (strtonum : Strtonum) (server : Str) (n : ServerName)
    → getserver strtonum server ≡ some n
    → NameFits n
unfolding getserver
getserver-NameFits strtonum server n h = ground (arith, length-take-le 255 (before_colon server))

-- A server written as "host:port" is read as that host and that port: if the host has no colon, and
-- the whole fits a buffer with its NUL, and the port is a number, both are found again.
pub getserver-print :
    (strtonum : Strtonum) (host text : Str) (port : ℕ)
    → All (λ c. c ≢ b':') host
    → strtonum text ≡ some port
    → length host + length text < 255
    → getserver strtonum (host ++ (b':' ∷ text)) ≡ some (record { name = host; port = port })
unfolding getserver
getserver-print strtonum host text port plain number fits = ground (
  arith,
  before_colon-append host text plain,
  after_colon-append host text plain,
  length-append host (b':' ∷ text),
  take_all 255 host,
)
