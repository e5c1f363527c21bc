-- ===== src/Plugins/Dyndns/Systems.antt =====
-- The structures of plugins/dyndns.c.
use inadyn.Prelude.{false, none, some}
use inadyn.Prelude.Text.{codes}
use inadyn.Prelude.Int.{pos, negsuc}
use inadyn.Ddns.State.{System}
use inadyn.Plugins.Table.{static_system}

abbrev pub dyndns : System
dyndns =
    static_system (codes "default@dyndns.org") none false (codes "checkip.dyndns.com") (codes "/")
      (negsuc 0) (codes "members.dyndns.org") (codes "/nic/update")

abbrev pub dnsomatic : System
dnsomatic =
    static_system (codes "default@dnsomatic.com") none false (codes "myip.dnsomatic.com")
      (codes "/") (pos 0) (codes "updates.dnsomatic.com") (codes "/nic/update")

abbrev pub selfhost : System
selfhost =
    static_system (codes "default@selfhost.de") none false (codes "checkip.dyndns.com") (codes "/")
      (negsuc 0) (codes "carol.selfhost.de") (codes "/nic/update")

abbrev pub no_ip : System
no_ip =
    static_system (codes "default@no-ip.com") none false (codes "ip1.dynupdate.no-ip.com")
      (codes "/") (negsuc 0) (codes "dynupdate.no-ip.com") (codes "/nic/update")

abbrev pub noip : System
noip =
    static_system (codes "default@noip.com") none false (codes "ip1.dynupdate.noip.com") (codes "/")
      (negsuc 0) (codes "dynupdate.noip.com") (codes "/nic/update")

abbrev pub org_3322 : System
org_3322 =
    static_system (codes "default@3322.org") (some (codes "dyndns@3322.org")) false
      (codes "ip.3322.net") (codes "/") (pos 0) (codes "members.3322.org") (codes "/dyndns/update")

abbrev pub henet : System
henet =
    static_system (codes "default@he.net") (some (codes "dyndns@he.net")) false
      (codes "checkip.dns.he.net") (codes "/") (pos 0) (codes "dyn.dns.he.net")
      (codes "/nic/update")

abbrev pub tunnelbroker : System
tunnelbroker =
    static_system (codes "default@tunnelbroker.net") none false (codes "checkip.dyndns.com")
      (codes "/") (negsuc 0) (codes "ipv4.tunnelbroker.net") (codes "/nic/update")

abbrev pub spdyn : System
spdyn =
    static_system (codes "default@spdyn.de") none false (codes "checkip4.spdyn.de") (codes "/")
      (negsuc 0) (codes "update.spdyn.de") (codes "/nic/update")

abbrev pub spdyn_v6 : System
spdyn_v6 =
    static_system (codes "ipv6@spdyn.de") none false (codes "checkip6.spdyn.de") (codes "/")
      (negsuc 0) (codes "update.spdyn.de") (codes "/nic/update")

abbrev pub nsupdate_info_ipv4 : System
nsupdate_info_ipv4 =
    static_system (codes "ipv4@nsupdate.info") none false (codes "ipv4.nsupdate.info")
      (codes "/myip") (pos 0) (codes "ipv4.nsupdate.info") (codes "/nic/update")

abbrev pub nsupdate_info_ipv6 : System
nsupdate_info_ipv6 =
    static_system (codes "ipv6@nsupdate.info") none false (codes "ipv6.nsupdate.info")
      (codes "/myip") (pos 0) (codes "ipv6.nsupdate.info") (codes "/nic/update")

abbrev pub loopia : System
loopia =
    static_system (codes "default@loopia.com") none false (codes "dns.loopia.se") (codes "/checkip")
      (pos 0) (codes "dns.loopia.se") (codes "/XDynDNSServer/XDynDNS.php")

abbrev pub googledomains : System
googledomains =
    static_system (codes "default@domains.google.com") none false (codes "domains.google.com")
      (codes "/checkip") (pos 1) (codes "domains.google.com") (codes "/nic/update")

abbrev pub dynu : System
dynu =
    static_system (codes "default@dynu.com") none false (codes "checkip.dynu.com") (codes "/")
      (pos 0) (codes "api.dynu.com") (codes "/nic/update")

abbrev pub dyfi : System
dyfi =
    static_system (codes "default@dy.fi") none false (codes "checkip.dy.fi") (codes "/") (pos 0)
      (codes "www.dy.fi") (codes "/nic/update")

abbrev pub dode : System
dode =
    static_system (codes "default@do.de") none false (codes "checkip.dyndns.com") (codes "/")
      (negsuc 0) (codes "ddns.do.de") (codes "/nic/update")

abbrev pub domopoli : System
domopoli =
    static_system (codes "default@domopoli") none false (codes "checkip.dyndns.com") (codes "/")
      (negsuc 0) (codes "dyndns.domopoli.de") (codes "/nic/update")

abbrev pub inwx : System
inwx =
    static_system (codes "default@inwx.com") none false (codes "checkip.dyndns.com") (codes "/")
      (negsuc 0) (codes "dyndns.inwx.com") (codes "/nic/update")

abbrev pub inwxv6 : System
inwxv6 =
    static_system (codes "ipv6@inwx.com") none false (codes "checkip.dyndns.com") (codes "/")
      (negsuc 0) (codes "dyndns.inwx.com") (codes "/nic/update")

abbrev pub itsdns : System
itsdns =
    static_system (codes "default@itsdns.de") none false (codes "checkip.dyndns.com") (codes "/")
      (negsuc 0) (codes "www.itsdns.de") (codes "/update.php")

abbrev pub opendns : System
opendns =
    static_system (codes "default@opendns.com") none false (codes "checkip.dyndns.com") (codes "/")
      (negsuc 0) (codes "updates.opendns.com") (codes "/nic/update")

abbrev pub joker : System
joker =
    static_system (codes "default@joker.com") none false (codes "checkip.dyndns.com") (codes "/")
      (negsuc 0) (codes "svc.joker.com") (codes "/nic/update")

abbrev pub schokokeks : System
schokokeks =
    static_system (codes "default@schokokeks.org") none false (codes "checkip.dyndns.com")
      (codes "/") (negsuc 0) (codes "dyndns.schokokeks.org") (codes "/nic/update")

abbrev pub variomedia : System
variomedia =
    static_system (codes "default@variomedia.de") none false (codes "checkip.dyndns.com")
      (codes "/") (negsuc 0) (codes "dyndns.variomedia.de") (codes "/nic/update")

abbrev pub udmedia : System
udmedia =
    static_system (codes "default@udmedia.de") none false (codes "checkip.dyndns.com") (codes "/")
      (negsuc 0) (codes "www.udmedia.de") (codes "/nic/update")

abbrev pub dyndnsit : System
dyndnsit =
    static_system (codes "default@dyndns.it") none false (codes "checkip.dyndns.com") (codes "/")
      (negsuc 0) (codes "update.dyndns.it") (codes "/nic/update")

abbrev pub infomaniak : System
infomaniak =
    static_system (codes "default@infomaniak.com") none false (codes "checkip.dyndns.com")
      (codes "/") (negsuc 0) (codes "infomaniak.com") (codes "/nic/update")

abbrev pub oray : System
oray =
    static_system (codes "default@oray.com") none false (codes "checkip.dyndns.com") (codes "/")
      (negsuc 0) (codes "ddns.oray.com") (codes "/ph/update")

abbrev pub simplycom : System
simplycom =
    static_system (codes "default@simply.com") none false (codes "checkip.dyndns.com") (codes "/")
      (negsuc 0) (codes "ddns.simply.com") (codes "/nic/update")
