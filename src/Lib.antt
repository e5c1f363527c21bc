-- ===== src/Lib.antt =====
-- A model of inadyn, a client that keeps the addresses of host names at dynamic DNS providers
-- up to date, and what is proved of it.
--
-- The daemon works in rounds. A round asks for the current address of each provider, compares
-- it with the address that each alias of the provider holds, sends an update for each alias
-- that needs one, and waits for the next round or for a command that a signal brings. A
-- provider's plugin composes the request and judges the answer; http.c carries both; cache.c
-- keeps the address that was sent last, so that a restart does not send it again.
--
-- The files, and the code that each of them is about:
--   Error: the return codes and their names (include/error.h, src/error.c).
--   World: what surrounds the program. Each call that leaves it (the network below http.c, the
--   clock, files, signals, child processes) appends an event to a history, and its answer is
--   an arbitrary function of the history before it. A flag records an access out of bounds.
--   Http, Http/Response: the HTTP client (src/http.c, include/http.h). Transactions are
--   functions from a client and a world to a return code, a client and a world.
--   Tcp/Defs: the plain transport (src/tcp.c, include/tcp.h). Its calls of the system are kept in
--   a list, beside the descriptors that are open; their answers are functions of that list.
--   Tls: HTTPS over each of the three libraries, on top of Tcp. Tls/Io has what they share, the
--   client with the state of the library and the list of its calls; Tls/Openssl, Tls/Gnutls and
--   Tls/Mbedtls are src/openssl.c, src/gnutls.c and src/mbedtls.c. The answer of a library's call
--   is a function of the calls before it. Tls/Loops is about the loops that send and receive,
--   Tls/Live about the objects of the library that stay allocated, Tls/Trust about certificates.
--   Json: src/json.c over a jsmn parser that is a parameter.
--   Conf: the configuration file (src/conf.c). Conf/Parsed is what the parser of libConfuse
--   returns, which is where the model starts; Conf/Server reads "server:port", Conf/Provider sets
--   a provider up from its section, Conf/File makes the list of providers and the globals, and
--   Conf/Validate has the validators. Conf/Fits, Conf/Order, Conf/Ssl and Conf/Validate/Laws are
--   about buffers, order, HTTPS, and what a validation is worth.
--   Cache: the cache of addresses (src/cache.c).
--   Ddns/State: the structures of include/ddns.h and include/plugin.h, and the options that are
--   globals of src/main.c. A Provider is a ddns_info_t with its aliases and the functions of its
--   system, which are arbitrary, so that the laws hold for every plugin.
--   Ddns/Address: finding an address in a text and validating it; Ddns/Query and Ddns/Backend:
--   the ways to ask for it; Ddns/Schedule: which alias needs an update; Ddns/Send and
--   Ddns/Update: one update, and the pass over all of them; Ddns/Command: the wait and the
--   signals (with src/os.c); Ddns/Setup: the initialisation; Ddns/Loop: the main loop. All are
--   functions of src/ddns.c. Ddns/Lost relates one check to the next, and
--   Ddns/Update/Healthy says what a pass reaches when nothing fails.
--   Main: the program's entry (src/main.c). Main/Command has the options, Main/Serve the context
--   and the loop over restarts, which runs ddns_main_loop on what Conf made of the file;
--   Main/Limit and Main/Restart are about the limit on the iterations over restarts.
--   Plugins/Common: plugins/common.c; Plugins/Url and Plugins/Generic: plugins/generic.c;
--   Plugins/Registry: the list of plugins (src/plugin.c); Plugins/Easydns and the others beside
--   it: the file of that name in plugins; Plugins/Status and Plugins/Answers compare their answers.
--   Plugins/Cloudflare, Porkbun, Dnspod, Freedns, Dnsmax, Yandex and Cloudxns: the plugins with a
--   protocol of their own. Their setup steps send queries, which Plugins/Query has, and search
--   the answers, by the helpers of Plugins/Scan, by Cloudflare/Queries and Ids, Yandex/Records and
--   Cloudxns/Lists; what they find is the data that the update is composed from. Plugins/Protocol
--   and Protocol/Closes are about all seven, the modules below a plugin about that plugin.
--   Plugins/Table: how a plugin writes its structures down, and the lists of calls that its
--   constructor and destructor make. Plugins/Builtin: the plugins of the build
--   (plugins/Makefile.am), and the list that their constructors make, in any order; Builtin/Servers
--   and Builtin/Names are about what can be configured with it.
--   Prelude: C strings as lists of bytes, Boolean tests, integers, lemmas on lists.
--   Tests: a configuration, and a run for each theorem that has conditions.
--
-- Functions that change the state take it and return it, in the order of the code; a return
-- code is a number; a break or a return is a branch. The loops over a text run on fuel, which
-- is one more than the length, since each round drops a byte; the loop over the format
-- specifiers of a custom path takes its fuel from the caller, since some paths make it endless.
-- The rounds of the daemon are bounded by a number of rounds, since it runs for ever, and so are
-- its restarts.
--
-- The loops of the transports run on fuel too, of which enough is one round for each byte that is
-- wanted, one for each early answer of EAGAIN and one more.
--
-- Not modelled: the parsers that are copied from other projects (jsmn, the functions of hashes and
-- base64), the syntax of the configuration file, logging, the pid file and the making of
-- directories, and of the start of the program the default paths and the change of user. jsmn,
-- md5, sha1, the text of the date, inet_pton, inet_ntop, strtonum, base64_encode and the TLS
-- libraries are parameters. The client of Http takes what opens a connection as an answer of the
-- world, and is not yet joined to Tcp and Tls. Periods and the limit on the iterations are
-- not negative. Memory is never exhausted but where alloc_context
-- asks for it, a file that is open can be examined, send takes a text whole, and signals come at
-- the sleeps and behind a check only.
pub mod Prelude
pub mod Error
pub mod World
pub mod Http
pub mod Tcp
pub mod Json
pub mod Tls
pub mod Conf
pub mod Cache
pub mod Ddns
pub mod Main
pub mod Plugins
pub mod Tests
