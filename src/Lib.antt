-- ===== src/Lib.antt =====
-- The core of nodogsplash, a captive portal for a small wireless network, as functions on an explicit
-- state: the list of the connected clients, their authentication states, the iptables and tc commands
-- that give them access, the chains of the firewall, the configuration file and its lists of MAC
-- addresses, the state file, the control socket with its client, and the web server.
--
-- World is the shared state: the client list and its counters (src/client_list.c), the marks that are
-- the states of a client (src/fw_iptables.c), the configuration (src/conf.c), and a log of the commands
-- that were run (src/util.c, execute). Env is what lies outside: the clock, rand, the exit status of
-- each command, and the address parsers of the C library. Every operation takes an Env and a World
-- and returns the new World with what the C function returns. What holds for every Env holds however
-- the commands end; what needs commands that succeed has IsReliable as a hypothesis.
--
-- The files and the code, function for function:
--   Prelude, CString          tests on numbers, 32-bit ints as bit patterns, C strings as byte lists
--   Config, Client, World     src/conf.h, src/client_list.h, the static variables, and the commands
--   Netfilter                 the tables, chains, matches and targets of the iptables commands
--   Conf/Lines, Conf/Scan     white space, comments and words of src/conf.c, and sscanf on numbers
--   Conf/Options, Conf/Apply  the options of the configuration file and what each sets
--   Conf/Rulesets             the firewall rulesets and the parser of a rule; Printing and RuleRoundtrip
--                             write a rule out, Legal, Accepted and Whole say what a good one is
--   Conf/Reading, Conf/Startup  parse_firewall_ruleset and config_read; config_init and config_validate
--   Conf/MacList              the trusted, blocked and allowed lists of src/conf.c and their parsers
--   Conf/DebugLevel           set_debuglevel of src/conf.c
--   ClientList                src/client_list.c; Shape is its invariant, Add and Delete its operations
--   Tc                        tc_attach_client and tc_detach_client of src/tc.c
--   Firewall                  iptables_do_command, the rules of one client and of one MAC address, the
--                             marks and the counters of src/fw_iptables.c
--   Firewall/Start, Filter    iptables_fw_init; Queues has tc_init_tc and tc_destroy_tc of src/tc.c
--   Firewall/Teardown         iptables_fw_destroy and iptables_fw_destroy_mention
--   Firewall/Rules            _iptables_compile and the totals
--   Firewall/Packets, Promise what iptables documents of rules and packets, and the access that the
--                             configuration promises; Chains, Groups and Parts relate the two
--   Auth                      src/auth.c; FirewallSync and its neighbours relate it to the firewall
--   Control                   ndsctl_handler, its reading loop and its commands, src/ndsctl_thread.c
--   Ndsctl                    src/ndsctl.c, and how the daemon reads its requests
--   Url                       uh_urlencode and uh_urldecode of src/http_microhttpd_utils.c
--   Web                       the decisions and handlers of src/http_microhttpd.c
--   Template                  src/template.c; Expand describes the expansion without a buffer
--   StateFile                 src/state_file.c; StateFile/Json is json-c as a record of operations and laws,
--                             Keeps and Numbered follow an import, Written a file that is written
--   Daemon                    the operations that the threads of src/main.c start, in any order
--   Daemon/Startup            the start of src/main.c: the list, the firewall, the state file; Restored and
--                             Restart are what holds when the threads begin
--   Examples                  the theorems and definitions at concrete values
--
-- How the parts interact: the web server finds or adds a client and asks Auth to log it in; the control
-- socket calls Auth; the timer reads the counters, then asks Auth to log out or delete clients; Auth
-- runs the commands of Firewall and Tc and changes the list. The state file is exported and imported
-- through the operations of ClientList and Auth; the configuration that Conf reads at the start decides
-- which rules Firewall/Start and Firewall/Filter install. Each operation runs under
-- `client_list_mutex` and `config_mutex`, so a run of the daemon is its start and a list of operations.
--
-- Bounds: the loops are structural recursion on lists, but for five. iptables_do_command has the five
-- attempts of the code; the fuel of tmpl_parse is the length of the source, of which each round takes
-- a byte; that of config_read is the number of lines and one, since a ruleset takes lines too;
-- iptables_fw_destroy_mention and the reading loop of the control socket (Control/Reading) have a fuel
-- as an argument, because the code itself does not bound them. An int is its 32-bit pattern; times and
-- counters are natural numbers. `client_id` does not overflow. A pointer to a client is the address of
-- its node, a natural number.
--
-- Not modelled: sockets, threads, signals, memory and its exhaustion, log messages, the texts of
-- pages, reports and iptables commands (a command is a value, with the record of a configured rule), and
-- buffer_path_simplify of src/path.c, which is copied from lighttpd. libmicrohttpd, the neighbour
-- table, the binauth script and the files under the web root are parameters of a Visit; json-c, stat
-- and what iptables lists are arguments of the functions that use them. The lines of the
-- configuration file are those that fgets gives, with what the buffer holds behind them.
pub mod Prelude
pub mod CString
pub mod Config
pub mod Client
pub mod Netfilter
pub mod World
pub mod Conf
pub mod ClientList
pub mod Tc
pub mod Firewall
pub mod Auth
pub mod Control
pub mod Ndsctl
pub mod Daemon
pub mod Url
pub mod Web
pub mod Template
pub mod StateFile
pub mod Examples
