-- ===== src/Lib.antt =====
-- Verification of configd_extra: the network state and the DNS configuration buffer of
-- libsystem_configuration, the command line tool scutil with its interactive shell, the bonds of the
-- SystemConfiguration framework, and the preferences of configd's plugins.
--
-- The network state (libsystem_configuration/network_state_information_priv.c and .h) is a block that
-- configd fills and clients map: an array of entries, the IPv4 ones in its first half and the IPv6 ones in
-- its second half, and a list of entry indices, one for each interface, in the order of rank. configd
-- builds a new state with nwi_state_new and nwi_state_add_ifstate, finishes it with nwi_state_finalize,
-- compares it with the old one by nwi_state_diff, and marks what changed by
-- _nwi_state_update_interface_generations. The DNS configuration
-- (libsystem_configuration/dnsinfo_internal.h) is a block of its own that configd sends to its clients.
--
-- scutil (scutil/) reads lines, splits them into arguments and runs commands. There are two sets of
-- commands here: those on a dictionary and on the dynamic store that configd serves, and those on the
-- preferences, which scutil --prefs offers. They share the dictionary that is edited. Other options of scutil
-- read or change one setting of the preferences and leave the program; two of them call the plugin
-- preferences (Plugins/common/). The commands on the network configuration take their arguments through the
-- tables of options of scutil/net.c.
--
-- A bond (SystemConfiguration/BondConfiguration.c) is a virtual interface with members. Its setters write
-- the preferences and the object; _SCBondInterfaceUpdateConfiguration then brings the kernel's bonds in line
-- with the stored ones, request by request. SCBridgeInterface (SystemConfiguration/BridgeConfiguration.c)
-- only gives the members that a bond cannot have.
--
-- Files, by the code they model:
--   Base            lists, C strings, arrays with checked access and signed numbers
--   Nwi/State       the records _nwi_state and _nwi_ifstate, the halves and the counts
--   Nwi/Flags       the flag words, differences and ranks
--   Nwi/Lookup      nwi_state_get_ifstate_with_index and _with_name, nwi_ifstate_get_alias
--   Nwi/Entries     the entries of a family as a list, the view that the theorems use
--   Nwi/New         nwi_state_new, nwi_state_fix_af_aliases, nwi_state_set_if_list, nwi_state_finalize
--   Nwi/Add         nwi_state_add_ifstate
--   Nwi/Diff        nwi_state_diff and its parts
--   Nwi/Generations _nwi_state_update_interface_generations
--   Dns/Buffer      the buffer of a DNS configuration (libsystem_configuration/dnsinfo_internal.h)
--   Shell/Scan      isspace, strcasecmp, strtoul and sscanf as the shell uses them
--   Shell/State     the shell's variables, and the records of CoreFoundation and SCDynamicStore functions
--   Shell/Dictionary  scutil/dictionary.c
--   Shell/Session   scutil/session.c, and the watched keys of scutil/notifications.c
--   Shell/Cache     scutil/cache.c
--   Shell/Line      getLine and getString of scutil/scutil.c
--   Shell/Stdin     _copyStringFromSTDIN of scutil/scutil.c
--   Shell/Table, Shell/Commands  scutil/commands.c, and process_line of scutil/scutil.c
--   Prefs/State     the variables of scutil/prefs.c, and the record of SCPreferences functions
--   Prefs/Session   _prefs_open, _prefs_save, _prefs_close, the commands open, lock, commit, close, quit, ...
--   Prefs/Paths     the commands list, get, set and remove
--   Prefs/Shared    scutil/dictionary.c on the variables of the shell on preferences
--   Prefs/Table, Prefs/Commands  commands_prefs of scutil/commands.c, and runs of its commands (not help
--                   and f.read)
--   Prefs/Names     --get and --set of the computer, host and local host names
--   Prefs/Disable   --disable-until-needed
--   Control         Plugins/common/IPMonitorControlPrefs.c and InterfaceNamerControlPrefs.c, and do_log and
--                   do_ifnamer of scutil/prefs.c
--   Net/Values      the tables of options of scutil/net.h, and their values in _process_options
--   Net/Options     _process_options of scutil/net.c
--   Net/Session     the commands open, commit, apply, close and quit of scutil/net.c
--   Net/Keys        net_keys of scutil/net.c, and the commands do_net_create to do_net_show
--   Bond/State      a bond as the update reads it, and the requests on the kernel
--   Bond/Update     _SCBondInterfaceUpdateConfiguration
--   Bond/Members    SCBondInterfaceCopyAvailableMemberInterfaces, the test of SCBondInterfaceSetMemberInterfaces
--   Bond/Interface  the setters of a bond; in Bond/Interface/Read how it is read, made and removed
-- The modules Tests hold runs on concrete states, and the modules Libraries small libraries for them.
--
-- A function of the C code is the definition of the same name, in snake case and without its prefix: do_
-- stays, nwi_state_, nwi_ifstate_ and SCBondInterface go. Code that writes to a shared structure takes the
-- structure and returns it. In Nwi, Dns and Shell, Option stands for a fault: none is an access outside an
-- array, of NULL, or of a missing argument; a NULL that the code returns is a second Option inside. An entry
-- pointer is its index. In Prefs a call ends in one of three ways, which Ends has as constructors: it
-- returns, it leaves the program by exit, or it is a fault; Net has its own type for this, Ended, with the
-- two results and the fault apart. The goto of the update of bonds is the type Flow.
--
-- CoreFoundation, SCPreferences, SCDynamicStore and the kernel are records of functions, with a world that
-- they change. The build is the one of macOS; where the code of Plugins/common differs for iOS,
-- target_iphone tells which one it is. A theorem that needs more of these functions takes a record of laws,
-- and the Tests give a library that has them.
--
-- Numbers are natural numbers. The relative offset to an alias is a signed number that wraps at 32 bits;
-- the counts of a state are below 2^30 where that matters (size_limit). Loops over arrays run on their
-- counts. fill_if_list, which merges two lists, runs on the sum of their counts and one, one round for each
-- entry and one to see the end. split_line runs on the length of the buffer: each argument takes at least
-- one byte of it. do_read_file runs on the length of the file and one more line. process_options runs on
-- the number of its arguments, since each round takes the name of an option. create_from tries one name of a
-- bond in each round, and needs one more than the number of the first free name.
--
-- Not modelled: memory allocation, which succeeds, and reference counts; printing beyond the text that
-- SCPrint gets; the handlers that wait on run loops, which are parameters; the handlers of the options of
-- the network configuration, which are parameters, and the rest of scutil's commands on it, on network
-- connections (scutil/nc.c) and on reachability (scutil/tests.c); of the SystemConfiguration framework
-- everything but the bonds: the network interfaces, services and sets, which are front ends of the
-- preferences and of IOKit, the client of the privileged helper, and the preferences files themselves; how
-- the kernel's bonds are listed (_SCBondInterfaceCopyActive), and their status; the expansion of a DNS
-- configuration beyond its buffer and lists; the logging headers; configd/main.c and scselect.
mod Base
pub mod Nwi
pub mod Shell
pub mod Dns
pub mod Prefs
pub mod Control
pub mod Bond
pub mod Net
