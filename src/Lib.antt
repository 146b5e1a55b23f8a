-- ===== src/Lib.antt =====
-- dhcpd-pools: the analysis of the address pools of an ISC DHCP server.
--
-- The program reads the server's configuration (`parse_config`) for ranges and shared networks, then
-- its lease file (`parse_leases`) for the last state of each address; it sorts both, joins them
-- into counters (`do_counting`), sorts the ranges again for the output, and prints the counters
-- or compares them with alarm limits (`output_alarming`).
--
--   Base: names, tests and lemmas that all parts share.
--   Data: the structures of src/dhcpd-pools.h.
--   Address: what depends on the IP version, from src/other.c and src/sort.c. `set_ipv_functions`
--     sets all function pointers together, so that they are functions by clauses on the version.
--   Conf: `parse_config` of src/getdata.c. Conf/State has its variables and the global tables. Each
--     byte is a `step`: `magical` is the first switch, `take_char` what follows, `argument_word` the
--     second switch, and `newrange` the label. Conf/Safety has the bounds,
--     Conf/Clauses what a range clause does, Conf/Netmask one loop, Conf/Names the names.
--     Conf/Grammar has trees of clauses, the file that a tree looks like, and what it says of the tables.
--   Leases: `parse_leases` of src/getdata.c, `xstrstr` of src/other.c and src/hash.c. Leases/Classify is
--     about the kinds of lines, Leases/Table about the table, Leases/Parse about whole files.
--   Counting: `do_counting` of src/analyze.c. A place in the doubly linked list of leases is a lease
--     with those before and behind it. Counting/Reference holds every range against every lease, and
--     Counting/Totals says what the counters are.
--   Sort: src/sort.c, and `flip_ranges` of src/other.c. Sort/Engine is the sort over any elements.
--   Alarm: `output_alarming` of src/output.c, up to the report; Output/Alarming has the text of it.
--   Output: `output_txt` (Txt), `output_csv`, `output_json`, `output_xml` and `output_html` of src/output.c,
--     as the bytes that they write; HtmlParts has the functions that `output_html` calls.
--     But for Txt, each has a reader of its format beside it, which knows nothing of the program, and
--     the rows or the tree that the tables stand for. `deliver` opens and closes the stream around the text.
--   Run: the options, the choice of the output and the passes of `main` of src/dhcpd-pools.c, and
--     `prepare_data` of src/analyze.c. Run/Options is about the options, Run/Analysis about the passes,
--     and Run/Job puts the parsers and the passes together. Run/Main is `main` from the command line to
--     the exit status, on a `World` of libraries and a `Build` of constants; Run/Names, Run/Report,
--     Run/Alarming and Run/Liveness are about it. Run/Usage and Run/Cleanup are `usage`, `print_version`
--     and `clean_up` of src/other.c.
--   Double: the arithmetic of the machine's doubles, as a parameter.
--   Tests: small inputs, and the theorems at them.
--
-- Pointers into arrays are indices, and a read outside of an array is `none` where the code can come
-- to it. Errors that end the program are values of `Failure`, `Trouble`, `Stop` and `End`. 32-bit counters wrap
-- around.
--
-- Parameters: `Printf` for `%g` and `%.3f` of a double and `%d`, and `Ntop` for inet_ntop and htonl, which write
-- letters, digits and the signs of numbers and addresses, in a locale whose decimal point is a point
-- (`IsPrintf`, `IsNtop`; output_html selects the locale of the environment, which the model leaves out);
-- `Inet` for inet_aton, inet_pton and ntohl; `Uthash` for the macros of uthash, with their documented
-- behaviour as laws (`IsUthash`); `Doubles`, of which the order is assumed to be that of
-- IEEE 754 where ranges are sorted (`IsOrdered`); the file system, as a function from names to
-- bytes; the sorts of uthash and of the C library, which are assumed to sort (`IsSort`); strtod; and
-- the number of ranges for which there is memory.
--
-- Fuel: `parse_config` takes fuel for the depth of includes, and only for that; a file that includes
-- itself has no bound in the source either. `mask_loop` takes 32 rounds, the width of an address:
-- enough for any mask but zero, for which the source does not end. All other loops recur on
-- their data.
--
-- Not modelled: the messages on the standard error, and the quoting of arguments in them; the use of the memory
-- after `free`, since `clean_up` is the last thing that `main` does.
--
-- Counters of type double are natural numbers: they are raised by one, which is exact below 2 ^ 53. The sizes of
-- IPv6 ranges and `available`, which are doubles too and may be larger, are integers that are rounded to 53 bits
-- wherever the code computes one (Base/Rounding); the conversion of a double to an integer type, where C leaves
-- the result undefined, is the parameter `overflow`. A pointer that an include leaves dangling, and the read
-- before an empty word, are failures of the parser. What is lost when a lease gets a second hardware
-- address is not modelled.
pub mod Base
pub mod Data
pub mod Address
pub mod Counting
pub mod Double
pub mod Sort
pub mod Leases
pub mod Conf
pub mod Alarm
pub mod Tests
pub mod Run
pub mod Output
