-- ===== src/Lib.antt =====
-- A verification of parts of the Go driver for Oracle Database.
--
-- Marshal (Marshal.antt and the files of Marshal/) models internal/driver/ttc/marshal_engine.go, the
-- codec through which every TTC message of the driver passes. `Config` holds what a connection fixes
-- (representations, byte order, LOB prefetch size); `Stream` holds the bytes still to be read, those
-- written, how many more the transport takes before writes fail, and the sequence number. Each method
-- of `MarshalEngine` is a function of the same name from a stream to an outcome and a stream;
-- `_wrapError` is `wrap_error`. The generic helpers over numeric types take the type as an argument
-- (`NumType`); signed results are integers, and Go's conversions between words wrap as written out in
-- `of_word` and `to_negative`. Loops take fuel: `MarshalCLR` the length of its value, the two CLR reads
-- the number of bytes at hand, which is enough since each round writes or reads a byte at least.
--
-- Number (internal/driver/ttc/converters/number.go) models the converters between integers, Booleans and
-- Oracle's NUMBER bytes, which the messages carry through the marshal engine. Digits are lists of numbers
-- below 10, `big.Int` and `uint64` are natural numbers, and every guard on 64 bits is written out.
-- `ToNumber` is `to_number`, `_toNumberStrict` is `to_number_strict`, `FromNumber` is `from_number`, and
-- `_fromNumberBig` is `from_number_big`. Each of the first two has loops of its own, as in the
-- code. An index behind a table or a slice panics.
--
-- Cache (internal/common/caches.go) models `TTLCache` (Ttl.antt), whose calls are given the clock
-- readings that they take, and `LRUCache` (Lru.antt), where numbers stand for the elements of the linked
-- list. Maps are association lists whose order is the order of iteration. The thread-safe versions take
-- a lock around each call, so they run these calls one after the other.
--
-- Sql (internal/driver/ttc/sql_namedvalue_parser.go) models how the placeholders of a statement are found
-- (Scan.antt) and how arguments are bound to them (Bind.antt, and Blocks.antt for PL/SQL). A statement
-- is a list of runes; the predicates of the package unicode are a parameter, of which nothing is assumed.
-- The scan takes fuel, one more than the length of the text, which is enough since each round passes a
-- rune at least.
-- Kind.antt is internal/driver/ttc/sqlkind.go, which finds the kind of a statement from its first word
-- with the table of pkg_init.go; `unicode.ToLower` is a parameter, of which nothing is assumed.
--
-- Naming (internal/driver/network/naming/nv.go) models connect descriptors: their tree and text
-- (Node.antt), the lexer (Lexer.antt), and the parser with its stack and the search by path
-- (Parser.antt). The upper case of a rune is a parameter, of which nothing is assumed. What the parser
-- keeps by pointer, its first node, is here the bottom of the stack until that node is closed.
--
-- Iterator (internal/driver/network/naming/iterator.go and resolve.go) models the order in which the
-- addresses of a connect descriptor are tried. Build.antt is `NewConnectionIterator` with the builders
-- below it, Options.antt the connect string of an attempt, Attempts.antt `Next`, `HasNext`, `Reset`,
-- `Remaining` and `Total`, Partition.antt `stablePartition` and `roundRobin`. The index of the current
-- description is the split of the attempts into those passed and those left. `Surroundings` is what a
-- call finds: the random order, the keys in the cache of down hosts, and whether the caller's context
-- ends in a delay; `Resolver` is DNS and the context while names are resolved. Times are numbers of
-- seconds, and a retry count is not negative, since parseIntField turns a negative number into 0. The
-- loop of `Next` has a round for each cycle that is left and one to pass each description (`rounds`), and
-- one more as fuel, which is enough since each round starts a cycle, passes a description or returns.
-- `Remaining` and `Total` count in a 64-bit int, which wraps. A retry delay is taken to be below 2^63
-- nanoseconds, so that its product with a second does not wrap.
--
-- Interval (internal/driver/ttc/converters/interval.go) models the converters of INTERVAL YEAR TO MONTH
-- (YearToMonth.antt) and INTERVAL DAY TO SECOND (DayToSecond.antt encodes, DayToSecondText.antt decodes).
-- Tokens.antt has what they use of strconv, strings and fmt. Texts are lists of runes; where the code
-- takes the length of a token it is the length in UTF-8. An int32 is an integer within its bounds, and
-- where it wraps, `signed` and `pattern_of` say so; the XOR with the top bit of a word is an addition
-- modulo 2^32.
--
-- Quoting (oracle/utils/enquote_helpers.go) models the helpers that put literals and identifiers in
-- quotes, for text that the placeholder parser then reads. The classes of the regular expression are a
-- parameter; a theorem that needs that a double quote is in neither says so.
--
-- Bits (internal/driver/common/bitset.go) models the bit set: its bytes are a list, and a negative index
-- or one behind the last byte panics, as the slice does.
--
-- Base holds what the parts share: Go's results, maps as association lists, bytes and their order,
-- integers, strings as runes, and lemmas on lists and Boolean tests. In each part Runs.antt holds runs
-- at concrete inputs.
--
-- Not modelled: logging, contexts and deadlines, the value that Go returns beside a non-nil error, which
-- callers do not read, the locks of the thread-safe caches, numbers through `big.Rat` and `float64`, the
-- fields of a description that the order of attempts does not read, the
-- waiting for a retry delay, and the parts of the driver that have no file here: the network session and
-- its transports, the TTC messages and the executors that exchange them, OSON, dates, authentication and
-- configuration.
pub mod Base
pub mod Bits
pub mod Cache
pub mod Interval
pub mod Iterator
pub mod Marshal
pub mod Naming
pub mod Number
pub mod Quoting
pub mod Sql
