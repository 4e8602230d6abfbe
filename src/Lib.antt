-- ===== src/Lib.antt =====
-- Verification of the EdgeDB Python client (package edgedb).
--
-- The parts of the program that are modelled, and how they interact. A server error arrives as
-- a number; edgedb/errors turns it into an exception class with tags. edgedb/retry.py runs a
-- block of the user's code in a transaction of edgedb/transaction.py, and decides by the tags
-- and by the rules of edgedb/options.py whether to run it again. A transaction borrows its
-- connection (edgedb/base_con.py), or takes one from a pool (edgedb/asyncio_pool.py) and gives
-- it back; the older edgedb/legacy_transaction.py nests transactions on one connection. The
-- protocol writes the arguments of a query and reads its results with edgedb/protocol/codecs,
-- and keeps statements and codecs in the mapping of edgedb/protocol/lru.pyx.
-- edgedb/con_utils.py and edgedb/credentials.py find out where and as whom to connect.
-- edgedb/scram authenticates the client while a connection is made.
--
-- - Prelude: Boolean tests, conditionals, lists over native numbers, dictionaries as lists of
--   items, exclusive or, integers.
-- - Errors/Class, Errors/Server, Errors/Query, Errors/Execution, Errors/Client: the class
--   statements of edgedb/errors/__init__.py with name, base, code and tags, as values of the
--   type `Class`. Errors/Registry: the metaclasses of edgedb/errors/_base.py (`register` is
--   `Meta.__new__`) and `_lookup_cls`; Errors/Registry/Nearest states what the lookup finds.
--   Errors/Hierarchy: the indices after all class statements. Errors/Raise: exceptions, and
--   code that returns or raises (`Result`).
-- - Options: edgedb/options.py. A backoff is a function from the attempt to a delay in
--   milliseconds; the random part of `default_backoff` is an argument. Options/Rules: what each
--   way to change the options does.
-- - Connection: `BorrowReason`, `borrow_error` and `ensure_connected`. The record `Env` holds
--   what lies behind a connection: the server's answer to a query, the owner's acquire and
--   release, connecting and sleeping, each with the world that it leaves.
-- - Transaction: `BaseTransaction` and `AsyncIOTransaction`. The record `Transaction` holds the
--   object's attributes, the borrowing of its connection and the world; a method maps it to a
--   result and a new record. Transaction/Calls: the public calls. Transaction/States: the state
--   machine. Transaction/Borrow: when the connection is borrowed. Transaction/Metered,
--   Transaction/Ledger: the connections that it takes from a pool and gives back, counted over
--   any pool. Transaction/Blocking: the class `Transaction`, compared with the asynchronous
--   one.
-- - Retry: `BaseRetry`, `AsyncIORetry`, `AsyncIOIteration`, and the loop `async for tx in
--   retry: async with tx: body`. Retry/Decision: one block. Retry/Bound: the loop. The loop
--   recurses on fuel, one unit for each call of `__anext__`; if no rule allows more than n
--   attempts, n + 1 units are enough, because each further attempt needs a number below the
--   attempts of some rule and the last call of `__anext__` ends the loop.
-- - Scram/Bytes: `XOR` with Python's conversions between bytes and integers. Scram/Text:
--   `split` and `partition`. Scram/Library: hmac, sha256, base64, and the conversion between
--   text and integers, as a record with the laws that are relied on; the random salt is an
--   argument. Scram/Keys, Scram/Build, Scram/Parse: the functions of edgedb/scram/__init__.py
--   by what they do. Scram/RoundTrip, Scram/Verifier, Scram/Exchange: what a message or
--   verifier reads back as, and the whole exchange. Scram/Saslprep: edgedb/scram/saslprep.py
--   over the tables of stringprep and the normalisation of unicodedata. Text is its UTF-8
--   bytes, in saslprep its code points.
-- - Params/System: the arguments of edgedb/con_utils.py, and the environment, the files and the
--   library functions that it uses, as a record. Params/Hosts: `_validate_port_spec` and
--   `_parse_hostlist`. Params/Query, Params/Dsn, Params/Address: `_parse_connect_dsn_and_args`,
--   from the search for a DSN to the addresses and the TLS settings; Params/Explicit and
--   Params/Sockets are about its results. Params/Credentials: `validate_credentials` of
--   edgedb/credentials.py on JSON values.
-- - Connect: the loop of `_AsyncIOConnectionImpl.connect` in edgedb/asyncio_con.py over the
--   record `Network`, which holds the attempts, the clock and the pause; it recurses on fuel,
--   one unit for each round over the addresses. Connect/Deadline: `wait_until_available + 2`
--   units are enough, because after the first round a round goes on only before the deadline,
--   and each pause moves the clock.
-- - Connect/Sockets: `_BlockingIOConnectionImpl._connect_addr` of edgedb/blocking_con.py over
--   the record `Sockets`, which holds the calls of sockets and the clock, and `wrap_error` and
--   `check_alpn_protocol` of edgedb/con_utils.py. Connect/Sockets/Handled,
--   Connect/Sockets/Slow: what leaves it, and what the loop of `connect` makes of that.
-- - Pool: edgedb/asyncio_pool.py. The record `Pool` holds the attributes of `_AsyncIOPoolImpl`,
--   of its holders (as functions of the holder's number) and of its connections (as functions
--   of the connection's number), and the tasks that wait in it. Pool/Events and Pool/Closing:
--   the methods, cut where a task waits. Pool/Runs: sequences of calls, answers of the network
--   and of the user's hooks, and changes of connections, in any order. Pool/Places,
--   Pool/Exclusive: where a holder can be. Pool/Kept, Pool/Lossless, Pool/Shut, Pool/Started,
--   Pool/Orderly: when no holder is lost. Pool/Expired: acquiring after the connections are
--   expired.
-- - TaskGroup: edgedb/_taskgroup.py. The record `Store` holds the group, its parent task, and
--   where the parent stands in the block; whether `CancelledError` is an `Exception`, which
--   depends on the version of Python, is an argument. TaskGroup/Exit: `__aexit__`.
--   TaskGroup/Runs: calls, ends of tasks, callbacks and cancellations as events in any order.
--   TaskGroup/Counted, TaskGroup/Methods, TaskGroup/Ends: the invariant and what follows from
--   it. TaskGroup/Hidden: what a block raises.
-- - Datatypes: `RelativeDuration` of edgedb/datatypes/relative_duration.pyx and its text.
--   Datatypes/Sign: the sign in that text.
-- - Lru: `LRUMapping` of edgedb/protocol/lru.pyx; an `OrderedDict` is the list of its items,
--   and its keys are of any type with Python's `==`. Lru/Recent, Lru/Kept, Lru/Track: the
--   mapping next to a list of all uses that is never cut.
-- - Legacy: edgedb/legacy_transaction.py. The record `Store` holds all transactions of one
--   connection by their numbers, its `_top_xact`, and the counter of edgedb/base_con.py.
--   Legacy/Calls: the methods; the two classes differ in a part of a message, which is an
--   argument. Legacy/Runs: sequences of calls. Legacy/Outer, Legacy/Reached: which transaction
--   is the outer one. Legacy/Stuck, Legacy/Forever: an outer transaction that failed. The
--   number in a savepoint's name is written with one unit of fuel for each unit of the number,
--   which is enough because a division by 16 makes a number other than 0 smaller.
-- - Codecs: the codecs of edgedb/protocol/codecs as pairs of functions between values and bytes
--   (`Codec`). The record `Wire` holds the functions on buffers, which edgedb/pgproto has, with
--   the laws that are relied on in `IsWire`; the codecs of scalars are arguments. Codecs/Array:
--   `BaseArrayCodec` and `ArrayCodec`. Codecs/Tuple: `BaseRecordCodec`, `TupleCodec`, and how
--   named tuples and objects are read. Codecs/Named: `NamedTupleCodec.encode_kwargs`.
--   Codecs/Arguments: `encode_args` of edgedb/protocol/protocol.pyx, with the class of the
--   codec as a data type. Codecs/Items, Codecs/Sent, Codecs/Fields: reading what was written.
--   Codecs/Read: code that reads from a buffer. Codecs/Types, Codecs/Build, Codecs/Skip: the
--   two halves of `CodecsRegistry._build_codec` in edgedb/protocol/codecs/codecs.pyx, which
--   build the codec of a type from its descriptor, and which step over the descriptor of a
--   known type. Codecs/Registry: the registry with its caches, and the loop of `build_codec`,
--   which recurses on fuel, one unit for each byte of the descriptors and one more, since each
--   round reads 17 bytes or more. Codecs/Follows, Codecs/Shrinks, Codecs/Annotations,
--   Codecs/Skipped: rules for code that reads. Codecs/Scalars: the table of base scalar types.
--   Codecs/Bigint, Codecs/Durations: the scalar codecs that codecs.pyx has itself.
-- - Tests: a small world and a small library, runs of the models, and the theorems at concrete
--   inputs.
--
-- Bounds. Codes of errors are natural numbers, and `code.to_bytes(4, 'big')` fails from 2 ^ 32
-- on. Numbers of attempts are natural numbers. Python's integers are unbounded, and so are the
-- model's.
--
-- A message ends where a value is printed into it, unless the value is text or a flag.
--
-- Not modelled: the messages of the wire protocol (edgedb/protocol/protocol.pyx), which read
-- and write the buffers of a git submodule that is not in the repository; of the codecs, sets,
-- the values of enums, and the tests of a value's Python type; the data types in C; query
-- methods, which only pass their arguments on to the protocol; the formatting of server
-- attributes of an exception; cancellation of asyncio tasks between two steps of one method. Of
-- the connection parameters, the connect timeout and warnings are left out. Of the pool,
-- timeouts, cancellation, `set_connect_args` and the reuse of an address are left out; the
-- class AsyncIOPool passes its calls on. Of the blocking connection, and of the rest of the
-- connection classes, the methods that pass their calls on have no model.
pub mod Prelude
pub mod Errors
pub mod Options
pub mod Connection
pub mod Transaction
pub mod Retry
pub mod Scram
pub mod Params
pub mod Connect
pub mod Pool
pub mod Lru
pub mod Legacy
pub mod Codecs
pub mod Datatypes
pub mod TaskGroup
pub mod Tests
