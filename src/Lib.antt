-- ===== src/Lib.antt =====
-- The service library: a verification of its core.
--
-- Gc.antt and the files below it model the epoch lock (gc/gc_lock.h, gc/gc_lock.cc).
-- Gc/Data is the packed word that threads share, with compareEpochs, calcVisibleEpoch, validate
-- and updateData. Gc/Threads turns enterCS, exitCS, enterCSExclusive, its barrier and
-- exitCSExclusive into a machine for each thread, one step for each access to the shared word.
-- Gc/Deferred has the queues of doDefer and checkDefers, Gc/System the lock with its threads and
-- queues under every interleaving, and Gc/Entry the nesting counters of ThreadGcInfoEntry.
-- Epochs and counts are bit patterns of int32_t and int16_t with their wrap-around. The outer loop
-- of checkDefers has one unit of fuel for each queue, which suffices since one round is enough.
-- Callbacks are opaque; futex waits show as further rounds; reads of the word are atomic.
--
-- Rcu.antt and the files below it model gc/rcu_protected.h: Rcu the handles of RcuLocked with the
-- shares of their locks, Rcu/Cells the pointers of RcuProtected and RcuProtectedCopyable with the
-- objects that they retire. A lock is a number here. The read of a pointer by operator () and the wait
-- of visibleBarrier are not modelled.
--
-- Timeouts.antt and the files below it model the map whose entries carry deadlines
-- (service/timeout_map.h): Timeouts has its nodes and its multimap of deadlines, Timeouts/Ops the
-- operations, one function each. The std::map of nodes is an association list, an iterator into it
-- a key, and an iterator into the deadlines the date of the entry, or nothing while it is unset.
-- Timeouts/Refinement says when such a map stands for a function from keys to values with
-- deadlines, Timeouts/Calls and Timeouts/Histories what each call should do to the function. Dates are
-- ticks or positive infinity. Timeouts/Callbacks has expire with a callback, which keeps a state of its own
-- but neither throws nor touches the map, and Timeouts/Visits the calls that it makes. Its loop takes
-- a unit of fuel for each round; one more than there are expired entries is enough where the callback
-- answers with no date that has passed. A replaced exception handler is not modelled.
--
-- Pending.antt and the files below it model service/pending_list.h: a map with deadlines whose
-- entries are in a store as well. The store and the codec of keys and values are parameters, of which
-- Pending/Agreement says what is asked. Pending/Calls and Pending/Upkeep are about the calls on a
-- list, Pending/Restart and Pending/Unreadable about reading a store. Pending/Completion has
-- completePrefix, with the order of the map as a parameter, Pending/Prefixes what it finds and
-- Pending/Pairs the case of pairs with IsPrefixPair. A store that throws and leveldb are not modelled.
--
-- Http.antt and the files below it model the HTTP parsers (service/http_parsers.h,
-- service/http_parsers.cc): Http/Lines has skipToChar and the two parseFirstLine, Http/Headers
-- parseHeaders and handleHeader, Http/Bodies the bodies, and Http/Feed the stages of feed and the
-- buffer between calls. Bytes are numbers, and a pointer into the bytes is the list of those from
-- there on. The callbacks are recorded as events. antoi comes from another library and is a
-- parameter. The loops over lines and chunks have one unit of fuel more than there are bytes, and
-- each round but the last takes a byte at least; the loop of feed has two for each byte and two
-- more, since a round may also leave an empty body.
--
-- Json.antt and the files below it model the printing of JSON (types/json_printing.h and .cc): Json has
-- the calls of StreamJsonPrintingContext and writeStringUtf8, Json/Reading a reader of JSON strings,
-- Json/Trees the calls and the text of a value. A stream is the list of the bytes written. jsonEscape,
-- the encoder of UTF-8, the text of numbers and that of JsonCpp values come from other libraries and
-- are parameters. The reader has a unit of fuel for each character and one for the closing quote.
-- StructuredJsonPrintingContext builds values of JsonCpp and is not modelled.
--
-- Urls.antt and the files below it model types/url.cc: how a text becomes a URL, over the parser of
-- googleurl as a parameter, how a URL is stored, and quoteUrl with, in Urls/Quoting, a reader of what
-- it writes. The getters that ask that parser are not modelled.
--
-- Ids.antt and the files below it model identifiers (types/id.h, types/id.cc): Ids has the type and
-- its union, Ids/Parse parse, Ids/Print toString, Ids/Store serialize and reconstitute, which take
-- the store of another library as a parameter. The union is one number of 128 bits. Prelude/Digits
-- has the loops over digits that the notations share. Printing a decimal has fuel for 40 digits, one
-- more than 128 bits need; reconstitute has a unit of fuel for each part of an identifier. Ids/Order
-- has their equality, order and hash, and toInt. Who owns the text of an identifier, and the conversion
-- to JSON, are not modelled.
--
-- Rest.antt and the files below it model REST requests (service/rest_service_endpoint.h and .cc,
-- service/rest_request_router.h and .cc): Rest/Connections the calls of ConnectionId that send,
-- Rest/Contexts the parsing context with its guard and matchPath, Rest/Routes routers as trees,
-- Rest/Routers handleRequest, processRequest and Route::process, and Rest/Help getHelp and options.
-- The handlers of the user are functions that may send, change the context, and throw. Regular
-- expressions and JSON values are parameters. Rest/Selection describes which handler a request
-- should reach, Rest/Keeping what handlers may do. Building a router, addHelpRoute and serving
-- static files are not modelled.
--
-- Splitting.antt and the files below it model logger/log_message_splitter.h: the offsets of a
-- message's fields, the fields, and their comparison with a text. Splitting/Pieces has the pieces of
-- a text without offsets, Splitting/Ends is about messages that end in a delimiter. The loop takes one
-- step for each field that there is room for.
--
-- Ports.antt and the files below it model service/port_range_service.h and .cc: ranges of ports,
-- bindPort, whose loop has a unit of fuel for each port of the range, and DefaultPortRangeService.
-- Ranges from texts, conversions from and to JSON and JsonPortRangeService are not modelled.
--
-- Periods.antt and the files below it model the units of types/periodic_utils.h and .cc: steps from
-- unit to unit and the translation from one to another. parsePeriod, findPeriod and TimePeriod work
-- on doubles, dates and a parsing context of another library, and are not modelled.
--
-- Not modelled: input and output (service/transport.cc, service/endpoint.cc, logger/*_output.cc),
-- clients of remote services (service/s3.cc, service/redis.cc, service/sftp.cc), bindings (js/,
-- sync/), the running of programs (service/runner.cc, launcher/), copies of other projects
-- (jsoncpp/, utf8cpp/, types/dtoa.c), and the rest of the parsing and printing code (types/,
-- logger/filter.cc), on which the parts above do not depend.
pub mod Prelude
pub mod Gc
pub mod Rest
pub mod Splitting
pub mod Ports
pub mod Periods
pub mod Json
pub mod Rcu
pub mod Urls
pub mod Timeouts
pub mod Pending
pub mod Http
pub mod Ids
