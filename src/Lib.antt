-- ===== src/Lib.antt =====
-- node-amqp, a client of the AMQP 0-9-1 protocol.
--
-- The program: lib/amqp-definitions-0-9-1.js and lib/definitions.js describe the methods of the
-- protocol; lib/serializer.js writes values into buffers and lib/parser.js reads them, after it
-- has cut the bytes of the socket into frames; lib/connection.js owns the socket, and
-- lib/channel.js, lib/exchange.js and lib/queue.js the channels on it.
--
-- Which file models which part:
--   Values                  the values of JavaScript that tables hold, and the parameters for Node's UTF-8 and jspack.js
--   Prelude, Result, Js     shared lists, tests, integers; errors; the 32-bit arithmetic of JavaScript
--   Definitions             lib/amqp-definitions-0-9-1.js (one file for each class) and lib/definitions.js (Tables)
--   Serializer              lib/serializer.js: Buffer (the buffer with `used`), Ints (serializeInt), Values (all up to serializeArray), Format (the bytes of a value), Writes and Refines (their agreement), Fields (serializeFields), FieldFormat and FieldWrites (its bytes)
--   Parser                  lib/parser.js: Cursor (the buffer with `read`), Ints (parseInt), Values (parseValue, parseTable), Fields (parseFields), Methods (_parseMethodFrame, _parseHeaderFrame), Frames (header, frame, frameEnd, execute), Stream and Chunks (its specification)
--   Connection              lib/connection.js: Methods (_sendMethod), Calls (the parser at the other end), Unknown (a method that it does not know), Headers (_sendHeader), Properties and Contents (the parser at the other end), Frame (a frame on the wire), Body (the frames of `_sendBody`), Delivery (the parser at the other end), ChannelIds (generateChannelId), Backoff (the listeners of addAllListeners, reconnect, end), Attempts (the reconnections), Control (_onMethod)
--   Exchange                lib/exchange.js: Confirms (_sequence and _unAcked), State (_onMethod, publish), Counts and Accounts (the calls of publish), Runs (what happens to an exchange), Sources (bind, bind_headers, unbind, destroy, cleanup), Unanswered (the reply to unbind)
--   Queue                   lib/queue.js, lib/message.js: Messages (a message and its events), Bodies (the chunks of a body), Bindings (bind, unbind), Unbinding (what they leave), Rebinding (the bindings that are made again), Subscriptions (the consumers), State (the state of a queue), Jobs (the tasks and what they do), Calls (the operations that push a task, subscribeRaw), Handlers (_onMethod), Idle (subscribeRaw on a queue that has called its tasks), Resubscribing (the consumers that are subscribed again), Restoring (a queue whose connection comes back), Answers (the replies to calls)
--   Channel                 lib/channel.js: Tasks (the task queue), Members (numbers in lists), Order (in which order tasks are called), Complete (which tasks are called), Replies (which task a reply belongs to), Waiting (a reply for which a task waits)
--   Promise                 lib/promise.js: Events (its operations), Once (a promise fires once)
--   RoundTrip               what the parser reads of what the serializer wrote: Ints; Received, Scalars and Values (any value), Plain (the values that come back unchanged), Tables and Endless (those that the parser misreads), Bits, Octets, Params and Fields (the fields of methods), Flags (the flags of a header), Protocol (what the definitions keep to)
--   Tests                   runs, and the theorems at concrete inputs
--
-- A number is an integer, or another double but NaN, of which only what jspack.js makes of it is
-- known; bytes are natural numbers. An object is the list of its entries in the order of
-- insertion; that JavaScript enumerates keys that are array indices first is left out. A read past
-- the end of a frame gives undefined in JavaScript, and NaN in what follows; the model stops there
-- with past_end. The tail calls of the frame parser take fuel, three calls for each byte and three
-- more, which is proved to be enough. The recursion of parseValue and parseTable takes fuel; one
-- more than the bytes of what the serializer wrote is proved to be enough, and there is no bound
-- for what a peer may send.
--
-- The loop of _sendBody takes fuel for the bytes of the body, since each frame takes one at least;
-- its room in a frame is maxFrameBuffer - 8, and with no room it is endless. The loop of
-- generateChannelId takes channelMax rounds, after which it is back at its counter.
--
-- In Channel a promise is a number, the count of the pushes before; a listener of a promise is the
-- list of the tasks that it pushes. The callbacks of tasks are taken to return.
--
-- The arguments of a method are the list of its own properties; the properties of a value that
-- stands where a number or an array is wanted are parameters. A method is found by its indices,
-- where the code compares objects.
--
-- An exchange or a queue appends to its output what it does to others, in order; the numbers of
-- methods by which it knows its tasks are its own. An operation that pushes a task is two
-- functions, the call and what its task does; in a queue the task runs when the task queue calls
-- it, and the callback that unsubscribe adds to its promise runs when a reply is taken. Exchanges,
-- routing keys and listeners are numbers, and so are the tags of consumers, which are made with
-- Math.random() and taken to be new. Someone is taken to listen to the event 'error' of a queue,
-- which else throws. A reconnection timer is counted in `pending`; an exchange or queue takes each
-- event as one step.
--
-- Not modelled: the choice of a host, the options of a connection, of a URL and of TLS, sockets
-- and console output, which are input and output; what the listeners of promises do beside pushing
-- tasks; the JSON of subscribe; and jspack.js, a copy of another project's library.
pub mod Prelude
pub mod Js
pub mod Result
pub mod Values
pub mod Definitions
pub mod Serializer
pub mod Parser
pub mod RoundTrip
pub mod Connection
pub mod Channel
pub mod Exchange
pub mod Queue
pub mod Promise
mod Tests
