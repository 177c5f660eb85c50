-- ===== src/Lib.antt =====
-- neo-io: transfers over streams, files, sockets and TLS connections, of src/neo/io.
--
-- A stream has `read_some` and `write_some`, which move part of what they are given and return a
-- transfer result. `read` and `write` repeat them by one loop. Streams over descriptors, sockets,
-- dynamic buffers and TLS engines have these two operations, and `stream_io_buffers` puts buffers
-- between a stream and its user. The engine moves the cipher text by such buffers.
--
-- Files and what they model:
--   Transfer         src/neo/io/concepts/result.hpp, stream/result.hpp and
--                    completion_condition.hpp: results, their errors, their sum, the conditions.
--   Throwing         how an overload that throws ends, by `neo::error_code_thrower`, which files, sockets
--                    and the engine use.
--   Layers           src/neo/io/concepts/layered.hpp: a stream with its static type.
--   IoOp             src/neo/io/detail/io_op.hpp, read.hpp and write.hpp: `do_io_op` is `io_loop` on
--                    `io_step`. Rule is the loop's invariant rule, Laws what it relies on, Delivery
--                    what it does over any operation, Sending and Receiving what `write` and `read` do,
--                    Placing what `read` does if what will come is not known before,
--                    Faultless what it does over a stream that never fails, Stability what it keeps up.
--   Dynbuf           src/neo/io/stream/dynbuf.hpp and string.hpp; Writing is `write` into such a
--                    stream, Reading `read` from one, StringTrip `write` into a string stream and
--                    a read from it.
--   Buffers          src/neo/io/stream/buffers.hpp: `commit` in Output, `next` in Input.
--   File             src/neo/io/stream/file.hpp: `open_mode` and `default_open_flags`, a function by
--                    statement. File/Posix is src/neo/io/stream/file.nix.cpp, File/Windows is
--                    src/neo/io/stream/file.win.cpp. File/Stream is the constructors and members of
--                    `file_stream`, over File/Posix and Native.
--   Native           src/neo/io/stream/native.hpp with the `close` of posix.cpp and win32.cpp: a
--                    program's streams in slots, each operation a step; Standard is the streams of
--                    stdio.hpp.
--   Posix            src/neo/io/stream/posix.hpp and posix.cpp: transfers on a descriptor. Overloads is what
--                    a call of `read_some` or `write_some` reaches, also from a file or a socket;
--                    Writing is `write` to a descriptor, Inner one inside `stream_io_buffers`.
--   Win32            src/neo/io/stream/win32.hpp and win32.cpp: transfers on a handle; Transfers is
--                    `read` and `write` of one buffer over it.
--   Socket           src/neo/io/stream/socket.hpp and socket.cpp on Unix; Socket/Throwing is its
--                    overloads that throw. Socket/Wsa is how a Windows socket prepares a vectored
--                    transfer, Socket/WsaStream its handle and transfers, from socket.win.cpp, and
--                    Socket/WsaOverloads what its calls reach. Socket/Errors is the messages of the
--                    `getaddrinfo` category.
--   Ssl/Calls        what the engine calls, as interfaces, and the errors of both sides.
--   Ssl/Engine       src/neo/io/openssl/engine.cpp: `engine_impl` and the operations of
--                    `engine_base`. The variables that a lambda captures are passed through. OneShot
--                    is what `run` does with an operation that ends at its first success; Reads,
--                    Writes and Handshake apply it. Shutdown is for `SSL_shutdown`, of which 0 is a
--                    success too. Throwing is the overloads of engine.hpp that throw. Flush is the
--                    loop of `flush_io`.
--   Ssl/Stream       src/neo/io/openssl/stream.hpp with the template `engine` of engine.hpp: an engine
--                    over two `stream_io_buffers` on one inner stream; a flush is in Output, Input and,
--                    both ways at once, Duplex. Progress is why its rounds end, from what Proceeds
--                    asks of OpenSSL, and Session what the stream's operations do, Closing its
--                    shutdown, by what a flush leaves behind in Emptying, Throwing its overloads that
--                    throw, Whole `write` over it and Reading `read` from it. Descriptor is one over
--                    a descriptor. CutOff is how an operation ends if SSL_ERROR_SYSCALL comes with an
--                    `errno` of 0.
--   Ssl/Bindings     the same file: where the buffers of a stream find its inner stream. A stream stands
--                    at a place and an inner stream has an address; Program is how streams are made,
--                    moved, assigned, rebound, used and destroyed. Sessions is the same without
--                    addresses, and Refinement that the one implements the other, by Binding.
--   Ssl/Errors       src/neo/io/openssl/error.cpp: the messages of the error category.
--   Ssl/Init         src/neo/io/openssl/init.hpp and init.cpp: the objects that initialise OpenSSL.
--   Ssl/Ownership    src/neo/io/openssl/engine.hpp, engine.cpp, context.hpp and error.cpp: contexts and
--                    engines made, moved and destroyed, an object by its place; Ledger is what their
--                    pointers own, Held that it is freed once.
--   Ssl/Context      src/neo/io/openssl/context.hpp and context.cpp.
--   Prelude, Tests   shared lemmas on lists and words; the theorems at concrete inputs.
--
-- State is passed explicitly: a call takes the state of what it changes and returns it. An object
-- passed by reference is returned. Exceptions are values of `Outcome`, failed assertions of `Checked`.
-- `Result` has an exception too, and what comes of the value of an empty optional.
-- `std::size_t` is 64 bits wide and `int` 32: sums and differences wrap at those widths, and an `int`
-- or a pointer-difference is its bit pattern. Error numbers of `std::errc` are Linux's.
--
-- Parameters, with their documented behaviour as named hypotheses: the buffer consumers, dynamic
-- buffers and `dynbuf_io` of neo-buffer, the system calls, the calls of OpenSSL, the four virtual
-- methods of `engine_base` where an engine stands alone, `neo::take`, `neo::error_code_thrower`, what
-- a move leaves in an inner stream or in buffers, and what the preprocessor asks of OpenSSL. Nothing
-- asks that SSL_ERROR_SYSCALL comes with an error number: where `errno` may be 0 the results say so.
--
-- Loops run on fuel, and `none` means that it ran out. The transfer loop needs a round for each byte
-- and one more. The engine's run has one fuel for its rounds and one for each flush; a flush needs one
-- more than the bytes that wait for the peer, and the rounds end by a measure of what is still to come
-- from the peer, which the connection provides. For a TLS stream it is counted from the bytes that the
-- inner stream brings. A commit of the engine writes to the inner stream, with fuel for more bytes than
-- a BIO pair holds.
--
-- Ssl/Stream holds the inner stream of a TLS stream once, as Ssl/Bindings allows.
--
-- Not modelled: the assignment of a TLS stream to itself, where the engine keeps what it has freed
-- (Ssl/Ownership has that for engines); the start of Winsock; `_do_readv`, `_do_write_arr` and
-- `_do_read_arr`, which the sources do not define and which are parameters; and the concepts but
-- `layered`, which are checked at compile time and stand here as interfaces. Events, log output and the
-- texts of exceptions are left out. So are moves that the compiler may leave out.
pub mod Prelude
pub mod Transfer
pub mod Throwing
pub mod Layers
pub mod IoOp
pub mod Dynbuf
pub mod File
pub mod Ssl
pub mod Native
pub mod Buffers
pub mod Posix
pub mod Win32
pub mod Socket
pub mod Tests
