-- ===== src/Lib.antt =====
-- lilush: a static LuaJIT runtime for Linux with C libraries for the file system, processes,
-- cryptography, the terminal and WireGuard, and a shell written in Lua on top of them. This library
-- models the runtime's own C code, function by function, and proves what makes it correct.
--
-- Common      the shared names: tests, lists over the native numbers, reads and writes at an offset
--             of a C object, C's int, and `Outcome`, what a C function that Lua calls returns: the
--             values pushed, nil with a message, nil with the text of errno, or `fault` for a step
--             that C leaves undefined.
-- Crypto      src/crypto/crypto.c, the bindings of wolfCrypt. Ledger: what a function holds, with
--             commands that acquire, use, release and end early. Wolfcrypt: the library's calls, which
--             are not part of the repository, as an interface. Ecc, Ed25519, Digest, Csr, X509: the
--             functions lua_*, each under its name.
-- Term        src/term/term.c: raw and sane mode, the window size, the flag that SIGWINCH sets.
-- Std         src/std/std.c: Posix, the calls as an interface; Calls, the functions deviant_* that
--             make one call; Signal; Read, Sleep, Files and Dir, those with loops, buffers and tables.
-- Wireguard   src/wireguard/lua_wireguard.c: Interface and Route, the ioctl and netlink requests; Table,
--             the Lua values; Device, the structures and the library as an interface; Push, from a
--             device to a table; Parse and Set, from a table to a device, with the blocks allocated;
--             Keys, the conversions of keys and the list of devices; Types, what the tables hold.
-- Socket      src/luasocket/ssl.c, context.c and buffer.c, LuaSec and LuaSocket as they were reworked
--             for wolfSSL. Io, the codes; Buffer, the read buffer, receive and send over a transport,
--             which is a list of answers; Sni, the choice of a context by the client's server name;
--             Ssl, the state of a connection, with Handshake and Transfer, which is the transport that
--             Buffer works through; Context, the TLS contexts.
-- Main        src/lilush.c and src/reliw.c: the modules that are preloaded and the command line.
--
-- How the models correspond: a function keeps its name from the source, its tests and early returns
-- in their order; each call of a library that is not in the repository is a field of an interface,
-- and what the code relies on is a law of it. A loop runs on fuel where the number of rounds
-- depends on what a call answers (Std.Read, Std.Dir); its theorem says how much is enough. A loop
-- over answers of the kernel is a recursion on the list of answers. The loop over the names of the
-- devices (Wireguard.Keys) has the length of the list as its fuel; a round takes at least one byte.
-- The loops of the buffer (Socket.Buffer) run on fuel: a round takes one answer of the transport but
-- for the first, so two more than there are answers are enough. Those of the handshake and of the
-- transfers are recursions on the answers.
-- Memory that a function asks for is an argument where the outcome depends on it: the sizes that are
-- granted in Std.Read and Crypto.Digest, the number of blocks in Wireguard.Parse. A chunk of Lua that
-- Main runs returns, raises an error or ends the process; which of these is given.
-- Lua values are numbers, texts, Booleans and tables without metatables; Linux's values of the
-- constants of netlink and of the address families are written out, and words stand the low byte
-- first. Texts that C functions read up to the first NUL are cut there by `c_string`. Sizes are
-- natural numbers; where the source stores them in 8, 16 or 32 bits the wrap-around is written out.
-- An int that Lua passes is taken as it arrives.
--
-- Not modelled: luaL_check* and the other conversions of arguments, which raise Lua errors before a
-- function starts; the registration tables; the Lua modules; src/cjson, src/wireguard/wireguard.c and
-- the rest of src/luasocket, copies of other projects' libraries; the clock of TLS connections, since
-- what a wait answers is given.
pub mod Common
pub mod Crypto
pub mod Main
pub mod Socket
pub mod Std
pub mod Term
pub mod Wireguard
