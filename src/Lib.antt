-- ===== src/Lib.antt =====
-- shadowc: a model of the program, with the theorems that say what it does.
--
-- The program is the beginning of a shadowsocks server. An event loop (Eventloop) hands the events
-- of epoll to handlers. A resolver (Asyncdns) is such a handler: it sends DNS queries over UDP,
-- keeps the callbacks that wait for each host name, and calls them when a response comes. A relay
-- (Tcprelay) listens for clients. A Cryptor encrypts what goes over a connection with OpenSSL.
--
--   Base          the names that all modules share, with lists, association lists, int and text
--   Memory        blocks of bytes, reads and writes with bounds, and the outcomes of code that may
--                 fault: ok, a fault, or no_fuel
--   Asyncdns      lib/asyncdns.cpp and include/asyncdns.hpp
--     Names         change_to_dns_name_format, read_name
--     Header        DNS_HEADER and ntohs, htons
--     Response      parse_response, and the loop of DNSResolver::handle_data; its Reply is what a
--                   server sends, as RFC 1035 encodes it
--     Query         the datagram of DNSResolver::send_req
--     Resolver      the other operations of DNSResolver; its Serving and Dispatch put the resolver
--                   into the event loop, and its Queues say what it promises, with no sockets,
--                   packets or tables: a queue of callbacks for each host name
--   Dns           dns.c, an older program of its own: ChangetoDnsNameFormat, ReadName, and the query
--                 and the sections of ngethostbyname
--     Report        what ngethostbyname prints, get_dns_servers, and main
--   Eventloop     lib/eventloop.cpp: EventLoop; its Watching has the kernel beside the loop's map
--   Tcprelay      lib/tcprelay.cpp: TCPRelay, and the constructor of TCPRelayHandler
--   Cryptor       lib/cryptor.cpp: Cryptor
--     Openssl       lib/crypto/openssl_crypto.cpp: OpenSSLCrypto
--     Initialising  init_evp of that file, with its static flag, and the calls that OpenSSL gets
--     RoundTrip     what is sent, against OpenSSL's own decryption
--     Receiving     what is received, against the calls that OpenSSL gets
--     Sessions      both directions of a connection at once, in any order
--   Main          src/server.cpp: main, which reads the command line
--   Server        a loop of lib/eventloop.cpp with a DNSResolver and a TCPRelay as its handlers
--   Utils         lib/utils.cpp
--
-- How state is modelled. An object is a record of its members, an operation a function from the
-- record to the new one; what it does to the outside (datagrams, calls of callbacks, descriptors
-- closed) is a list of effects, in order. What the system answers is an argument. A pointer into a
-- block is an index; a block that malloc or the stack gives is an argument too, with whatever it
-- held before, so that a write outside it, or a use of its old contents, shows. A compression
-- pointer is followed on fuel; a name that takes n rounds needs fuel for n, and rounds of
-- Names.Termination is enough for every message without a cycle of pointers. ChangetoDnsNameFormat
-- has a round for each character of the name and its dot, and one to end. The conversion to dots
-- has a round for each byte of its block. An unsigned char that counts wraps at 256. A callback
-- that calls the resolver again while it is being called is modelled apart, in Resolver.Reentry,
-- with a round of fuel for each callback and one to end; the histories of the resolver use
-- callbacks that do not.
--
-- OpenSSL is a parameter, the record Evp of Cryptor.Openssl. IsReady and IsStream say what is
-- relied on: the method and the digest are known, contexts can be made from a vector of the right
-- length, and the method is a stream cipher: EVP_EncryptUpdate on a context for encryption gives
-- output that does not depend on how its input is cut, and EVP_DecryptUpdate on a context for
-- decryption takes it back. The program calls EVP_EncryptUpdate for decryption too, where OpenSSL
-- documents nothing; what that gives, and what a refused call leaves in out_size, is left to Evp.
--
-- A destructor gives the list of what it frees. In the event loop, a handler is looked up and called
-- with the state that handlers change, of which the resolver and the relay are parts; what
-- the next reads of a socket leave in the buffer, and what the next accepts give, are lists in it.
--
-- The kernel's side of epoll_ctl is the parameter Epoll of Eventloop.Watching, which may refuse to
-- add a descriptor, with IsEpoll for what it documents. A DNS server is a parameter of
-- Resolver.Exchange, where Serves says that it answers queries as RFC 1035 has it. cxxopts is the parameter Cxxopts of Main; IsCxxopts of
-- Main.Config says what is relied on: which names a declaration adds, that parsing keeps them,
-- and that a declared option can be read as its type.
--
-- Not modelled: the logs, but for those of an accept and of a refused option, the lines that main
-- prints, and the lines that dns.c prints of its records; handle_event and the destructor of
-- TCPRelayHandler, which have no body; include/cxxopts.hpp, a third-party copy; the socket of dns.c;
-- the drivers in test, which only call the modelled parts.
pub mod Base
pub mod Main
pub mod Memory
pub mod Eventloop
pub mod Utils
pub mod Asyncdns
pub mod Cryptor
pub mod Tcprelay
pub mod Dns
pub mod Server
