-- ===== src/Lib.antt =====
-- certigo, a command-line utility that reads, prints and verifies certificates.
--
-- The program reads certificates from files, key stores or a TLS connection, shows them, warns of
-- common mistakes and verifies chains. Its parts and the files that model them:
--
--   Base       shared names: lists and texts over the native numbers, Go maps, integers, outcomes
--   Jceks      jceks/jceks.go, jceks/pbe.go: key stores
--   Pkcs7      pkcs7/pkcs7.go: envelopes of certificates
--   X509       the values of crypto/x509 and crypto/tls, which the other parts read
--   Certs      lib/certs.go: every input becomes PEM blocks or certificates for a callback;
--              Certs/Stream/Listing has what an input holds, with no caller and no state, against
--              which the reading of a stream is measured
--   Encoder    lib/encoder.go: what is shown of a certificate, and its warnings
--   Oids       lib/oids.go, with the names of lib/encoder.go and lib/display.go
--   Tls        lib/tls.go: what is shown of a connection
--   Ocsp       lib/ocsp.go: the revocation status
--   Verify     lib/verify.go: chains, with their text
--   Display    lib/display.go: colours, dates and the two layouts of a certificate
--   Starttls   starttls/starttls.go, dialer.go, ftp.go, imap.go: connections
--              starttls/mysql/driver.go, starttls/psql/conn.go: DumpTLS of the two databases
--   Terminal   cli/terminal/terminal.go, testing.go: the width, the prompt and the password
--   Cli        cli/cli.go, main.go: Run, with its commands dump, connect and verify, and main
--   Tests      concrete runs
--
-- Verify reads a CA bundle by Certs, checks chains by Ocsp and names certificates by Oids; Certs
-- reads key stores by Jceks and envelopes by Pkcs7. A Go name such as readCertsFromStream is
-- read_certs_from_stream here, and a switch or loop of it that is long is a definition of its own.
--
-- A call that may fail is an Outcome: a value, an error or a panic. State is passed on explicitly by
-- the type M; a read gives bytes, and then the end or an error; the callback of Certs acts on any
-- state, and requests to servers change a state of the outside. Texts are lists of bytes. A Go map
-- is an association list, and the order in which Go visits it is a parameter. The libraries (crypto,
-- ASN.1, PEM, PKCS12, HTTP, the database drivers but for DumpTLS) are parameters, by records of
-- what their calls answer. The goroutines of a connection are the list of results that they send,
-- and flags that say which timer is first; Starttls/Connect/Channel has the channel that they share,
-- with every order of their steps.
--
-- A command of Cli reads its inputs by Certs, or connects by Starttls, verifies by Verify, and shows
-- what it has by Display and Tls. It acts on a session: the streams that it has written, the result
-- and the state of the outside. Its end is an exit code or a panic. Where a password cannot be read,
-- the reading panics and marks the session, which stands for os.Exit: nothing runs after it. A
-- template is the function from what it shows to its text, and encoding/json a parameter over the
-- objects that it is given.
--
-- Fuel: parse_blocks is given the length of the input, which is enough where every envelope has a
-- byte; pem_tokens is given the length of the input, which is enough where every block has a byte;
-- digits_fuel and bit_len_fuel are given a number above, or equal to, the one that they halve or
-- divide.
--
-- Not modelled: the rendering of JSON, kingpin's parsing of the arguments, and the rest of the
-- libraries under starttls/ldap, starttls/mysql and starttls/psql, which other projects own. The
-- PEM scanner decodes the first 64 KiB of what is left of its input; that it may try with fewer bytes
-- before it has read so many has no model. A prompt has one answer in a command: a terminal that
-- answers the same prompt in two ways has no model.
pub mod Base
pub mod Jceks
pub mod Pkcs7
pub mod Certs
pub mod Encoder
pub mod Oids
pub mod Tls
pub mod Ocsp
pub mod Verify
pub mod Display
pub mod Starttls
pub mod Terminal
pub mod Cli
pub mod Tests
pub mod X509
