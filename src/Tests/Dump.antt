-- ===== src/Tests/Dump.antt =====
-- Runs of the command dump on a certificate that comes by standard input.
use certigo.Base.{ℕ, [], ◌∷◌, ◌≡◌, refl, none, true, false, str, Bool, bytes_eq}
use certigo.X509.{Certificate}
use certigo.Certs.{Block, trim_space, trim_left, trim_right}
use certigo.Certs.Formats.{format_for_file}
use certigo.Certs.Stream.{encode_x509_to_pem, stream_headers}
use certigo.Certs.Stream.Listing.{holds, listing_of}
use certigo.Cli.{Session, exits, put, print_line, result_json, passwords, input_files}
use certigo.Cli.Dump.{DumpFlags, dump}
use certigo.Cli.Dump.Prints.{texts, dump-texts}
use certigo.Cli.Dump.Shows.{no_more, certificate, collected, dump-certificate_list}
use certigo.Cli.Run.{new_session}
use certigo.Tests.Certs.{libraries}
use certigo.Tests.Certs
use certigo.Tests.Cli.{host, terminal}

abbrev flags : Bool → Bool → DumpFlags
flags pem json = record { files = none; kind = str " DER"; password = []; pem = pem; json = json }

abbrev start : Session ℕ
start = new_session 0

abbrev given : Certificate
given = Certs.certificate (0x30 ∷ 0x82 ∷ 3 ∷ 200 ∷ [])

abbrev block : Block
block = record { kind = str "CERTIFICATE"; bytes = given.raw; headers = [] }

stdin_listing :
    listing_of libraries
      (passwords host terminal []).read
      (stream_headers (str "/dev/stdin"))
      (trim_space (str " DER"))
      given.raw
      none
    ≡ holds (block ∷ [])
unfolding listing_of trim_space trim_left trim_right bytes_eq encode_x509_to_pem stream_headers
stdin_listing = refl

dump-texts_example :
    dump host terminal false (flags true false) start
    ≡ (exits 0, put (texts (λ b. b.bytes) (block ∷ [])) start)
unfolding input_files format_for_file
dump-texts_example =
    dump-texts host (λ b. b.bytes) (λ b. refl) terminal false (flags true false) start
      {found = str " DER"} refl refl refl stdin_listing

dump-certificate_list_example : dump host terminal false (flags false true) start ≡ (
  exits 0,
  print_line
      (result_json host (collected (trim_space (str " DER")) (given ∷ []) start).result)
      (collected (trim_space (str " DER")) (given ∷ []) start),
)
unfolding input_files format_for_file bytes_eq
dump-certificate_list_example =
    dump-certificate_list host terminal false (flags false true) start {found = str " DER"} refl
      refl refl stdin_listing (certificate refl refl no_more) refl refl
