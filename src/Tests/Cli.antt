-- ===== src/Tests/Cli.antt =====
-- Runs of the models of cli/cli.go and cli/terminal.
use certigo.Base.{
  ap, subst, ℕ, List, [], ◌∷◌, ◌≡◌, ◌≢◌, ◌↔◌, refl, some, none, true, false, Bytes, str, Bool,
  Result, value, error, panic,
}
use certigo.Base.Int.{pos}
use certigo.X509.{Certificate}
use certigo.Terminal.{Terminal, tty}
use certigo.Verify.{VerifyOptions}
use certigo.Verify.Printing.{IsFilled}
use certigo.Cli.{Host, exits, crashes, print_warning, input_files}
use certigo.Cli.Codes.{IsDocumented}
use certigo.Cli.Dump.{DumpFlags, dump}
use certigo.Cli.Dump.Total.{reading, dump-crashes}
use certigo.Cli.Connect.{ConnectFlags, connect}
use certigo.Cli.Connect.Accepts.{Trusts, connect-Trusts}
use certigo.Cli.Verify.{VerifyFlags, verify}
use certigo.Cli.Verify.Accepts.{Accepts, verify-Accepts}
use certigo.Cli.Run.{Command, dump_command, new_session, run, main}
use certigo.Cli.Run.Unopened.{run_unopened}
use certigo.Cli.Run.Codes.{asks, FailsToAnswer, main-IsDocumented}
use certigo.Tests.Starttls.{net, in_time}
use certigo.Tests.Verify.{verifier}

abbrev pub host : Host ℕ
host = record {
  verifier = verifier;
  network = net;
  stdin = (0x30 ∷ 0x82 ∷ 3 ∷ 200 ∷ [], none);
  is_broken = λ text. false;
  pem_encode = λ block. value block.bytes;
  to_json = λ object. str "json";
  verification_json = λ result. str "json";
  parse_raw_subject = λ bytes. error (str "no name");
  paint = λ color text. text;
  format = λ instant. str "2020";
  wrap = λ width text. text;
  show_ip = λ ip. ip;
  now = pos 50;
}

abbrev pub terminal : Terminal
terminal = tty (λ prompt. value (str "secret\n")) true (value 72)

worded :
    (cert : Certificate) (options : VerifyOptions) (e : Bytes)
    → host.verifier.verify cert options ≡ error e
    → e ≢ []
worded cert options e h = λ p. cc

abbrev chains_of : Result Bytes (List (List Certificate)) → List (List Certificate)
chains_of (value chains) = chains
chains_of (error e) = []

filled :
    (cert : Certificate) (options : VerifyOptions) (chains : List (List Certificate))
    → host.verifier.verify cert options ≡ value chains
    → IsFilled chains
filled cert options chains h = subst IsFilled (ap chains_of h) tt

abbrev verify_flags : VerifyFlags
verify_flags = record {
  file = [];
  kind = str "DER";
  password = [];
  name = str "example.com";
  ca_path = [];
  json = true;
}

verify-Accepts_example :
    ((verify host terminal verify_flags (new_session 0)).0 ≡ exits 0)
    ↔ Accepts host terminal verify_flags (new_session 0)
verify-Accepts_example = verify-Accepts host worded filled terminal verify_flags (new_session 0)

abbrev connect_flags : ConnectFlags
connect_flags = record {
  to = str "example.com";
  name = [];
  ca_path = [];
  cert = [];
  key = [];
  start_tls = some [];
  identity = some (str "certigo");
  proxy = none;
  timeout = 5000000000;
  pem = false;
  json = false;
  verify = true;
}

connect-Trusts_example :
    ((connect host in_time none terminal false connect_flags (new_session 0)).0 ≡ exits 0)
    ↔ Trusts host in_time none connect_flags
connect-Trusts_example =
    connect-Trusts host terminal false connect_flags refl worded filled in_time none (new_session 0)

abbrev dump_flags : DumpFlags
dump_flags = record {
  files = some (str "cert.pem" ∷ []);
  kind = [];
  password = [];
  pem = false;
  json = false;
}

dump-crashes_example : ((dump host terminal true dump_flags (new_session 0)).0 ≡ crashes) ↔ (
    let (read, s) = reading host terminal dump_flags (new_session 0) in
    (read ≡ panic) × (s.gave_up ≡ false))
dump-crashes_example = dump-crashes host terminal true dump_flags (new_session 0) refl

abbrev parse : List Bytes → Result Bytes (Bool × Command)
parse args = value (false, dump_command dump_flags)

run_unopened_example :
    let ended = run host in_time none parse (str "dump" ∷ str "cert.pem" ∷ []) terminal 0 in
    (ended.0 ≡ exits 0)
    × (ended.1.errors
        ≡ (print_warning host
            (str "warning: no certificates found in input\n")
            (new_session 0)).errors)
unfolding input_files
run_unopened_example =
    run_unopened host in_time none parse (str "dump" ∷ str "cert.pem" ∷ []) terminal 0
      {verbose = false} {flags = dump_flags} refl refl

main-IsDocumented_example :
    IsDocumented host
      (FailsToAnswer (λ prompt. error (str "no terminal")))
      (asks (parse (str "dump" ∷ [])))
      (main host in_time none parse
        (λ prompt. error (str "no terminal"))
        true
        (value 72)
        (str "certigo" ∷ str "dump" ∷ [])
        0)
main-IsDocumented_example =
    main-IsDocumented host in_time none parse (λ prompt. error (str "no terminal")) true (value 72)
      (str "certigo" ∷ str "dump" ∷ []) 0
