-- ===== src/Starttls/Address.antt =====
-- starttls/starttls.go: `withDefaultPort`, the server name and key files of `tlsConfigForConnect`, and
-- the URL of the postgres branch of `GetConnectionState`.
pub mod Ports
use certigo.Base.{
  is_empty, ℕ, List, [], ◌∷◌, ◌++◌, Option, none, some, Bool, true, false, ◌&&◌, ◌||◌, Bytes, str,
  bytes_eq, Result, value, error, not, ◌==◌, if◌then◌else◌,
}
use certigo.Base.Digits.{decimal}
use certigo.X509.{version_ssl30}

-- `strings.HasPrefix(addr, "[")` and `strings.HasSuffix(addr, "]")`, for one byte.
abbrev pub starts_with_byte : ℕ → Bytes → Bool
starts_with_byte c [] = false
starts_with_byte c (b ∷ bs) = b == c

unfoldable pub ends_with_byte : ℕ → Bytes → Bool
ends_with_byte c [] = false
ends_with_byte c (b ∷ []) = b == c
ends_with_byte c (b ∷ d ∷ bs) = ends_with_byte c (d ∷ bs)

unfoldable pub contains_byte : ℕ → Bytes → Bool
contains_byte c [] = false
contains_byte c (b ∷ bs) = b == c || contains_byte c bs

-- `net.JoinHostPort`: a host with a colon goes into brackets.
unfoldable pub join_host_port : Bytes → Bytes → Bytes
join_host_port host port =
    if contains_byte b':' host then b'[' ∷ (host ++ b']' ∷ b':' ∷ port) else host ++ b':' ∷ port

unfoldable pub with_default_port : Bytes → ℕ → Bytes
with_default_port addr port_n =
    let port = decimal port_n in
    if starts_with_byte b'[' addr && ends_with_byte b']' addr
    then join_host_port addr port
    else if contains_byte b':' addr
    then addr
    else join_host_port addr port

-- `strings.Split(text, ":")[0]`
unfoldable pub before_colon : Bytes → Bytes
before_colon [] = []
before_colon (b ∷ bs) = if b == b':' then [] else b ∷ before_colon bs

unfoldable pub server_name : Bytes → Bytes → Bytes
server_name connect_name connect_to =
    if not (is_empty connect_name) then connect_name else before_colon connect_to

-- `tls.Config`, with the fields that are set.
pub record TlsConfig (KeyPair : Type 0) : Type 0 where
  pub insecure_skip_verify : Bool
  pub server_name : Bytes
  pub min_version : ℕ
  pub certificates : Option KeyPair

-- `tls.LoadX509KeyPair` is the parameter `load_key_pair`, of the two file names.
module _ {KeyPair : Type 0} (load_key_pair : Bytes → Bytes → Result Bytes KeyPair) where
  abbrev with_key_pair : TlsConfig KeyPair → Result Bytes KeyPair → Result Bytes (TlsConfig KeyPair)
  with_key_pair conf (error message) =
      error (str "unable to read client certificate/key: " ++ message)
  with_key_pair conf (value cert) = value (record conf { certificates = some cert })

  unfoldable pub tls_config_for_connect :
      Bytes → Bytes → Bytes → Bytes → Result Bytes (TlsConfig KeyPair)
  tls_config_for_connect connect_name connect_to client_cert client_key =
      let conf : TlsConfig KeyPair = record {
        insecure_skip_verify = true;
        server_name = server_name connect_name connect_to;
        min_version = version_ssl30;
        certificates = none;
      } in
      if not (is_empty client_cert)
      then with_key_pair conf (
          load_key_pair client_cert (if not (is_empty client_key) then client_key else client_cert))
      else value conf

-- The URL for `pq.DumpTLS`, from the address with its port and the timeout in seconds.
unfoldable pub postgres_url : Bytes → Bytes → ℕ → Bytes → Bytes → Bytes
postgres_url identity addr seconds client_cert client_key =
    str "postgres://"
    ++ (identity
        ++ (str "@"
            ++ (addr
                ++ (str "/?sslmode=require&connect_timeout="
                    ++ (decimal seconds
                        ++ ((if not (is_empty client_cert)
                              then str "&sslcert=" ++ client_cert
                              else [])
                            ++ (if not (is_empty client_key)
                                then str "&sslkey=" ++ client_cert
                                else [])))))))
