-- ===== src/Jceks/Strings.antt =====
-- jceks/jceks.go: the texts of the entries and of the key store. `time_text` is that of a time, and
-- `visit` the order in which Go visits the map.
use certigo.Base.{[], ◌∷◌, ◌++◌, Bytes, str}
use certigo.Base.Dict.{Dict}
use certigo.Jceks.Types.{Date, Entry, private_key, trusted_cert, KeyStore}

module _ (time_text : Date → Bytes) where
  abbrev private_key_string : Date → Bytes
  private_key_string date = str "private-key: " ++ time_text date

  abbrev trusted_cert_string : Date → Bytes
  trusted_cert_string date = str "trusted-cert: " ++ time_text date

module _ (time_text : Date → Bytes) {Cert : Type 0} where
  abbrev entry_string : Entry Cert → Bytes
  entry_string (private_key date _ _) = private_key_string time_text date
  entry_string (trusted_cert date _) = trusted_cert_string time_text date

  unfoldable pub entries_string : Dict (Entry Cert) → Bytes
  entries_string [] = []
  entries_string ((k, v) ∷ entries) =
      k ++ (str "\n  " ++ (entry_string v ++ (str "\n" ++ entries_string entries)))

  unfoldable pub key_store_string : (Dict (Entry Cert) → Dict (Entry Cert)) → KeyStore Cert → Bytes
  unfolding entries_string
  key_store_string visit ks = entries_string (visit ks.entries)
