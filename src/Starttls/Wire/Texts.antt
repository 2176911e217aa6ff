-- ===== src/Starttls/Wire/Texts.antt =====
-- starttls/ftp.go and starttls/imap.go: the texts of their errors. `strconv.Quote` is a parameter.
use certigo.Base.{◌++◌, Bytes, str, Outcome, ok, err, panic}
use certigo.Base.Digits.{decimal}
use certigo.Certs.Texts.{int_text}
use certigo.Starttls.Wire.{
  Error, eof, status_too_short, bad_number, ftp_status, imap_status, library,
}

module _ (quote : Bytes → Bytes) where
  unfoldable pub error_text : Error → Bytes
  error_text eof = str "EOF"
  error_text (status_too_short response) =
      str "Error parsing ftp protocol: Status code too short: '" ++ (response ++ str "'")
  error_text (bad_number digits) =
      str "strconv.Atoi: parsing " ++ (quote digits ++ str ": invalid syntax")
  error_text (ftp_status status expected) =
      str "FTP server responded with status "
      ++ (int_text status ++ (str ", was expecting " ++ decimal expected))
  error_text (imap_status status) =
      str "IMAP server responded with " ++ (status ++ str ", was expecting OK")
  error_text (library message) = message

  abbrev pub talk_error : {A : Type 0} → Outcome Error A → Outcome Bytes A
  talk_error (ok a) = ok a
  talk_error (err e) = err (error_text e)
  talk_error panic = panic
