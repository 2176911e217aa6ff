-- ===== src/Starttls/Wire/Panics.antt =====
-- starttls/ftp.go: the conversation panics on no input, the assertion in front of it on some dialers.
use certigo.Base.{◌≢◌, panic}
use certigo.Starttls.Wire.{Conn, Talk}

record NeverPanics {A : Type 0} (m : Talk A) : Type 0 where
  calm : (c : Conn) → (m c).0 ≢ panic
