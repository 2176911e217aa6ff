-- ===== src/Starttls/Drivers.antt =====
-- starttls/starttls.go: the network in which the databases are asked by the drivers of starttls/mysql and
-- starttls/psql.
use certigo.Starttls.Address.{TlsConfig}
use certigo.Starttls.Connect.{Network}
use certigo.Starttls.Mysql
use certigo.Starttls.Psql

abbrev pub with_drivers : (N : Network) → Mysql.Driver (TlsConfig N.KeyPair) → Psql.Driver → Network
with_drivers N my pg = record N { mysql_dump = Mysql.dump_tls my; postgres_dump = Psql.dump_tls pg }
