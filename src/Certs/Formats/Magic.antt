-- ===== src/Certs/Formats/Magic.antt =====
-- lib/certs.go: what `formatForFile` makes of the first bytes of an input.
