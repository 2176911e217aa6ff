-- ===== src/Jceks/Pbe.antt =====
-- jceks/pbe.go: `recoverPBEWithMD5AndDES3CBC`.
pub mod Derivation
use certigo.Base.{
  ℕ, zero, suc, ◌+◌, ◌-◌, ◌*◌, ◌/◌, ◌%◌, [], ◌∷◌, ◌++◌, Bytes, map, length, take, drop, replicate,
  Result, value, error, bytes_eq, not, ◌==◌, if◌then◌else◌,
}
use certigo.Base.Int.{pos_part}
use certigo.Jceks.Types.{Error, salt_length, block_length, library}
use certigo.Jceks.Crypto.{AlgorithmIdentifier, Crypto}

-- `password[i] & 0x7f`
abbrev pub to_seven_bits : Bytes → Bytes
to_seven_bits = map (λ b. b % 128)

abbrev pub byte_at : Bytes → ℕ → ℕ
byte_at [] i = 0
byte_at (b ∷ bs) zero = b
byte_at (b ∷ bs) (suc i) = byte_at bs i

abbrev pub set_byte : Bytes → ℕ → ℕ → Bytes
set_byte [] i v = []
set_byte (b ∷ bs) zero v = v ∷ bs
set_byte (b ∷ bs) (suc i) v = b ∷ set_byte bs i v

-- `salt[i], salt[3-i] = salt[3-i], salt[i]`
abbrev pub swap_bytes : ℕ → Bytes → Bytes
swap_bytes i salt = set_byte (set_byte salt i (byte_at salt (3 - i))) (3 - i) (byte_at salt i)

-- Equal halves: the first one is turned round.
unfoldable pub adjust_salt : Bytes → Bytes
adjust_salt salt =
    if bytes_eq (take 4 salt) (drop 4 salt) then swap_bytes 1 (swap_bytes 0 salt) else salt

-- `copy(dst[offset:], src)`: as much as fits.
unfoldable pub copy_at : ℕ → Bytes → Bytes → Bytes
copy_at offset src dst =
    take offset dst ++ (take (length dst - offset) src ++ drop (offset + length src) dst)

abbrev pub key_len : ℕ
key_len = 24

abbrev pub block_size : ℕ
block_size = 8

module _ (C : Crypto) where
  open C use {unmarshal_pbe, md5, new_triple_des, decrypt}

  -- The loop over `j`.
  unfoldable pub digest_rounds : ℕ → Bytes → Bytes → Bytes
  digest_rounds zero passwd to_be_hashed = to_be_hashed
  digest_rounds (suc n) passwd to_be_hashed = digest_rounds n passwd (md5 (to_be_hashed ++ passwd))

  -- One round of the loop over `i`.
  unfoldable pub derive_half : ℕ → Bytes → Bytes → ℕ → Bytes → Bytes
  derive_half iterations passwd salt i derived_key =
      let n = length salt / 2 in
      let digest = digest_rounds iterations passwd (take n (drop (i * n) salt)) in
      copy_at (i * length digest) digest derived_key

  unfoldable pub derive_key : ℕ → Bytes → Bytes → Bytes
  derive_key iterations passwd salt =
      derive_half iterations passwd salt 1
        (derive_half iterations passwd salt 0 (replicate (key_len + block_size) 0))

  unfoldable pub decrypt_with : Bytes → Bytes → Result Error Bytes
  decrypt_with derived_key encrypted_key = elim (new_triple_des (take key_len derived_key)) [
    | error message ↦ error (library message)
    | value des3 ↦
        if not (length encrypted_key % block_size == 0)
        then error (block_length (length encrypted_key) block_size)
        else value (decrypt des3 (drop key_len derived_key) encrypted_key)
  ]

  unfoldable pub recover_pbe : AlgorithmIdentifier → Bytes → Bytes → Result Error Bytes
  unfolding decrypt_with
  recover_pbe algo encrypted_key password = elim (unmarshal_pbe algo.parameters) [
    | error message ↦ error (library message)
    | value params ↦
        if not (length params.salt == 8)
        then error (salt_length (length params.salt))
        else decrypt_with
            (derive_key (pos_part params.iterations) (to_seven_bits password)
              (adjust_salt params.salt))
            encrypted_key
  ]
