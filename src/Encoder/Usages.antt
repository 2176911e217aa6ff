-- ===== src/Encoder/Usages.antt =====
-- lib/encoder.go: the names of a key usage tell the set.
use certigo.Base.{
  ℕ, ◌+◌, ◌*◌, ◌/◌, ◌%◌, List, [], ◌∷◌, ◌≡◌, refl, ◌∙◌, Bytes, bytes_eq, if◌then◌else◌, arith, All,
  Bool-cases, inl, inr,
}
use certigo.Encoder.{
  lookup_code, key_usage_strings, key_usages, has_flag, key_usage_loop, key_usage, text_or_empty,
}

-- The number of a name, by a search of the table.
unfoldable number_of : Bytes → List (ℕ × Bytes) → ℕ
number_of name [] = 0
number_of name ((n, text) ∷ table) = if bytes_eq name text then n else number_of name table

-- The set that a list of names stands for.
unfoldable pub usage_of : List Bytes → ℕ
unfolding number_of
usage_of [] = 0
usage_of (name ∷ names) = number_of name key_usage_strings + usage_of names

-- The flags of a set among some, added up.
flags_sum : List ℕ → ℕ → ℕ
flags_sum [] ku = 0
flags_sum (key ∷ keys) ku = ku / key % 2 * key + flags_sum keys ku

-- The table gives the key a name, and the name tells the key.
abbrev IsNamed : ℕ → Type 0
IsNamed key = number_of (text_or_empty (lookup_code key key_usage_strings)) key_usage_strings ≡ key

usage_of-key_usage_loop :
    (ku : ℕ) (keys : List ℕ)
    → All IsNamed keys
    → usage_of (key_usage_loop keys ku) ≡ flags_sum keys ku
unfolding key_usage_loop usage_of flags_sum
usage_of-key_usage_loop ku [] h = refl
usage_of-key_usage_loop ku (key ∷ keys) (named, h) = elim (Bool-cases (has_flag key ku)) [
  | inl set ↦ rw (set, named) (ground (arith, usage_of-key_usage_loop ku keys h, set))
  | inr unset ↦ rw unset (ground (arith, usage_of-key_usage_loop ku keys h, unset))
]

flags_sum_all : (ku : ℕ) → flags_sum key_usages ku ≡ ku % 512
unfolding flags_sum
flags_sum_all ku = omega arith

-- The flags of a set below 2 ^ 9 are read back from the names that are shown for it, which tell no
-- other flag.
pub usage_of-key_usage : (ku : ℕ) → usage_of (key_usage ku) ≡ ku % 512
unfolding key_usage number_of lookup_code bytes_eq
usage_of-key_usage ku =
    usage_of-key_usage_loop ku key_usages
      (refl, (refl, (refl, (refl, (refl, (refl, (refl, (refl, (refl, tt)))))))))
    ∙ flags_sum_all ku
