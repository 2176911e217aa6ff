-- ===== src/Encoder/Json.antt =====
-- lib/encoder.go: the JSON of usages and algorithms, by `json.Marshal` of their texts.
use certigo.Base.{ℕ, List, Bytes, Result}
use certigo.Encoder.{key_usage, ext_key_usage, alg_string}

module _ (json_text : Bytes → Result Bytes Bytes)
    (json_texts : List Bytes → Result Bytes Bytes) where
  abbrev key_usage_json : ℕ → Result Bytes Bytes
  key_usage_json usage = json_texts (key_usage usage)

  abbrev ext_key_usage_json : ℕ → Result Bytes Bytes
  ext_key_usage_json usage = json_text (ext_key_usage usage)

  abbrev sig_alg_json : ℕ → Result Bytes Bytes
  sig_alg_json algorithm = json_text (alg_string algorithm)
