-- ===== src/Hashing.antt =====
-- backend/src/doda/application/hashing.py
use doda.Base.{String}
use doda.Env.{Env}
use doda.Json.{Json}

unfoldable pub canonical_json : Env → Json → String
canonical_json e value = e.dumps value

unfoldable pub hash_payload : Env → Json → String
unfolding canonical_json
hash_payload e value = e.sha256_hex (canonical_json e value)
