-- ===== src/Env.antt =====
-- What the program takes from outside: the clock, random ids and tokens, and the functions of
-- Python's standard library whose text is not in the repository.
use Prim.Native.String.{◌++◌ as str_append}
use doda.Base.{ℕ, String, Option}
use doda.Json.{Json}

pub record Env : Type 0 where
  -- The n-th reading of `datetime.now(UTC)`, in microseconds.
  pub clock : ℕ → ℕ
  -- The n-th `uuid.uuid4()`, as a number.
  pub uuid4 : ℕ → ℕ
  -- The n-th `secrets.token_urlsafe(32)`.
  pub token_urlsafe : ℕ → String
  -- `str(uuid)`
  pub str_uuid : ℕ → String
  -- `datetime.isoformat()`
  pub isoformat : ℕ → String
  -- `datetime.strftime("%Y-%m")`
  pub year_month : ℕ → String
  -- `json.dumps(value, sort_keys=True, separators=(",", ":"), default=str)`
  pub dumps : Json → String
  -- `uuid.UUID(text.strip())`, or `none` where that raises a ValueError
  pub parse_uuid : String → Option ℕ
  -- `hashlib.sha256(text.encode("utf-8")).hexdigest()`
  pub sha256_hex : String → String

-- `f"user:{user_id}"`
unfoldable pub user_actor : Env → ℕ → String
user_actor e user_id = str_append "user:" (e.str_uuid user_id)
