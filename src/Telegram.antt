-- ===== src/Telegram.antt =====
-- backend/src/doda/infrastructure/telegram_client.py: `send_message`.
use doda.Base.{ℕ, String, Bool, true, not, ◌&&◌, ◌||◌, Option, none, some, ltb, leb, ◌==◌}
use doda.Base.Table.{insert, length}
use doda.Json.{Json, object, Fields, get, truthy}
use doda.Wire.{Post}
use doda.Db.{
  M, ok, attribute_error, key_error, type_error, telegram_send_error, telegram_transient_error,
  ◌>>=◌, ◌>>◌, pure, raise, raise_if, some_or_raise,
}

-- What becomes of a POST. `http_error` is any `httpx.HTTPError` but the three before it; a response
-- has its status code, and its body unless that is not JSON.
pub data Reply : Type 0 where
  connect_error connect_timeout pool_timeout http_error : Reply
  response : ℕ → Option Json → Reply

-- Telegram's answers: the one to the n-th request.
abbrev pub Replies : Type 0
Replies = ℕ → Reply

-- `http_client.post`
abbrev pub post : Replies → Post → M Reply
post replies p e s = (ok (replies (length s.posts)), record s { posts = insert p s.posts })

-- `value.get(…)`, which only an object has.
abbrev pub fields_of : Json → M Fields
fields_of (object fields) = pure fields
fields_of _ = raise attribute_error

-- `value[name]`
abbrev pub item_of : Json → String → M Json
item_of (object fields) name = some_or_raise (get fields name) key_error
item_of _ name = raise type_error

-- `not value`, where `value` may be missing.
abbrev pub is_falsy : Option Json → Bool
is_falsy none = true
is_falsy (some value) = not (truthy value)

abbrev pub is_success : ℕ → Bool
is_success status_code = leb 200 status_code && ltb status_code 300

-- `message_id` of the result, once the body is read.
unfoldable pub read_body : ℕ → Json → M Json
read_body status_code value = do
  fields ← fields_of value
  raise_if (not (is_success status_code) || is_falsy (get fields "ok")) telegram_send_error
  result ← item_of value "result"
  item_of result "message_id"

unfoldable pub read_reply : Reply → M Json
read_reply connect_error = raise telegram_transient_error
read_reply connect_timeout = raise telegram_transient_error
read_reply pool_timeout = raise telegram_transient_error
read_reply http_error = raise telegram_send_error
read_reply (response status_code body) = do
  raise_if (status_code == 429) telegram_transient_error
  value ← some_or_raise body telegram_send_error
  read_body status_code value

unfoldable pub send_message : Replies → Post → M Json
unfolding read_reply
send_message replies p = do reply ← post replies p; read_reply reply
