-- ===== src/Wire.antt =====
-- What the backend sends to other services: the requests of backend/src/doda/infrastructure/
-- telegram_client.py.
use doda.Base.{String}

-- A POST of `sendMessage`. The token stands in the URL.
pub record Post : Type 0 where
  pub bot_token : String
  pub chat_id : String
  pub text : String
