-- ===== src/Store/Service.antt =====
-- What the services take from Python's standard library and from the drivers.
use coffee_cloud_mvp.Base.{ℕ, Bool, String, Json, Option, Decimal}

-- `uuid n` is the n-th value of `uuid.uuid4()`; nothing is assumed of the stream.
pub record Host : Type 0 where
  pub uuid : ℕ → ℕ
  pub serial : ℕ → ℕ  -- what a serial column draws
  pub uuid_text : ℕ → String  -- `str(uuid)`
  pub refund_no : ℕ → String  -- `uuid.hex[:24].upper()`
  pub digest : Json → String  -- `canonical_digest`: SHA-256 of the canonical JSON text
  pub iso : ℕ → String  -- `isoformat()` of a time, with "Z" for the offset
  pub strip : String → String  -- `str.strip()`
  pub decimal : String → Option Decimal  -- `Decimal(text)`, `none` for `InvalidOperation`
  pub starts_with : String → String → Bool  -- `text.startswith(prefix)`, the prefix first
  pub json_text : Json → String  -- the text that `->>` gives for a JSON value that is no text
  pub column_text : Json → Option String  -- a value for a text column, `none` where psycopg fails
  pub clip : ℕ → String → String  -- `text[:n]`
