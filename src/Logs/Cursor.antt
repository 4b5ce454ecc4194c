-- ===== src/Logs/Cursor.antt =====
-- `encode_log_cursor` and `decode_log_cursor` of server/app/logs/service.py.
pub mod RoundTrip
use skybeat.Base.{
  ℕ, ◌-◌, ◌^◌, String, Bool, true, false, not, ◌&&◌, ◌||◌, List, [], ◌∷◌, ◌++◌, Option, none, some,
  leb, ◌==◌, str_eq, if◌then◌else◌, is_some, any, map,
}
use skybeat.Store.{Result, ok, raise, value_error, ◌>>=◌, require, ensure}
use skybeat.Store.Rows.{Time}
use skybeat.Devices.Credentials.{text_length}

-- A value of JSON as Python reads it: `whole` is a float without a fraction, `other` a list, an
-- object, a negative number or a fraction.
pub data JsonValue : Type 0 where
  null other : JsonValue
  boolean : Bool → JsonValue
  integer : ℕ → JsonValue
  whole : ℕ → JsonValue
  text : String → JsonValue

abbrev pub Fields : Type 0
Fields = List (String × JsonValue)

-- What the cursors take from the libraries: `json.dumps` of an object whose keys are sorted, as
-- URL-safe base64 without its padding; the way back, with none for the exceptions of decoding, and an
-- empty value for what is no object; and `isoformat(timespec="microseconds")`.
pub record Codec : Type 0 where
  pub dumps : Fields → String
  pub loads : String → Option (Option Fields)
  pub isoformat : Time → String

-- What a cursor is bound to.
pub record LogFilter : Type 0 where
  pub device_uuid : String
  pub source : Option String
  pub from_time : Option Time
  pub until : Option Time
  pub direction : String
  pub q : Option String
  pub time_basis : String

abbrev pub is_occurred : LogFilter → Bool
is_occurred f = str_eq f.time_basis "occurred"

-- `time_basis in {"received", "occurred"}`.
abbrev pub is_basis : LogFilter → Bool
is_basis f = str_eq f.time_basis "received" || is_occurred f

abbrev pub cursor_version : LogFilter → ℕ
cursor_version f = if is_occurred f then 3 else if is_some f.q then 2 else 1

abbrev pub optional_text : Option String → JsonValue
optional_text none = null
optional_text (some t) = text t

-- `_cursor_time`.
abbrev pub cursor_time : Codec → Option Time → JsonValue
cursor_time codec none = null
cursor_time codec (some t) = text (codec.isoformat t)

abbrev pub q_field : LogFilter → Fields
q_field f = elim f.q [ none ↦ [] | some q ↦ ("q", text q) ∷ [] ]

abbrev pub basis_field : LogFilter → Fields
basis_field f = if is_occurred f then ("time_basis", text f.time_basis) ∷ [] else []

-- The payload, its keys sorted.
unfoldable pub payload : Codec → ℕ → LogFilter → Fields
payload codec last_id f =
    ("device", text f.device_uuid)
      ∷ ("direction", text f.direction)
      ∷ ("from", cursor_time codec f.from_time)
      ∷ ("id", integer last_id)
      ∷ q_field f
    ++ (("source", optional_text f.source) ∷ basis_field f
        ++ (("until", cursor_time codec f.until) ∷ ("v", integer (cursor_version f)) ∷ []))

unfoldable pub encode_log_cursor : Codec → ℕ → LogFilter → Result String
unfolding payload
encode_log_cursor codec last_id f =
    ensure value_error (is_basis f) (ok (codec.dumps (payload codec last_id f)))

unfoldable pub field : String → Fields → Option JsonValue
field key [] = none
field key (p ∷ ps) = if str_eq p.0 key then some p.1 else field key ps

abbrev pub expected_keys : LogFilter → List String
expected_keys f =
    "v" ∷ "id" ∷ "device" ∷ "source" ∷ "from" ∷ "until" ∷ "direction" ∷ []
    ++ (if is_some f.q then "q" ∷ [] else [])
    ++ (if is_occurred f then "time_basis" ∷ [] else [])

unfoldable pub all_in : List String → List String → Bool
unfolding any
all_in [] ys = true
all_in (x ∷ xs) ys = any (str_eq x) ys && all_in xs ys

-- `set(payload) == expected`.
abbrev pub same_keys : List String → List String → Bool
same_keys xs ys = all_in xs ys && all_in ys xs

-- `==` with a number, by which `True` is 1.
abbrev pub is_number : ℕ → JsonValue → Bool
is_number n (integer m) = m == n
is_number n (whole m) = m == n
is_number n (boolean true) = n == 1
is_number n (boolean false) = n == 0
is_number n _ = false

-- `==` with a text or `None`.
abbrev pub same_value : JsonValue → JsonValue → Bool
same_value null null = true
same_value (text a) (text b) = str_eq a b
same_value _ _ = false

abbrev pub holds : (JsonValue → Bool) → Option JsonValue → Bool
holds test none = false
holds test (some v) = test v

-- An `int` between 1 and 2^64 - 1.
abbrev pub is_row_id : JsonValue → Bool
is_row_id (integer n) = leb 1 n && leb n (2 ^ 64 - 1)
is_row_id _ = false

abbrev pub row_id : Option JsonValue → Option ℕ
row_id (some (integer n)) = some n
row_id _ = none

-- The tests of `decode_log_cursor` on the object.
unfoldable pub belongs : Codec → LogFilter → Fields → Bool
unfolding field all_in
belongs codec f p =
    same_keys (map (λ (x : String × JsonValue). x.0) p) (expected_keys f)
    && holds (is_number (cursor_version f)) (field "v" p)
    && holds is_row_id (field "id" p)
    && holds (same_value (text f.device_uuid)) (field "device" p)
    && holds (same_value (optional_text f.source)) (field "source" p)
    && holds (same_value (cursor_time codec f.from_time)) (field "from" p)
    && holds (same_value (cursor_time codec f.until)) (field "until" p)
    && holds (same_value (text f.direction)) (field "direction" p)
    && elim f.q [ none ↦ true | some q ↦ holds (same_value (text q)) (field "q" p) ]
    && (not (is_occurred f) || holds (same_value (text f.time_basis)) (field "time_basis" p))

unfoldable pub decode_log_cursor : Codec → String → LogFilter → Result ℕ
unfolding belongs
decode_log_cursor codec value f =
    ensure value_error (is_basis f && not (str_eq value "") && leb (text_length value) 2048) (do
      loaded ← require value_error (codec.loads value)
      p ← require value_error loaded
      ensure value_error (belongs codec f p) (require value_error (row_id (field "id" p))))
