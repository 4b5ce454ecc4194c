-- ===== src/Logs/Search.antt =====
-- The search in the stored logs: `normalize_log_search`, `log_search_pattern` and the queries of
-- `recent` and `near` of server/app/logs/service.py, with times that have been parsed.
use Prim.Native.Char.{code}
use skybeat.Base.{
  ℕ, ◌+◌, ◌-◌, String, Bool, true, false, not, ◌&&◌, ◌||◌, List, [], ◌∷◌, Option, none, some, leb,
  ltb, ◌==◌, str_eq, str_append, if◌then◌else◌, find?, select, take, length, map, any,
}
use skybeat.Base.Order.{sort}
use skybeat.Store.{Db, Env, Result, ok, value_error, not_found, ◌>>=◌, require, ensure}
use skybeat.Store.Rows.{Time, Device, DeviceLogEntry, DeviceLogSource}
use skybeat.Devices.Credentials.{text_length}
use skybeat.Logs.Cursor.{
  Codec, LogFilter, is_basis, is_occurred, encode_log_cursor, decode_log_cursor,
}
use skybeat.Logs.Service.{is_later, is_source}

-- `text.split()` and `message.ilike(pattern, escape="/")`.
pub record TextSearch : Type 0 where
  pub split : String → List String
  pub ilike : String → String → Bool

-- A control character, in ASCII or in Latin-1.
unfoldable pub has_control_code : String → Bool
has_control_code String.[] = false
has_control_code (String.◌∷◌ c s) =
    let rest = has_control_code s in
    if ltb (code c) 32 || (leb 127 (code c) && leb (code c) 159) then true else rest

-- `" ".join(words)`.
unfoldable pub join_words : List String → String
join_words [] = ""
join_words (w ∷ []) = w
join_words (w ∷ v ∷ ws) = str_append w (str_append " " (join_words (v ∷ ws)))

unfoldable pub normalize_log_search : TextSearch → Option String → Result (Option String)
unfolding has_control_code join_words text_length
normalize_log_search search none = ok none
normalize_log_search search (some value) = ensure value_error (leb (text_length value) 128) (
    ensure value_error (not (has_control_code value)) (
      let normalized = join_words (search.split value) in
      ok (if str_eq normalized "" then none else some normalized)))

-- The three replacements, of which none meets the characters that an earlier one put there.
unfoldable pub escaped : String → String
escaped String.[] = ""
escaped (String.◌∷◌ c s) =
    let rest = escaped s in
    if code c == b'/'
    then str_append "//" rest
    else if code c == b'%'
    then str_append "/%" rest
    else if code c == b'_'
    then str_append "/_" rest
    else String.◌∷◌ c rest

unfoldable pub log_search_pattern : String → String
unfolding escaped
log_search_pattern value = str_append "%" (str_append (escaped value) "%")

abbrev pub log_sources : List String
log_sources = "skybeat_agent" ∷ "system_journal" ∷ "kernel" ∷ []

-- `start > end`, where both are given.
abbrev pub is_reversed : Option Time → Option Time → Bool
is_reversed (some start) (some end) = ltb end start
is_reversed _ _ = false

-- The time that the query compares: none leaves the row out where a bound is given.
abbrev pub time_column : LogFilter → DeviceLogEntry → Option Time
time_column f e = if is_occurred f then e.occurred_at else some e.received_at

abbrev pub at_least : Option Time → Option Time → Bool
at_least none t = true
at_least (some bound) none = false
at_least (some bound) (some t) = leb bound t

abbrev pub at_most : Option Time → Option Time → Bool
at_most none t = true
at_most (some bound) none = false
at_most (some bound) (some t) = leb t bound

abbrev pub is_newest_first : LogFilter → Bool
is_newest_first f = str_eq f.direction "newest"

-- `WHERE` of the query of `recent`.
unfoldable pub matches : TextSearch → LogFilter → ℕ → Option ℕ → DeviceLogEntry → Bool
unfolding log_search_pattern
matches search f device_id last_id e =
    e.device_id == device_id
    && (not (is_occurred f) || elim e.occurred_at [ none ↦ false | some _ ↦ true ])
    && elim f.source [ none ↦ true | some source ↦ str_eq e.source source ]
    && at_least f.from_time (time_column f e)
    && at_most f.until (time_column f e)
    && elim f.q [ none ↦ true | some q ↦ search.ilike e.message (log_search_pattern q) ]
    && elim last_id [
      | none ↦ true
      | some last ↦ if is_newest_first f then ltb e.id last else ltb last e.id
    ]

abbrev pub is_earlier : DeviceLogEntry → DeviceLogEntry → Bool
is_earlier a b = ltb a.id b.id

-- The rows of the query: those of the page, and one more if there is one.
unfoldable pub page_rows : TextSearch → LogFilter → ℕ → Option ℕ → ℕ → Db → List DeviceLogEntry
unfolding matches sort
page_rows search f device_id last_id limit db = take (limit + 1) (
    sort (if is_newest_first f then is_later else is_earlier)
      (select (matches search f device_id last_id) db.log_entries))

unfoldable pub last_of : List DeviceLogEntry → Option DeviceLogEntry
last_of [] = none
last_of (e ∷ []) = some e
last_of (e ∷ d ∷ es) = last_of (d ∷ es)

-- `next_cursor`.
unfoldable pub next_cursor : Codec → LogFilter → ℕ → List DeviceLogEntry → Result (Option String)
unfolding encode_log_cursor last_of
next_cursor codec f limit rows =
    if ltb limit (length rows)
    then (do
      last ← require value_error (last_of (take limit rows))
      cursor ← encode_log_cursor codec last.id f
      ok (some cursor))
    else ok none

-- The state of a source: its row, if it has one.
abbrev pub source_state : ℕ → Db → String → String × Option DeviceLogSource
source_state device_id db name = (name, find? (is_source device_id name) db.log_sources)

pub record LogPage : Type 0 where
  pub next_cursor : Option String
  pub sources : List (String × Option DeviceLogSource)
  pub items : List DeviceLogEntry

-- The device of a text that is a UUID in its canonical form.
unfoldable pub device_of : Env → String → Db → Result Device
device_of env device_uuid db = do
  canonical ← require not_found (env.parse_uuid device_uuid)
  ensure not_found (str_eq canonical device_uuid)
      (require not_found (find? (λ (d : Device). str_eq d.device_uuid canonical) db.devices))

unfoldable pub decode_optional : Codec → LogFilter → Option String → Result (Option ℕ)
unfolding decode_log_cursor
decode_optional codec f none = ok none
decode_optional codec f (some cursor) = do last ← decode_log_cursor codec cursor f; ok (some last)

-- `recent` for a query whose search is as it was given.
unfoldable pub recent :
    Env → Codec → TextSearch → LogFilter → ℕ → Option String → Db → Result LogPage
unfolding normalize_log_search decode_optional device_of page_rows next_cursor
recent env codec search given limit cursor db =
    ensure value_error
      (elim given.source [ none ↦ true | some source ↦ any (str_eq source) log_sources ])
      (ensure value_error (leb 1 limit && leb limit 100) (
        ensure value_error (str_eq given.direction "newest" || str_eq given.direction "oldest") (
          ensure value_error (is_basis given) (
            ensure value_error (not (is_reversed given.from_time given.until)) (do
              q ← normalize_log_search search given.q
              let f : LogFilter = record given { q = q } in
                  do
                    canonical ← require not_found (env.parse_uuid f.device_uuid)
                    ensure not_found (str_eq canonical f.device_uuid) (do
                      last_id ← decode_optional codec f cursor
                      device ← device_of env f.device_uuid db
                      let rows = page_rows search f device.id last_id limit db in
                          do
                            following ← next_cursor codec f limit rows
                            ok (record {
                              next_cursor = following;
                              sources = map (source_state device.id db) log_sources;
                              items = take limit rows;
                            })))))))

-- `abs(timestampdiff(MICROSECOND, anchor, t))`.
abbrev pub distance : Time → Time → ℕ
distance anchor t = (anchor - t) + (t - anchor)

abbrev pub occurred : DeviceLogEntry → Time
occurred e = elim e.occurred_at [ none ↦ 0 | some t ↦ t ]

abbrev pub is_nearer : Time → DeviceLogEntry → DeviceLogEntry → Bool
is_nearer anchor a b =
    ltb (distance anchor (occurred a)) (distance anchor (occurred b))
    || (distance anchor (occurred a) == distance anchor (occurred b)
        && (ltb (occurred a) (occurred b) || (occurred a == occurred b && ltb a.id b.id)))

-- `near`, with whether the rows were cut off.
unfoldable pub near :
    Env → String → Time → Time → Time → ℕ → Db → Result (List DeviceLogEntry × Bool)
unfolding device_of sort
near env device_uuid anchor start end limit db =
    ensure value_error (leb 1 limit && leb limit 50 && leb start anchor && leb anchor end) (do
      device ← device_of env device_uuid db
      let rows = take (limit + 1) (
            sort (is_nearer anchor) (
              select
                (λ (e : DeviceLogEntry).
                  e.device_id == device.id
                  && at_least (some start) e.occurred_at
                  && at_most (some end) e.occurred_at)
                db.log_entries)) in
          ok (take limit rows, ltb limit (length rows)))
