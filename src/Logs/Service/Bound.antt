-- ===== src/Logs/Service/Bound.antt =====
-- How many log entries are stored.
use skybeat.Base.{
  ℕ, ◌+◌, ◌≤◌, ◌<◌, ◌≡◌, refl, sym, ◌∙◌, subst, String, Bool, true, false, not, ◌&&◌, List, [], ◌∷◌,
  ◌++◌, Option, none, some, ltb, ◌==◌, ==_iff, str_eq, eq_iff, arith, any, select, length, count,
  count-append, All, All-map, All-append, All-select, Bool-cases, inl, inr,
}
use skybeat.Base.Distinct.{Distinct, Distinct-select, Distinct-append_one}
use skybeat.Base.Order.{sort}
use skybeat.Base.Sorting.{row_at, count-sort, sort-Descending, count-row_at, length-row_at}
use skybeat.Store.{Db, Env, ok, rate_limited, log_timestamp_invalid, ensure}
use skybeat.Store.Rows.{Time, DeviceLogEntry}
use skybeat.Store.Yields.{Yields, kept, Yields-bind, Yields-ensure, Yields-of}
use skybeat.Devices.Credentials.{authenticate_token}
use skybeat.Logs.Service.{
  LogEntryUpload, LogUpload, LogReceipt, is_timely, log_row, insert_entry, add_entries, existing,
  is_entry_of, is_later, trim_entries, accept_upload, accept,
}

abbrev id_of : DeviceLogEntry → ℕ
id_of e = e.id

-- Ids are distinct and numbered below the counter, and each device has 500 entries at most of each
-- source.
pub record IsLogged (es : List DeviceLogEntry) (next : ℕ) : Type 0 where
  pub distinct : Distinct (λ (e : DeviceLogEntry). e.id) es
  pub below : All (λ (e : DeviceLogEntry). e.id < next) es
  pub few : (k : ℕ) (s : String) → count (is_entry_of k s) es ≤ 500

-- What the loop keeps: the entries of other devices and sources are as many as before.
record IsGrown (device_id : ℕ) (source : String) (before es : List DeviceLogEntry) (next : ℕ)
    : Type 0 where
  distinct : Distinct (λ (e : DeviceLogEntry). e.id) es
  below : All (λ (e : DeviceLogEntry). e.id < next) es
  others :
      (k : ℕ) (s : String)
      → (device_id == k && str_eq source s) ≡ false
      → count (is_entry_of k s) es ≡ count (is_entry_of k s) before

IsGrown-append :
    (device_id : ℕ) (source : String) (before es : List DeviceLogEntry) (next : ℕ)
    (row : DeviceLogEntry)
    → row.id ≡ next
    → row.device_id ≡ device_id
    → row.source ≡ source
    → IsGrown device_id source before es next
    → IsGrown device_id source before (es ++ row ∷ []) (next + 1)
unfolding count
IsGrown-append device_id source before es next row same_id same_device same_source h = record {
  distinct =
      Distinct-append_one id_of es row
        (subst (λ n. All (λ (e : DeviceLogEntry). e.id < n) es) (sym same_id) h.below) h.distinct;
  below =
      All-append (λ e. e.id < next + 1) es _
        (All-map (λ e. e.id < next) (λ e. e.id < next + 1) (λ e le. omega arith) es h.below)
        (omega (arith, same_id), tt);
  others = λ k s other.
      count-append (is_entry_of k s) es (row ∷ [])
      ∙ ground (
        arith,
        h.others k s other,
        subst (λ d. (d == k && str_eq row.source s) ≡ false) (sym same_device)
            (subst (λ t. (device_id == k && str_eq t s) ≡ false) (sym same_source) other),
      );
}

module _ (now : Time) (device_id : ℕ) (source : String) (before : List DeviceLogEntry) where
  abbrev Grown : Db → Type 0
  Grown db = IsGrown device_id source before db.log_entries db.next_log_entry

  add_entries-Grown :
      (es : List LogEntryUpload) (seen : List String) (db : Db)
      → Grown db
      → Yields (λ (r : List String × Db). Grown r.1) (add_entries now device_id source es seen db)
  unfolding add_entries
  add_entries-Grown [] seen db h = kept _ h
  add_entries-Grown (e ∷ es) seen db h =
      elim (any (str_eq e.entry_id) seen)
        as (λ b.
          Yields (λ (r : List String × Db). Grown r.1)
            (elim b [
              | true ↦ add_entries now device_id source es seen db
              | false ↦ ensure log_timestamp_invalid (is_timely now e.occurred_at) (
                  add_entries now device_id source es (seen ++ e.entry_id ∷ [])
                    (insert_entry now device_id source e db))
            ])) [
              | true ↦ add_entries-Grown es seen db h
              | false ↦ Yields-ensure _ log_timestamp_invalid (is_timely now e.occurred_at) _ (λ _.
                  add_entries-Grown es (seen ++ e.entry_id ∷ [])
                    (insert_entry now device_id source e db)
                    (IsGrown-append device_id source before db.log_entries db.next_log_entry
                      (log_row db.next_log_entry now device_id source e) refl refl refl h))
            ]

count-select-le : {A : Type 0} (p q : A → Bool) (xs : List A) → count p (select q xs) ≤ count p xs
unfolding count select
count-select-le p q [] = omega arith
count-select-le p q (x ∷ xs) = ground (arith, count-select-le p q xs)

count-select_same : {A : Type 0} (p : A → Bool) (xs : List A) → count p (select p xs) ≡ count p xs
unfolding count select
count-select_same p [] = refl
count-select_same p (x ∷ xs) = ground (arith, count-select_same p xs)

count-le_length : {A : Type 0} (p : A → Bool) (xs : List A) → count p xs ≤ length xs
unfolding count
count-le_length p [] = omega arith
count-le_length p (x ∷ xs) = ground (arith, count-le_length p xs)

count-trimmed :
    {A : Type 0} (p q : A → Bool) (xs : List A)
    → count p (select (λ x. not (p x && q x)) xs) ≡ count (λ x. not (q x)) (select p xs)
unfolding count select
count-trimmed p q [] = refl
count-trimmed p q (x ∷ xs) = ground (arith, count-trimmed p q xs)

-- What is left of a device and a source is at most the bound.
trim_entries-few :
    (device_id : ℕ) (source : String) (es : List DeviceLogEntry)
    → Distinct (λ (e : DeviceLogEntry). e.id) es
    → count (is_entry_of device_id source) (trim_entries device_id source es) ≤ 500
unfolding trim_entries
trim_entries-few device_id source es h = by_row (row_at 499 newest) refl
  where
    newest : List DeviceLogEntry
    newest = sort is_later (select (is_entry_of device_id source) es)

    by_row :
        (o : Option DeviceLogEntry)
        → row_at 499 newest ≡ o
        → count (is_entry_of device_id source) (elim o [
          | none ↦ es
          | some cutoff ↦
              select (λ x. not (is_entry_of device_id source x && ltb x.id cutoff.id)) es
        ])
          ≤ 500
    by_row none e = omega (
      arith,
      length-row_at 499 newest e,
      count-le_length (is_entry_of device_id source) newest,
      count-sort (is_entry_of device_id source) is_later (select (is_entry_of device_id source) es),
      count-select_same (is_entry_of device_id source) es,
    )
    by_row (some c) e = omega (
      arith,
      count-trimmed (is_entry_of device_id source) (λ x. ltb x.id c.id) es,
      count-sort (λ x. not (ltb x.id c.id)) is_later (select (is_entry_of device_id source) es),
      count-row_at id_of 499 newest
          (sort-Descending id_of (select (is_entry_of device_id source) es)
            (Distinct-select id_of (is_entry_of device_id source) es h))
          e,
    )

-- Trimming is a selection.
trim_entries-select :
    (device_id : ℕ) (source : String) (es : List DeviceLogEntry) (P : List DeviceLogEntry → Type 0)
    → P es
    → ((q : DeviceLogEntry → Bool) → P (select q es))
    → P (trim_entries device_id source es)
unfolding trim_entries
trim_entries-select device_id source es P all some_of =
    elim (row_at 499 (sort is_later (select (is_entry_of device_id source) es)))
      as (λ o. P (elim o [
        | none ↦ es
        | some cutoff ↦ select (λ x. not (is_entry_of device_id source x && ltb x.id cutoff.id)) es
      ])) [
        | none ↦ all
        | some cutoff ↦ some_of (λ x. not (is_entry_of device_id source x && ltb x.id cutoff.id))
      ]

trimmed :
    (device_id : ℕ) (source : String) (before es : List DeviceLogEntry) (next0 next : ℕ)
    → IsLogged before next0
    → IsGrown device_id source before es next
    → IsLogged (trim_entries device_id source es) next
trimmed device_id source before es next0 next old h = record {
  distinct =
      trim_entries-select device_id source es (Distinct (λ (e : DeviceLogEntry). e.id)) h.distinct
        (λ q. Distinct-select id_of q es h.distinct);
  below =
      trim_entries-select device_id source es (All (λ (e : DeviceLogEntry). e.id < next)) h.below
        (λ q. All-select _ q es h.below);
  few = λ k s. elim (Bool-cases (device_id == k && str_eq source s)) [
    | inl same ↦
        subst (λ j. count (is_entry_of j s) (trim_entries device_id source es) ≤ 500)
          ((==_iff device_id k).0 (ground (arith, same)))
          (subst (λ t. count (is_entry_of device_id t) (trim_entries device_id source es) ≤ 500)
            ((eq_iff source s).0 (ground (arith, same)))
            (trim_entries-few device_id source es h.distinct))
    | inr other ↦
        trim_entries-select device_id source es (λ xs. count (is_entry_of k s) xs ≤ 500)
          (omega (arith, h.others k s other, old.few k s))
          (λ q.
            omega (arith, count-select-le (is_entry_of k s) q es, h.others k s other, old.few k s))
  ];
}

-- Where the log entries have distinct ids below the counter, and each device has 500 of each
-- source at most, that is so after an upload was accepted, however many entries it has.
pub accept-IsLogged :
    (env : Env) (allowed : ℕ → Bool) (now : Time) (upload : LogUpload) (token : String)
    (db db1 : Db) (receipt : LogReceipt)
    → IsLogged db.log_entries db.next_log_entry
    → accept env allowed now upload token db ≡ ok (receipt, db1)
    → IsLogged db1.log_entries db1.next_log_entry
unfolding accept accept_upload
accept-IsLogged env allowed now upload token db db1 receipt h done =
    Yields-of (λ (r : LogReceipt × Db). IsLogged r.1.log_entries r.1.next_log_entry) stored done
  where
    stored :
        Yields
          (λ (r : LogReceipt × Db). IsLogged r.1.log_entries r.1.next_log_entry)
          (accept env allowed now upload token db)
    stored = Yields-bind _ (authenticate_token env now token db) _ (λ device _.
        Yields-ensure _ rate_limited (allowed device.id) _ (λ _.
          let known = existing device.id upload.entries db.log_entries in
          Yields-bind _ (add_entries now device.id upload.source upload.entries known db) _
            (λ added grown. kept _ (
              trimmed device.id upload.source db.log_entries added.1.log_entries db.next_log_entry
                added.1.next_log_entry h
                (Yields-of
                  (λ (r : List String × Db).
                    IsGrown device.id upload.source db.log_entries r.1.log_entries
                      r.1.next_log_entry)
                  (add_entries-Grown now device.id upload.source db.log_entries upload.entries known
                    db (record { distinct = h.distinct; below = h.below; others = λ k s _. refl }))
                  grown)))))
