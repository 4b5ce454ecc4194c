-- ===== src/Logs/Cursor/RoundTrip.antt =====
-- A cursor gives back the row it was made from, for the query it was made for and for no other.
use skybeat.Base.{
  ℕ, ◌-◌, ◌^◌, ◌≤◌, ◌≡◌, refl, sym, ◌∙◌, ap, subst, String, Bool, true, false, ◌&&◌, ◌||◌, Option,
  none, some, leb, ◌==◌, ==_iff, str_eq, eq_iff, eq_refl, if◌then◌else◌, any, arith, Bool-cases,
  inl, inr,
}
use skybeat.Store.{Result, ok, raise, value_error, require, ensure}
use skybeat.Store.Rows.{Time}
use skybeat.Devices.Credentials.{text_length}
use skybeat.Store.Yields.{kept, Yields-ensure, Yields-of, ensure-held}
use skybeat.Devices.Identity.{same_bool}
use skybeat.Logs.Cursor.{
  integer, Codec, LogFilter, is_occurred, is_basis, optional_text, cursor_time, payload,
  encode_log_cursor, field, same_value, is_row_id, row_id, belongs, decode_log_cursor,
}

-- The same text or none, and the same time or none.
abbrev pub same_optional : Option String → Option String → Bool
same_optional none none = true
same_optional (some a) (some b) = str_eq a b
same_optional _ _ = false

abbrev pub same_time : Option Time → Option Time → Bool
same_time none none = true
same_time (some a) (some b) = a == b
same_time _ _ = false

-- The same query.
abbrev pub same_filter : LogFilter → LogFilter → Bool
same_filter f g =
    str_eq g.device_uuid f.device_uuid
    && same_optional g.source f.source
    && same_time g.from_time f.from_time
    && same_time g.until f.until
    && str_eq g.direction f.direction
    && same_optional g.q f.q
    && str_eq g.time_basis f.time_basis

text_same :
    (a b : Option String) → same_value (optional_text a) (optional_text b) ≡ same_optional a b
text_same none none = refl
text_same none (some b) = refl
text_same (some a) none = refl
text_same (some a) (some b) = refl

-- `isoformat` gives different texts for different times.
abbrev pub IsFaithful : Codec → Type 0
IsFaithful codec = (s t : Time) → codec.isoformat s ≡ codec.isoformat t → s ≡ t

time_same :
    (codec : Codec) (a b : Option Time)
    → IsFaithful codec
    → same_value (cursor_time codec a) (cursor_time codec b) ≡ same_time a b
time_same codec none none h = refl
time_same codec none (some b) h = refl
time_same codec (some a) none h = refl
time_same codec (some a) (some b) h = elim (Bool-cases (a == b)) [
  | inl same ↦ rw same (
      subst (λ t. str_eq (codec.isoformat a) (codec.isoformat t) ≡ true) ((==_iff a b).0 same)
        (eq_refl (codec.isoformat a)))
  | inr differ ↦ rw differ (by_text (str_eq (codec.isoformat a) (codec.isoformat b)) refl differ)
]
  where
    by_text :
        (e : Bool)
        → str_eq (codec.isoformat a) (codec.isoformat b) ≡ e
        → (a == b) ≡ false
        → str_eq (codec.isoformat a) (codec.isoformat b) ≡ false
    by_text false e differ = e
    by_text true e differ = absurd (
        ground
          (arith, differ, ==_iff a b, h a b ((eq_iff (codec.isoformat a) (codec.isoformat b)).0 e)))

by_parts :
    (codec : Codec) (n : ℕ) (f g : LogFilter) (a b : Bool) (q r : Option String)
    → IsFaithful codec
    → is_occurred f ≡ a
    → is_occurred g ≡ b
    → f.q ≡ q
    → g.q ≡ r
    → str_eq g.time_basis f.time_basis ≡ same_bool a b
    → belongs codec g (payload codec n f) ≡ (is_row_id (integer n) && same_filter f g)
unfolding belongs payload any
by_parts codec n f g true true none none h e1 e2 e3 e4 e5 =
    rw
      (
        e1,
        e2,
        e3,
        e4,
        e5,
        text_same g.source f.source,
        time_same codec g.from_time f.from_time h,
        time_same codec g.until f.until h,
      )
      (ground arith)
by_parts codec n f g true true none (some r) h e1 e2 e3 e4 e5 =
    rw (e1, e2, e3, e4, e5) (ground arith)
by_parts codec n f g true true (some q) none h e1 e2 e3 e4 e5 =
    rw (e1, e2, e3, e4, e5) (ground arith)
by_parts codec n f g true true (some q) (some r) h e1 e2 e3 e4 e5 =
    rw
      (
        e1,
        e2,
        e3,
        e4,
        e5,
        text_same g.source f.source,
        time_same codec g.from_time f.from_time h,
        time_same codec g.until f.until h,
      )
      (ground arith)
by_parts codec n f g true false none none h e1 e2 e3 e4 e5 = rw (e1, e2, e3, e4, e5) (ground arith)
by_parts codec n f g true false none (some r) h e1 e2 e3 e4 e5 =
    rw (e1, e2, e3, e4, e5) (ground arith)
by_parts codec n f g true false (some q) none h e1 e2 e3 e4 e5 =
    rw (e1, e2, e3, e4, e5) (ground arith)
by_parts codec n f g true false (some q) (some r) h e1 e2 e3 e4 e5 =
    rw (e1, e2, e3, e4, e5) (ground arith)
by_parts codec n f g false true none none h e1 e2 e3 e4 e5 = rw (e1, e2, e3, e4, e5) (ground arith)
by_parts codec n f g false true none (some r) h e1 e2 e3 e4 e5 =
    rw (e1, e2, e3, e4, e5) (ground arith)
by_parts codec n f g false true (some q) none h e1 e2 e3 e4 e5 =
    rw (e1, e2, e3, e4, e5) (ground arith)
by_parts codec n f g false true (some q) (some r) h e1 e2 e3 e4 e5 =
    rw (e1, e2, e3, e4, e5) (ground arith)
by_parts codec n f g false false none none h e1 e2 e3 e4 e5 =
    rw
      (
        e1,
        e2,
        e3,
        e4,
        e5,
        text_same g.source f.source,
        time_same codec g.from_time f.from_time h,
        time_same codec g.until f.until h,
      )
      (ground arith)
by_parts codec n f g false false none (some r) h e1 e2 e3 e4 e5 =
    rw (e1, e2, e3, e4, e5) (ground arith)
by_parts codec n f g false false (some q) none h e1 e2 e3 e4 e5 =
    rw (e1, e2, e3, e4, e5) (ground arith)
by_parts codec n f g false false (some q) (some r) h e1 e2 e3 e4 e5 =
    rw
      (
        e1,
        e2,
        e3,
        e4,
        e5,
        text_same g.source f.source,
        time_same codec g.from_time f.from_time h,
        time_same codec g.until f.until h,
      )
      (ground arith)

basis_same :
    (s t : String)
    → (str_eq s "received" || str_eq s "occurred") ≡ true
    → (str_eq t "received" || str_eq t "occurred") ≡ true
    → str_eq t s ≡ same_bool (str_eq s "occurred") (str_eq t "occurred")
basis_same s t hs ht = by_texts (str_eq s "occurred") (str_eq t "occurred") refl refl
  where
    by_texts :
        (a b : Bool)
        → str_eq s "occurred" ≡ a
        → str_eq t "occurred" ≡ b
        → str_eq t s ≡ same_bool a b
    by_texts true b e1 e2 = subst (λ x. str_eq t x ≡ b) (sym ((eq_iff s "occurred").0 e1)) e2
    by_texts false true e1 e2 =
        subst (λ x. str_eq x s ≡ false) (sym ((eq_iff t "occurred").0 e2))
          (subst (λ x. str_eq "occurred" x ≡ false)
            (sym ((eq_iff s "received").0 (ground (arith, hs, e1)))) refl)
    by_texts false false e1 e2 =
        subst (λ x. str_eq x s ≡ true) (sym ((eq_iff t "received").0 (ground (arith, ht, e2))))
          (subst (λ x. str_eq "received" x ≡ true)
            (sym ((eq_iff s "received").0 (ground (arith, hs, e1)))) refl)

id_of_payload :
    (codec : Codec) (n : ℕ) (f : LogFilter) → row_id (field "id" (payload codec n f)) ≡ some n
unfolding field payload
id_of_payload codec n f = refl

chosen :
    {n : ℕ} (b : Bool) (r : Result ℕ)
    → r ≡ ok n
    → ensure value_error b r ≡ (if b then ok n else raise value_error)
chosen true r h = h
chosen false r h = refl

-- Where the codec reads back what it prints of the payload, and gives different texts to different
-- times, the cursor that is made for a row and a query, not longer than a cursor may be, gives back
-- the row for the same query, and is refused for every other.
pub decode_log_cursor-encode :
    (codec : Codec) (n : ℕ) (f g : LogFilter) (cursor : String)
    → IsFaithful codec
    → codec.loads (codec.dumps (payload codec n f)) ≡ some (some (payload codec n f))
    → 1 ≤ n
    → n ≤ 2 ^ 64 - 1
    → is_basis g ≡ true
    → encode_log_cursor codec n f ≡ ok cursor
    → str_eq cursor "" ≡ false
    → text_length cursor ≤ 2048
    → decode_log_cursor codec cursor g ≡ (if same_filter f g then ok n else raise value_error)
unfolding encode_log_cursor decode_log_cursor
decode_log_cursor-encode codec n f g cursor h reads low high basis made filled short =
    subst (λ c. decode_log_cursor codec c g ≡ (if same_filter f g then ok n else raise value_error))
      printed
      (rw (basis, subst (λ c. str_eq c "" ≡ false) (sym printed) filled, fits, reads, same)
        (chosen (same_filter f g) _ (ap (require value_error) (id_of_payload codec n f))))
  where
    printed : codec.dumps (payload codec n f) ≡ cursor
    printed =
        Yields-of (λ c. codec.dumps (payload codec n f) ≡ c)
          (Yields-ensure _ value_error (is_basis f) _ (λ _. kept _ refl)) made

    fits : leb (text_length (codec.dumps (payload codec n f))) 2048 ≡ true
    fits = subst (λ c. leb (text_length c) 2048 ≡ true) (sym printed) (ground (arith, short))

    in_range : is_row_id (integer n) ≡ true
    in_range = ground (arith, low, high)

    same : belongs codec g (payload codec n f) ≡ same_filter f g
    same =
        by_parts codec n f g (is_occurred f) (is_occurred g) f.q g.q h refl refl refl refl
          (basis_same f.time_basis g.time_basis (ensure-held value_error (is_basis f) _ made) basis)
        ∙ ap (λ b. b && same_filter f g) in_range
