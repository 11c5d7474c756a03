-- ===== src/Cache/Shell/Lines.antt =====
-- The `pt` line of a point, and the point that a `p` command publishes.
use zephyr_siot.Base.{
  ◌+◌, ◌*◌, ◌≤◌, ◌<◌, ◌≡◌, ap, ◌∙◌, true, false, some, [], ◌∷◌, ◌++◌, arith, leb, length, take,
}
use zephyr_siot.Base.Int.{ℤ, pos, to_word}
use zephyr_siot.CString.{Bytes, cstr, strncmp_eq, copy_str_field, write_at_start}
use zephyr_siot.CString.Laws.{copy_str_field_lem, cstr-cstr}
use zephyr_siot.Point.{
  type_size, key_size, data_size, Point, zero_point, is_unknown, type_int, type_string,
  point_get_int, store32,
}
use zephyr_siot.SiotString.{itoa, atoi}
use zephyr_siot.SiotString.Float.{Floats}
use zephyr_siot.Timeconv.{Tm}
use zephyr_siot.Json.{json_unescape_string}
use zephyr_siot.Json.Unescape.RoundTrip.{take-le}
use zephyr_siot.Json.PointJs.{
  int_s, str_s, write_text, point_data_to_string, scan_buf, decode_data, point_js_to_point,
}
use zephyr_siot.Json.PointJs.RoundTrip.{IsTerminated}
use zephyr_siot.Cache.Quote.Laws.{word, quote_field-fits}
use zephyr_siot.Cache.Shell.{text, dt_name, pt_line, point_emit, point_time_min, handle_sendpoint}

module _ (fl : Floats) where
  -- A point without a timestamp is always printed, and its line holds its fields as words.
  pub point_emit-line :
      (p : Point) (raw raw' dt d : Bytes)
      → point_data_to_string fl p (some raw) 21 ≡ (some raw', pos 0)
      → is_unknown p ≡ false
      → IsTerminated p
      → dt_name p.data_type ≡ dt
      → cstr raw' ≡ d
      → length d ≤ 20
      → p.time < point_time_min
      → point_emit fl true raw p
        ≡ text (pt_line (word (cstr p.type)) (word (cstr p.key)) dt (word d)) ∷ []
  unfolding point_emit
  point_emit-line p raw raw' dt d e u z n c h k =
      let early : leb point_time_min p.time ≡ false = ground arith in
      let fits : 2 * length (cstr raw') + 4 ≤ 45 = rw c (omega (arith, h)) in
      let data_q = quote_field-fits raw' 45 fits ∙ ap (λ v. some (word v)) c in
      rw (
        u,
        e,
        data_q,
        quote_field-fits p.type 51 (omega (arith, z.type_ends)),
        quote_field-fits p.key 49 (omega (arith, z.key_ends)),
        early,
        n,
      )

  -- The point that the handler fills, once its names are set.
  abbrev pub sent_point : Bytes → Bytes → Point
  sent_point t k = record zero_point {
    type = copy_str_field zero_point.type t type_size;
    key = copy_str_field zero_point.key k key_size;
  }

  pub sent_names :
      (p : Point)
      → IsTerminated p
      → let q = sent_point (cstr p.type) (cstr p.key) in
        (cstr q.type ≡ cstr p.type) × (cstr q.key ≡ cstr p.key)
  sent_names p z =
      let (a, _, _) =
        copy_str_field_lem zero_point.type (cstr p.type) type_size (omega arith) (omega arith) in
      let (b, _, _) =
        copy_str_field_lem zero_point.key (cstr p.key) key_size (omega arith) (omega arith) in
      (
        a ∙ ap (take 23) (cstr-cstr p.type) ∙ take-le 23 (cstr p.type) z.type_ends,
        b ∙ ap (take 22) (cstr-cstr p.key) ∙ take-le 22 (cstr p.key) z.key_ends,
      )

  pub handled_int :
      (timegm : Tm → ℤ) (name t k d v : Bytes)
      → cstr d ≡ v
      → handle_sendpoint fl timegm (name ∷ t ∷ k ∷ int_s ∷ d ∷ []) ≡ record {
        ret = pos 0;
        lines = [];
        published = some (record (sent_point t k) {
          data_type = type_int;
          payload = store32 zero_point.payload (to_word (atoi (scan_buf fl v)));
        });
      }
  unfolding handle_sendpoint point_js_to_point decode_data strncmp_eq
  handled_int timegm name t k d v e = rw e

  pub handled_text :
      (timegm : Tm → ℤ) (name t k d v : Bytes)
      → cstr d ≡ v
      → handle_sendpoint fl timegm (name ∷ t ∷ k ∷ str_s ∷ d ∷ []) ≡ record {
        ret = pos 0;
        lines = [];
        published = some (record (sent_point t k) {
          data_type = type_string;
          payload =
              write_at_start zero_point.payload
                (json_unescape_string v (length v) data_size ++ 0 ∷ []);
        });
      }
  unfolding handle_sendpoint point_js_to_point decode_data strncmp_eq
  handled_text timegm name t k d v e = rw e

  pub rendered :
      (p : Point) (raw : Bytes)
      → p.data_type ≡ type_int
      → point_data_to_string fl p (some raw) 21
        ≡ (some (write_text raw (itoa (point_get_int p) 10)), pos 0)
  unfolding point_data_to_string
  rendered p raw e = simp e

  pub copied :
      (p : Point) (raw : Bytes)
      → p.data_type ≡ type_string
      → point_data_to_string fl p (some raw) 21 ≡ (some (copy_str_field raw p.payload 21), pos 0)
  unfolding point_data_to_string copy_str_field
  copied p raw e = simp e
