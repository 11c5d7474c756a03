-- ===== src/Cache/Shell/Replay.antt =====
-- The fields of a `pt` line, given back as the arguments of a `p` command.
use zephyr_siot.Base.{
  ◌≤◌, ◌<◌, ◌≡◌, ◌≢◌, refl, ap, sym, ◌∙◌, true, false, some, [], ◌∷◌, ◌++◌, arith, length, take,
  append_assoc,
}
use zephyr_siot.Base.Int.{ℤ, pos, IsInt, to_word}
use zephyr_siot.CString.{Bytes, cstr, copy_str_field, write_at_start}
use zephyr_siot.CString.Laws.{
  copy_str_field_lem, cstr-IsText, cstr-IsText_end, IsText-cstr, cstr-cstr,
}
use zephyr_siot.Point.{
  data_size, Point, zero_point, is_unknown, type_int, type_string, point_get_int, store32,
}
use zephyr_siot.SiotString.{atoi}
use zephyr_siot.SiotString.RoundTrip.{int_min, atoi-itoa}
use zephyr_siot.SiotString.Float.{Floats}
use zephyr_siot.Timeconv.{Tm}
use zephyr_siot.Json.{json_unescape_string}
use zephyr_siot.Json.Unescape.{decoded, unescaped, json_unescape_string_lem}
use zephyr_siot.Json.Unescape.RoundTrip.{take-le, value-whole}
use zephyr_siot.Json.PointJs.{int_s, str_s, write_text, scan_buf}
use zephyr_siot.Json.PointJs.RoundTrip.{IsTerminated, SameName, stored_int, scan_buf-short}
use zephyr_siot.Cache.Quote.Laws.{word}
use zephyr_siot.SiotString.Numeric.{itoa-IsNumeric}
use zephyr_siot.Cache.Shell.Argv.{p_s, AreClear, IsReadable, IsNumeric-AreBare, AreBare-IsReadable}
use zephyr_siot.Cache.Shell.{text, pt_line, point_emit, point_time_min, handle_sendpoint}
use zephyr_siot.Cache.Shell.Lines.{
  point_emit-line, sent_point, sent_names, handled_int, handled_text, rendered, copied,
}

-- Without backslashes there are no JSON escapes.
unescaped-clear : (v : Bytes) → AreClear v → unescaped v ≡ v
unfolding unescaped decoded
unescaped-clear [] h = refl
unescaped-clear (c ∷ []) h = refl
unescaped-clear (c ∷ d ∷ v) ((a, b, e, r, r'), h) = ground (arith, e, unescaped-clear (d ∷ v) h)

module _ (fl : Floats) where
  -- One line for the point, and what the fields of the line publish as a `p` command: a point of the same
  -- name, with 0 as the code and nothing printed.
  pub record IsReplayed (timegm : Tm → ℤ) (raw : Bytes) (p : Point) (dt : Bytes) : Type 0 where
    pub shown : Bytes
    pub published : Point
    pub line :
        point_emit fl true raw p
        ≡ text (pt_line (word (cstr p.type)) (word (cstr p.key)) dt (word shown)) ∷ []
    pub sent :
        handle_sendpoint fl timegm (p_s ∷ cstr p.type ∷ cstr p.key ∷ dt ∷ shown ∷ [])
        ≡ record { ret = pos 0; lines = []; published = some published }
    pub same_name : SameName p published
    pub data_ends : length shown ≤ 20
    pub readable : IsReadable shown

  -- An INT point without a timestamp is printed as a line, whose fields publish a point of the same name and
  -- value, unless the value is INT_MIN.
  pub replay-int :
      (timegm : Tm → ℤ) (raw : Bytes) (p : Point)
      → IsTerminated p
      → p.data_type ≡ type_int
      → IsInt (point_get_int p)
      → point_get_int p ≢ int_min
      → p.time < point_time_min
      → (r : IsReplayed timegm raw p int_s) × (point_get_int r.published ≡ point_get_int p)
  unfolding is_unknown
  replay-int timegm raw p z e i ne h =
      let (s, printed, is_text, short, back) = atoi-itoa (point_get_int p) i in
      let raw' = write_text raw (some (s ++ 0 ∷ [])) in
      let cut : cstr raw' ≡ s = rw append_assoc (cstr-IsText s _ is_text) in
      let shown = rendered fl p raw e ∙ ap (λ o. (some (write_text raw o), pos 0)) printed in
      let known : is_unknown p ≡ false = simp e in
      let (a, b) = sent_names fl p z in
      let cut_s : cstr s ≡ s = cstr-IsText_end s is_text in
      (
        record {
          shown = s;
          data_ends = omega (arith, short);
          readable =
              AreBare-IsReadable s
                (IsNumeric-AreBare s (itoa-IsNumeric (point_get_int p) s i ne is_text printed));
          published = record (sent_point fl (cstr p.type) (cstr p.key)) {
            data_type = type_int;
            payload = store32 zero_point.payload (to_word (atoi (scan_buf fl s)));
          };
          line =
              point_emit-line fl p raw raw' int_s s shown known z (rw e refl) cut (omega arith) h;
          sent = handled_int fl timegm p_s (cstr p.type) (cstr p.key) s s cut_s;
          same_name = record {
            same_type = a;
            same_key = b;
            same_data_type = sym e;
            no_time = refl;
          };
        },
        stored_int _ zero_point.payload _ _ refl (omega arith)
            (ap atoi (scan_buf-short fl s (omega arith)) ∙ back.1 ne) i,
      )

  -- A STRING point without a timestamp is printed as a line, whose fields publish a point of the same name and
  -- text, if the text is a word that the shell reads.
  pub replay-text :
      (timegm : Tm → ℤ) (raw : Bytes) (p : Point)
      → IsTerminated p
      → p.data_type ≡ type_string
      → 21 ≤ length raw
      → IsReadable (cstr p.payload)
      → p.time < point_time_min
      → (r : IsReplayed timegm raw p str_s) × (cstr r.published.payload ≡ cstr p.payload)
  unfolding is_unknown
  replay-text timegm raw p z e long ok h =
      let v = cstr p.payload in
      let same : unescaped v ≡ v = unescaped-clear v ok.0 in
      let raw' = copy_str_field raw p.payload 21 in
      let cut : cstr raw' ≡ v =
        (copy_str_field_lem raw p.payload 21 (omega arith) long).0
        ∙ take-le 20 v (omega (arith, z.data_ends)) in
      let known : is_unknown p ≡ false = simp e in
      let (a, b) = sent_names fl p z in
      let whole = value-whole v (length v) (cstr-cstr p.payload) (omega arith) in
      let read : json_unescape_string v (length v) data_size ≡ v =
        (json_unescape_string_lem v (length v) data_size (omega arith)).0
        ∙ ap (take 19) (ap unescaped whole ∙ same)
        ∙ take-le 19 v z.data_ends in
      (
        record {
          shown = v;
          data_ends = omega (arith, z.data_ends);
          readable = ok;
          published = record (sent_point fl (cstr p.type) (cstr p.key)) {
            data_type = type_string;
            payload =
                write_at_start zero_point.payload
                  (json_unescape_string v (length v) data_size ++ 0 ∷ []);
          };
          line =
              point_emit-line fl p raw raw' str_s v (copied fl p raw e) known z (rw e refl) cut
                (omega (arith, z.data_ends)) h;
          sent = handled_text fl timegm p_s (cstr p.type) (cstr p.key) v v (cstr-cstr p.payload);
          same_name = record {
            same_type = a;
            same_key = b;
            same_data_type = sym e;
            no_time = refl;
          };
        },
        rw (read, append_assoc) (cstr-IsText v _ (IsText-cstr p.payload)),
      )
