-- ===== src/ResponseParser/FramingCounts.antt =====
-- What `analyze_framing` counts: the fields of two names, under any spelling.
use cpp_request.Base.{
  ℕ, ◌+◌, ◌≤◌, ◌≡◌, refl, Option-cases, List, [], ◌∷◌, arith, ltb, ◌&&◌, Bytes, codes, inl, inr,
}
use mathlib.Core.Path.{subst}
use cpp_request.Error.{ok, >>=-eq-ok, refuse-eq-ok, ok-injective, invalid_content_length}
use cpp_request.Ascii.{ascii_iequals}
use cpp_request.Scan.{trim_ows}
use cpp_request.Tokens.{split_on}
use cpp_request.Headers.{Field, Headers, count_named}
use cpp_request.Headers.Laws.{not_coding_if_length}
use cpp_request.ResponseParser.Framing.{
  FramingInfo, no_framing, parse_content_length, count_codings, count_length, note_connection,
  analyze_field, analyze_fields, analyze_framing,
}

abbrev pub lengths : Headers → ℕ
lengths h = count_named (codes "Content-Length") h

abbrev pub codings : Headers → ℕ
codings h = count_named (codes "Transfer-Encoding") h

-- From one state of the loop to another, behind some fields.
record Counts (f g : FramingInfo) (h : Headers) : Type 0 where
  lengths_seen : g.content_length_count ≡ f.content_length_count + lengths h
  codings_seen : g.transfer_encoding_fields ≡ f.transfer_encoding_fields + codings h

record SameCounts (f g : FramingInfo) : Type 0 where
  same_lengths : g.content_length_count ≡ f.content_length_count
  same_codings : g.transfer_encoding_fields ≡ f.transfer_encoding_fields

count_codings-SameCounts :
    (f g : FramingInfo) (ts : List Bytes) → count_codings f ts ≡ ok g → SameCounts f g
unfolding count_codings
count_codings-SameCounts f g [] e =
    subst (SameCounts f) (ok-injective e) (record { same_lengths = refl; same_codings = refl })
count_codings-SameCounts f g (t ∷ ts) e =
    let f' : FramingInfo = record f {
      transfer_encoding_tokens = f.transfer_encoding_tokens + 1;
      transfer_encoding_is_chunked =
          ascii_iequals (trim_ows t) (codes "chunked") && f.transfer_encoding_is_chunked;
    } in
    ground (arith, count_codings-SameCounts f' g ts)

note_connection-SameCounts : (f : FramingInfo) (x : Field) → SameCounts f (note_connection f x)
unfolding note_connection
note_connection-SameCounts f x = ground arith

analyze_field-Counts :
    (f g : FramingInfo) (x : Field) → analyze_field f x ≡ ok g → Counts f g (x ∷ [])
unfolding analyze_field count_length count_named
analyze_field-Counts f g x e =
    let noted : FramingInfo = note_connection f x in
    let same = note_connection-SameCounts f x in
    let coded : FramingInfo = record noted {
      transfer_encoding_fields = noted.transfer_encoding_fields + 1;
    } in
    elim (Option-cases (parse_content_length x.value)) [
      | inl o ↦ ground (
        arith,
        same,
        count_codings-SameCounts coded g (split_on b',' x.value),
        not_coding_if_length x.name,
      )
      | inr (n, o) ↦ ground (
        arith,
        same,
        count_codings-SameCounts coded g (split_on b',' x.value),
        not_coding_if_length x.name,
      )
    ]

analyze_fields-Counts : (f g : FramingInfo) (h : Headers) → analyze_fields f h ≡ ok g → Counts f g h
unfolding analyze_fields count_named
analyze_fields-Counts f g [] e =
    subst (λ g. Counts f g []) (ok-injective e)
      (record { lengths_seen = omega arith; codings_seen = omega arith })
analyze_fields-Counts f g (x ∷ h) e =
    let (m, one, rest) = >>=-eq-ok (analyze_field f x) (λ m. analyze_fields m h) e in
    ground (arith, analyze_field-Counts f m x one, analyze_fields-Counts m g h rest)

-- The counters are those of the fields, and a second length is refused.
pub record IsCounted (g : FramingInfo) (h : Headers) : Type 0 where
  pub counts_lengths : g.content_length_count ≡ lengths h
  pub counts_codings : g.transfer_encoding_fields ≡ codings h
  pub one_length : g.content_length_count ≤ 1

pub analyze_framing-IsCounted :
    (g : FramingInfo) (h : Headers) → analyze_framing h ≡ ok g → IsCounted g h
unfolding analyze_framing
analyze_framing-IsCounted g h e =
    let (m, all_read, e1) = >>=-eq-ok (analyze_fields no_framing h) _ e in
    let (one, e2) = refuse-eq-ok (ltb 1 m.content_length_count) invalid_content_length _ e1 in
    let c = analyze_fields-Counts no_framing m h all_read in
    subst (λ g. IsCounted g h) (ok-injective e2)
      (record {
        counts_lengths = omega (arith, c.lengths_seen);
        counts_codings = omega (arith, c.codings_seen);
        one_length = ground arith;
      })
