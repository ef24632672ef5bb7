-- ===== src/ResponseParser/CloseRequests.antt =====
-- The parser and the client read the `Connection` fields of a response alike.
use cpp_request.Base.{
  ◌+◌, ◌≡◌, refl, ◌||◌, arith, Bytes, inl, inr, ◌&&◌, false, List, [], ◌∷◌, Option-cases, codes,
  ltb,
}
use mathlib.Core.Path.{subst}
use cpp_request.Error.{ok, >>=-eq-ok, refuse-eq-ok, ok-injective, invalid_content_length}
use cpp_request.ResponseParser.Framing.{
  FramingInfo, analyze_framing, no_framing, parse_content_length, count_codings, count_length,
  note_connection, analyze_field, analyze_fields,
}
use cpp_request.Ascii.{ascii_iequals}
use cpp_request.Tokens.{split_on}
use cpp_request.Scan.{trim_ows}
use cpp_request.Headers.{Field, Headers}
use cpp_request.Client.{wants_connection_close}

count_codings-same_request :
    (f g : FramingInfo) (ts : List Bytes)
    → count_codings f ts ≡ ok g
    → g.connection_close_requested ≡ f.connection_close_requested
unfolding count_codings
count_codings-same_request f g [] e =
    subst (λ g. g.connection_close_requested ≡ f.connection_close_requested) (ok-injective e) refl
count_codings-same_request f g (t ∷ ts) e =
    let f' : FramingInfo = record f {
      transfer_encoding_tokens = f.transfer_encoding_tokens + 1;
      transfer_encoding_is_chunked =
          ascii_iequals (trim_ows t) (codes "chunked") && f.transfer_encoding_is_chunked;
    } in
    ground (arith, count_codings-same_request f' g ts)

analyze_field-noted :
    (f g : FramingInfo) (x : Field)
    → analyze_field f x ≡ ok g
    → g.connection_close_requested ≡ (note_connection f x).connection_close_requested
unfolding analyze_field count_length
analyze_field-noted f g x e =
    let noted : FramingInfo = note_connection f x in
    let coded : FramingInfo = record noted {
      transfer_encoding_fields = noted.transfer_encoding_fields + 1;
    } in
    elim (Option-cases (parse_content_length x.value)) [
      | inl o ↦ ground (arith, count_codings-same_request coded g (split_on b',' x.value))
      | inr (n, o) ↦ ground (arith, count_codings-same_request coded g (split_on b',' x.value))
    ]

analyze_fields-noted :
    (f g : FramingInfo) (h : Headers)
    → analyze_fields f h ≡ ok g
    → g.connection_close_requested ≡ f.connection_close_requested || wants_connection_close h
unfolding analyze_fields wants_connection_close note_connection
analyze_fields-noted f g [] e =
    subst (λ g. g.connection_close_requested ≡ f.connection_close_requested || false)
      (ok-injective e) (ground arith)
analyze_fields-noted f g (x ∷ h) e =
    let (m, one, rest) = >>=-eq-ok (analyze_field f x) (λ m. analyze_fields m h) e in
    ground (arith, analyze_field-noted f m x one, analyze_fields-noted m g h rest)

-- The parser and the client read the `Connection` fields alike.
pub analyze_framing-noted :
    (g : FramingInfo) (h : Headers)
    → analyze_framing h ≡ ok g
    → g.connection_close_requested ≡ wants_connection_close h
unfolding analyze_framing
analyze_framing-noted g h e =
    let (m, all_read, e1) = >>=-eq-ok (analyze_fields no_framing h) _ e in
    let (one, e2) = refuse-eq-ok (ltb 1 m.content_length_count) invalid_content_length _ e1 in
    subst (λ g. g.connection_close_requested ≡ wants_connection_close h) (ok-injective e2)
      (analyze_fields-noted no_framing m h all_read)
