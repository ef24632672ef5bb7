-- ===== src/RequestSerializer/Wire.antt =====
-- The shape of the head that `serialize_request` writes: a request line and field lines.
use cpp_request.Base.{
  ◌≡◌, refl, Bool, true, not, ◌&&◌, ◌||◌, [], ◌∷◌, ◌++◌, arith, ◌==◌, if◌then◌else◌, Bytes,
  is_empty, length, codes, all-take, all-drop, append_assoc, append-nil, Bool-cases, inl, inr,
}
use cpp_request.Ascii.{is_field_byte, valid_field_name, valid_field_value}
use cpp_request.Scan.{to_chars}
use cpp_request.Headers.{Field, Headers, field}
use cpp_request.Request.{Request}
use cpp_request.Chunked.{crlf}
use cpp_request.Url.{Url, host, target, allowed_byte}
use cpp_request.Url.WellFormed.{IsUrl}
use cpp_request.RequestSerializer.{
  method_token, method_has_content_semantics, append_query_params, Declared, generated_host,
  field_line, field_lines, generated_length, request_line, request_head,
}
use cpp_request.RequestSerializer.Fields.{valid_field}
use cpp_request.RequestSerializer.Clean.{
  clean, clean-append, allowed-clean, method_token-clean, append_query_params-clean, to_chars-clean,
}

abbrev pub first_line : Request → Url → Bytes
first_line r url =
    method_token r.method
    ++ (b' ' ∷ (append_query_params (target url) r.query_params ++ codes " HTTP/1.1"))

abbrev host_text : Url → Bytes
host_text url =
    (if url.host_is_ipv6_literal then b'[' ∷ (host url ++ (b']' ∷ [])) else host url)
    ++ (if url.has_explicit_port then b':' ∷ to_chars url.port else [])

abbrev pub host_field : Url → Field
host_field url = field (codes "Host") (host_text url)

abbrev pub length_field : Request → Field
length_field r = field (codes "Content-Length") (to_chars (length r.body))

abbrev pub needs_length : Request → Declared → Bool
needs_length r d =
    d.content_length_count == 0 && (not (is_empty r.body) || method_has_content_semantics r.method)

-- The fields that are written, the generated ones among them.
abbrev pub sent_fields : Request → Url → Declared → Headers
sent_fields r url d =
    (if d.host_count == 0 then host_field url ∷ [] else [])
    ++ (r.headers ++ (if needs_length r d then length_field r ∷ [] else []))

field_lines-append : (a b : Headers) → field_lines (a ++ b) ≡ field_lines a ++ field_lines b
unfolding field_lines
field_lines-append [] b = refl
field_lines-append (f ∷ a) b = rw (field_lines-append a b, append_assoc) refl

request_line-eq : (r : Request) (url : Url) → request_line r url ≡ first_line r url ++ crlf
unfolding request_line
request_line-eq r url = simp append_assoc

generated_host-eq : (url : Url) → generated_host url ≡ field_lines (host_field url ∷ [])
unfolding generated_host field_lines field_line
generated_host-eq url = simp (append_assoc, append-nil)

generated_length-eq :
    (r : Request) (d : Declared)
    → generated_length r d ≡ field_lines (if needs_length r d then length_field r ∷ [] else [])
unfolding generated_length field_lines field_line
generated_length-eq r d = elim (Bool-cases (needs_length r d)) [
  | inl e ↦ rw e (simp (append_assoc, append-nil))
  | inr e ↦ rw e refl
]

pub request_head-eq :
    (r : Request) (url : Url) (d : Declared)
    → request_head r url d
      ≡ first_line r url ++ (crlf ++ (field_lines (sent_fields r url d) ++ crlf))
unfolding request_head
request_head-eq r url d = elim (Bool-cases (d.host_count == 0)) [
  | inl e ↦
      rw
        (
          e,
          request_line-eq r url,
          generated_host-eq url,
          generated_length-eq r d,
          field_lines-append (host_field url ∷ [])
              (r.headers ++ (if needs_length r d then length_field r ∷ [] else [])),
          field_lines-append r.headers (if needs_length r d then length_field r ∷ [] else []),
        )
        (simp append_assoc)
  | inr e ↦
      rw
        (
          e,
          request_line-eq r url,
          generated_length-eq r d,
          field_lines-append r.headers (if needs_length r d then length_field r ∷ [] else []),
        )
        (simp append_assoc)
]

host-clean : (u : Url) → IsUrl u → clean (host u) ≡ true
unfolding host
host-clean u w =
    allowed-clean _
      (all-take allowed_byte u.host_size _ (all-drop allowed_byte u.host_begin u.storage w.allowed))

target-clean : (u : Url) → IsUrl u → clean (target u) ≡ true
unfolding target
target-clean u w = allowed-clean _ (
    all-take allowed_byte u.target_size _
      (all-drop allowed_byte u.target_begin u.storage w.allowed))

host_text-clean : (u : Url) → IsUrl u → clean (host_text u) ≡ true
unfolding is_field_byte
host_text-clean u w = ground (
  arith,
  host-clean u w,
  to_chars-clean u.port,
  clean-append (host u) (b']' ∷ []),
  clean-append (host u) (b':' ∷ to_chars u.port),
  clean-append (host u) [],
  clean-append (b'[' ∷ (host u ++ (b']' ∷ []))) [],
  clean-append (b'[' ∷ (host u ++ (b']' ∷ []))) (b':' ∷ to_chars u.port),
)

pub first_line-clean : (r : Request) (u : Url) → IsUrl u → clean (first_line r u) ≡ true
unfolding is_field_byte
first_line-clean r u w = clean-append (method_token r.method) _ (method_token-clean r.method) (
    clean-append (append_query_params (target u) r.query_params) (codes " HTTP/1.1")
      (append_query_params-clean (target u) r.query_params (target-clean u w)) refl)

pub host_field-valid : (u : Url) → IsUrl u → valid_field (host_field u) ≡ true
unfolding valid_field_name valid_field_value
host_field-valid u w = host_text-clean u w

pub length_field-valid : (r : Request) → valid_field (length_field r) ≡ true
unfolding valid_field_name valid_field_value
length_field-valid r = to_chars-clean (length r.body)
