-- ===== src/RequestSerializer/Fields.antt =====
-- What the loop over the header fields of `serialize_request` finds out.
use cpp_request.Base.{
  ℕ, ◌+◌, ◌≡◌, refl, Bool, true, ◌&&◌, [], ◌∷◌, arith, if◌then◌else◌, Bytes, all, codes,
  Option-cases, inl, inr,
}
use mathlib.Core.Path.{subst}
use cpp_request.Error.{ok, >>=-eq-ok, ok-injective}
use cpp_request.Ascii.{ascii_iequals, valid_field_name, valid_field_value}
use cpp_request.Scan.{size_t_mod, parse_number}
use cpp_request.Headers.{Field, Headers, count_named}
use cpp_request.Headers.Laws.{not_length_if_host, not_coding_if_host, not_coding_if_length}
use cpp_request.RequestSerializer.{Declared, declare_length, check_field, check_fields}

-- A field that may be written on a line.
abbrev pub valid_field : Field → Bool
valid_field f = valid_field_name f.name && valid_field_value f.value

abbrev counted : Bytes → Field → ℕ
counted n f = if ascii_iequals f.name n then 1 else 0

-- What one field adds to the counters.
record Checked (d d' : Declared) (f : Field) : Type 0 where
  valid : valid_field f ≡ true
  hosts : d'.host_count ≡ d.host_count + counted (codes "Host") f
  lengths : d'.content_length_count ≡ d.content_length_count + counted (codes "Content-Length") f
  no_coding : counted (codes "Transfer-Encoding") f ≡ 0

check_field-Checked : (d d' : Declared) (f : Field) → check_field d f ≡ ok d' → Checked d d' f
unfolding check_field declare_length
check_field-Checked d d' f h = elim (Option-cases (parse_number 10 size_t_mod f.value)) [
  | inl e ↦
      ground
        (arith, not_length_if_host f.name, not_coding_if_host f.name, not_coding_if_length f.name)
  | inr (n, e) ↦
      ground
        (arith, not_length_if_host f.name, not_coding_if_host f.name, not_coding_if_length f.name)
]

-- What the whole loop adds to the counters.
pub record FieldsChecked (d d' : Declared) (h : Headers) : Type 0 where
  pub valid : all valid_field h ≡ true
  pub hosts : d'.host_count ≡ d.host_count + count_named (codes "Host") h
  pub lengths :
      d'.content_length_count ≡ d.content_length_count + count_named (codes "Content-Length") h
  pub no_coding : count_named (codes "Transfer-Encoding") h ≡ 0

pub check_fields-FieldsChecked :
    (d d' : Declared) (h : Headers) → check_fields d h ≡ ok d' → FieldsChecked d d' h
unfolding check_fields count_named
check_fields-FieldsChecked d d' [] e =
    subst (λ x. FieldsChecked d x []) (ok-injective e)
      (record { valid = refl; hosts = omega arith; lengths = omega arith; no_coding = refl })
check_fields-FieldsChecked d d' (f ∷ h) e =
    let (d1, one, e1) = >>=-eq-ok (check_field d f) (λ x. check_fields x h) e in
    ground (arith, check_field-Checked d d1 f one, check_fields-FieldsChecked d1 d' h e1)
