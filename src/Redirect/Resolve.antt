-- ===== src/Redirect/Resolve.antt =====
-- What `resolve_redirect_location` returns.
use cpp_request.Base.{
  ℕ, ◌≡◌, refl, Bool, true, false, Option, none, some, [], ◌∷◌, arith, Bytes, take, codes,
  find_byte, mem_byte, ◌≢◌, Option-cases, inl, inr, Bool-cases,
}
use cpp_request.Error.{
  ErrorCode, Error, Result, ok, err, fail, unsupported_scheme, unsupported_redirect_scheme,
}
use cpp_request.Ascii.{ascii_iequals}
use cpp_request.Url.{Url}
use cpp_request.Url
use cpp_request.Redirect.{
  scheme_end, strip_fragment, validated, validate_redirect_url, resolve_by_scheme,
  resolve_redirect_location, redirect_code,
}

strip_fragment-no_hash : (v : Bytes) → mem_byte b'#' (strip_fragment v) ≡ false
unfolding strip_fragment mem_byte find_byte
strip_fragment-no_hash [] = refl
strip_fragment-no_hash (c ∷ v) = elim (Option-cases (find_byte b'#' v)) [
  | inl e ↦ ground (arith, strip_fragment-no_hash v)
  | inr (i, e) ↦ ground (arith, strip_fragment-no_hash v)
]

redirect_code-ne :
    (c : ErrorCode) (e : Error) → e.code ≡ c → (redirect_code c e).code ≢ unsupported_scheme
redirect_code-ne unsupported_scheme e h = cc
redirect_code-ne _ e h = ground arith

module _ (inet_pton6 : Bytes → Bool) where
  -- What a result says: a URL that parses and has no fragment, or an error that is not the one of
  -- a scheme in a request's own URL.
  abbrev pub IsResolved : Result Bytes → Type 0
  IsResolved (ok u) = ((url : Url) × (Url.parse inet_pton6 u ≡ ok url)) × (mem_byte b'#' u ≡ false)
  IsResolved (err e) = e.code ≢ unsupported_scheme

  validated-IsResolved :
      (c : Bytes) (r : Result Url)
      → Url.parse inet_pton6 c ≡ r
      → mem_byte b'#' c ≡ false
      → IsResolved (validated inet_pton6 c r)
  unfolding validated
  validated-IsResolved c (ok u) h n = ((u, h), n)
  validated-IsResolved c (err e) h n = redirect_code-ne e.code e refl

  validate_redirect_url-IsResolved : (c : Bytes) → IsResolved (validate_redirect_url inet_pton6 c)
  unfolding validate_redirect_url
  validate_redirect_url-IsResolved c =
      validated-IsResolved (strip_fragment c) _ refl (strip_fragment-no_hash c)

  resolve_by_scheme-IsResolved :
      (base : Url) (location : Bytes) (o : Option ℕ)
      → IsResolved (resolve_by_scheme inet_pton6 base location o)
  unfolding resolve_by_scheme
  resolve_by_scheme-IsResolved base location none = validate_redirect_url-IsResolved _
  resolve_by_scheme-IsResolved base location (some i) =
      elim (Bool-cases (ascii_iequals (take i location) (codes "http"))) [
        | inl e ↦ rw (e, IsResolved, resolve_by_scheme) (validate_redirect_url-IsResolved location)
        | inr e ↦ rw (e, IsResolved, resolve_by_scheme) (λ h. cc)
      ]

  -- By whether the location's scheme is `http`.
  abbrev IsAnswered : Bool → Result Bytes → Type 0
  IsAnswered true r = Unit {0}
  IsAnswered false r = r ≡ fail unsupported_redirect_scheme

  -- By where the location's scheme ends, if it has one.
  abbrev IsRefusedAt : Bytes → Result Bytes → Option ℕ → Type 0
  IsRefusedAt location r none = Unit {0}
  IsRefusedAt location r (some i) = IsAnswered (ascii_iequals (take i location) (codes "http")) r

  -- A location with a scheme other than `http`, in any case of the letters, is refused as such.
  abbrev pub IsSchemeChecked : Bytes → Result Bytes → Type 0
  IsSchemeChecked location r = IsRefusedAt location r (scheme_end location)

  resolve_by_scheme-IsRefusedAt :
      (base : Url) (location : Bytes) (o : Option ℕ)
      → IsRefusedAt location (resolve_by_scheme inet_pton6 base location o) o
  unfolding resolve_by_scheme
  resolve_by_scheme-IsRefusedAt base location none = tt
  resolve_by_scheme-IsRefusedAt base location (some i) =
      elim (Bool-cases (ascii_iequals (take i location) (codes "http"))) [
        | inl e ↦ rw (e, resolve_by_scheme) tt
        | inr e ↦ rw (e, resolve_by_scheme) refl
      ]

  -- For every base and every location, a location that resolves gives a URL that parses and has no
  -- fragment; one that does not resolve gives an error other than `unsupported_scheme`, which is the
  -- error of a request's own URL; and if the location has a scheme other than `http`, the result is
  -- the error `unsupported_redirect_scheme`.
  pub resolve_redirect_location-IsResolved :
      (base : Url) (location : Bytes)
      → IsResolved (resolve_redirect_location inet_pton6 base location)
        × IsSchemeChecked location (resolve_redirect_location inet_pton6 base location)
  unfolding resolve_redirect_location scheme_end
  resolve_redirect_location-IsResolved base [] = ((λ h. cc), tt)
  resolve_redirect_location-IsResolved base (c ∷ s) = (
    resolve_by_scheme-IsResolved base (c ∷ s) (scheme_end (c ∷ s)),
    resolve_by_scheme-IsRefusedAt base (c ∷ s) (scheme_end (c ∷ s)),
  )
