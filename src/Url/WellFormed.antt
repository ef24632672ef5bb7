-- ===== src/Url/WellFormed.antt =====
-- What every URL that `Url::parse` returns satisfies.
use cpp_request.Base.{
  ℕ, ◌+◌, ◌-◌, ◌^◌, ◌<◌, ◌≡◌, refl, sym, Bool, true, not, ◌||◌, Option, none, some, [], ◌∷◌, ◌++◌,
  arith, leb, ltb, ◌==◌, Bytes, length, is_empty, take, drop, all, codes, find, find_byte, mem_byte,
  Bool-cases, inl, inr, all-append, all-take, all-drop, starts_with, take_all, drop-append_length,
}
use mathlib.Core.Path.{subst}
use cpp_request.Error.{
  ok, refuse-eq-ok, >>=-eq-ok, ok-injective, invalid_url, invalid_port, unsupported_scheme,
}
use cpp_request.Ascii.{ascii_lower, ascii_iequals, lower}
use cpp_request.Scan.{parse_number}
use cpp_request.Chunked.Line.{before}
use cpp_request.Url.Host.{
  Authority, parse_authority, parse_named, parse_literal, literal_port, parse_port, rfind_byte,
  port_or_fail, valid_ipv6_literal, same_index,
}
use cpp_request.Url.{
  Url, target, allowed_byte, contains_forbidden_url_byte, find_authority_end, or_length, with_slash,
  make_url, parse_from, parse_scheme, parse, valid_percent_escapes,
}

-- The port is a TCP port.
abbrev pub IsPort : ℕ → Type 0
IsPort n = (0 < n) × (n < 65536)

-- Every byte is allowed, the target begins with a slash and its escapes are whole, the host is not
-- empty, and the port is a TCP port.
pub record IsUrl (u : Url) : Type 0 where
  pub allowed : all allowed_byte u.storage ≡ true
  pub rooted : starts_with (b'/' ∷ []) (target u) ≡ true
  pub escapes : valid_percent_escapes (target u) ≡ true
  pub named : 0 < u.host_size
  pub port : IsPort u.port

port_or_fail-IsPort : (o : Option ℕ) (n : ℕ) → port_or_fail o ≡ ok n → IsPort n
unfolding port_or_fail
port_or_fail-IsPort none n h = cc
port_or_fail-IsPort (some v) n h =
    let (w, e) = refuse-eq-ok (v == 0 || ltb 65535 v) invalid_port _ h in
    subst IsPort (ok-injective e) (ground arith)

parse_port-IsPort : (text : Bytes) (n : ℕ) → parse_port text ≡ ok n → IsPort n
unfolding parse_port
parse_port-IsPort text n h =
    port_or_fail-IsPort (parse_number 10 (2 ^ 32) text) n
      (refuse-eq-ok (is_empty text) invalid_port _ h).1

literal_port-IsPort :
    (size : ℕ) (s : Bytes) (a : Authority) → literal_port size s ≡ ok a → IsPort a.port
unfolding literal_port
literal_port-IsPort size [] a h = subst (λ a. IsPort a.port) (ok-injective h) (ground arith)
literal_port-IsPort size (c ∷ s) a h =
    let (w, e) = refuse-eq-ok (not (c == b':')) invalid_url _ h in
    let (n, p, f) = >>=-eq-ok (parse_port s) _ e in
    subst (λ a. IsPort a.port) (ok-injective f) (parse_port-IsPort s n p)

parse_named-IsPort :
    (s : Bytes) (o : Option ℕ) (a : Authority) → parse_named s o ≡ ok a → IsPort a.port
unfolding parse_named
parse_named-IsPort s none a h = subst (λ a. IsPort a.port) (ok-injective h) (ground arith)
parse_named-IsPort s (some i) a h =
    let (w, e) = refuse-eq-ok (not (same_index (find_byte b':' s) i)) invalid_url _ h in
    let (w', e') = refuse-eq-ok (is_empty (take i s)) invalid_url _ e in
    let (n, p, f) = >>=-eq-ok (parse_port (drop (i + 1) s)) _ e' in
    subst (λ a. IsPort a.port) (ok-injective f) (parse_port-IsPort (drop (i + 1) s) n p)

module _ (inet_pton6 : Bytes → Bool) where
  parse_literal-IsPort :
      (s : Bytes) (o : Option ℕ) (a : Authority)
      → parse_literal inet_pton6 s o ≡ ok a
      → IsPort a.port
  unfolding parse_literal
  parse_literal-IsPort s none a h = cc
  parse_literal-IsPort s (some i) a h =
      let (w, e) = refuse-eq-ok (i == 1) invalid_url _ h in
      let (w', e') =
        refuse-eq-ok (not (valid_ipv6_literal inet_pton6 (take (i - 1) (drop 1 s)))) invalid_url _
          e in
      literal_port-IsPort (i - 1) (drop (i + 1) s) a e'

  parse_authority-IsPort :
      (s : Bytes) (a : Authority) → parse_authority inet_pton6 s ≡ ok a → IsPort a.port
  unfolding parse_authority
  parse_authority-IsPort [] a h = parse_named-IsPort [] (rfind_byte b':' []) a h
  parse_authority-IsPort (c ∷ s) a h = elim (Bool-cases (c == b'[')) [
    | inl e ↦ parse_literal-IsPort (c ∷ s) (find_byte b']' (c ∷ s)) a (rw e at h)
    | inr e ↦ parse_named-IsPort (c ∷ s) (rfind_byte b':' (c ∷ s)) a (rw e at h)
  ]

lower-allowed : (s : Bytes) → all allowed_byte s ≡ true → all allowed_byte (lower s) ≡ true
unfolding allowed_byte ascii_lower
lower-allowed [] h = refl
lower-allowed (c ∷ s) h = ground (arith, lower-allowed s)

with_slash-allowed :
    (s : Bytes) → all allowed_byte s ≡ true → all allowed_byte (with_slash s) ≡ true
unfolding allowed_byte with_slash
with_slash-allowed [] h = refl
with_slash-allowed (c ∷ s) h = ground arith

find_authority_end-starts :
    (s : Bytes)
    → starts_with (b'/' ∷ []) (with_slash (drop (or_length (find_authority_end s) s) s)) ≡ true
unfolding find_authority_end with_slash starts_with
find_authority_end-starts [] = refl
find_authority_end-starts (c ∷ s) = ground (arith, find_authority_end-starts s)

before-allowed :
    (o : Option ℕ) (s : Bytes) → all allowed_byte s ≡ true → all allowed_byte (before o s) ≡ true
before-allowed none s h = h
before-allowed (some i) s h = all-take allowed_byte i s h

make_url-target :
    (separator : ℕ) (front text : Bytes) (a : Authority)
    → target (make_url separator front text a) ≡ text
unfolding target make_url
make_url-target separator front text a =
    rw (drop-append_length front text) (take_all (length text) text (omega arith))

make_url-IsUrl :
    (separator : ℕ) (front text : Bytes) (a : Authority)
    → all allowed_byte front ≡ true
    → all allowed_byte text ≡ true
    → starts_with (b'/' ∷ []) text ≡ true
    → valid_percent_escapes text ≡ true
    → 0 < a.host_size
    → IsPort a.port
    → IsUrl (make_url separator front text a)
unfolding make_url
make_url-IsUrl separator front text a f t r v n p = record {
  allowed = ground (arith, all-append allowed_byte front text);
  rooted =
      subst (λ s. starts_with (b'/' ∷ []) s ≡ true) (sym (make_url-target separator front text a))
        r;
  escapes =
      subst (λ s. valid_percent_escapes s ≡ true) (sym (make_url-target separator front text a)) v;
  named = n;
  port = p;
}

module _ (inet_pton6 : Bytes → Bool) where
  parse_from-IsUrl :
      (separator : ℕ) (text : Bytes) (u : Url)
      → all allowed_byte text ≡ true
      → parse_from inet_pton6 separator text ≡ ok u
      → IsUrl u
  unfolding parse_from
  parse_from-IsUrl separator text u clean h =
      let storage : Bytes = lower (take separator text) ++ drop separator text in
      let behind : Bytes = drop (separator + 3) storage in
      let size : ℕ = or_length (find_authority_end behind) behind in
      let authority : Bytes = take size behind in
      let goal : Bytes = with_slash (drop size behind) in
      let (w1, h1) = refuse-eq-ok (leb (length storage) (separator + 3)) invalid_url _ h in
      let (w2, h2) = refuse-eq-ok (size == 0) invalid_url _ h1 in
      let (w3, h3) =
        refuse-eq-ok (mem_byte b'@' authority || mem_byte b'%' authority) invalid_url _ h2 in
      let (a, parsed, h4) = >>=-eq-ok (parse_authority inet_pton6 authority) _ h3 in
      let (w5, h5) = refuse-eq-ok (a.host_size == 0) invalid_url _ h4 in
      let (w6, h6) = refuse-eq-ok (not (valid_percent_escapes goal)) invalid_url _ h5 in
      let stored : all allowed_byte storage ≡ true = ground (
        arith,
        all-append allowed_byte (lower (take separator text)) (drop separator text),
        lower-allowed (take separator text) (all-take allowed_byte separator text clean),
        all-drop allowed_byte separator text clean,
      ) in
      subst IsUrl (ok-injective h6) (
        make_url-IsUrl separator (take (separator + 3 + size) storage) goal a
          (all-take allowed_byte (separator + 3 + size) storage stored)
          (with_slash-allowed (drop size behind) (
            all-drop allowed_byte size behind
              (all-drop allowed_byte (separator + 3) storage stored)))
          (find_authority_end-starts behind) (ground arith) (ground arith)
          (parse_authority-IsPort inet_pton6 authority a parsed))

  parse_scheme-IsUrl :
      (o : Option ℕ) (input : Bytes) (u : Url)
      → all allowed_byte input ≡ true
      → parse_scheme inet_pton6 o input ≡ ok u
      → IsUrl u
  unfolding parse_scheme
  parse_scheme-IsUrl none input u clean h = cc
  parse_scheme-IsUrl (some i) input u clean h =
      let (w1, h1) = refuse-eq-ok (i == 0) invalid_url _ h in
      let (w2, h2) =
        refuse-eq-ok (not (ascii_iequals (take i input) (codes "http"))) unsupported_scheme _ h1 in
      parse_from-IsUrl i (before (find_byte b'#' input) input) u
        (before-allowed (find_byte b'#' input) input clean) h2

  -- Every URL that `parse` returns has allowed bytes alone (no space, no control character), a
  -- target that begins with a slash and whose escapes are whole, a host that is not empty, and a
  -- port from 1 to 65535.
  pub parse-IsUrl : (input : Bytes) (u : Url) → parse inet_pton6 input ≡ ok u → IsUrl u
  unfolding parse contains_forbidden_url_byte
  parse-IsUrl input u h =
      let (w1, h1) =
        refuse-eq-ok (is_empty input || not (all allowed_byte input)) invalid_url _ h in
      parse_scheme-IsUrl (find (codes "://") input) input u (ground arith) h1
