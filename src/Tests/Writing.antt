-- ===== src/Tests/Writing.antt =====
-- A request with a query parameter, written to bytes.
use cpp_request.Base.{
  ◌≡◌, refl, Bool, true, false, List, [], ◌∷◌, ◌++◌, Bytes, codes, equal, find, find_byte, mem_byte,
  starts_with,
}
use cpp_request.Error.{ok}
use cpp_request.Ascii.{ascii_iequals, ascii_lower}
use cpp_request.Scan.{digit, digit_value, scan_digits, from_chars, parse_number}
use cpp_request.Headers.{field}
use cpp_request.Request.{Request, QueryParam, post}
use cpp_request.Chunked.{crlf}
use cpp_request.Url.{
  Url, make_url, contains_forbidden_url_byte, allowed_byte, parse_scheme, parse_from,
  find_authority_end, valid_percent_escapes, with_slash,
}
use cpp_request.Url
use cpp_request.Url.Host.{parse_authority, parse_named, rfind_byte, parse_port, port_or_fail}
use cpp_request.Url.WellFormed.{IsUrl, parse-IsUrl}
use cpp_request.RequestSerializer.{percent_encoded, query_param, more_params, SerializedRequest}
use cpp_request.RequestSerializer.RoundTrip.{
  percent_decoded, read_query, percent_decoded-percent_encoded, read_query-more_params,
}

-- An address parser that knows the loopback address alone.
abbrev only_loopback : Bytes → Bool
only_loopback text = equal text (codes "::1")

abbrev search_url : Url
search_url = record {
  storage = codes "http://a:81/?x";
  scheme_begin = 0;
  scheme_size = 4;
  host_begin = 7;
  host_size = 1;
  path_begin = 11;
  path_size = 1;
  query_begin = 13;
  query_size = 1;
  target_begin = 11;
  target_size = 3;
  port = 81;
  has_explicit_port = true;
  host_is_ipv6_literal = false;
}

search_url_parsed : Url.parse only_loopback (codes "HTTP://a:81?x#y") ≡ ok search_url
unfolding Url.parse contains_forbidden_url_byte allowed_byte parse_scheme find parse_from find_byte
    find_authority_end mem_byte parse_authority parse_named rfind_byte valid_percent_escapes
    with_slash ascii_lower ascii_iequals starts_with make_url parse_port port_or_fail parse_number
    digit digit_value from_chars scan_digits
search_url_parsed = refl

parse-IsUrl_example : IsUrl search_url
parse-IsUrl_example =
    parse-IsUrl only_loopback (codes "HTTP://a:81?x#y") search_url search_url_parsed

abbrev search : Request
search = record {
  method = post;
  url = codes "HTTP://a:81?x#y";
  headers = field (codes "Accept") (codes "b c") ∷ [];
  body = codes "hi";
  query_params = record { name = codes "q"; value = codes " &" } ∷ [];
}

abbrev search_written : SerializedRequest
search_written = record {
  url = search_url;
  head =
      codes "POST /?x&q=%20%26 HTTP/1.1"
      ++ (crlf
          ++ (codes "Host: a:81"
              ++ (crlf
                  ++ (codes "Accept: b c"
                      ++ (crlf ++ (codes "Content-Length: 2" ++ (crlf ++ crlf)))))));
  body = codes "hi";
}

abbrev odd_params : List QueryParam
odd_params =
    record { name = codes "a=b"; value = [] } ∷ record { name = []; value = codes "&%20" } ∷ []

percent_decoded-percent_encoded_example :
    percent_decoded (percent_encoded (codes "50% & more")) ≡ codes "50% & more"
percent_decoded-percent_encoded_example = percent_decoded-percent_encoded (codes "50% & more") refl

read_query-more_params_example :
    read_query
      (query_param (record { name = codes "q"; value = codes " &" }) ++ more_params odd_params)
    ≡ record { name = codes "q"; value = codes " &" } ∷ odd_params
read_query-more_params_example =
    read_query-more_params (record { name = codes "q"; value = codes " &" }) odd_params refl
