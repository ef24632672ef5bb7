-- ===== src/Tokens.antt =====
-- The loops of response_parser.cpp and client.cpp over the tokens of a list-valued field: a loop of
-- `find(',', begin)` visits the pieces between the commas, the empty ones too.
use cpp_request.Base.{ℕ, Bool, false, ◌||◌, List, [], ◌∷◌, ◌==◌, if◌then◌else◌, Bytes}
use cpp_request.Ascii.{ascii_iequals}
use cpp_request.Scan.{trim_ows}

-- A byte in front of the first piece.
abbrev pub onto_first : ℕ → List Bytes → List Bytes
onto_first c [] = (c ∷ []) ∷ []
onto_first c (p ∷ ps) = (c ∷ p) ∷ ps

-- The pieces between the separators: one more than there are separators.
unfoldable pub split_on : ℕ → Bytes → List Bytes
split_on b [] = [] ∷ []
split_on b (c ∷ s) = let ps = split_on b s in if c == b then [] ∷ ps else onto_first c ps

unfoldable pub any_token : Bytes → List Bytes → Bool
any_token expected [] = false
any_token expected (t ∷ ts) = ascii_iequals (trim_ows t) expected || any_token expected ts

unfoldable pub contains_token : Bytes → Bytes → Bool
contains_token value expected = any_token expected (split_on b',' value)
