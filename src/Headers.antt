-- ===== src/Headers.antt =====
-- include/cpp_request/headers.hpp and src/core/headers.cpp: an ordered list of fields with
-- case-insensitive names.
pub mod Laws
use cpp_request.Base.{
  ℕ, ◌+◌, Bool, true, false, ◌||◌, List, [], ◌∷◌, ◌++◌, if◌then◌else◌, Bytes, length,
}
use cpp_request.Ascii.{ascii_iequals}

pub record Field : Type 0 where
  pub name : Bytes
  pub value : Bytes

abbrev pub Headers : Type 0
Headers = List Field

abbrev pub field : Bytes → Bytes → Field
field name value = record { name = name; value = value }

unfoldable pub add : Bytes → Bytes → Headers → Headers
add name value fields = fields ++ (field name value ∷ [])

-- `std::remove_if` and `erase` over the fields behind the first match.
unfoldable pub remove_named : Bytes → Headers → Headers
remove_named name [] = []
remove_named name (f ∷ fields) =
    if ascii_iequals f.name name then remove_named name fields else f ∷ remove_named name fields

-- The first field of the name gets the new name and value, and the later ones go; a new name comes
-- at the end.
unfoldable pub set : Bytes → Bytes → Headers → Headers
unfolding remove_named
set name value [] = field name value ∷ []
set name value (f ∷ fields) =
    if ascii_iequals f.name name
    then field name value ∷ remove_named name fields
    else f ∷ set name value fields

unfoldable pub contains : Bytes → Headers → Bool
contains name [] = false
contains name (f ∷ fields) = ascii_iequals f.name name || contains name fields

-- The value of the first field of the name, and the empty text if there is none.
unfoldable pub get : Bytes → Headers → Bytes
get name [] = []
get name (f ∷ fields) = if ascii_iequals f.name name then f.value else get name fields

-- The number of fields of a name.
unfoldable pub count_named : Bytes → Headers → ℕ
count_named name [] = 0
count_named name (f ∷ fields) =
    (if ascii_iequals f.name name then 1 else 0) + count_named name fields
