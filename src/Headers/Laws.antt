-- ===== src/Headers/Laws.antt =====
-- The laws of a case-insensitive header list.
use cpp_request.Base.{
  codes, ◌∙◌, ◌+◌, ◌≡◌, refl, true, false, ◌||◌, [], ◌∷◌, ◌++◌, arith, if◌then◌else◌, Bytes,
}
use cpp_request.Ascii.{ascii_iequals, ascii_iequals_iff}
use cpp_request.Headers.{Headers, add, remove_named, set, contains, get, count_named}

pub iequals_same_name :
    (a b c : Bytes) → ascii_iequals b c ≡ true → ascii_iequals a b ≡ ascii_iequals a c
iequals_same_name a b c h =
    ground (arith, ascii_iequals_iff b c, ascii_iequals_iff a b, ascii_iequals_iff a c)

pub iequals_refl : (a : Bytes) → ascii_iequals a a ≡ true
iequals_refl a = (ascii_iequals_iff a a).1 refl

pub iequals_symm : (a b : Bytes) → ascii_iequals a b ≡ ascii_iequals b a
iequals_symm a b = ground (arith, ascii_iequals_iff a b, ascii_iequals_iff b a)

get-remove_named :
    (n m : Bytes) (h : Headers) → ascii_iequals m n ≡ false → get n (remove_named m h) ≡ get n h
unfolding get remove_named
get-remove_named n m [] e = refl
get-remove_named n m (f ∷ h) e = ground (
  arith,
  get-remove_named n m h,
  ascii_iequals_iff f.name m,
  ascii_iequals_iff f.name n,
  ascii_iequals_iff m n,
)

-- `get` after `set`: the new value for every spelling of the name, and for any other name what was
-- there before.
pub get-set :
    (n m v : Bytes) (h : Headers) → get n (set m v h) ≡ (if ascii_iequals m n then v else get n h)
unfolding get set
get-set n m v [] = refl
get-set n m v (f ∷ h) = ground (
  arith,
  get-set n m v h,
  get-remove_named n m h,
  ascii_iequals_iff f.name m,
  ascii_iequals_iff f.name n,
  ascii_iequals_iff m n,
)

count_named-remove_named :
    (n m : Bytes) (h : Headers)
    → count_named n (remove_named m h) ≡ (if ascii_iequals m n then 0 else count_named n h)
unfolding count_named remove_named
count_named-remove_named n m [] = ground arith
count_named-remove_named n m (f ∷ h) = ground (
  arith,
  count_named-remove_named n m h,
  ascii_iequals_iff f.name m,
  ascii_iequals_iff f.name n,
  ascii_iequals_iff m n,
)

-- After `set` there is exactly one field of the name, under any spelling, and as many of every
-- other name as before.
pub count_named-set :
    (n m v : Bytes) (h : Headers)
    → count_named n (set m v h) ≡ (if ascii_iequals m n then 1 else count_named n h)
unfolding count_named set
count_named-set n m v [] = ground arith
count_named-set n m v (f ∷ h) = ground (
  arith,
  count_named-set n m v h,
  count_named-remove_named n m h,
  ascii_iequals_iff f.name m,
  ascii_iequals_iff f.name n,
  ascii_iequals_iff m n,
)

-- `add` never hides a field: `get` still gives the first one, and the new one only if the name is
-- new; the name is contained afterwards, and counted once more.
pub get-add :
    (n m v : Bytes) (h : Headers)
    → (get n (add m v h) ≡ (if contains n h then get n h else if ascii_iequals m n then v else []))
      × (contains n (add m v h) ≡ contains n h || ascii_iequals m n)
      × (count_named n (add m v h) ≡ count_named n h + (if ascii_iequals m n then 1 else 0))
unfolding get add contains count_named
get-add n m v [] = ground arith
get-add n m v (f ∷ h) =
    ground (arith, (get-add n m v h).0, (get-add n m v h).1, (get-add n m v h).2)

pub count_named-append :
    (n : Bytes) (a b : Headers) → count_named n (a ++ b) ≡ count_named n a + count_named n b
unfolding count_named
count_named-append n [] b = omega arith
count_named-append n (f ∷ a) b = ground (arith, count_named-append n a b)

-- The names that decide the framing are told apart.
other_name :
    (n a b : Bytes)
    → ascii_iequals b a ≡ false
    → ascii_iequals n a ≡ true
    → ascii_iequals n b ≡ false
other_name n a b differ h = iequals_symm n b ∙ iequals_same_name b n a h ∙ differ

pub not_length_if_host :
    (n : Bytes)
    → ascii_iequals n (codes "Host") ≡ true
    → ascii_iequals n (codes "Content-Length") ≡ false
unfolding ascii_iequals
not_length_if_host n h = other_name n (codes "Host") (codes "Content-Length") refl h

pub not_coding_if_host :
    (n : Bytes)
    → ascii_iequals n (codes "Host") ≡ true
    → ascii_iequals n (codes "Transfer-Encoding") ≡ false
unfolding ascii_iequals
not_coding_if_host n h = other_name n (codes "Host") (codes "Transfer-Encoding") refl h

pub not_coding_if_length :
    (n : Bytes)
    → ascii_iequals n (codes "Content-Length") ≡ true
    → ascii_iequals n (codes "Transfer-Encoding") ≡ false
unfolding ascii_iequals
not_coding_if_length n h = other_name n (codes "Content-Length") (codes "Transfer-Encoding") refl h
