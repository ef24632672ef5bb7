-- ===== src/Redirect/Dots.antt =====
-- src/http/redirect.cpp: `remove_dot_segments`. The loop over `find('/', begin)` visits the pieces
-- between the slashes.
use cpp_request.Base.{
  ◌-◌, Bool, not, ◌&&◌, ◌||◌, List, [], ◌∷◌, ◌++◌, leb, ◌==◌, if◌then◌else◌, Bytes, length, drop,
  codes, equal,
}
use cpp_request.Tokens.{split_on}

-- `segments.pop_back()`, for the segments with the last one first.
abbrev pub pop_back : List Bytes → List Bytes
pop_back [] = []
pop_back (s ∷ ss) = ss

-- One segment onto the segments so far, the last one first.
unfoldable pub push_segment : List Bytes → Bytes → List Bytes
push_segment segments segment =
    if equal segment (codes "..")
    then pop_back segments
    else if not (equal segment (codes "."))
    then segment ∷ segments
    else segments

unfoldable pub collect_segments : List Bytes → List Bytes → List Bytes
collect_segments segments [] = segments
collect_segments segments (s ∷ ss) = collect_segments (push_segment segments s) ss

-- The segments with slashes between them; the last segment comes first in the list.
unfoldable pub join_segments : List Bytes → Bytes
join_segments [] = []
join_segments (s ∷ []) = s
join_segments (s ∷ t ∷ ss) = join_segments (t ∷ ss) ++ (b'/' ∷ s)

-- `text.substr(text.size() - n) == suffix`, for a suffix of n bytes.
unfoldable pub ends_with : Bytes → Bytes → Bool
ends_with suffix text =
    leb (length suffix) (length text) && equal (drop (length text - length suffix) text) suffix

-- The text from the first segment on.
abbrev pub first_segment : Bytes → Bytes
first_segment [] = []
first_segment (c ∷ s) = if c == b'/' then s else c ∷ s

unfoldable pub keep_trailing_slash : Bytes → Bool
keep_trailing_slash path =
    ends_with (codes "/") path || ends_with (codes "/.") path || ends_with (codes "/..") path

unfoldable pub segments_of : Bytes → List Bytes
segments_of path = collect_segments [] (split_on b'/' (first_segment path))

unfoldable pub remove_dot_segments : Bytes → Bytes
remove_dot_segments path =
    let normalized = b'/' ∷ join_segments (segments_of path) in
    if keep_trailing_slash path && not (ends_with (codes "/") normalized)
    then normalized ++ (b'/' ∷ [])
    else normalized
