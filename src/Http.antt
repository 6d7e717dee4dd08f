-- ===== src/Http.antt =====
-- internal/api/httpapi: which handler a request goes to (router.go). The choice of the pattern is
-- net/http's; here are the functions behind the two patterns that end in a slash.
pub mod Paths
pub mod Durations
pub mod Responses
use tuplespace.Base.{
  Bool, true, false, ◌||◌, not, Option, none, some, List, [], ◌∷◌, ◌++◌, Text, codes, text_eq,
  cut_prefix, has_char, ◌==◌, is_empty, if◌then◌else◌, ℤ,
}
use tuplespace.Strconv.{parse_int}

-- strings.TrimPrefix
abbrev or_whole : Text → Option Text → Text
or_whole s none = s
or_whole s (some rest) = rest

unfoldable pub trim_prefix : Text → Text → Text
trim_prefix p s = or_whole s (cut_prefix p s)

pub push_first {ℓ} : {A : Type ℓ} → A → List (List A) → List (List A)
push_first x [] = (x ∷ []) ∷ []
push_first x (p ∷ ps) = (x ∷ p) ∷ ps

-- strings.Split(s, "/")
pub split_path : Text → List Text
unfolding push_first
split_path [] = [] ∷ []
split_path (c ∷ s) = let rest = split_path s in if c == b'/' then [] ∷ rest else push_first c rest

-- Two parts, none of them empty.
pub two_parts : List Text → Option (Text × Text)
two_parts (a ∷ b ∷ []) = if is_empty a || is_empty b then none else some (a, b)
two_parts _ = none

unfoldable pub parse_space_path : Text → Option (Text × Text)
unfolding split_path two_parts trim_prefix
parse_space_path path = two_parts (split_path (trim_prefix (codes "/v1/spaces/") path))

unfoldable pub parse_admin_tuple_path : Text → Option ℤ
unfolding trim_prefix
parse_admin_tuple_path path =
    let trimmed = trim_prefix (codes "/v1/admin/tuples/") path in
    let id = parse_int trimmed in if is_empty trimmed || has_char b'/' trimmed then none else id

-- Where a request goes.
pub data Route : Type 0 where
  not_found method_not_allowed : Route
  handle_out handle_rd handle_in : Text → Route
  handle_spaces handle_dump handle_stats handle_config handle_schema handle_peek handle_export :
      Route
  handle_purge handle_waiters handle_notify_test : Route
  handle_tuple_get handle_tuple_delete : ℤ → Route

abbrev only : Text → Text → Route → Route
only wanted method route = if text_eq method wanted then route else method_not_allowed

space_route : Text → Option (Text × Text) → Route
space_route method none = not_found
space_route method (some (space, operation)) = only (codes "POST") method (
    if text_eq operation (codes "out")
    then handle_out space
    else if text_eq operation (codes "rd")
    then handle_rd space
    else if text_eq operation (codes "in")
    then handle_in space
    else not_found)

-- Behind "/v1/spaces/".
unfoldable pub route_spaces : Text → Text → Route
unfolding space_route
route_spaces method path = space_route method (parse_space_path path)

unfoldable pub tuple_route : Text → Option ℤ → Route
tuple_route method none = not_found
tuple_route method (some id) =
    if text_eq method (codes "GET")
    then handle_tuple_get id
    else if text_eq method (codes "DELETE")
    then handle_tuple_delete id
    else method_not_allowed

-- Behind "/v1/admin/".
unfoldable pub route_admin : Text → Text → Route
unfolding tuple_route
route_admin method path =
    if text_eq path (codes "/v1/admin/spaces")
    then only (codes "GET") method handle_spaces
    else if text_eq path (codes "/v1/admin/dump")
    then only (codes "POST") method handle_dump
    else if text_eq path (codes "/v1/admin/stats")
    then only (codes "GET") method handle_stats
    else if text_eq path (codes "/v1/admin/config")
    then only (codes "GET") method handle_config
    else if text_eq path (codes "/v1/admin/schema")
    then only (codes "GET") method handle_schema
    else if text_eq path (codes "/v1/admin/peek")
    then only (codes "POST") method handle_peek
    else if text_eq path (codes "/v1/admin/export")
    then only (codes "POST") method handle_export
    else if text_eq path (codes "/v1/admin/purge")
    then only (codes "POST") method handle_purge
    else if text_eq path (codes "/v1/admin/waiters")
    then only (codes "GET") method handle_waiters
    else if text_eq path (codes "/v1/admin/notify-test")
    then only (codes "POST") method handle_notify_test
    else tuple_route method (parse_admin_tuple_path path)
