-- ===== src/Http/Paths.antt =====
-- The paths that the client builds (internal/client/client.go, internal/client/admin.go), and where
-- the router sends them.
use tuplespace.Base.{
  ℕ, ◌≡◌, refl, ap, ◌∙◌, true, false, some, [], ◌∷◌, ◌++◌, Text, codes, text_eq, ◌==◌, all,
  is_empty, cut_prefix, has_char, ℤ, InInt64, ok, arith, fail_if-eq-ok,
}
use tuplespace.Strconv.{format_int}
use tuplespace.Strconv.RoundTrip.{parse_int-format_int}
use tuplespace.Strconv.Characters.{parse_int-has_char, parse_int_nonempty}
use tuplespace.Validation.{validate_space, matches_space_pattern, is_space_char, is_alphanumeric}
use tuplespace.Http.{
  handle_out, handle_rd, handle_in, handle_tuple_get, handle_tuple_delete, split_path, push_first,
  two_parts, parse_space_path, parse_admin_tuple_path, trim_prefix, route_spaces, route_admin,
  tuple_route,
}

-- "/v1/spaces/"+space+"/out" and its kin
unfoldable pub space_path : Text → Text → Text
space_path space operation = codes "/v1/spaces/" ++ space ++ b'/' ∷ operation

-- "/v1/admin/tuples/"+strconv.FormatInt(tupleID, 10)
unfoldable pub tuple_path : ℤ → Text
tuple_path id = codes "/v1/admin/tuples/" ++ format_int id

split_path-last : (s : Text) → has_char b'/' s ≡ false → split_path s ≡ s ∷ []
unfolding split_path has_char push_first
split_path-last [] h = refl
split_path-last (c ∷ s) h = ground (arith, split_path-last s)

split_path-first :
    (s t : Text) → has_char b'/' s ≡ false → split_path (s ++ b'/' ∷ t) ≡ s ∷ split_path t
unfolding split_path has_char push_first
split_path-first [] t h = refl
split_path-first (c ∷ s) t h = ground (arith, split_path-first s t)

space_char_no_slash : (c : ℕ) → is_space_char c ≡ true → (c == b'/') ≡ false
unfolding is_space_char is_alphanumeric
space_char_no_slash c h = ground arith

all_space_chars : (s : Text) → all is_space_char s ≡ true → has_char b'/' s ≡ false
unfolding has_char
all_space_chars [] h = refl
all_space_chars (c ∷ s) h = ground (arith, all_space_chars s, space_char_no_slash c)

pattern_no_slash :
    (s : Text) → matches_space_pattern s ≡ true → (has_char b'/' s ≡ false) × (is_empty s ≡ false)
unfolding matches_space_pattern has_char is_space_char
pattern_no_slash [] h = cc
pattern_no_slash (c ∷ s) h = (ground (arith, all_space_chars s, space_char_no_slash c), refl)

two_parts-split_path :
    (space operation : Text)
    → has_char b'/' space ≡ false
    → is_empty space ≡ false
    → has_char b'/' operation ≡ false
    → is_empty operation ≡ false
    → two_parts (split_path (space ++ b'/' ∷ operation)) ≡ some (space, operation)
unfolding two_parts
two_parts-split_path space operation s full o last =
    rw (split_path-first space operation s, split_path-last operation o, full, last) refl

parse_space_path-space_path :
    (space operation : Text)
    → validate_space space ≡ ok tt
    → has_char b'/' operation ≡ false
    → is_empty operation ≡ false
    → parse_space_path (space_path space operation) ≡ some (space, operation)
unfolding parse_space_path space_path trim_prefix validate_space cut_prefix
parse_space_path-space_path space operation h o last =
    let accepted : matches_space_pattern space ≡ true = ground (arith, fail_if-eq-ok _ _ h) in
    let (s, full) = pattern_no_slash space accepted in
    two_parts-split_path space operation s full o last

-- The three requests of the client for a space that the server accepts reach the handler of their
-- operation, with that space.
pub route_spaces-space_path :
    (space : Text)
    → validate_space space ≡ ok tt
    → (route_spaces (codes "POST") (space_path space (codes "out")) ≡ handle_out space)
      × (route_spaces (codes "POST") (space_path space (codes "rd")) ≡ handle_rd space)
      × (route_spaces (codes "POST") (space_path space (codes "in")) ≡ handle_in space)
unfolding route_spaces text_eq has_char
route_spaces-space_path space h = (
  rw (parse_space_path-space_path space (codes "out") h refl refl) refl,
  rw (parse_space_path-space_path space (codes "rd") h refl refl) refl,
  rw (parse_space_path-space_path space (codes "in") h refl refl) refl,
)

parse_admin_tuple_path-tuple_path :
    (id : ℤ) → InInt64 id → parse_admin_tuple_path (tuple_path id) ≡ some id
unfolding parse_admin_tuple_path tuple_path trim_prefix cut_prefix
parse_admin_tuple_path-tuple_path id h =
    let parsed = parse_int-format_int id h in
    rw (parse_int_nonempty (format_int id) id parsed, parse_int-has_char (format_int id) id parsed)
      parsed

route_admin-tuple :
    (method : Text) (id : ℤ)
    → route_admin method (tuple_path id)
      ≡ tuple_route method (parse_admin_tuple_path (tuple_path id))
unfolding route_admin tuple_path text_eq
route_admin-tuple method id = refl

-- The client's requests for one tuple reach the handlers of that tuple, with the same number, for
-- every number of 64 bits.
pub route_admin-tuple_path :
    (id : ℤ)
    → InInt64 id
    → (route_admin (codes "GET") (tuple_path id) ≡ handle_tuple_get id)
      × (route_admin (codes "DELETE") (tuple_path id) ≡ handle_tuple_delete id)
unfolding tuple_route text_eq
route_admin-tuple_path id h =
    let parsed = parse_admin_tuple_path-tuple_path id h in
    (
      route_admin-tuple (codes "GET") id ∙ ap (tuple_route (codes "GET")) parsed,
      route_admin-tuple (codes "DELETE") id ∙ ap (tuple_route (codes "DELETE")) parsed,
    )
