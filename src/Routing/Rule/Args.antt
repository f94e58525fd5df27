-- ===== src/Routing/Rule/Args.antt =====
-- `parseArgs` and `createMatcher` of internal/router/rule.go.
use balance_x.Common.{ℕ, ◌||◌, List, [], ◌∷◌, ◌++◌, Option, none, some, ◌==◌, if◌then◌else◌}
use balance_x.Routing.Bytes.{Text, codes, text_eq, trim_space, split_at, drop_last}
use balance_x.Routing.Matcher.{
  Net, MatcherFunc, match_path_prefix, match_path, match_method, match_header, match_client_ip,
}
use balance_x.Routing.Rule.{
  Result, ok, err, ◌>>=◌, invalid_matcher, unknown_matcher, wrong_arity, unterminated_string,
}

-- The last argument, if any of it was read.
abbrev pub last_arg : Text → List Text
last_arg [] = []
last_arg (c ∷ s) = trim_space (c ∷ s) ∷ []

-- The loop over the characters, with the argument at hand and the quote that is open.
unfoldable pub args_loop : Option ℕ → Text → Text → Result (List Text)
args_loop (some q) current [] = err unterminated_string
args_loop none current [] = ok (last_arg current)
args_loop (some q) current (c ∷ s) =
    args_loop (if c == q then none else some q) (if c == q then current else current ++ c ∷ []) s
args_loop none current (c ∷ s) =
    let quoted = args_loop (some c) current s in
    let next = args_loop none [] s in
    let plain = args_loop none (current ++ c ∷ []) s in
    if c == b'\'' || c == b'"'
    then quoted
    else if c == b','
    then (next >>= λ rest. ok (trim_space current ∷ rest))
    else plain

unfoldable pub parse_args : Text → Result (List Text)
unfolding args_loop
parse_args s = if text_eq (trim_space s) [] then ok [] else args_loop none [] s

abbrev pub one_arg : Text → List Text → (Text → MatcherFunc) → Result MatcherFunc
one_arg name (a ∷ []) f = ok (f a)
one_arg name [] f = err (wrong_arity name)
one_arg name (a ∷ b ∷ rest) f = err (wrong_arity name)

abbrev pub two_args : Text → List Text → (Text → Text → MatcherFunc) → Result MatcherFunc
two_args name (a ∷ b ∷ []) f = ok (f a b)
two_args name [] f = err (wrong_arity name)
two_args name (a ∷ []) f = err (wrong_arity name)
two_args name (a ∷ b ∷ c ∷ rest) f = err (wrong_arity name)

-- The `switch` on the matcher's name.
unfoldable pub make_matcher : Net → Text → List Text → Result MatcherFunc
make_matcher net name args =
    if text_eq name (codes "PathPrefix")
    then one_arg name args match_path_prefix
    else if text_eq name (codes "Path")
    then one_arg name args match_path
    else if text_eq name (codes "Method")
    then one_arg name args match_method
    else if text_eq name (codes "Header")
    then two_args name args match_header
    else if text_eq name (codes "ClientIP")
    then one_arg name args (match_client_ip net)
    else err (unknown_matcher name)

unfoldable pub create_parts : Net → Text → Option (Text × Text) → Result MatcherFunc
create_parts net s none = err (invalid_matcher s)
create_parts net s (some (name, after)) = elim (drop_last b')' after) [
  | none ↦ err (invalid_matcher s)
  | some args ↦ parse_args (trim_space args) >>= λ list. make_matcher net (trim_space name) list
]

unfoldable pub create_matcher : Net → Text → Result MatcherFunc
unfolding create_parts
create_matcher net s = create_parts net s (split_at b'(' s)
