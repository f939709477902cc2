-- ===== src/Paths.antt =====
-- The lexical path functions of package path/filepath on Unix, which the program calls for the
-- session directories (cli/main.go, cli/record_proxify.go, cli/web_index.go).
use http_capture.Prelude.{
  ℕ, Bool, true, false, Bytes, codes, List, [], ◌∷◌, ◌++◌, reverse, if◌then◌else◌, str_eq,
  has_prefix, join_with, split_on, ◌≡◌, refl,
}

abbrev slash : ℕ
slash = b'/'

abbrev dot_dot : Bytes
dot_dot = codes ".."

up : Bool → List Bytes → List Bytes
up rooted [] = if rooted then [] else dot_dot ∷ []
up rooted (top ∷ rest) = if str_eq top dot_dot then dot_dot ∷ top ∷ rest else rest

push : Bool → List Bytes → Bytes → List Bytes
unfolding up
push rooted stack part =
    if str_eq part []
    then stack
    else if str_eq part (codes ".")
    then stack
    else if str_eq part dot_dot
    then up rooted stack
    else part ∷ stack

walk : Bool → List Bytes → List Bytes → List Bytes
unfolding push
walk rooted stack [] = reverse stack
walk rooted stack (part ∷ parts) = walk rooted (push rooted stack part) parts

written : Bool → Bytes → Bytes
written true path = slash ∷ path
written false path = if str_eq path [] then codes "." else path

-- `filepath.Clean`.
unfoldable pub clean : Bytes → Bytes
unfolding split_on walk written str_eq has_prefix join_with
clean path =
    let rooted = has_prefix path (slash ∷ []) in
    written rooted (join_with (slash ∷ []) (walk rooted [] (split_on slash path)))

-- `filepath.Join` of two elements.
unfoldable pub join : Bytes → Bytes → Bytes
unfolding clean str_eq
join directory name =
    if str_eq directory []
    then (if str_eq name [] then [] else clean name)
    else clean (directory ++ (slash ∷ name))

clean_up : clean (codes "/a/./b//../c/") ≡ codes "/a/c"
unfolding clean
clean_up = refl

clean_relative : clean (codes "../x/../..") ≡ codes "../.."
unfolding clean
clean_relative = refl

clean_empty : clean [] ≡ codes "."
unfolding clean
clean_empty = refl
