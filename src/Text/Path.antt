-- ===== src/Text/Path.antt =====
-- path.Clean of Go's standard library, on the components between slashes.
use breakfix.Prelude.{ℕ, Bool, List, [], ◌∷◌, ◌++◌, ◌≡◌, refl, ◌==◌, if◌then◌else◌, reverse}
use breakfix.Text.{Text, codes, text_eq, has_prefix, is_empty}

abbrev pub slash : ℕ
slash = b'/'

abbrev pub dot : Text
dot = codes "."

abbrev pub dot_dot : Text
dot_dot = codes ".."

-- Puts a byte in front of the first component.
abbrev pub push_byte : ℕ → List Text → List Text
push_byte c [] = (c ∷ []) ∷ []
push_byte c (w ∷ ws) = (c ∷ w) ∷ ws

-- The components between the slashes; there is at least one.
unfoldable pub split : Text → List Text
split [] = [] ∷ []
split (c ∷ s) = let ws = split s in if c == slash then [] ∷ ws else push_byte c ws

unfoldable pub join : List Text → Text
join [] = []
join (w ∷ []) = w
join (w ∷ v ∷ ws) = w ++ slash ∷ join (v ∷ ws)

-- `..` takes back the last component that is not `..` itself.
unfoldable pub back : (rooted : Bool) → List Text → List Text
unfolding text_eq
back rooted [] = if rooted then [] else dot_dot ∷ []
back rooted (w ∷ ws) = if text_eq w dot_dot then dot_dot ∷ w ∷ ws else ws

-- One component; the components that stay are on a stack.
unfoldable pub clean_step : (rooted : Bool) → List Text → Text → List Text
unfolding back
clean_step rooted stack w =
    if is_empty w
    then stack
    else if text_eq w dot
    then stack
    else if text_eq w dot_dot
    then back rooted stack
    else w ∷ stack

unfoldable pub clean_loop : (rooted : Bool) → List Text → List Text → List Text
unfolding clean_step
clean_loop rooted stack [] = stack
clean_loop rooted stack (w ∷ ws) = clean_loop rooted (clean_step rooted stack w) ws

abbrev pub or_dot : Text → Text
or_dot [] = dot
or_dot (c ∷ s) = c ∷ s

unfoldable pub clean : Text → Text
unfolding clean_loop split join has_prefix
clean path =
    let rooted = has_prefix path (slash ∷ []) in
    let body = join (reverse (clean_loop rooted [] (split path))) in
    if rooted then slash ∷ body else or_dot body

clean_dots : clean (codes "a//b/./../c/") ≡ codes "a/c"
unfolding clean
clean_dots = refl

clean_up : clean (codes "a/../../b") ≡ codes "../b"
unfolding clean
clean_up = refl

clean_root : clean (codes "/../a/..") ≡ codes "/"
unfolding clean
clean_root = refl
