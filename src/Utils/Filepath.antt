-- ===== src/Utils/Filepath.antt =====
-- Join and Clean of package path/filepath on Unix.
use agent_smith_go.Base.{
  Bool, true, false, List, [], ◌∷◌, ◌++◌, if◌then◌else◌, Bytes, codes, is_empty, eq_bytes,
  split_byte, ◌||◌, ◌==◌,
}

-- The elements of a path with the last one first.
abbrev pub Stack : Type 0
Stack = List Bytes

-- ".." removes the last element, unless there is none to remove.
unfoldable pub go_back : Bool → Stack → Stack
go_back true [] = []
go_back false [] = codes ".." ∷ []
go_back rooted (top ∷ st) = if eq_bytes top (codes "..") then codes ".." ∷ top ∷ st else st

unfoldable pub push_element : Bool → Bytes → Stack → Stack
push_element rooted e st =
    if is_empty e || eq_bytes e (codes ".")
    then st
    else if eq_bytes e (codes "..")
    then go_back rooted st
    else e ∷ st

unfoldable pub resolve : Bool → List Bytes → Stack → Stack
resolve rooted [] st = st
resolve rooted (e ∷ es) st = resolve rooted es (push_element rooted e st)

-- The elements in order, with a slash between two of them.
unfoldable pub join_stack : Stack → Bytes → Bytes
join_stack [] tail = tail
join_stack (e ∷ []) tail = e ++ tail
join_stack (e ∷ d ∷ st) tail = join_stack (d ∷ st) (b'/' ∷ (e ++ tail))

abbrev pub is_rooted : Bytes → Bool
is_rooted [] = false
is_rooted (c ∷ p) = c == b'/'

abbrev or_dot : Bytes → Bytes
or_dot [] = codes "."
or_dot (c ∷ p) = c ∷ p

unfoldable pub clean : Bytes → Bytes
clean p =
    let path = join_stack (resolve (is_rooted p) (split_byte b'/' p) []) [] in
    or_dot (if is_rooted p then b'/' ∷ path else path)

unfoldable pub slash_join : List Bytes → Bytes
slash_join [] = []
slash_join (e ∷ []) = e
slash_join (e ∷ d ∷ es) = e ++ (b'/' ∷ slash_join (d ∷ es))

-- filepath.Join: the empty elements in front are left out.
unfoldable pub join : List Bytes → Bytes
join [] = []
join (e ∷ es) = let rest = join es in if is_empty e then rest else clean (slash_join (e ∷ es))
