-- ===== src/Copy/FilePath.antt =====
-- filepath.Join and filepath.Base of Go's path/filepath, where the separator is `/`.
use mc.Base.{Bool, false, not, ◌&&◌, List, [], ◌∷◌, ◌++◌, ◌==◌, if◌then◌else◌, ◌≡◌, refl}
use mc.Base.Strings.{Bytes, codes, str_eq, split}
use mc.Url.{slash}

-- An element is pushed on the stack of those before it, the last one on top.
push_element : Bool → List Bytes → Bytes → List Bytes
push_element rooted [] e =
    if str_eq e []
    then []
    else if str_eq e (codes ".")
    then []
    else if rooted && str_eq e (codes "..")
    then []
    else e ∷ []
push_element rooted (top ∷ stack) e =
    if str_eq e []
    then top ∷ stack
    else if str_eq e (codes ".")
    then top ∷ stack
    else if str_eq e (codes "..") && not (str_eq top (codes ".."))
    then stack
    else e ∷ top ∷ stack

push_all : Bool → List Bytes → List Bytes → List Bytes
push_all rooted stack [] = stack
push_all rooted stack (e ∷ es) = push_all rooted (push_element rooted stack e) es

join_stack : List Bytes → Bytes
join_stack [] = []
join_stack (e ∷ []) = e
join_stack (e ∷ f ∷ stack) = join_stack (f ∷ stack) ++ (slash ∷ e)

abbrev is_rooted : Bytes → Bool
is_rooted [] = false
is_rooted (c ∷ s) = c == slash

-- filepath.Clean
unfoldable pub clean : Bytes → Bytes
unfolding push_element push_all join_stack
clean path =
    let elements = join_stack (push_all (is_rooted path) [] (split path slash)) in
    if is_rooted path then slash ∷ elements else if str_eq elements [] then codes "." else elements

-- filepath.Join(dir, name): empty elements are left out.
unfoldable pub join : Bytes → Bytes → Bytes
join dir name =
    if str_eq dir []
    then (if str_eq name [] then [] else clean name)
    else clean (dir ++ (slash ∷ name))

last_element : Bytes → List Bytes → Bytes
last_element found [] = found
last_element found (e ∷ es) = last_element (if str_eq e [] then found else e) es

-- filepath.Base: the last element that is not empty.
unfoldable pub base : Bytes → Bytes
unfolding last_element
base [] = codes "."
base (c ∷ s) =
    let name = last_element [] (split (c ∷ s) slash) in if str_eq name [] then codes "/" else name

join_example : join (codes "/b/dir/") (base (codes "/home/x/file.txt")) ≡ codes "/b/dir/file.txt"
unfolding join clean base split
join_example = refl

join_dots : join (codes "/b/./dir//") (codes "../c") ≡ codes "/b/c"
unfolding join clean split
join_dots = refl
