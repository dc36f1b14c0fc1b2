-- ===== src/FeatureScripts/FilePaths.antt =====
-- filepath.Join of a directory and a name, for an absolute directory. It cleans the path: empty
-- elements and "." are dropped, and ".." drops the element before it, if there is one.
use Prim.Native.Char.{code}
use k4all_operator.Base.{
  String, ◌<>◌, ◌==◌, ◌||◌, nat_eq, List, [], ◌∷◌, ◌++◌, if◌then◌else◌, ◌≡◌, refl,
}

-- The elements of a path, from the character before which `word` was read.
split_from : String → String → List String
split_from word String.[] = word ∷ []
split_from word (String.◌∷◌ c s) =
    let ended = word ∷ split_from "" s in
    let longer = split_from (word <> String.◌∷◌ c "") s in
    if nat_eq (code c) b'/' then ended else longer

drop_last : List String → List String
drop_last [] = []
drop_last (e ∷ []) = []
drop_last (e ∷ (f ∷ more)) = e ∷ drop_last (f ∷ more)

-- One more element, after those that were kept.
keep_element : List String → String → List String
unfolding drop_last
keep_element kept e =
    if e == "" || e == "." then kept else if e == ".." then drop_last kept else kept ++ (e ∷ [])

clean_from : List String → List String → List String
unfolding keep_element
clean_from kept [] = kept
clean_from kept (e ∷ more) = clean_from (keep_element kept e) more

rooted : List String → String
rooted [] = "/"
rooted (e ∷ []) = "/" <> e
rooted (e ∷ (f ∷ more)) = "/" <> e <> rooted (f ∷ more)

-- filepath.Clean of an absolute path
unfoldable pub clean : String → String
unfolding split_from clean_from rooted
clean path = rooted (clean_from [] (split_from "" path))

unfoldable pub join_path : String → String → String
unfolding clean
join_path dir name = if name == "" then clean dir else clean (dir <> "/" <> name)

joins : join_path "/usr/local/bin" "setup.sh" ≡ "/usr/local/bin/setup.sh"
unfolding join_path
joins = refl

climbs : join_path "/usr/local/bin" "../sbin//./x" ≡ "/usr/local/sbin/x"
unfolding join_path
climbs = refl
