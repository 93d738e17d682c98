-- ===== src/Paths/Defs.antt =====
-- split('/'), filter(p => p !== ''), path.join, path.posix.join, path.basename and path.parse(p).dir.
use caskfs.Base.{ℕ, Bool, true, false, ◌==◌, ◌≢◌, nat_eq, list_eq, if◌then◌else◌}
use caskfs.Base.{List, [], ◌∷◌, ◌++◌, keep, All}
use caskfs.Base.Text.{Text, codes}

abbrev pub slash : ℕ
slash = 47

-- One more character at the front of the first piece.
abbrev pub onto_first : ℕ → List Text → List Text
onto_first c [] = (c ∷ []) ∷ []
onto_first c (p ∷ ps) = (c ∷ p) ∷ ps

-- p.split('/')
unfoldable pub split : Text → List Text
split [] = [] ∷ []
split (c ∷ t) = let rest = split t in if c == slash then [] ∷ rest else onto_first c rest

abbrev pub is_part : Text → Bool
is_part [] = false
is_part (c ∷ t) = true

-- p.split('/').filter(p => p !== '')
unfoldable pub parts : Text → List Text
unfolding split
parts t = keep is_part (split t)

-- ps.join('/')
abbrev pub join_slash : List Text → Text
join_slash [] = []
join_slash (p ∷ []) = p
join_slash (p ∷ q ∷ ps) = p ++ slash ∷ join_slash (q ∷ ps)

abbrev pub path_of : List Text → Text
path_of ps = slash ∷ join_slash ps

abbrev pub drop_last {ℓ} : {A : Type ℓ} → List A → List A
drop_last [] = []
drop_last (x ∷ []) = []
drop_last (x ∷ y ∷ xs) = x ∷ drop_last (y ∷ xs)

-- One piece of path.normalize on an absolute path: empty pieces and "." go, ".." takes the piece
-- before it away.
abbrev pub put_piece : List Text → Text → List Text
put_piece out [] = out
put_piece out (c ∷ t) =
    if (c ∷ t) == codes "."
    then out
    else if (c ∷ t) == codes ".."
    then drop_last out
    else out ++ (c ∷ t) ∷ []

abbrev pub put_pieces : List Text → List Text → List Text
put_pieces out [] = out
put_pieces out (p ∷ ps) = put_pieces (put_piece out p) ps

abbrev pub ends_with_slash : Text → Bool
ends_with_slash [] = false
ends_with_slash (c ∷ []) = c == slash
ends_with_slash (c ∷ d ∷ t) = ends_with_slash (d ∷ t)

-- A trailing slash stays.
abbrev pub rebuild : List Text → Bool → Text
rebuild [] trailing = slash ∷ []
rebuild (p ∷ ps) trailing = path_of (p ∷ ps) ++ (if trailing then slash ∷ [] else [])

-- path.normalize of an absolute path
unfoldable pub normalize : Text → Text
unfolding split
normalize t = rebuild (put_pieces [] (split t)) (ends_with_slash t)

-- path.join of two paths that are not empty, the first one absolute
unfoldable pub join : Text → Text → Text
unfolding normalize
join a b = normalize (a ++ slash ∷ b)

abbrev pub last_or : Text → List Text → Text
last_or d [] = d
last_or d (p ∷ ps) = last_or p ps

-- path.basename
unfoldable pub basename : Text → Text
unfolding parts
basename t = last_or [] (parts t)

-- path.parse(p).dir.split('/').filter(p => p !== '')
unfoldable pub dir_parts : Text → List Text
unfolding parts
dir_parts t = drop_last (parts t)

-- The slashes at the end go.
abbrev pub strip_cons : ℕ → Text → Text
strip_cons c [] = if c == slash then [] else c ∷ []
strip_cons c (d ∷ t) = c ∷ d ∷ t

unfoldable pub strip : Text → Text
strip [] = []
strip (c ∷ t) = strip_cons c (strip t)

-- The directory part; that of a file in the root is "/".
abbrev pub or_root : Text → Text → Text
or_root [] [] = []
or_root (c ∷ t) [] = if c == slash then slash ∷ [] else []
or_root t (d ∷ dir) = d ∷ dir

-- path.parse(p).dir; path.parse(p).base is `basename`
unfoldable pub parse_dir : Text → Text
unfolding split strip
parse_dir t = or_root t (join_slash (drop_last (split (strip t))))

abbrev pub NoSlash : Text → Type 0
NoSlash = All (λ c. c ≢ slash)

-- A name of a file or a directory: not empty, no slash, neither "." nor "..".
pub record IsClean (p : Text) : Type 0 where
  pub some_text : p ≢ []
  pub no_slash : NoSlash p
  pub not_dot : p ≢ codes "."
  pub not_dots : p ≢ codes ".."
