-- ===== src/Crawl/Tests.antt =====
-- src/bin/lib/cp-utils.js: a directory with a file for its own path, and the theorem at it.
use caskfs.Base.{◌≡◌, refl, nat_eq, list_eq, List, [], ◌∷◌, All, inl, inr}
use caskfs.Base.Text.{Text, codes}
use caskfs.Crawl.Defs.{Folder, unreadable, readable, done, dir, file, other}
use caskfs.Crawl.Defs.{extension_mismatch, cannot_read, walk, crawl_local, is_hidden, is_sentinel}
use caskfs.Crawl.Defs.{dir_ext, sentinel_ext}
use caskfs.Crawl.Apart.{IsTree, HasApartTargets, Below, crawl_local-HasApartTargets}

-- a.txt/__file__.txt stands for the file a.txt, and .git is left out.
abbrev local : Folder
local = readable (
    dir (codes "a.txt")
      (readable (file (codes "__file__.txt") (file (codes "b") (other (codes "p") done))))
      (file (codes ".git") (dir (codes "x") unreadable done)))

abbrev src : List Text
src = codes "src" ∷ []

abbrev to : List Text
to = codes "data" ∷ []

crawl_run : crawl_local local src to ≡ record {
  files =
      (codes "src" ∷ codes "a.txt" ∷ codes "__file__.txt" ∷ [], codes "data" ∷ codes "a.txt" ∷ [])
      ∷ (
        codes "src" ∷ codes "a.txt" ∷ codes "b" ∷ [],
        codes "data" ∷ codes "a.txt" ∷ codes "b" ∷ [],
      )
      ∷ [];
  errors = cannot_read (codes "src" ∷ codes "x" ∷ []) ∷ [];
}
unfolding crawl_local walk is_hidden is_sentinel dir_ext sentinel_ext nat_eq list_eq
crawl_run = refl

mismatch_run :
    crawl_local (readable (file (codes "__file__.md") (file (codes "b") done))) src to
    ≡ record { files = []; errors = extension_mismatch src (codes "__file__.md") ∷ [] }
unfolding crawl_local walk is_hidden is_sentinel dir_ext sentinel_ext nat_eq list_eq
mismatch_run = refl

local-IsTree : IsTree local
unfolding IsTree
local-IsTree = (
  (λ n. elim n [ inl p ↦ cc p | inr r ↦ elim r [ inl q ↦ cc q | inr z ↦ z ] ]),
  ((λ n. elim n [ inl p ↦ cc p | inr z ↦ z ]), ((λ z. z), tt)),
  ((λ n. elim n [ inl p ↦ cc p | inr z ↦ z ]), ((λ z. z), tt, tt)),
)

crawl_local-HasApartTargets_example :
    HasApartTargets (crawl_local local src to).files
    × All (Below to) (crawl_local local src to).files
crawl_local-HasApartTargets_example = crawl_local-HasApartTargets local src to local-IsTree
