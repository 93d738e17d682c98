-- ===== src/Cas/Layout.antt =====
-- src/lib/cas.js: where the files of the store lie, and that no two of them meet.
use caskfs.Base.{ℕ, zero, suc, ◌+◌, ◌≤◌, ◌≡◌, ◌≢◌, refl, sym, ◌∙◌, ap, nat_eq, list_eq, arith}
use caskfs.Base.{
  List, [], ◌∷◌, ◌++◌, take, drop, length, length-append, All, All-append, append_assoc,
}
use caskfs.Base.Text.{Text, codes}
use caskfs.Paths.{slash, path_of, join_slash, NoSlash, IsClean, basename, join-path_of}
use caskfs.Paths.{basename-path_of}
use caskfs.Cas.Disk.{Bytes}
use caskfs.Cas.Ops.{Env, disk_path, quad_path, tmp_path}

-- A SHA-256 digest in hex, as far as paths are concerned.
pub record IsDigest (h : Text) : Type 0 where
  pub size : length h ≡ 64
  pub no_slash : NoSlash h

-- A UUID, as far as paths are concerned.
pub record IsUuid (u : Text) : Type 0 where
  pub size : length u ≡ 36
  pub no_slash : NoSlash u

-- What is assumed of the configuration and of Node's crypto.
pub record IsLawful (env : Env) : Type 0 where
  pub root : List Text
  pub root_dir : env.root_dir ≡ path_of root
  pub root_IsClean : All IsClean root
  pub digest : (b : Bytes) → IsDigest (env.sha256 b)

-- Three characters or more make a name.
pub long-IsClean : (p : Text) → 3 ≤ length p → NoSlash p → IsClean p
long-IsClean p l n = record {
  some_text = λ e. absurd (omega (arith, ap length e));
  no_slash = n;
  not_dot = λ e. absurd (omega (arith, ap length e));
  not_dots = λ e. absurd (omega (arith, ap length e));
}

pub NoSlash-take : (n : ℕ) (t : Text) → NoSlash t → NoSlash (take n t)
NoSlash-take zero t h = tt
NoSlash-take (suc n) [] h = tt
NoSlash-take (suc n) (c ∷ t) h = (h.0, NoSlash-take n t h.1)

NoSlash-drop : (n : ℕ) (t : Text) → NoSlash t → NoSlash (drop n t)
NoSlash-drop zero t h = h
NoSlash-drop (suc n) [] h = tt
NoSlash-drop (suc n) (c ∷ t) h = NoSlash-drop n t h.1

length-take_le : (n : ℕ) (t : Text) → n ≤ length t → length (take n t) ≡ n
length-take_le zero t h = refl
length-take_le (suc n) [] h = absurd (omega arith)
length-take_le (suc n) (c ∷ t) h = omega (arith, length-take_le n t)

length-drop_add : (n : ℕ) (t : Text) → n ≤ length t → length (drop n t) + n ≡ length t
length-drop_add zero t h = omega arith
length-drop_add (suc n) [] h = absurd (omega arith)
length-drop_add (suc n) (c ∷ t) h = omega (arith, length-drop_add n t)

-- The parts of the path of a hash file, below the root.
abbrev pub cas_parts : Text → List Text
cas_parts h = codes "cas" ∷ take 3 h ∷ take 3 (drop 3 h) ∷ h ∷ []

pub cas_parts-IsClean : (h : Text) → 6 ≤ length h → NoSlash h → All IsClean (cas_parts h)
cas_parts-IsClean h l n =
    let second = take 3 (drop 3 h) in
    let long : 3 ≤ length second =
      omega (arith, length-take_le 3 (drop 3 h), length-drop_add 3 h) in
    (
      long-IsClean (codes "cas") (omega arith) (ground arith),
      (
        long-IsClean (take 3 h) (omega (arith, length-take_le 3 h)) (NoSlash-take 3 h n),
        (
          long-IsClean second long (NoSlash-take 3 (drop 3 h) (NoSlash-drop 3 h n)),
          (long-IsClean h (omega arith) n, tt),
        ),
      ),
    )

module _ {env : Env} (w : IsLawful env) where
  disk_path-parts :
      (h : Text) → 6 ≤ length h → NoSlash h → disk_path env h ≡ path_of (w.root ++ cas_parts h)
  unfolding disk_path
  disk_path-parts h l n =
      rw w.root_dir (join-path_of w.root (codes "cas") _ w.root_IsClean (cas_parts-IsClean h l n))

  digest-IsClean : (h : Text) → IsDigest h → All IsClean (cas_parts h)
  digest-IsClean h d = cas_parts-IsClean h (omega (arith, d.size)) d.no_slash

  path-IsClean : (h : Text) → IsDigest h → All IsClean (w.root ++ cas_parts h)
  path-IsClean h d = All-append IsClean w.root (cas_parts h) w.root_IsClean (digest-IsClean h d)

-- The length of a path, each part with the slash before it.
abbrev text_size : List Text → ℕ
text_size [] = 0
text_size (p ∷ ps) = suc (length p) + text_size ps

text_size-append : (ps qs : List Text) → text_size (ps ++ qs) ≡ text_size ps + text_size qs
text_size-append [] qs = omega arith
text_size-append (p ∷ ps) qs = omega (arith, text_size-append ps qs)

length-path_of : (p : Text) (ps : List Text) → length (path_of (p ∷ ps)) ≡ text_size (p ∷ ps)
length-path_of p [] = omega arith
length-path_of p (q ∷ ps) =
    omega (arith, length-append p (slash ∷ join_slash (q ∷ ps)), length-path_of q ps)

length-path_of_append :
    (ps : List Text) (q : Text) (qs : List Text)
    → length (path_of (ps ++ q ∷ qs)) ≡ text_size ps + text_size (q ∷ qs)
length-path_of_append [] q qs = omega (arith, length-path_of q qs)
length-path_of_append (p ∷ ps) q qs =
    omega (arith, length-path_of p (ps ++ q ∷ qs), text_size-append ps (q ∷ qs))

pub append-cancel_right : (xs ys zs : Text) → length xs ≡ length ys → xs ++ zs ≡ ys ++ zs → xs ≡ ys
append-cancel_right [] [] zs l e = refl
append-cancel_right [] (y ∷ ys) zs l e = absurd (omega arith)
append-cancel_right (x ∷ xs) [] zs l e = absurd (omega arith)
append-cancel_right (x ∷ xs) (y ∷ ys) zs l e =
    cc (append-cancel_right xs ys zs (omega arith) (ap (drop 1) e))

cas_parts-size : (h : Text) → length h ≡ 64 → text_size (cas_parts h) ≡ 77
cas_parts-size h l =
    omega (arith, length-take_le 3 h, length-take_le 3 (drop 3 h), length-drop_add 3 h)

module _ {env : Env} (w : IsLawful env) where
  length-disk_path : (h : Text) → IsDigest h → length (disk_path env h) ≡ text_size w.root + 77
  length-disk_path h d = rw (disk_path-parts w h (omega (arith, d.size)) d.no_slash) (
      omega (
        arith,
        length-path_of_append w.root (codes "cas") (take 3 h ∷ take 3 (drop 3 h) ∷ h ∷ []),
        cas_parts-size h d.size,
      ))

  length-quad_path : (h : Text) → IsDigest h → length (quad_path env h) ≡ text_size w.root + 80
  unfolding quad_path
  length-quad_path h d =
      omega (arith, length-append (disk_path env h) (codes ".nq"), length-disk_path h d)

  tmp_parts-IsClean : (u : Text) → IsUuid u → All IsClean (codes "tmp" ∷ u ∷ [])
  tmp_parts-IsClean u d = (
    long-IsClean (codes "tmp") (omega arith) (ground arith),
    (long-IsClean u (omega (arith, d.size)) d.no_slash, tt),
  )

  length-tmp_path : (u : Text) → IsUuid u → length (tmp_path env u) ≡ text_size w.root + 41
  unfolding tmp_path
  length-tmp_path u d =
      rw
        (
          w.root_dir,
          join-path_of w.root (codes "tmp") (u ∷ []) w.root_IsClean (tmp_parts-IsClean u d),
        )
        (omega (arith, length-path_of_append w.root (codes "tmp") (u ∷ []), d.size))

  -- The file name of a hash file is its hash, which `finalizeWrite` goes by.
  pub basename-disk_path : (h : Text) → IsDigest h → basename (disk_path env h) ≡ h
  basename-disk_path h d =
      rw (disk_path-parts w h (omega (arith, d.size)) d.no_slash, ← shape)
        (basename-path_of front h (rw shape (path-IsClean w h d)))
    where
      front : List Text
      front = w.root ++ codes "cas" ∷ take 3 h ∷ take 3 (drop 3 h) ∷ []

      shape : front ++ h ∷ [] ≡ w.root ++ cas_parts h
      shape = append_assoc w.root (codes "cas" ∷ take 3 h ∷ take 3 (drop 3 h) ∷ []) (h ∷ [])

  pub disk_path_injective :
      (h k : Text) → IsDigest h → IsDigest k → disk_path env h ≡ disk_path env k → h ≡ k
  disk_path_injective h k dh dk e =
      sym (basename-disk_path h dh) ∙ ap basename e ∙ basename-disk_path k dk

  pub quad_path_injective :
      (h k : Text) → IsDigest h → IsDigest k → quad_path env h ≡ quad_path env k → h ≡ k
  unfolding quad_path
  quad_path_injective h k dh dk e = disk_path_injective h k dh dk (
      append-cancel_right (disk_path env h) (disk_path env k) (codes ".nq")
        (length-disk_path h dh ∙ sym (length-disk_path k dk)) e)

  pub quad_path-ne-disk_path :
      (h k : Text) → IsDigest h → IsDigest k → quad_path env h ≢ disk_path env k
  quad_path-ne-disk_path h k dh dk e =
      omega (arith, length-quad_path h dh, length-disk_path k dk, ap length e)

  pub tmp_path-ne-disk_path :
      (u h : Text) → IsUuid u → IsDigest h → tmp_path env u ≢ disk_path env h
  tmp_path-ne-disk_path u h du dh e =
      omega (arith, length-tmp_path u du, length-disk_path h dh, ap length e)

  pub tmp_path-ne-quad_path :
      (u h : Text) → IsUuid u → IsDigest h → tmp_path env u ≢ quad_path env h
  tmp_path-ne-quad_path u h du dh e =
      omega (arith, length-tmp_path u du, length-quad_path h dh, ap length e)

  -- No two files of the store share a path: hash files of two hashes, their quad files and the
  -- temporary files are all apart.
  pub layout_apart :
      (u h k : Text)
      → IsUuid u
      → IsDigest h
      → IsDigest k
      → (disk_path env h ≡ disk_path env k → h ≡ k)
        × (quad_path env h ≡ quad_path env k → h ≡ k)
        × (quad_path env h ≢ disk_path env k)
        × (tmp_path env u ≢ disk_path env h)
        × (tmp_path env u ≢ quad_path env h)
  layout_apart u h k du dh dk = (
    disk_path_injective h k dh dk,
    quad_path_injective h k dh dk,
    quad_path-ne-disk_path h k dh dk,
    tmp_path-ne-disk_path u h du dh,
    tmp_path-ne-quad_path u h du dh,
  )
