-- ===== src/Corpus/Files.antt =====
-- The files under the Smalt directory, by their paths relative to it.
use smalt_mcp.Prelude.{
  ◌≡◌, refl, Bool, true, false, ◌&&◌, Option, none, some, List, [], ◌∷◌, arith, if◌then◌else◌,
  text_eq, text_eq_iff,
}
use smalt_mcp.Storage.Paths.{FilePath}

abbrev pub path_eq : FilePath → FilePath → Bool
path_eq [] [] = true
path_eq [] (_ ∷ _) = false
path_eq (_ ∷ _) [] = false
path_eq (a ∷ p) (b ∷ q) = text_eq a b && path_eq p q

pub path_eq→eq : (p q : FilePath) → path_eq p q ≡ true → p ≡ q
path_eq→eq [] [] h = refl
path_eq→eq [] (b ∷ q) h = ground arith
path_eq→eq (a ∷ p) [] h = ground arith
path_eq→eq (a ∷ p) (b ∷ q) h = ground (arith, text_eq_iff a b, path_eq→eq p q)

pub path_eq_refl : (p : FilePath) → path_eq p p ≡ true
path_eq_refl [] = refl
path_eq_refl (a ∷ p) = ground (arith, text_eq_iff a a, path_eq_refl p)

module _ {C : Type 0} where
  -- `path.read_bytes()`; `none` where there is no such file.
  unfoldable pub read_file : FilePath → List (FilePath × C) → Option C
  read_file path [] = none
  read_file path ((p, c) ∷ files) = if path_eq p path then some c else read_file path files

  -- Tmp-then-rename: the whole content, or nothing.
  unfoldable pub write_file : FilePath → C → List (FilePath × C) → List (FilePath × C)
  write_file path content [] = (path, content) ∷ []
  write_file path content ((p, c) ∷ files) =
      if path_eq p path then (path, content) ∷ files else (p, c) ∷ write_file path content files

  -- `path.unlink()`
  unfoldable pub unlink : FilePath → List (FilePath × C) → List (FilePath × C)
  unlink path [] = []
  unlink path ((p, c) ∷ files) =
      let rest = unlink path files in if path_eq p path then rest else (p, c) ∷ rest

  pub read_file-write_file_self :
      (path : FilePath) (content : C) (files : List (FilePath × C))
      → read_file path (write_file path content files) ≡ some content
  unfolding read_file write_file
  read_file-write_file_self path content [] = ground (arith, path_eq_refl path)
  read_file-write_file_self path content ((p, c) ∷ files) =
      ground (arith, path_eq_refl path, read_file-write_file_self path content files)

  pub read_file-write_file_ne :
      (path other : FilePath) (content : C) (files : List (FilePath × C))
      → path_eq path other ≡ false
      → read_file other (write_file path content files) ≡ read_file other files
  unfolding read_file write_file
  read_file-write_file_ne path other content [] h = ground arith
  read_file-write_file_ne path other content ((p, c) ∷ files) h =
      ground (arith, path_eq→eq p path, read_file-write_file_ne path other content files h)

  pub read_file-unlink_self :
      (path : FilePath) (files : List (FilePath × C)) → read_file path (unlink path files) ≡ none
  unfolding read_file unlink
  read_file-unlink_self path [] = refl
  read_file-unlink_self path ((p, c) ∷ files) = ground (arith, read_file-unlink_self path files)

  pub read_file-unlink_ne :
      (path other : FilePath) (files : List (FilePath × C))
      → path_eq path other ≡ false
      → read_file other (unlink path files) ≡ read_file other files
  unfolding read_file unlink
  read_file-unlink_ne path other [] h = refl
  read_file-unlink_ne path other ((p, c) ∷ files) h =
      ground (arith, path_eq→eq p path, read_file-unlink_ne path other files h)
