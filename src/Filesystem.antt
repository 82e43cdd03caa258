-- ===== src/Filesystem.antt =====
-- filesystem/FileUtils.cpp and FileUtils.hpp: the listings of a directory. The disk is an argument: what
-- std::filesystem answers, on paths that are texts. A path that is_regular_file or is_directory
-- cannot tell about counts as neither, which is what the two functions with an error code do.
pub mod Patterns
pub mod Glob
pub mod Parts
pub mod Floating
pub mod Matching
pub mod Kinds
pub mod Decision
pub mod Several
pub mod Listing
pub mod DirWatcher
use phud.Prelude.{
  ℕ, Bool, true, false, not, ◌&&◌, ◌||◌, List, [], ◌∷◌, Bytes, codes, is_empty, if◌then◌else◌,
}
use phud.Prelude.Result.{Result, ok, err, ◌>>=◌, ◌>>◌, Build, require}
use phud.Text.{starts_with, ends_with}
use Patterns.{matches_pattern}

pub record Disk : Type 0 where
  pub is_dir : Bytes → Bool
  pub is_file : Bytes → Bool
  -- the entries of a directory, and the entries of it and of the directories below it
  pub entries : Bytes → List Bytes
  pub descendants : Bytes → List Bytes
  pub filename : Bytes → Bytes
  pub stem : Bytes → Bytes
  -- path / name, and the same in normal form
  pub child : Bytes → Bytes → Bytes
  pub normal : Bytes → Bytes
  pub content : Bytes → Bytes
  pub last_write_time : Bytes → ℕ

-- What std::erase_if leaves, by the test that it negates.
unfoldable pub keep {ℓ} : {A : Type ℓ} → (A → Bool) → List A → List A
keep p [] = []
keep p (x ∷ xs) = if p x then x ∷ keep p xs else keep p xs

module _ (disk : Disk) where
  open disk use {is_dir, is_file, entries, descendants, filename, content}

  -- readToString: the stream is read to its end, and then from its start
  unfoldable pub read_to_string : Build → Bytes → Result Bytes
  read_to_string b p = do require b (not (is_dir p)); require b (is_file p); ok (content p)

  -- iterateDirs at the iterator of one directory
  unfoldable pub list_files_and_dirs : Bytes → List Bytes
  list_files_and_dirs dir = if not (is_dir dir) then [] else entries dir

  unfoldable pub list_files_in_dir : Bytes → Bytes → List Bytes
  unfolding keep
  list_files_in_dir dir post_fix =
      if not (is_dir dir)
      then []
      else keep (λ p. starts_with (filename p) (codes "20") && (ends_with p post_fix && is_file p))
          (entries dir)

  unfoldable pub list_txt_files_in_dir : Bytes → List Bytes
  unfolding keep list_files_and_dirs
  list_txt_files_in_dir dir =
      keep
        (λ p. not (
          not (is_file p)
          || (not (ends_with p (codes ".txt")) || ends_with p (codes "_summary.txt"))))
        (list_files_and_dirs dir)

  unfoldable pub list_sub_dirs : Bytes → List Bytes
  unfolding keep list_files_and_dirs
  list_sub_dirs dir = keep (λ p. not (is_file p)) (list_files_and_dirs dir)

  unfoldable pub list_recursive_files : Build → Bytes → Result (List Bytes)
  unfolding keep
  list_recursive_files b dir = do require b (is_dir dir); ok (keep is_file (descendants dir))

  -- one round of the loop of listFilesMatchingPattern: whether the entry is kept
  unfoldable pub is_matching : Build → Bytes → Bytes → Result Bool
  is_matching b pattern p =
      if is_file p && not (is_empty (filename p))
      then matches_pattern b (filename p) pattern
      else ok false

  unfoldable pub matching_loop : Build → Bytes → List Bytes → Result (List Bytes)
  unfolding is_matching
  matching_loop b pattern [] = ok []
  matching_loop b pattern (p ∷ paths) = do
    kept ← is_matching b pattern p
    rest ← matching_loop b pattern paths
    ok (if kept then p ∷ rest else rest)

  unfoldable pub list_files_matching_pattern : Build → Bytes → Bytes → Result (List Bytes)
  unfolding matching_loop
  list_files_matching_pattern b dir pattern = do
    require b (not (is_empty pattern))
    if not (is_dir dir) then ok [] else matching_loop b pattern (entries dir)

unfoldable pub contains_a_file_ending_with : List Bytes → Bytes → Bool
contains_a_file_ending_with [] s = false
contains_a_file_ending_with (p ∷ files) s = ends_with p s || contains_a_file_ending_with files s
