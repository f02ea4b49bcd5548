-- ===== src/PolicyStore/Git.antt =====
-- The Git store of core/policystore/git.go: one file for each node and dataset, whose text is the
-- content of the policy. Texts are lists of characters. The repository's path is absolute, so that
-- changing into it twice is no harm.
pub mod RoundTrip
use lohpi.Common.{
  ◌==◌, if◌then◌else◌, codes, empty_argument, file_error, format_error, Outcome, ok, err, panic,
  ◌>>=◌, or_err, ℕ, ◌≡◌, Bool, true, false, ◌&&◌, ◌||◌, Option, none, some, List, [], ◌∷◌, ◌++◌,
}
use lohpi.Proto.{Policy}

-- The file system and go-git. `none` is an error; `commit` stands for Add, Status and Commit (or
-- Checkout) of the work tree, which may also panic.
pub record Files : Type 1 where
  pub Fs : Type 0
  pub text_at : Fs → List ℕ → Option (List ℕ)
  pub repository_exists : Fs → Option Bool
  pub make_repository : Fs → Option Fs
  pub change_directory : Fs → Bool
  pub make_directory : Fs → List ℕ → Option Fs
  pub file_exists : Fs → List ℕ → Option Bool
  pub write : Fs → List ℕ → List ℕ → Option Fs
  pub read : Fs → List ℕ → Option (List ℕ)
  pub commit : Fs → List ℕ → Outcome Fs
  pub write_text :
      (fs : Fs) (path text : List ℕ) (fs' : Fs)
      → write fs path text ≡ some fs'
      → text_at fs' path ≡ some text
  pub read_text :
      (fs : Fs) (path text : List ℕ) → read fs path ≡ some text → text_at fs path ≡ some text
  pub commit_text :
      (fs : Fs) (path text : List ℕ) (fs' : Fs)
      → text_at fs path ≡ some text
      → commit fs path ≡ ok fs'
      → text_at fs' path ≡ some text

-- strings.ReplaceAll(s, "/", "_")
unfoldable pub replace_slashes : List ℕ → List ℕ
replace_slashes [] = []
replace_slashes (c ∷ s) = (if c == 47 then 95 else c) ∷ replace_slashes s

-- fmt.Sprintf("%s/%s", nodeIdentifier, s)
unfoldable pub file_path : List ℕ → List ℕ → List ℕ
unfolding replace_slashes
file_path node dataset_id = node ++ (47 ∷ replace_slashes dataset_id)

-- strconv.FormatBool
abbrev pub format_bool : Bool → List ℕ
format_bool true = codes "true"
format_bool false = codes "false"

-- what strconv.ParseBool accepts
abbrev pub true_words : List (List ℕ)
true_words = codes "1" ∷ codes "t" ∷ codes "T" ∷ codes "TRUE" ∷ codes "true" ∷ codes "True" ∷ []

abbrev pub false_words : List (List ℕ)
false_words = codes "0" ∷ codes "f" ∷ codes "F" ∷ codes "FALSE" ∷ codes "false" ∷ codes "False" ∷ []

unfoldable pub same_text : List ℕ → List ℕ → Bool
same_text [] [] = true
same_text (a ∷ s) (b ∷ t) = a == b && same_text s t
same_text _ _ = false

unfoldable pub is_among : List ℕ → List (List ℕ) → Bool
unfolding same_text
is_among s [] = false
is_among s (w ∷ words) = same_text s w || is_among s words

unfoldable pub parse_bool : List ℕ → Outcome Bool
unfolding is_among
parse_bool s =
    if is_among s true_words
    then ok true
    else if is_among s false_words
    then ok false
    else err format_error

abbrev pub is_yes : Option Bool → Bool
is_yes none = false
is_yes (some b) = b

module _ (files : Files) where
  open files use {
    Fs, repository_exists, make_repository, change_directory, make_directory, file_exists, write,
    read, commit,
  }

  -- a failure of Stat or Chdir ends the process (log.Fatalf)
  abbrev pub or_exit {ℓ} : {A : Type ℓ} → Option A → Outcome A
  or_exit none = panic
  or_exit (some a) = ok a

  abbrev pub repository_there : Fs → Bool → Outcome Fs
  repository_there fs true = ok fs
  repository_there fs false = or_err file_error (make_repository fs)

  abbrev pub in_repository : Fs → Outcome Fs
  in_repository fs = if change_directory fs then ok fs else panic

  -- the file is overwritten or created; a failure panics either way
  abbrev pub write_at : List ℕ → Bool → Fs → Outcome Fs
  write_at path content fs =
      or_exit (file_exists fs path) >>= λ there. or_exit (write fs path (format_bool content))

  -- what `gitWritePolicy` does before it writes the file
  abbrev pub prepared : List ℕ → Fs → Outcome Fs
  prepared node fs =
      or_exit (repository_exists fs) >>= repository_there fs >>= in_repository >>= λ fs'.
      or_err file_error (make_directory fs' node)

  -- `gitWritePolicy`
  unfoldable pub git_write_policy : Policy → List ℕ → Fs → Outcome Fs
  git_write_policy p [] fs = err empty_argument
  git_write_policy p (c ∷ node) fs =
      prepared (c ∷ node) fs
      >>= write_at (file_path (c ∷ node) (codes p.dataset_identifier)) p.content

  -- `gitCommitPolicy`
  unfoldable pub git_commit_policy : Policy → List ℕ → Fs → Outcome Fs
  git_commit_policy p [] fs = err empty_argument
  git_commit_policy p (c ∷ node) fs =
      in_repository fs >>= λ fs'. commit fs' (file_path (c ∷ node) (codes p.dataset_identifier))

  -- `gitStorePolicy`
  unfoldable pub git_store_policy : List ℕ → List ℕ → Policy → Fs → Outcome Fs
  unfolding git_write_policy git_commit_policy
  git_store_policy [] dataset_id p fs = err empty_argument
  git_store_policy (c ∷ node) [] p fs = err empty_argument
  git_store_policy (c ∷ node) (d ∷ dataset_id) p fs =
      git_write_policy p (c ∷ node) fs >>= git_commit_policy p (c ∷ node)

  -- the repository was not found: the empty text and no error
  abbrev pub get_where : List ℕ → Fs → Bool → Outcome (List ℕ)
  get_where path fs false = ok []
  get_where path fs true =
      if change_directory fs
      then or_err file_error (file_exists fs path) >>= (λ there. or_err file_error (read fs path))
      else err file_error

  -- `gitGetDatasetPolicy`
  unfoldable pub git_get_dataset_policy : List ℕ → List ℕ → Fs → Outcome (List ℕ)
  git_get_dataset_policy [] dataset_id fs = err empty_argument
  git_get_dataset_policy (c ∷ node) [] fs = err empty_argument
  git_get_dataset_policy (c ∷ node) (d ∷ dataset_id) fs =
      or_err file_error (repository_exists fs)
      >>= get_where (file_path (c ∷ node) (d ∷ dataset_id)) fs

  abbrev pub exists_where : List ℕ → Fs → Option Bool → Bool
  exists_where path fs none = false
  exists_where path fs (some false) = false
  exists_where path fs (some true) =
      if change_directory fs then is_yes (file_exists fs path) else false

  -- `gitDatasetExists`: every error counts as false
  unfoldable pub git_dataset_exists : List ℕ → List ℕ → Fs → Bool
  git_dataset_exists [] dataset_id fs = false
  git_dataset_exists (c ∷ node) [] fs = false
  git_dataset_exists (c ∷ node) (d ∷ dataset_id) fs =
      exists_where (file_path (c ∷ node) (d ∷ dataset_id)) fs (repository_exists fs)
