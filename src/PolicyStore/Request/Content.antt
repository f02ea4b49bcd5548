-- ===== src/PolicyStore/Request/Content.antt =====
-- The dataset that the policy store makes for an identifier, and the content that Git has for it.
use lohpi.Common.{
  Bool-cases, codes, file_error, ok, ◌>>=◌, or_err, ok-eq, bind_ok, or_err-ok, ℕ, String, ◌≡◌, refl,
  sym, ap, ◌∙◌, inl, inr, Bool, true, false, ◌&&◌, Option, none, some, List, [], ◌∷◌, ◌++◌, arith,
}
use lohpi.Proto.{Dataset}
use lohpi.Indexer
use lohpi.LookupService
use lohpi.PolicyStore.Git.{
  Files, replace_slashes, file_path, parse_bool, is_yes, get_where, git_get_dataset_policy,
  exists_where, git_dataset_exists,
}
use lohpi.PolicyStore.Request.{
  Clock, unversioned_policy, get_initial_dataset_policy, dataset_with_policy, store_twice,
  git_content, made_where, make_dataset,
}

-- the Boolean that the text of a file spells
abbrev spelled : Option (List ℕ) → Bool
spelled none = false
spelled (some text) = elim (parse_bool text) [ ok b ↦ b | _ ↦ false ]

spelled_lem : (text : List ℕ) (b : Bool) → parse_bool text ≡ ok b → spelled (some text) ≡ b
spelled_lem text b e = rw (spelled, e) refl

module _ (files : Files) where
  -- whether the file system has a file at a path of the repository
  abbrev has_file : List ℕ → files.Fs → Bool
  has_file path fs =
      is_yes (files.repository_exists fs)
      && files.change_directory fs
      && is_yes (files.file_exists fs path)

  -- the content that Git has for a node and a dataset: the text of its file under the directory
  -- of the node, or `false` where there is none. The empty names have no file.
  abbrev pub kept_content : List ℕ → List ℕ → files.Fs → Bool
  kept_content (c ∷ node) (d ∷ dataset_id) fs =
      let path = (c ∷ node) ++ 47 ∷ replace_slashes (d ∷ dataset_id) in
      has_file path fs && spelled (files.read fs path)
  kept_content _ _ fs = false

  exists_where_lem :
      (path : List ℕ) (fs : files.Fs) (o : Option Bool)
      → exists_where files path fs o
        ≡ (is_yes o && files.change_directory fs && is_yes (files.file_exists fs path))
  exists_where_lem path fs none = refl
  exists_where_lem path fs (some false) = refl
  exists_where_lem path fs (some true) = elim (Bool-cases (files.change_directory fs)) [
    | inl inside ↦ rw inside refl
    | inr outside ↦ rw outside refl
  ]

  get_where-spelled :
      (path : List ℕ) (fs : files.Fs) (o : Option Bool) (b : Bool)
      → is_yes o ≡ true
      → (or_err file_error o >>= get_where files path fs >>= parse_bool) ≡ ok b
      → spelled (files.read fs path) ≡ b
  get_where-spelled path fs none b there h = absurd (cc)
  get_where-spelled path fs (some false) b there h = absurd (cc)
  get_where-spelled path fs (some true) b there h = elim (Bool-cases (files.change_directory fs)) [
    | inr outside ↦ absurd (ground (arith, rw outside at h))
    | inl inside ↦
        let (text, got, parsed) = bind_ok (get_where files path fs true) parse_bool b h in
        let (_, _, found) =
          bind_ok (or_err file_error (files.file_exists fs path))
            (λ there. or_err file_error (files.read fs path)) text (rw inside at got) in
        rw (or_err-ok file_error (files.read fs path) text found) (spelled_lem text b parsed)
  ]

  kept_content-none :
      (node dataset_id : List ℕ) (fs : files.Fs)
      → git_dataset_exists files node dataset_id fs ≡ false
      → false ≡ kept_content node dataset_id fs
  unfolding git_dataset_exists file_path
  kept_content-none [] dataset_id fs gone = refl
  kept_content-none (c ∷ node) [] fs gone = refl
  kept_content-none (c ∷ node) (d ∷ dataset_id) fs gone =
      let path = file_path (c ∷ node) (d ∷ dataset_id) in
      rw (sym (exists_where_lem path fs (files.repository_exists fs)) ∙ gone) refl

module _ (indexer : Indexer.Services) (lookups : LookupService.Services) (files : Files) where
  spelled-read :
      (node dataset_id : List ℕ) (fs : files.Fs) (content : Bool)
      → git_dataset_exists files node dataset_id fs ≡ true
      → git_content indexer lookups files node dataset_id fs ≡ ok content
      → content ≡ kept_content files node dataset_id fs
  unfolding git_dataset_exists git_get_dataset_policy file_path
  spelled-read [] dataset_id fs content there got = absurd (cc)
  spelled-read (c ∷ node) [] fs content there got = absurd (cc)
  spelled-read (c ∷ node) (d ∷ dataset_id) fs content there got =
      let path = file_path (c ∷ node) (d ∷ dataset_id) in
      let has = sym (exists_where_lem files path fs (files.repository_exists fs)) ∙ there in
      rw has (
        sym (
          get_where-spelled files path fs (files.repository_exists fs) content (ground (arith, has))
            got))

  abbrev pub IsUnversioned : String → Clock → Bool → Dataset → Type 0
  IsUnversioned k clock content d = d ≡ dataset_with_policy k (unversioned_policy k content clock)

  made_where-new :
      (k : String) (node : List ℕ) (clock : Clock) (fs fs' : files.Fs) (d : Dataset)
      → made_where indexer lookups files k node clock fs false ≡ (fs', ok d)
      → IsUnversioned k clock false d
  unfolding get_initial_dataset_policy
  made_where-new k node clock fs fs' d h =
      let (_, _, made) =
        bind_ok
          (store_twice indexer lookups files node (codes k) (get_initial_dataset_policy k clock)
            fs).1
          (λ u. ok (dataset_with_policy k (get_initial_dataset_policy k clock))) d
          (ap (λ x. x.1) h) in
      sym (ok-eq _ _ made)

  made_where-restored :
      (k : String) (node : List ℕ) (clock : Clock) (fs fs' : files.Fs) (d : Dataset)
      → made_where indexer lookups files k node clock fs true ≡ (fs', ok d)
      → (content : Bool) × (git_content indexer lookups files node (codes k) fs ≡ ok content)
        × IsUnversioned k clock content d
  made_where-restored k node clock fs fs' d h =
      let (content, got, made) =
        bind_ok (git_content indexer lookups files node (codes k) fs)
          (λ content. ok (dataset_with_policy k (unversioned_policy k content clock))) d
          (ap (λ x. x.1) h) in
      (content, got, sym (ok-eq _ _ made))

  pub make_dataset-IsUnversioned :
      (k : String) (node : List ℕ) (clock : Clock) (fs fs' : files.Fs) (d : Dataset)
      → make_dataset indexer lookups files k node clock fs ≡ (fs', ok d)
      → (content : Bool) × (content ≡ kept_content files node (codes k) fs)
        × IsUnversioned k clock content d
  unfolding make_dataset
  make_dataset-IsUnversioned k node clock fs fs' d h =
      elim (Bool-cases (git_dataset_exists files node (codes k) fs)) [
        | inl here ↦
            let (content, got, made) = made_where-restored k node clock fs fs' d (rw here at h) in
            (content, spelled-read node (codes k) fs content here got, made)
        | inr gone ↦ (
          false,
          kept_content-none files node (codes k) fs gone,
          made_where-new k node clock fs fs' d (rw gone at h),
        )
      ]
