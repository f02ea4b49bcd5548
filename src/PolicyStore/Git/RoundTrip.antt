-- ===== src/PolicyStore/Git/RoundTrip.antt =====
-- What is read from the Git store is what was written last, under a path that two datasets may
-- share.
use lohpi.Common.{
  Bool-cases, codes, file_error, ok, or_err, bind_ok, or_err-ok, ℕ, ◌≡◌, refl, sym, ap, ◌∙◌, ◌≢◌,
  ◌⊎◌, inl, inr, Bool, true, false, Option, none, some, List, [], ◌∷◌, ◌++◌, arith,
}
use lohpi.Extern.Memory.{some-eq}
use lohpi.Proto.{Policy}
use lohpi.PolicyStore.Git.{
  Files, replace_slashes, file_path, format_bool, same_text, is_among, parse_bool, or_exit,
  write_at, prepared, git_write_policy, git_commit_policy, git_store_policy, get_where,
  git_get_dataset_policy,
}

parse_bool-format_bool : (b : Bool) → parse_bool (format_bool b) ≡ ok b
unfolding parse_bool is_among same_text
parse_bool-format_bool true = refl
parse_bool-format_bool false = refl

module _ (files : Files) where
  open files use {Fs, text_at, file_exists, read, commit}

  or_exit-ok {ℓ} : {A : Type ℓ} (o : Option A) (a : A) → or_exit files o ≡ ok a → o ≡ some a
  or_exit-ok none a h = cc
  or_exit-ok (some b) a h = cc

  write_at-text :
      (path : List ℕ) (content : Bool) (fs fs' : Fs)
      → write_at files path content fs ≡ ok fs'
      → text_at fs' path ≡ some (format_bool content)
  write_at-text path content fs fs' h =
      let (there, _, written) =
        bind_ok (or_exit files (file_exists fs path))
          (λ there. or_exit files (files.write fs path (format_bool content))) fs' h in
      files.write_text fs path (format_bool content) fs' (or_exit-ok _ fs' written)

  git_write_policy-text :
      (p : Policy) (node : List ℕ) (fs fs' : Fs)
      → git_write_policy files p node fs ≡ ok fs'
      → text_at fs' (file_path node (codes p.dataset_identifier)) ≡ some (format_bool p.content)
  unfolding git_write_policy
  git_write_policy-text p [] fs fs' h = absurd (cc)
  git_write_policy-text p (c ∷ node) fs fs' h =
      let path = file_path (c ∷ node) (codes p.dataset_identifier) in
      let (fs1, _, written) =
        bind_ok (prepared files (c ∷ node) fs) (write_at files path p.content) fs' h in
      write_at-text path p.content fs1 fs' written

  git_commit_policy-text :
      (p : Policy) (node text : List ℕ) (fs fs' : Fs)
      → text_at fs (file_path node (codes p.dataset_identifier)) ≡ some text
      → git_commit_policy files p node fs ≡ ok fs'
      → text_at fs' (file_path node (codes p.dataset_identifier)) ≡ some text
  unfolding git_commit_policy
  git_commit_policy-text p [] text fs fs' there h = absurd (cc)
  git_commit_policy-text p (c ∷ node) text fs fs' there h =
      elim (Bool-cases (files.change_directory fs)) [
        | inl inside ↦ files.commit_text fs _ text fs' there (rw inside at h)
        | inr outside ↦ ground (arith, outside)
      ]

  git_store_policy-text :
      (node dataset_id : List ℕ) (p : Policy) (fs fs' : Fs)
      → git_store_policy files node dataset_id p fs ≡ ok fs'
      → text_at fs' (file_path node (codes p.dataset_identifier)) ≡ some (format_bool p.content)
  unfolding git_store_policy
  git_store_policy-text [] dataset_id p fs fs' h = absurd (cc)
  git_store_policy-text (c ∷ node) [] p fs fs' h = absurd (cc)
  git_store_policy-text (c ∷ node) (d ∷ dataset_id) p fs fs' h =
      let (fs1, written, committed) =
        bind_ok (git_write_policy files p (c ∷ node) fs) (git_commit_policy files p (c ∷ node)) fs'
          h in
      git_commit_policy-text p (c ∷ node) _ fs1 fs'
        (git_write_policy-text p (c ∷ node) fs fs1 written) committed

  get_where-text :
      (path text : List ℕ) (fs : Fs) (there : Bool)
      → get_where files path fs there ≡ ok text
      → (text ≡ []) ⊎ (text_at fs path ≡ some text)
  get_where-text path text fs false h = inl (ground (arith, h))
  get_where-text path text fs true h = elim (Bool-cases (files.change_directory fs)) [
    | inr outside ↦ ground (arith, outside)
    | inl inside ↦
        let (known, _, got) =
          bind_ok (or_err file_error (file_exists fs path))
            (λ known. or_err file_error (read fs path)) text (rw inside at h) in
        inr (files.read_text fs path text (or_err-ok file_error (read fs path) text got))
  ]

  git_get-text :
      (node dataset_id text : List ℕ) (fs : Fs)
      → git_get_dataset_policy files node dataset_id fs ≡ ok text
      → text ≢ []
      → text_at fs (file_path node dataset_id) ≡ some text
  unfolding git_get_dataset_policy
  git_get-text [] dataset_id text fs h full = absurd (cc)
  git_get-text (c ∷ node) [] text fs h full = absurd (cc)
  git_get-text (c ∷ node) (d ∷ dataset_id) text fs h full =
      let path = file_path (c ∷ node) (d ∷ dataset_id) in
      let (there, _, got) =
        bind_ok (or_err file_error (files.repository_exists fs)) (get_where files path fs) text h in
      elim (get_where-text path text fs there got) [
        | inl nothing ↦ absurd (full nothing)
        | inr found ↦ found
      ]

  -- After `gitStorePolicy` of a policy for a node, a text that `gitGetDatasetPolicy` returns for
  -- the node and any identifier that has the same characters up to `/` and `_` is parsed as the
  -- content of that policy, unless the repository was not found and the text is empty.
  pub git_get-git_store :
      (node dataset_id other text : List ℕ) (p : Policy) (fs fs' : Fs)
      → git_store_policy files node dataset_id p fs ≡ ok fs'
      → replace_slashes other ≡ replace_slashes (codes p.dataset_identifier)
      → git_get_dataset_policy files node other fs' ≡ ok text
      → text ≢ []
      → parse_bool text ≡ ok p.content
  git_get-git_store node dataset_id other text p fs fs' stored same got full =
      let path : file_path node other ≡ file_path node (codes p.dataset_identifier) =
        unfold file_path in ap (λ s. node ++ (47 ∷ s)) same in
      let there = git_get-text node other text fs' got full in
      let written = git_store_policy-text node dataset_id p fs fs' stored in
      let same_text_ : text ≡ format_bool p.content =
        some-eq _ _ (sym there ∙ ap (text_at fs') path ∙ written) in
      rw (same_text_) (parse_bool-format_bool p.content)
