-- ===== src/Extern/Memory.antt =====
-- Services that never fail, over association lists: the records of `Extern` can be filled.
use lohpi.Common.{
  if◌then◌else◌, Bool-cases, ℕ, String, ◌≡◌, refl, sym, ap, inl, inr, Option, none, some, List, [],
  ◌∷◌, map, arith, str_eq, eq_iff,
}
use lohpi.Extern.{keep_old, is_some, map_some, Table, Redis, Codec}

module _ {V : Type 0} where
  unfoldable pub find : List (String × V) → String → Option V
  find [] k = none
  find ((j, v) ∷ m) k = if str_eq j k then some v else find m k

  pub put : List (String × V) → String → V → List (String × V)
  put [] k v = (k, v) ∷ []
  put ((j, w) ∷ m) k v = if str_eq j k then (j, v) ∷ m else (j, w) ∷ put m k v

  pub remove : List (String × V) → String → List (String × V)
  remove [] k = []
  remove ((j, w) ∷ m) k = let rest = remove m k in if str_eq j k then rest else (j, w) ∷ rest

  pub find-put :
      (m : List (String × V)) (k : String) (v : V) (j : String)
      → find (put m k v) j ≡ (if str_eq k j then some v else find m j)
  unfolding find put
  find-put [] k v j = refl
  find-put ((i, w) ∷ m) k v j = ground (arith, eq_iff k j, eq_iff i k, eq_iff i j, find-put m k v j)

  pub find-remove :
      (m : List (String × V)) (k j : String)
      → find (remove m k) j ≡ (if str_eq k j then none else find m j)
  unfolding find remove
  find-remove [] k j = ground arith
  find-remove ((i, w) ∷ m) k j =
      ground (arith, eq_iff k j, eq_iff i k, eq_iff i j, find-remove m k j)

  pub put_new : List (String × V) → String → V → Option V → List (String × V)
  unfolding put
  put_new m k v none = put m k v
  put_new m k v (some _) = m

  pub put_changed : List (String × V) → String → (V → V) → Option V → List (String × V)
  unfolding put
  put_changed m k f none = m
  put_changed m k f (some v) = put m k (f v)

  abbrev pub all_keys : List (String × V) → List String
  all_keys = map (λ e. e.0)

  pub find-put_new :
      (m : List (String × V)) (k : String) (v : V) (o : Option V) (j : String)
      → find m k ≡ o
      → find (put_new m k v o) j ≡ (if str_eq k j then keep_old v o else find m j)
  unfolding put_new
  find-put_new m k v none j e = find-put m k v j
  find-put_new m k v (some w) j e = elim (Bool-cases (str_eq k j)) [
    | inl same ↦ rw same (rw (← ((eq_iff k j).0 same)) e)
    | inr other ↦ rw other
  ]

  pub find-put_changed :
      (m : List (String × V)) (k : String) (f : V → V) (o : Option V) (j : String)
      → find m k ≡ o
      → find (put_changed m k f o) j ≡ (if str_eq k j then map_some f o else find m j)
  unfolding put_changed
  find-put_changed m k f none j e = elim (Bool-cases (str_eq k j)) [
    | inl same ↦ rw same (rw (← ((eq_iff k j).0 same)) e)
    | inr other ↦ rw other
  ]
  find-put_changed m k f (some w) j e = find-put m k (f w) j

pub some-eq {ℓ} : {A : Type ℓ} (a b : A) → some a ≡ some b → a ≡ b
some-eq a b h = cc

module _ {V : Type 0} where
  pub del_entry_lem :
      (m : List (String × V)) (k : String) (n : ℕ) (m' : List (String × V)) (j : String)
      → ◌≡◌ {A = Option (ℕ × List (String × V))}
          (some (if is_some (find m k) then 1 else 0, remove m k))
          (some (n, m'))
      → find m' j ≡ (if str_eq k j then none else find m j)
  del_entry_lem m k n m' j h =
      rw (← (ap (λ (t : ℕ × List (String × V)). t.1) (some-eq _ _ h))) (find-remove m k j)

  pub del_count_lem :
      (m : List (String × V)) (k : String) (n : ℕ) (m' : List (String × V))
      → ◌≡◌ {A = Option (ℕ × List (String × V))}
          (some (if is_some (find m k) then 1 else 0, remove m k))
          (some (n, m'))
      → n ≡ (if is_some (find m k) then 1 else 0)
  del_count_lem m k n m' h = sym (ap (λ (t : ℕ × List (String × V)). t.0) (some-eq _ _ h))

module _ (Row : Type 0) where
  unfoldable pub memory_table : Table Row
  unfolding find put remove put_new put_changed
  memory_table = record {
    Db = List (String × Row);
    row = find;
    select = λ db k. some (find db k);
    exists = λ db k. some (is_some (find db k));
    insert = λ db k r. some (put_new db k r (find db k));
    upsert = λ db k r. some (put db k r);
    update = λ db k f. some (put_changed db k f (find db k));
    delete = λ db k. some (if is_some (find db k) then 1 else 0, remove db k);
    keys = λ db. some (all_keys db);
    select_row = λ db k o h. some-eq _ _ h;
    exists_row = λ db k b h. some-eq _ _ h;
    insert_row = λ db k r db' j h. rw (← (some-eq _ _ h)) (find-put_new db k r (find db k) j refl);
    upsert_row = λ db k r db' j h. rw (← (some-eq _ _ h)) (find-put db k r j);
    update_row =
        λ db k f db' j h. rw (← (some-eq _ _ h)) (find-put_changed db k f (find db k) j refl);
    delete_row = del_entry_lem;
    delete_count = del_count_lem;
  }

module _ (Bytes : Type 0) where
  unfoldable pub memory_redis : Redis Bytes
  unfolding find put remove
  memory_redis = record {
    Mem = List (String × Bytes);
    entry = find;
    scan = λ m. some (all_keys m);
    mget = λ m k. some (find m k);
    exists = λ m k. some (if is_some (find m k) then 1 else 0);
    set = λ m k v. some (put m k v);
    del = λ m k. some (if is_some (find m k) then 1 else 0, remove m k);
    mget_entry = λ m k o h. some-eq _ _ h;
    exists_entry = λ m k n h. sym (some-eq _ _ h);
    set_entry = λ m k v m' j h. rw (← (some-eq _ _ h)) (find-put m k v j);
    del_entry = del_entry_lem;
  }

-- messages that are kept as they are
module _ (A : Type 0) where
  unfoldable pub plain_codec : Codec A A
  plain_codec = record { marshal = some; unmarshal = some; unmarshal-marshal = λ a b h. sym h }
