-- ===== src/Checkout/Laws.antt =====
-- What the checkout service answers about the checkouts it was given.
use lohpi.Common.{
  Bool-cases, Option-cases, sql_error, Outcome, ok, err, panic, or_err-ok, String, ◌≡◌, refl, ap,
  ◌∙◌, inl, inr, Bool, ◌&&◌, ◌||◌, Option, none, some, arith, str_eq,
}
use lohpi.Proto.{Client, DatasetCheckout}
use lohpi.Checkout.{
  Row, any_row, Services, is_of, State, to_row, db_checkout_dataset, with_db, checkout_dataset,
  dataset_is_checked_out, selects, db_select_dataset_checkout, dataset_checkout,
}

-- a row about a dataset that names a client by the identifier, the name and the MAC address
abbrev pub names : String → Client → Row → Bool
names j c r =
    str_eq r.dataset_id j
    && str_eq r.client_id c.id
    && str_eq r.client_name c.name
    && str_eq r.mac_address c.mac_address

-- a checkout of the first dataset is one of the second by this client; the row of a nil client has
-- empty names
abbrev pub is_for : String → Option Client → String → Client → Bool
is_for k none j c = str_eq k j && str_eq "" c.id && str_eq "" c.name && str_eq "" c.mac_address
is_for k (some o) j c =
    str_eq k j && str_eq o.id c.id && str_eq o.name c.name && str_eq o.mac_address c.mac_address

module _ (ext : Services) where
  open ext use {table}

  with_db-ok :
      (s s' : State ext) (o : Outcome table.Db) → with_db ext s o ≡ (s', ok tt) → o ≡ ok s'.db
  with_db-ok s s' (ok db') h = ap (λ t. ok t.0.db) h
  with_db-ok s s' (err e) h = cc
  with_db-ok s s' panic h = cc

  checkout_row :
      (s s' : State ext) (k : String) (co : DatasetCheckout)
      → checkout_dataset ext k (some co) s ≡ (s', ok tt)
      → table.insert s.db (to_row ext k co) ≡ some s'.db
  unfolding checkout_dataset db_checkout_dataset
  checkout_row s s' k co h = or_err-ok _ _ _ (with_db-ok _ s' _ h)

  is_for_lem :
      (k j : String) (co : DatasetCheckout) (c : Client)
      → names j c (to_row ext k co) ≡ is_for k co.client j c
  unfolding to_row
  is_for_lem k j co c = elim (Option-cases co.client) [
    | inl nobody ↦ rw nobody refl
    | inr (o, e) ↦ rw e refl
  ]

  -- Once `CheckoutDataset` of a dataset by a client returns no error, an answer of
  -- `DatasetIsCheckedOut` about a dataset and a client is yes exactly where it was yes before or
  -- the new checkout is of that dataset and client.
  pub checkout_is_found :
      (s s' : State ext) (k j : String) (co : DatasetCheckout) (c : Client) (b : Bool)
      → checkout_dataset ext k (some co) s ≡ (s', ok tt)
      → dataset_is_checked_out ext s' j (some c) ≡ ok b
      → b ≡ (is_for k co.client j c || any_row (names j c) (table.rows s.db))
  unfolding dataset_is_checked_out any_row to_row is_of
  checkout_is_found s s' k j co c b done asked = elim (Bool-cases (str_eq j "")) [
    | inl unnamed ↦ ground (arith, unnamed)
    | inr named ↦
        let found = or_err-ok sql_error (table.exists s'.db (is_of j c)) b (rw named at asked) in
        table.exists_rows s'.db (names j c) b found
        ∙ ap (any_row (names j c))
            (table.insert_rows s.db (to_row ext k co) s'.db (checkout_row s s' k co done))
        ∙ ap (λ x. x || any_row (names j c) (table.rows s.db)) (is_for_lem k j co c)
  ]

  -- `DatasetCheckout` never returns a checkout, whatever was checked out: its query is refused.
  pub dataset_checkout_finds_nothing :
      (s : State ext) (k : String) (c : Option Client) → dataset_checkout ext s k c ≡ ok none
  unfolding dataset_checkout db_select_dataset_checkout
  dataset_checkout_finds_nothing s k none = refl
  dataset_checkout_finds_nothing s k (some c) =
      rw (table.query_row_refused s.db 3 4 (selects ext k c) (λ h. omega (arith, h))) (ground arith)
