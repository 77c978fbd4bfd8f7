-- ===== src/Persistence/Fetch/Whole.antt =====
-- app/Entities/odb/User-odb.cxx: a row is in the image as a whole after at most one refetch.
use ccfolio.Common.{
  ◌≡◌, ◌≤◌, refl, ap, sym, subst, ◌∙◌, inl, inr, Bool, true, false, leb, arith, Bool-cases, some,
  length,
}
use ccfolio.Common.Text.{Str}
use ccfolio.External.Pgsql.{Runtime}
use ccfolio.External.Pgsql.Laws.{RuntimeLaws}
use ccfolio.Entities.User.{User}
use ccfolio.Persistence.Image.{
  Image, Column, StatementKind, statement_select, Field, bind, bind_text, grow_column, init_object,
  value_of, Truncated,
}
use ccfolio.Persistence.Image.Copies.{==_refl}
use ccfolio.Persistence.Statements.{Statements}
use ccfolio.Persistence.Statements.Fresh.{IsFresh, IsFresh-Moved}
use ccfolio.Persistence.Fetch.{fetched_column, fetch_row, fetch, put_fetched, then_fetch}

module _ {rt : Runtime} (laws : RuntimeLaws rt) where
  -- A text that has been fetched into its column.
  abbrev pub got : Str → Column → Column × Bool
  got v c = fetched_column rt c.value.capacity v c

  abbrev pub Fits : Str → Column → Type 0
  Fits v c = length v ≤ c.value.capacity

  got-bound : (f : Field) (v : Str) (c : Column) → bind_text f (got v c).0 ≡ bind_text f c
  unfolding fetched_column bind_text
  got-bound f v c = rw (laws.fetched_address _ v c.value, laws.fetched_capacity _ v c.value)

  got-whole : (v : Str) (c : Column) → Fits v c → value_of rt (got v c).0 ≡ v
  unfolding fetched_column value_of
  got-whole v c fits = laws.fetched_value _ v c.value fits

  pub got-Fits : (v : Str) (c : Column) → (got v c).1 ≡ false → Fits v c
  unfolding fetched_column
  got-Fits v c e = elim (Bool-cases (leb (length v) c.value.capacity)) [
    | inl le ↦ ground arith
    | inr gt ↦ let bad = laws.fetched_truncated c.value.capacity v c.value (ground arith) in cc
  ]

  -- A column that was too small has grown to the size of the text; any other was large enough.
  pub grown-Fits :
      (v : Str) (c : Column) (b : Bool) → (got v c).1 ≡ b → Fits v (grow_column rt b (got v c).0)
  unfolding grow_column fetched_column
  grown-Fits v c true e =
      subst
        (λ n.
          n
          ≤ (rt.set_capacity (got v c).0.value
              (rt.fetch_text c.value.capacity v c.value).size).capacity)
        (laws.fetched_size c.value.capacity v c.value) (laws.capacity_grown (got v c).0.value _)
  grown-Fits v c false e =
      subst (λ n. length v ≤ n) (sym (laws.fetched_capacity _ v c.value)) (got-Fits v c e)

  abbrev pub got_image : User → Image → Image
  got_image row i = record i {
    id_value = (rt.fetch_id row.id).0;
    id_null = (rt.fetch_id row.id).1;
    username = (got row.username i.username).0;
    password_hash = (got row.password_hash i.password_hash).0;
    salt = (got row.salt i.salt).0;
  }

  abbrev pub got_flags : User → Image → Truncated
  got_flags row i = record {
    username = (got row.username i.username).1;
    password_hash = (got row.password_hash i.password_hash).1;
    salt = (got row.salt i.salt).1;
  }

  -- Through pointers that are up to date a row is fetched into each column.
  fetch_row-bound :
      (row : User) (i : Image) (t : Truncated)
      → fetch_row rt (bind i statement_select) row (i, t) ≡ some (got_image row i, got_flags row i)
  unfolding fetch_row bind bind_text
  fetch_row-bound row i t = rw (
    ==_refl i.username.value.address,
    ==_refl i.password_hash.value.address,
    ==_refl i.salt.value.address,
  )

  abbrev pub got_statements : User → Statements → Statements
  got_statements row sts = put_fetched sts (got_image row sts.image, got_flags row sts.image)

  pub fetch-bound :
      (row : User) (sts : Statements)
      → sts.select_binding.binds ≡ bind sts.image statement_select
      → fetch rt row sts ≡ some (got_statements row sts)
  unfolding fetch
  fetch-bound row sts e =
      ap
        (λ bs.
          then_fetch (fetch_row rt bs row (sts.image, sts.truncated))
            (λ it. some (put_fetched sts it)))
        e
      ∙ ap (λ o. then_fetch o (λ it. some (put_fetched sts it)))
          (fetch_row-bound row sts.image sts.truncated)

  bind-got_image :
      (row : User) (i : Image) (kind : StatementKind) → bind (got_image row i) kind ≡ bind i kind
  unfolding bind
  bind-got_image row i kind = rw (
    got-bound Field.username_field row.username i.username,
    got-bound Field.password_hash_field row.password_hash i.password_hash,
    got-bound Field.salt_field row.salt i.salt,
  )

  pub got_statements-IsFresh :
      (row : User) (sts : Statements) → IsFresh sts → IsFresh (got_statements row sts)
  got_statements-IsFresh row sts fresh =
      let moved =
        IsFresh-Moved sts (got_image row sts.image) (inl (refl, bind-got_image row sts.image))
          fresh in
      record {
        inserts = moved.inserts;
        updates = moved.updates;
        selects = moved.selects;
        keys = moved.keys;
        uncounted = moved.uncounted;
      }

  -- Every column is large enough for its text.
  abbrev pub RowFits : User → Image → Type 0
  RowFits row i =
      Fits row.username i.username × Fits row.password_hash i.password_hash × Fits row.salt i.salt

  got_image-whole :
      (row : User) (i : Image) → RowFits row i → init_object rt (got_image row i) ≡ row
  unfolding init_object
  got_image-whole row i fits =
      rw
        (
          got-whole row.username i.username fits.0,
          got-whole row.password_hash i.password_hash fits.1,
          got-whole row.salt i.salt fits.2,
        )
        (rw (laws.fetched_id row.id) (rw (laws.value_id row.id)))

  -- An image that was read as a whole.
  pub record Loaded (row : User) (before sts : Statements) : Type 0 where
    pub whole : init_object rt sts.image ≡ row
    pub fresh : IsFresh sts
    pub locked : sts.locked ≡ before.locked
    pub delayed : sts.delayed ≡ before.delayed

  pub got_statements-Loaded :
      (row : User) (before sts : Statements)
      → RowFits row sts.image
      → IsFresh sts
      → sts.locked ≡ before.locked
      → sts.delayed ≡ before.delayed
      → Loaded row before (got_statements row sts)
  got_statements-Loaded row before sts fits fresh locked delayed = record {
    whole = got_image-whole row sts.image fits;
    fresh = got_statements-IsFresh row sts fresh;
    locked = locked;
    delayed = delayed;
  }
