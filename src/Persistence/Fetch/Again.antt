-- ===== src/Persistence/Fetch/Again.antt =====
-- app/Entities/odb/User-odb.cxx: the second fetch of `find_`, into buffers that have grown.
use ccfolio.Common.{
  ℕ, suc, ◌≡◌, ◌<◌, refl, ap, sym, subst, inl, inr, Bool, true, false, not, ◌==◌, arith, Bool-cases,
  some,
}
use ccfolio.External.Pgsql.{Runtime}
use ccfolio.External.Pgsql.Laws.{RuntimeLaws}
use ccfolio.Entities.User.{User}
use ccfolio.Persistence.Image.{Image, statement_select, bind, grow}
use ccfolio.Persistence.Statements.{Statements, bound, count_growth}
use ccfolio.Persistence.Statements.Fresh.{IsFresh, IsFresh-Moved}
use ccfolio.Persistence.Fetch.{is_truncated, grow_image, bound_select, refetch, fetch_first}
use ccfolio.Persistence.Fetch.Whole.{
  got-Fits, grown-Fits, got_statements, fetch-bound, RowFits, Loaded, got_statements-Loaded,
  got_statements-IsFresh,
}

later-ne : (a b : ℕ) → b < a → not (a == b) ≡ true
later-ne a b h = ground arith

bound_select-binds :
    (sts : Statements) → (bound_select sts).select_binding.binds ≡ bind sts.image statement_select
unfolding bound_select bound
bound_select-binds sts = refl

-- A binding that has just been made points where the image is.
bound_select-IsFresh : (sts : Statements) → IsFresh sts → IsFresh (bound_select sts)
unfolding bound_select bound
bound_select-IsFresh sts fresh = record {
  inserts = fresh.inserts;
  updates = fresh.updates;
  selects = record { past = omega arith; points = λ _ _. refl };
  keys = fresh.keys;
  uncounted = fresh.uncounted;
}

module _ {rt : Runtime} (laws : RuntimeLaws rt) (row : User) (sts : Statements)
    (fresh : IsFresh sts) (up : sts.select_binding.binds ≡ bind sts.image statement_select) where
  abbrev first : Statements
  first = got_statements laws row sts

  abbrev grown : Statements
  grown = grow_image rt first

  count_growth-grew :
      (r : Bool × Image) → r.0 ≡ true → count_growth r ≡ record r.1 { version = suc r.1.version }
  unfolding count_growth
  count_growth-grew (true, i) e = refl
  count_growth-grew (false, i) e = cc

  module _ (short : is_truncated first ≡ true) where
    grown-image :
        grown.image
        ≡ record (grow rt first.image first.truncated).1 { version = suc sts.image.version }
    unfolding grow_image grow is_truncated
    grown-image = count_growth-grew (grow rt first.image first.truncated) short

    grown-RowFits : RowFits laws row grown.image
    unfolding grow
    grown-RowFits = subst (RowFits laws row) (sym grown-image) (
      grown-Fits laws row.username sts.image.username _ refl,
      grown-Fits laws row.password_hash sts.image.password_hash _ refl,
      grown-Fits laws row.salt sts.image.salt _ refl,
    )

    grown-version : grown.image.version ≡ suc sts.image.version
    grown-version = ap (λ (i : Image). i.version) grown-image

    grown-IsFresh : IsFresh grown
    unfolding grow_image
    grown-IsFresh =
        IsFresh-Moved first grown.image (inr grown-version)
          (got_statements-IsFresh laws row sts fresh)

    -- The binding of the query is behind the image that has grown.
    grown-behind : not (grown.image.version == grown.select_binding.bound_to) ≡ true
    unfolding grow_image
    grown-behind = later-ne _ _ (
        subst (λ n. sts.select_binding.bound_to < n) (sym grown-version)
          (omega (arith, fresh.selects.past)))

    abbrev again : Statements
    again = got_statements laws row (bound_select grown)

    refetch-grown : refetch rt row grown ≡ some again
    unfolding refetch
    refetch-grown =
        rw grown-behind (fetch-bound laws row (bound_select grown) (bound_select-binds grown))

    again-Loaded : Loaded laws row sts again
    unfolding grow_image bound_select
    again-Loaded =
        got_statements-Loaded laws row sts (bound_select grown) grown-RowFits
          (bound_select-IsFresh grown grown-IsFresh) refl refl

  -- A row that was not truncated has fitted.
  whole-RowFits : is_truncated first ≡ false → RowFits laws row sts.image
  unfolding is_truncated
  whole-RowFits e = (
    got-Fits laws row.username sts.image.username (ground arith),
    got-Fits laws row.password_hash sts.image.password_hash (ground arith),
    got-Fits laws row.salt sts.image.salt (ground arith),
  )

  pub fetch_first-Loaded :
      (sts' : Statements) × (fetch_first rt row sts ≡ some sts') × Loaded laws row sts sts'
  unfolding fetch_first
  fetch_first-Loaded = elim (Bool-cases (is_truncated first)) [
    | inl e ↦ (again e, rw (fetch-bound laws row sts up) (rw e (refetch-grown e)), again-Loaded e)
    | inr e ↦ (
      first,
      rw (fetch-bound laws row sts up) (rw e refl),
      got_statements-Loaded laws row sts sts (whole-RowFits e) fresh refl refl,
    )
  ]
