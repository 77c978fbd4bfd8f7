-- ===== src/Persistence/Fetch.antt =====
-- app/Entities/odb/User-odb.cxx: a row that is fetched into the bound image, and fetched again after
-- the buffers that were too small have grown.
pub mod Whole
pub mod Again
use ccfolio.Common.{List, [], ◌∷◌, Bool, ◌||◌, ◌==◌, not, if◌then◌else◌, Option, none, some, ℕ, suc}
use ccfolio.Common.Text.{Str}
use ccfolio.External.Pgsql.{Runtime, Fetched}
use ccfolio.Entities.User.{User}
use ccfolio.Persistence.Image.{
  Image, Column, Bind, integer, text, Field, username_field, password_hash_field, salt_field,
  column, Truncated, statement_select, bind, grow,
}
use ccfolio.Persistence.Statements.{Statements, bound, count_growth}

unfoldable pub text_of : Field → User → Str
text_of username_field o = o.username
text_of password_hash_field o = o.password_hash
text_of salt_field o = o.salt

unfoldable pub set_field : Field → Column → Image → Image
set_field username_field c i = record i { username = c }
set_field password_hash_field c i = record i { password_hash = c }
set_field salt_field c i = record i { salt = c }

unfoldable pub set_flag : Field → Bool → Truncated → Truncated
set_flag username_field b t = record t { username = b }
set_flag password_hash_field b t = record t { password_hash = b }
set_flag salt_field b t = record t { salt = b }

abbrev pub then_fetch : {A B : Type 0} → Option A → (A → Option B) → Option B
then_fetch none f = none
then_fetch (some a) f = f a

abbrev pub put_fetched : Statements → Image × Truncated → Statements
put_fetched sts it = record sts { image = it.0; truncated = it.1 }

-- `r == select_statement::truncated`
unfoldable pub is_truncated : Statements → Bool
is_truncated sts = sts.truncated.username || sts.truncated.password_hash || sts.truncated.salt

unfoldable pub bound_select : Statements → Statements
unfolding bound
bound_select sts = record sts {
  select_binding = bound sts.image.version (bind sts.image statement_select) sts.select_binding;
}

module _ (rt : Runtime) where
  unfoldable pub fetched_column : ℕ → Str → Column → Column × Bool
  fetched_column capacity v c =
      let f = rt.fetch_text capacity v c.value in
      (record { value = f.buffer; size = f.size; null = f.is_null }, f.truncated)

  unfoldable pub fetch_text : Field → ℕ → ℕ → User → Image × Truncated → Option (Image × Truncated)
  unfolding column text_of set_field set_flag fetched_column
  fetch_text f address capacity row (i, t) =
      let got = fetched_column capacity (text_of f row) (column f i) in
      if (column f i).value.address == address
      then some (set_field f got.0 i, set_flag f got.1 t)
      else none

  -- What the library does for one entry of the bound array. It is `none` if the entry points to
  -- storage that has been freed.
  unfoldable pub fetch_bind : Bind → User → Image × Truncated → Option (Image × Truncated)
  unfolding fetch_text
  fetch_bind integer row (i, t) =
      let id = rt.fetch_id row.id in some (record i { id_value = id.0; id_null = id.1 }, t)
  fetch_bind (text f address capacity) row it = fetch_text f address capacity row it

  unfoldable pub fetch_row : List Bind → User → Image × Truncated → Option (Image × Truncated)
  unfolding fetch_bind
  fetch_row [] row it = some it
  fetch_row (b ∷ bs) row it = then_fetch (fetch_bind b row it) (λ it'. fetch_row bs row it')

  -- `st.fetch()` on a row, and `st.refetch()`.
  unfoldable pub fetch : User → Statements → Option Statements
  unfolding fetch_row
  fetch row sts =
      then_fetch (fetch_row sts.select_binding.binds row (sts.image, sts.truncated))
        (λ it. some (put_fetched sts it))

  -- `if (grow(im, sts.select_image_truncated())) im.version++;`
  unfoldable pub grow_image : Statements → Statements
  unfolding grow count_growth
  grow_image sts = record sts { image = count_growth (grow rt sts.image sts.truncated) }

  -- `if (im.version != sts.select_image_version()) { …; st.refetch(); }`
  unfoldable pub refetch : User → Statements → Option Statements
  unfolding fetch bound_select
  refetch row sts =
      if not (sts.image.version == sts.select_binding.bound_to)
      then fetch row (bound_select sts)
      else some sts

  -- The first row of the result, to the end of `find_`.
  unfoldable pub fetch_first : User → Statements → Option Statements
  fetch_first row sts =
      then_fetch (fetch row sts)
        (λ sts'. if is_truncated sts' then refetch row (grow_image sts') else some sts')
