-- ===== src/Persistence/Statements/Fresh.antt =====
-- app/Entities/odb/User-odb.cxx: no binding is used while it points to a buffer that has been freed.
use ccfolio.Common.{
  ℕ, suc, ◌≡◌, ◌≢◌, ◌≤◌, refl, sym, subst, ◌∙◌, ◌⊎◌, inl, inr, List, Bool, true, false, not, ◌||◌,
  ◌==◌, arith, Bool-cases,
}
use ccfolio.Persistence.Image.{
  Image, Bind, StatementKind, statement_insert, statement_update, statement_select, bind, bind_id,
}
use ccfolio.Persistence.Statements.{
  Binding, Statements, bound, is_stale, rebind, rebind_insert, rebind_select, rebind_id, touch,
  rebind_update_id, rebind_update,
}

-- A binding that counts as up to date points where the image is.
pub record Fresh (version : ℕ) (binds : List Bind) (b : Binding) : Type 0 where
  pub past : b.bound_to ≤ version
  pub points : b.version ≢ 0 → b.bound_to ≡ version → b.binds ≡ binds

not_stale :
    (version : ℕ) (b : Binding)
    → is_stale version b ≡ false
    → (b.bound_to ≡ version) × (b.version ≢ 0)
unfolding is_stale
not_stale version b e = (ground arith, ground arith)

module _ {version : ℕ} {binds : List Bind} {b : Binding} (fresh : Fresh version binds b) where
  pub rebind-binds : (rebind version binds b).binds ≡ binds
  unfolding rebind bound
  rebind-binds = elim (Bool-cases (is_stale version b)) [
    | inl e ↦ rw e
    | inr e ↦ let up = not_stale version b e in rw e (fresh.points up.1 up.0)
  ]

  pub rebind-Fresh : Fresh version binds (rebind version binds b)
  unfolding rebind bound
  rebind-Fresh = elim (Bool-cases (is_stale version b)) [
    | inl e ↦ rw e (record { past = omega arith; points = λ _ _. refl })
    | inr e ↦ rw e fresh
  ]

  pub Fresh-grown : (binds' : List Bind) → Fresh (suc version) binds' b
  Fresh-grown binds' = record {
    past = omega (arith, fresh.past);
    points = λ _ e. absurd (omega (arith, fresh.past));
  }

-- A change of the image that keeps every pointer, or that is counted.
abbrev pub Moved : Image → Image → Type 0
Moved i i' =
    ((i'.version ≡ i.version) × ((kind : StatementKind) → bind i' kind ≡ bind i kind))
    ⊎ (i'.version ≡ suc i.version)

pub Fresh-Moved :
    (i i' : Image) (kind : StatementKind) (b : Binding)
    → Moved i i'
    → Fresh i.version (bind i kind) b
    → Fresh i'.version (bind i' kind) b
Fresh-Moved i i' kind b (inl (e, same)) fresh =
    subst (λ n. Fresh n (bind i' kind) b) (sym e)
      (subst (λ l. Fresh i.version l b) (sym (same kind)) fresh)
Fresh-Moved i i' kind b (inr e) fresh =
    subst (λ n. Fresh n (bind i' kind) b) (sym e) (Fresh-grown fresh (bind i' kind))

pub record IsFresh (sts : Statements) : Type 0 where
  pub inserts : Fresh sts.image.version (bind sts.image statement_insert) sts.insert_binding
  pub updates : Fresh sts.image.version (bind sts.image statement_update) sts.update_binding
  pub selects : Fresh sts.image.version (bind sts.image statement_select) sts.select_binding
  pub keys : Fresh sts.id_image.version bind_id sts.id_binding
  -- the image of a key has no buffer that could grow
  pub uncounted : sts.id_image.version ≡ 0

pub IsFresh-Moved :
    (sts : Statements) (i : Image)
    → Moved sts.image i
    → IsFresh sts
    → IsFresh (record sts { image = i })
IsFresh-Moved sts i moved fresh = record {
  inserts = Fresh-Moved sts.image i statement_insert sts.insert_binding moved fresh.inserts;
  updates = Fresh-Moved sts.image i statement_update sts.update_binding moved fresh.updates;
  selects = Fresh-Moved sts.image i statement_select sts.select_binding moved fresh.selects;
  keys = fresh.keys;
  uncounted = fresh.uncounted;
}

module _ {sts : Statements} (fresh : IsFresh sts) where
  pub rebind_insert-IsFresh : IsFresh (rebind_insert sts)
  unfolding rebind_insert
  rebind_insert-IsFresh = record {
    inserts = rebind-Fresh fresh.inserts;
    updates = fresh.updates;
    selects = fresh.selects;
    keys = fresh.keys;
    uncounted = fresh.uncounted;
  }

  pub rebind_insert-binds :
      (rebind_insert sts).insert_binding.binds ≡ bind sts.image statement_insert
  unfolding rebind_insert
  rebind_insert-binds = rebind-binds fresh.inserts

  pub rebind_select-IsFresh : IsFresh (rebind_select sts)
  unfolding rebind_select
  rebind_select-IsFresh = record {
    inserts = fresh.inserts;
    updates = fresh.updates;
    selects = rebind-Fresh fresh.selects;
    keys = fresh.keys;
    uncounted = fresh.uncounted;
  }

  pub rebind_select-binds :
      (rebind_select sts).select_binding.binds ≡ bind sts.image statement_select
  unfolding rebind_select
  rebind_select-binds = rebind-binds fresh.selects

  pub rebind_id-IsFresh : IsFresh (rebind_id sts)
  unfolding rebind_id
  rebind_id-IsFresh = record {
    inserts = fresh.inserts;
    updates = fresh.updates;
    selects = fresh.selects;
    keys = rebind-Fresh fresh.keys;
    uncounted = fresh.uncounted;
  }

  pub rebind_id-binds : (rebind_id sts).id_binding.binds ≡ bind_id
  unfolding rebind_id
  rebind_id-binds = rebind-binds fresh.keys

-- A binding of the image that only its count has changed.
touch-Fresh :
    (u : Bool) {version : ℕ} {binds : List Bind} {b : Binding}
    → b.version ≢ 0
    → Fresh version binds b
    → Fresh version binds (touch u b)
unfolding touch
touch-Fresh true live fresh = fresh
touch-Fresh false live fresh = record { past = fresh.past; points = λ _. fresh.points live }

touch-binds : (u : Bool) (b : Binding) → (touch u b).binds ≡ b.binds
unfolding touch
touch-binds true b = refl
touch-binds false b = refl

rebind_live : (version : ℕ) (binds : List Bind) (b : Binding) → (rebind version binds b).version ≢ 0
unfolding rebind bound
rebind_live version binds b = elim (Bool-cases (is_stale version b)) [
  | inl e ↦ rw e (λ z. absurd (omega arith))
  | inr e ↦ rw e ((not_stale version b e).1)
]

-- What `rebind_update_id` finds: the image is bound, and counted as bound.
record Halfway (sts : Statements) : Type 0 where
  fresh : IsFresh sts
  live : sts.update_binding.version ≢ 0
  binds : sts.update_binding.binds ≡ bind sts.image statement_update

record Done (sts : Statements) (done : Statements) : Type 0 where
  fresh : IsFresh done
  image : done.image ≡ sts.image
  id_image : done.id_image ≡ sts.id_image
  binds : done.update_binding.binds ≡ bind sts.image statement_update
  keys : done.id_binding.binds ≡ bind_id
  locked : done.locked ≡ sts.locked
  delayed : done.delayed ≡ sts.delayed

rebind_update_id-Done :
    (u : Bool) (sts : Statements) → Halfway sts → Done sts (rebind_update_id u sts)
unfolding rebind_update_id rebind_id
rebind_update_id-Done u sts half =
    elim (Bool-cases
      (not (sts.id_image.version == sts.update_id_version) || sts.id_binding.version == 0)) [
        | inl e ↦ rw e (record {
          fresh = record {
            inserts = half.fresh.inserts;
            updates = touch-Fresh u half.live half.fresh.updates;
            selects = half.fresh.selects;
            keys = rebind-Fresh half.fresh.keys;
            uncounted = half.fresh.uncounted;
          };
          image = refl;
          id_image = refl;
          binds = touch-binds u sts.update_binding ∙ half.binds;
          keys = rebind-binds half.fresh.keys;
          locked = refl;
          delayed = refl;
        })
        | inr e ↦ rw e (record {
          fresh = half.fresh;
          image = refl;
          id_image = refl;
          binds = half.binds;
          keys =
              half.fresh.keys.points (ground arith)
                (omega (arith, half.fresh.keys.past, half.fresh.uncounted));
          locked = refl;
          delayed = refl;
        })
      ]

pub rebind_update_lem :
    (sts : Statements)
    → IsFresh sts
    → let done = rebind_update sts in
      IsFresh done
      × (done.image ≡ sts.image)
      × (done.id_image ≡ sts.id_image)
      × (done.update_binding.binds ≡ bind sts.image statement_update)
      × (done.id_binding.binds ≡ bind_id)
      × (done.locked ≡ sts.locked)
      × (done.delayed ≡ sts.delayed)
unfolding rebind_update
rebind_update_lem sts fresh =
    let half : Halfway (record sts {
      update_binding =
          rebind sts.image.version (bind sts.image statement_update) sts.update_binding;
    }) =
      record {
        fresh = record {
          inserts = fresh.inserts;
          updates = rebind-Fresh fresh.updates;
          selects = fresh.selects;
          keys = fresh.keys;
          uncounted = fresh.uncounted;
        };
        live = rebind_live _ _ sts.update_binding;
        binds = rebind-binds fresh.updates;
      } in
    let d = rebind_update_id-Done (is_stale sts.image.version sts.update_binding) _ half in
    (d.fresh, d.image, d.id_image, d.binds, d.keys, d.locked, d.delayed)
