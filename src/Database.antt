-- ===== src/Database.antt =====
-- The tables of src/user_role/models.py, and SQLAlchemy's session as the code uses it:
-- `get_db_session` of src/database.py, `commit`, `rollback`, queries with autoflush.
-- The database is a parameter, `Engine`: it assigns primary keys and accepts or refuses what a
-- session has written.
use ara_nes_lms_core.Base.{
  ℕ, String, Bool, true, false, Option, none, some, List, [], ◌∷◌, Result, ok, raise, any,
  occurs_in, if◌then◌else◌,
}
use ara_nes_lms_core.Errors.{Error, integrity_error}
use ara_nes_lms_core.Permissions.Defaults.{PermissionMap}

-- A primary key is a natural number. `none` is the SQL value NULL.
pub record Role : Type 0 where
  pub id : ℕ
  pub name : String
  pub title_key : String
  pub permissions : Option PermissionMap

pub record User : Type 0 where
  pub id : ℕ
  pub username : String
  pub password : String
  pub role_id : ℕ
  pub permissions : Option PermissionMap

pub record Tables : Type 0 where
  pub roles : List Role
  pub users : List User

-- The database and its driver. `violation` is the message of the `IntegrityError` with which
-- tables are refused; `lower` is `str.lower`.
pub record Engine : Type 0 where
  pub violation : Tables → Option String
  pub next_role_id : Tables → ℕ
  pub next_user_id : Tables → ℕ
  pub lower : String → String

-- What is committed, what the session's transaction sees with the objects that it holds, and
-- whether some of that is not yet sent to the database.
pub record Session : Type 0 where
  pub committed : Tables
  pub pending : Tables
  pub dirty : Bool

abbrev pub Exec : Type 0 → Type 0
Exec A = Session → Result Error A × Session

abbrev pub continue : {A B : Type 0} → Result Error A → (A → Exec B) → Exec B
continue (ok a) f s = f a s
continue (raise e) f s = (raise e, s)

abbrev pub pure : {A : Type 0} → A → Exec A
pure a s = (ok a, s)

abbrev pub throw : {A : Type 0} → Error → Exec A
throw e s = (raise e, s)

-- A call that neither reads nor writes the session.
abbrev pub lift : {A : Type 0} → Result Error A → Exec A
lift r s = (r, s)

infixl 5 ◌>>=◌ ◌>>◌
abbrev pub ◌>>=◌ : {A B : Type 0} → Exec A → (A → Exec B) → Exec B
◌>>=◌ m f s = let (r, s') = m s in continue r f s'

abbrev pub ◌>>◌ : {A B : Type 0} → Exec A → Exec B → Exec B
m >> k = m >>= λ _. k

-- `try: m; except IntegrityError as exc: handler(exc)`, with the message of the exception
abbrev pub handle_integrity : {A : Type 0} → Result Error A → (String → Exec A) → Exec A
handle_integrity (raise (integrity_error message)) handler s = handler message s
handle_integrity r handler s = (r, s)

abbrev pub except_integrity : {A : Type 0} → Exec A → (String → Exec A) → Exec A
except_integrity m handler s = let (r, s') = m s in handle_integrity r handler s'

-- A write that the session keeps until the next flush.
abbrev pub modify : (Tables → Tables) → Exec (Unit {0})
modify f s = (ok tt, record s { pending = f s.pending; dirty = true })

-- `session.rollback()`
abbrev pub rollback : Exec (Unit {0})
rollback s = (ok tt, record s { pending = s.committed; dirty = false })

module _ (engine : Engine) where
  abbrev flush_dirty : Option String → Exec (Unit {0})
  flush_dirty none s = (ok tt, record s { dirty = false })
  flush_dirty (some message) s = (raise (integrity_error message), s)

  -- `session.flush()`
  unfoldable pub flush : Exec (Unit {0})
  flush s = if s.dirty then flush_dirty (engine.violation s.pending) s else (ok tt, s)

  abbrev make_durable : Result Error (Unit {0}) → Exec (Unit {0})
  make_durable (ok _) s = (ok tt, record s { committed = s.pending })
  make_durable (raise e) s = (raise e, s)

  -- `session.commit()`
  unfoldable pub commit : Exec (Unit {0})
  unfolding flush
  commit s = let (r, s') = flush s in make_durable r s'

  abbrev answer : {A : Type 0} → (Tables → A) → Result Error (Unit {0}) → Exec A
  answer q (ok _) s = (ok (q s.pending), s)
  answer q (raise e) s = (raise e, s)

  -- `session.scalar(...)` and `session.execute(...)` of a query: pending writes are flushed first.
  unfoldable pub query : {A : Type 0} → (Tables → A) → Exec A
  unfolding flush
  query q s = let (r, s') = flush s in answer q r s'

abbrev pub opened : Tables → Session
opened tables = record { committed = tables; pending = tables; dirty = false }

-- `get_db_session`: a handler runs in a session of its own; `close` drops what is not committed.
abbrev pub with_session : {A : Type 0} → Exec A → Tables → Result Error A × Tables
with_session m tables = let (r, s) = m (opened tables) in (r, s.committed)

-- `_UNIQUE_VIOLATION_MARKERS`, `is_unique_violation`
abbrev pub unique_violation_markers : List String
unique_violation_markers =
    "unique constraint failed" ∷ "duplicate key value violates unique constraint"
    ∷ "duplicate entry" ∷ []

unfoldable pub is_unique_violation : Engine → String → List String → Bool
is_unique_violation engine orig identifiers =
    let message = engine.lower orig in
    if any (λ marker. occurs_in marker message) unique_violation_markers
    then any (λ identifier. occurs_in (engine.lower identifier) message) identifiers
    else false
