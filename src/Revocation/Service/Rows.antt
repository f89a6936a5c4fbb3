-- ===== src/Revocation/Service/Rows.antt =====
-- The row of a revoked token in the table, through the writes of `revoke_token` and
-- `is_token_revoked`.
use ara_nes_lms_core.Base.{
  string_eq, ℕ, ◌≤◌, ◌<◌, String, true, false, none, some, [], ◌∷◌, ◌++◌ as ◌++ᴸ◌, leb,
  if◌then◌else◌, ◌≡◌, ◌∙◌, arith, ◌==◌, ==_refl, inl, inr, Bool-cases,
}
use ara_nes_lms_core.Dict.{get, pop, IsDict}
use ara_nes_lms_core.Dict.Laws.{get-pop, pop-IsDict, append-IsDict, get-append}
use ara_nes_lms_core.Revocation.Service.{Table, remove_expired}

-- Dropping expired rows keeps the others.
get-remove_expired :
    (now : ℕ) (t : Table) (j : String) (e : ℕ)
    → get t j ≡ some e
    → now < e
    → get (remove_expired now t) j ≡ some e
unfolding get
get-remove_expired now [] j e h lt = h
get-remove_expired now ((k, v) ∷ t) j e h lt = ground (arith, get-remove_expired now t j e)

get-remove_none :
    (now : ℕ) (t : Table) (j : String) → get t j ≡ none → get (remove_expired now t) j ≡ none
unfolding get
get-remove_none now [] j h = h
get-remove_none now ((k, v) ∷ t) j h = ground (arith, get-remove_none now t j)

pub remove_expired-IsDict : (now : ℕ) (t : Table) → IsDict t → IsDict (remove_expired now t)
remove_expired-IsDict now [] h = tt
remove_expired-IsDict now ((k, v) ∷ t) h = elim (Bool-cases (leb v now)) [
  | inl expired ↦ rw expired (remove_expired-IsDict now t h.1)
  | inr live ↦ rw live (get-remove_none now t k h.0, remove_expired-IsDict now t h.1)
]

-- A dictionary of rows in which `j` stands until `deadline` at least.
pub record Stands (j : String) (deadline : ℕ) (t : Table) : Type 0 where
  pub dict : IsDict t
  pub until : ℕ
  pub row : get t j ≡ some until
  pub late : deadline ≤ until

pub remove_expired-Stands :
    (j : String) (deadline now : ℕ) (t : Table)
    → now < deadline
    → Stands j deadline t
    → Stands j deadline (remove_expired now t)
remove_expired-Stands j deadline now t lt h = record {
  dict = remove_expired-IsDict now t h.dict;
  until = h.until;
  row = get-remove_expired now t j h.until h.row (omega (arith, lt, h.late));
  late = h.late;
}

-- `pop` of another key, and the new row of one.
pub pop-Stands :
    (j : String) (deadline : ℕ) (t : Table) (k : String)
    → (k == j) ≡ false
    → Stands j deadline t
    → Stands j deadline (pop t k)
pop-Stands j deadline t k other h = record {
  dict = pop-IsDict t k h.dict;
  until = h.until;
  row = get-pop t k j h.dict ∙ rw other h.row;
  late = h.late;
}

get-replaced :
    (t : Table) (k : String) (e : ℕ) (j : String)
    → IsDict t
    → get (pop t k ++ᴸ (k, e) ∷ []) j ≡ (if k == j then some e else get t j)
get-replaced t k e j h = ground (arith, get-append (pop t k) k e j, get-pop t k j h)

replaced-IsDict : (t : Table) (k : String) (e : ℕ) → IsDict t → IsDict (pop t k ++ᴸ (k, e) ∷ [])
replaced-IsDict t k e h =
    append-IsDict (pop t k) k e (get-pop t k k h ∙ rw (==_refl k)) (pop-IsDict t k h)

pub replaced-Stands :
    (j : String) (deadline : ℕ) (t : Table) (k : String) (e : ℕ)
    → ((k == j) ≡ true → deadline ≤ e)
    → Stands j deadline t
    → Stands j deadline (pop t k ++ᴸ (k, e) ∷ [])
replaced-Stands j deadline t k e late h = elim (Bool-cases (k == j)) [
  | inl same ↦ record {
    dict = replaced-IsDict t k e h.dict;
    until = e;
    row = get-replaced t k e j h.dict ∙ rw same;
    late = late same;
  }
  | inr other ↦ record {
    dict = replaced-IsDict t k e h.dict;
    until = h.until;
    row = get-replaced t k e j h.dict ∙ rw other h.row;
    late = h.late;
  }
]

pub new_row-Stands :
    (j : String) (e : ℕ) (t : Table) → IsDict t → Stands j e (pop t j ++ᴸ (j, e) ∷ [])
new_row-Stands j e t h = record {
  dict = replaced-IsDict t j e h;
  until = e;
  row = get-replaced t j e j h ∙ rw (==_refl j);
  late = omega arith;
}
