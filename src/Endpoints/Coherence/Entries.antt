-- ===== src/Endpoints/Coherence/Entries.antt =====
-- What an entry of the shared cache should hold, and how it stays right when rows change.
use ara_nes_lms_core.Base.{
  string_eq, nat_eq, ℕ, String, some, List, [], ◌∷◌, if◌then◌else◌, find, ◌==◌, map, ◌≡◌, ◌≢◌, refl,
  sym, ap, ◌∙◌, arith,
}
use Prim.Native.String.{◌++◌}
use text.Mathlib.TextEquality.{eq_iff}
use text.Mathlib.TextLemmas.{append_cancel_left, append_inj}
use ara_nes_lms_core.Database.{Role, User, Tables}
use ara_nes_lms_core.Rbac.Rows.{role_by_id, user_by_id, sort_roles, insert_user, sort_users}
use ara_nes_lms_core.Rbac.Effects.RoleEdits.{IsRoleChange}
use ara_nes_lms_core.Rbac.Effects.UserEdits.{IsUserChange, IsPasswordChange}
use ara_nes_lms_core.RedisCache.RoundTrip.{IsCodec}
use ara_nes_lms_core.RbacCache.{
  build_role_cache_key, build_role_list_cache_key, build_user_cache_key, build_user_list_cache_key,
}
use ara_nes_lms_core.Endpoints.World.{RoleView, UserView, serialize_role, serialize_user, Services}

-- Loading gives what was dumped, validating a dumped view gives the view, and the print of a key
-- determines the key and is not "list".
pub record IsFaithful (services : Services) : Type 0 where
  pub codec : IsCodec services.json
  pub role_read :
      (v : RoleView) → services.role_model.validate (services.role_model.dump v) ≡ some v
  pub roles_read :
      (vs : List RoleView)
      → services.role_model.validate_items (services.role_model.dump_items vs) ≡ some vs
  pub user_read :
      (v : UserView) → services.user_model.validate (services.user_model.dump v) ≡ some v
  pub users_read :
      (vs : List UserView)
      → services.user_model.validate_items (services.user_model.dump_items vs) ≡ some vs
  pub str_inj : (i j : ℕ) → services.str i ≡ services.str j → i ≡ j
  pub str-ne : (i : ℕ) → services.str i ≢ "list"

-- Sorting by key, and the views, do not see the passwords.
insert-map :
    (g : User → User)
    → ((u : User) → (g u).id ≡ u.id)
    → (u : User) (us : List User) → insert_user (g u) (map g us) ≡ map g (insert_user u us)
unfolding insert_user
insert-map g keeps u [] = refl
insert-map g keeps u (v ∷ us) = ground (arith, keeps u, keeps v, insert-map g keeps u us)

sort-map :
    (g : User → User)
    → ((u : User) → (g u).id ≡ u.id)
    → (us : List User) → sort_users (map g us) ≡ map g (sort_users us)
unfolding sort_users
sort-map g keeps [] = refl
sort-map g keeps (u ∷ us) =
    ap (insert_user (g u)) (sort-map g keeps us) ∙ insert-map g keeps u (sort_users us)

views-map :
    (g : User → User)
    → ((u : User) → serialize_user (g u) ≡ serialize_user u)
    → (us : List User) → map serialize_user (map g us) ≡ map serialize_user us
views-map g same [] = refl
views-map g same (u ∷ us) = cc (same u, views-map g same us)

module _ (password : String) (key : ℕ) where
  abbrev with_password : User → User
  with_password user = if user.id == key then record user { password = password } else user

  view-with_password : (u : User) → serialize_user (with_password u) ≡ serialize_user u
  unfolding serialize_user
  view-with_password u = ground arith

  views-with_password :
      (us : List User)
      → map serialize_user (sort_users (map with_password us)) ≡ map serialize_user (sort_users us)
  views-with_password us =
      ap (map serialize_user) (sort-map with_password (λ u. ground arith) us)
      ∙ views-map with_password view-with_password (sort_users us)

module _ (services : Services) where
  open services use {json, role_model, user_model, str}

  -- An entry under a key of roles or users holds what the tables have.
  pub record IsRight (t : Tables) (key text : String) : Type 0 where
    pub role :
        (i : ℕ)
        → key ≡ build_role_cache_key str i
        → (r : Role) × (role_by_id i t ≡ some r)
          × (text ≡ json.dumps (role_model.dump (serialize_role r)))
    pub roles :
        key ≡ build_role_list_cache_key
        → text ≡ json.dumps (role_model.dump_items (map serialize_role (sort_roles t.roles)))
    pub user :
        (i : ℕ)
        → key ≡ build_user_cache_key str i
        → (u : User) × (user_by_id i t ≡ some u)
          × (text ≡ json.dumps (user_model.dump (serialize_user u)))
    pub users :
        key ≡ build_user_list_cache_key
        → text ≡ json.dumps (user_model.dump_items (map serialize_user (sort_users t.users)))

  module _ (faithful : IsFaithful services) where
    role_key-inj : (i j : ℕ) → build_role_cache_key str i ≡ build_role_cache_key str j → i ≡ j
    unfolding build_role_cache_key
    role_key-inj i j e = faithful.str_inj i j (append_cancel_left "rbac:role:" (str i) (str j) e)

    user_key-inj : (i j : ℕ) → build_user_cache_key str i ≡ build_user_cache_key str j → i ≡ j
    unfolding build_user_cache_key
    user_key-inj i j e = faithful.str_inj i j (append_cancel_left "rbac:user:" (str i) (str j) e)

    role_key-ne-list : (i : ℕ) → build_role_cache_key str i ≢ build_role_list_cache_key
    unfolding build_role_cache_key build_role_list_cache_key
    role_key-ne-list i e = faithful.str-ne i (append_cancel_left "rbac:role:" (str i) "list" e)

    user_key-ne-list : (i : ℕ) → build_user_cache_key str i ≢ build_user_list_cache_key
    unfolding build_user_cache_key build_user_list_cache_key
    user_key-ne-list i e = faithful.str-ne i (append_cancel_left "rbac:user:" (str i) "list" e)

    prefix-ne : (s t : String) → ("rbac:role:" ++ s) ≢ ("rbac:user:" ++ t)
    prefix-ne s t e =
        let same : ◌≡◌ {A = String} "rbac:role:" "rbac:user:" =
          (append_inj {s₁ = "rbac:role:"} {s₂ = "rbac:user:"} {t₁ = s} {t₂ = t} e refl).0 in
        ground (arith, same, eq_iff "rbac:role:" "rbac:user:")

    pub role_written-IsRight :
        (i : ℕ) (r : Role) (t : Tables)
        → role_by_id i t ≡ some r
        → IsRight t (build_role_cache_key str i) (json.dumps (role_model.dump (serialize_role r)))
    unfolding build_role_cache_key build_user_cache_key build_user_list_cache_key
    role_written-IsRight i r t found = record {
      role = λ j e. (r, ap (λ k. role_by_id k t) (sym (role_key-inj i j e)) ∙ found, refl);
      roles = λ e. absurd (role_key-ne-list i e);
      user = λ j e. absurd (prefix-ne (str i) (str j) e);
      users = λ e. absurd (prefix-ne (str i) "list" e);
    }

    pub roles_written-IsRight :
        (t : Tables)
        → IsRight t build_role_list_cache_key
            (json.dumps (role_model.dump_items (map serialize_role (sort_roles t.roles))))
    unfolding build_role_list_cache_key build_user_cache_key build_user_list_cache_key
    roles_written-IsRight t = record {
      role = λ j e. absurd (role_key-ne-list j (sym e));
      roles = λ e. refl;
      user = λ j e. absurd (prefix-ne "list" (str j) e);
      users = λ e. absurd (prefix-ne "list" "list" e);
    }

    pub user_written-IsRight :
        (i : ℕ) (u : User) (t : Tables)
        → user_by_id i t ≡ some u
        → IsRight t (build_user_cache_key str i) (json.dumps (user_model.dump (serialize_user u)))
    unfolding build_user_cache_key build_role_cache_key build_role_list_cache_key
    user_written-IsRight i u t found = record {
      role = λ j e. absurd (prefix-ne (str j) (str i) (sym e));
      roles = λ e. absurd (prefix-ne "list" (str i) (sym e));
      user = λ j e. (u, ap (λ k. user_by_id k t) (sym (user_key-inj i j e)) ∙ found, refl);
      users = λ e. absurd (user_key-ne-list i e);
    }

    pub users_written-IsRight :
        (t : Tables)
        → IsRight t build_user_list_cache_key
            (json.dumps (user_model.dump_items (map serialize_user (sort_users t.users))))
    unfolding build_user_list_cache_key build_role_cache_key build_role_list_cache_key
    users_written-IsRight t = record {
      role = λ j e. absurd (prefix-ne (str j) "list" (sym e));
      roles = λ e. absurd (prefix-ne "list" "list" (sym e));
      user = λ j e. absurd (user_key-ne-list j (sym e));
      users = λ e. refl;
    }

  -- An entry stays right when the rows that it is about are as they were.
  module _ (t u : Tables) (k x : String) where
    pub roles-IsRight :
        ((j : ℕ) → k ≡ build_role_cache_key str j → role_by_id j u ≡ role_by_id j t)
        → k ≢ build_role_list_cache_key
        → u.users ≡ t.users
        → IsRight t k x
        → IsRight u k x
    roles-IsRight same no_list users right = record {
      role = λ i e. let (r, found, text) = right.role i e in (r, same i e ∙ found, text);
      roles = λ e. absurd (no_list e);
      user = λ i e.
          let (v, found, text) = right.user i e in
          (v, ap (λ us. find (λ w. w.id == i) us) users ∙ found, text);
      users = λ e.
          right.users e
          ∙ ap (λ us. json.dumps (user_model.dump_items (map serialize_user (sort_users us))))
              (sym users);
    }

    pub users-IsRight :
        ((j : ℕ) → k ≡ build_user_cache_key str j → user_by_id j u ≡ user_by_id j t)
        → k ≢ build_user_list_cache_key
        → u.roles ≡ t.roles
        → IsRight t k x
        → IsRight u k x
    users-IsRight same no_list roles right = record {
      role = λ i e.
          let (r, found, text) = right.role i e in
          (r, ap (λ rs. find (λ q. q.id == i) rs) roles ∙ found, text);
      roles = λ e.
          right.roles e
          ∙ ap (λ rs. json.dumps (role_model.dump_items (map serialize_role (sort_roles rs))))
              (sym roles);
      user = λ i e. let (v, found, text) = right.user i e in (v, same i e ∙ found, text);
      users = λ e. absurd (no_list e);
    }

    pub role_change-IsRight :
        (i : ℕ)
        → IsRoleChange i t u
        → k ≢ build_role_cache_key str i
        → k ≢ build_role_list_cache_key
        → IsRight t k x
        → IsRight u k x
    role_change-IsRight i change other no_list =
        roles-IsRight
          (λ j e. change.others j (λ same. other (e ∙ ap (build_role_cache_key str) same))) no_list
          change.users

    pub user_change-IsRight :
        (i : ℕ)
        → IsUserChange i t u
        → k ≢ build_user_cache_key str i
        → k ≢ build_user_list_cache_key
        → IsRight t k x
        → IsRight u k x
    user_change-IsRight i change other no_list =
        users-IsRight
          (λ j e. change.others j (λ same. other (e ∙ ap (build_user_cache_key str) same))) no_list
          change.roles

    pub password_change-IsRight :
        {password : String} (i : ℕ)
        → IsPasswordChange i password t u
        → k ≢ build_user_cache_key str i
        → IsRight t k x
        → IsRight u k x
    password_change-IsRight {password} i change other right = record {
      role = λ j e.
          let (r, found, text) = right.role j e in
          (r, ap (λ rs. find (λ q. q.id == j) rs) change.change.roles ∙ found, text);
      roles = λ e.
          right.roles e
          ∙ ap (λ rs. json.dumps (role_model.dump_items (map serialize_role (sort_roles rs))))
              (sym change.change.roles);
      user = λ j e.
          let (v, found, text) = right.user j e in
          (
            v,
            change.change.others j (λ same. other (e ∙ ap (build_user_cache_key str) same)) ∙ found,
            text,
          );
      users = λ e.
          right.users e
          ∙ ap (λ vs. json.dumps (user_model.dump_items vs))
              (sym (
                ap (λ us. map serialize_user (sort_users us)) change.users
                ∙ views-with_password password change.key t.users));
    }
