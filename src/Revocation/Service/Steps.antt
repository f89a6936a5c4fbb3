-- ===== src/Revocation/Service/Steps.antt =====
-- A state in which a token is revoked, and what one call makes of it.
use ara_nes_lms_core.Base.{
  string_eq, ℕ, ◌≤◌, ◌<◌, String, Bool, true, false, none, some, ltb, leb, ◌≡◌, refl, ap, ◌∙◌, sym,
  arith, ◌==◌, ==_iff, ==_refl, inl, inr, Bool-cases, Option-cases,
}
use Prim.Native.String.{◌++◌}
use text.Mathlib.TextLemmas.{append_cancel_left}
use ara_nes_lms_core.Dict.{get, pop, IsDict}
use ara_nes_lms_core.Dict.Laws.{get-pop, pop-IsDict}
use ara_nes_lms_core.Revocation.LocalCache.{move_to_end, LocalCache, cache_revocation_status}
use ara_nes_lms_core.Revocation.LocalCache.Others.{
  get-cache_revocation_status_inv, cache_revocation_status-IsDict, move_to_end-IsDict,
  get-move_to_end,
}
use ara_nes_lms_core.Revocation.Service.{
  Setting, Process, remove_expired, build_local_revocation_cache_key,
  should_cleanup_expired_revocations, store_revoked_jti, record_status, ask_shared,
  is_token_revoked, revoke_token, answer_from_row, set_cached_revocation_status,
  get_cached_revocation_status,
}
use ara_nes_lms_core.Revocation.Service.Rows.{
  Stands, remove_expired-Stands, pop-Stands, replaced-Stands, new_row-Stands, remove_expired-IsDict,
}

module _ (setting : Setting) where
  local_key_inj :
      (j k : String)
      → (build_local_revocation_cache_key setting j == build_local_revocation_cache_key setting k)
        ≡ (j == k)
  unfolding build_local_revocation_cache_key
  local_key_inj j k = ground (
    arith,
    ==_iff j k,
    ==_iff (setting.local_prefix ++ j) (setting.local_prefix ++ k),
    append_cancel_left setting.local_prefix j k,
  )

  -- The local cache does not deny that `j` is revoked.
  pub record Agrees (j : String) (c : LocalCache) : Type 0 where
    pub dict : IsDict c
    pub said :
        (v : Bool × ℕ) → get c (build_local_revocation_cache_key setting j) ≡ some v → v.0 ≡ true

  -- Moving or dropping one answer of the local cache.
  move_to_end-Agrees :
      (j : String) (c : LocalCache) (key : String) → Agrees j c → Agrees j (move_to_end c key)
  move_to_end-Agrees j c key h = record {
    dict = move_to_end-IsDict c key h.dict;
    said = λ v g.
        h.said v
          (sym (get-move_to_end c key (build_local_revocation_cache_key setting j) h.dict) ∙ g);
  }

  pop-Agrees : (j : String) (c : LocalCache) (key : String) → Agrees j c → Agrees j (pop c key)
  pop-Agrees j c key h = record {
    dict = pop-IsDict c key h.dict;
    said = λ v g.
        h.said v
          (ground (arith, g, get-pop c key (build_local_revocation_cache_key setting j) h.dict));
  }

  cache_revocation_status-Agrees :
      (j : String) (c : LocalCache) (k : String) (b : Bool) (now e : ℕ)
      → ((k == j) ≡ true → b ≡ true)
      → IsDict c
      → ((k == j) ≡ false → Agrees j c)
      → Agrees j (
          cache_revocation_status setting.ttl c
            (build_local_revocation_cache_key setting k)
            b
            now
            e)
  cache_revocation_status-Agrees j c k b now e honest dict old = record {
    dict =
        cache_revocation_status-IsDict setting.ttl c (build_local_revocation_cache_key setting k) b
          now e dict;
    said = λ v g. elim (Bool-cases (k == j)) [
      | inl same ↦ ground (
        arith,
        honest same,
        local_key_inj k j,
        get-cache_revocation_status_inv setting.ttl c (build_local_revocation_cache_key setting k) b
            now e dict (build_local_revocation_cache_key setting j) v g,
      )
      | inr other ↦ (old other).said v (
          ground (
            arith,
            local_key_inj k j,
            get-cache_revocation_status_inv setting.ttl c
                (build_local_revocation_cache_key setting k) b now e dict
                (build_local_revocation_cache_key setting j) v g,
          ))
    ];
  }

  -- `j` is revoked until `deadline`: its row stands, and the local cache does not deny it.
  pub record IsRevoked (j : String) (deadline : ℕ) (p : Process setting) : Type 0 where
    pub alone : p.shared ≡ none
    pub row : Stands j deadline p.table
    pub local : Agrees j p.local

  record_status-IsRevoked :
      (j : String) (deadline : ℕ) (p : Process setting) (k : String) (b : Bool) (now e : ℕ)
      → ((k == j) ≡ true → b ≡ true)
      → IsRevoked j deadline p
      → IsRevoked j deadline (record_status setting k b now e p)
  record_status-IsRevoked j deadline p k b now e honest h = record {
    alone = rw h.alone (unfold set_cached_revocation_status in refl);
    row = h.row;
    local =
        cache_revocation_status-Agrees j p.local k b now e honest h.local.dict (λ other. h.local);
  }

  store-Stands :
      (j : String) (deadline : ℕ) (p : Process setting) (k : String) (e stored_at : ℕ)
      → ((k == j) ≡ true → deadline ≤ e)
      → stored_at < deadline
      → Stands j deadline p.table
      → Stands j deadline (store_revoked_jti setting k e stored_at p).table
  unfolding store_revoked_jti
  store-Stands j deadline p k e stored_at late lt h =
      elim (Bool-cases (should_cleanup_expired_revocations setting stored_at p.cleanup_due).0) [
        | inl due ↦ rw due (
            replaced-Stands j deadline (remove_expired stored_at p.table) k e late
              (remove_expired-Stands j deadline stored_at p.table lt h))
        | inr not_due ↦ rw not_due (replaced-Stands j deadline p.table k e late h)
      ]

  answer_from_row-IsRevoked :
      (j : String) (deadline : ℕ) (p : Process setting) (k : String) (exp now : ℕ)
      → now < deadline
      → IsRevoked j deadline p
      → let r = answer_from_row setting k exp now (get p.table k) p in
        ((k == j) ≡ true → r.0 ≡ true) × IsRevoked j deadline r.1
  answer_from_row-IsRevoked j deadline p k exp now lt h = elim (Option-cases (get p.table k)) [
    | inl missing ↦
        let other : (k == j) ≡ false = ground (arith, h.row.row, ==_iff k j) in
        rw missing (
          ground (arith, other),
          record_status-IsRevoked j deadline p k false now exp (ground (arith, other)) h,
        )
    | inr (e, found) ↦ elim (Bool-cases (leb e now)) [
      | inr live ↦
          rw (found, live)
            ((λ same. refl), record_status-IsRevoked j deadline p k true now e (λ same. refl) h)
      | inl expired ↦
          let other : (k == j) ≡ false = ground (arith, h.row.row, h.row.late, found, ==_iff k j) in
          rw (found, expired)
            (
              ground (arith, other),
              record_status-IsRevoked j deadline (record p { table = pop p.table k }) k false now
                  exp (ground (arith, other))
                  (record {
                    alone = h.alone;
                    row = pop-Stands j deadline p.table k other h.row;
                    local = h.local;
                  }),
            )
    ]
  ]

  ask_shared-IsRevoked :
      (j : String) (deadline : ℕ) (p : Process setting) (k : String) (exp now : ℕ)
      → now < deadline
      → IsRevoked j deadline p
      → let r = ask_shared setting k exp now p in
        ((k == j) ≡ true → r.0 ≡ true) × IsRevoked j deadline r.1
  unfolding ask_shared get_cached_revocation_status
  ask_shared-IsRevoked j deadline p k exp now lt h =
      let alone : Process setting = record p { shared = none } in
      rw h.alone (
        answer_from_row-IsRevoked j deadline alone k exp now lt
          (record { alone = refl; row = h.row; local = h.local }))

  -- The answer for the token itself is yes, and the state stays one where it is.
  pub is_token_revoked-IsRevoked :
      (j : String) (deadline : ℕ) (p : Process setting) (k : String) (exp now : ℕ)
      → now < deadline
      → IsRevoked j deadline p
      → let r = is_token_revoked setting k exp now p in
        ((k == j) ≡ true → r.0 ≡ true) × IsRevoked j deadline r.1
  unfolding is_token_revoked
  is_token_revoked-IsRevoked j deadline p k exp now lt h =
      let key = build_local_revocation_cache_key setting k in
      elim (Option-cases (get p.local key)) [
        | inl missing ↦ rw missing (ask_shared-IsRevoked j deadline p k exp now lt h)
        | inr ((b, until), found) ↦ elim (Bool-cases (ltb now until)) [
          | inl fresh ↦
              rw (found, fresh)
                (
                  (λ same.
                      h.local.said (b, until)
                        (ap (λ i. get p.local (build_local_revocation_cache_key setting i))
                            (sym ((==_iff k j).0 same))
                          ∙ found)),
                  record {
                    alone = h.alone;
                    row = h.row;
                    local = move_to_end-Agrees j p.local key h.local;
                  },
                )
          | inr stale ↦
              rw (found, stale)
                (ask_shared-IsRevoked j deadline (record p { local = pop p.local key }) k exp now lt
                  (record {
                    alone = h.alone;
                    row = h.row;
                    local = pop-Agrees j p.local key h.local;
                  }))
        ]
      ]

  pub revoke_token-IsRevoked :
      (j : String) (deadline : ℕ) (p : Process setting) (k : String) (e stored_at now : ℕ)
      → ((k == j) ≡ true → deadline ≤ e)
      → stored_at < deadline
      → IsRevoked j deadline p
      → IsRevoked j deadline (revoke_token setting k e stored_at now p)
  unfolding revoke_token
  revoke_token-IsRevoked j deadline p k e stored_at now late lt h =
      record_status-IsRevoked j deadline (store_revoked_jti setting k e stored_at p) k true now e
        (λ same. refl)
        (record {
          alone = unfold store_revoked_jti in h.alone;
          row = store-Stands j deadline p k e stored_at late lt h.row;
          local = unfold store_revoked_jti in h.local;
        })

  -- The token itself, in a state where nothing is known of it.
  pub start-IsRevoked :
      (p : Process setting) (j : String) (e stored_at now : ℕ)
      → p.shared ≡ none
      → IsDict p.local
      → IsDict p.table
      → IsRevoked j e (revoke_token setting j e stored_at now p)
  unfolding revoke_token store_revoked_jti
  start-IsRevoked p j e stored_at now alone local_dict table_dict = record {
    alone = rw alone (unfold set_cached_revocation_status in refl);
    row = elim (Bool-cases (should_cleanup_expired_revocations setting stored_at p.cleanup_due).0) [
      | inl due ↦ rw due (
          new_row-Stands j e (remove_expired stored_at p.table)
            (remove_expired-IsDict stored_at p.table table_dict))
      | inr not_due ↦ rw not_due (new_row-Stands j e p.table table_dict)
    ];
    local =
        cache_revocation_status-Agrees j p.local j true now e (λ same. refl) local_dict
          (λ other. absurd (ground (arith, ==_refl j, other)));
  }
