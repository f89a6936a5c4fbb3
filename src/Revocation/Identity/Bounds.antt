-- ===== src/Revocation/Identity/Bounds.antt =====
-- The size of the cache of token identities.
use ara_nes_lms_core.Base.{
  string_eq, ℕ, suc, ◌≤◌, String, Option, none, some, [], ◌∷◌, length, length-append, ◌≡◌, arith,
  ltb, inl, inr, Bool-cases, Option-cases,
}
use ara_nes_lms_core.Dict.{Dict, get, pop}
use ara_nes_lms_core.Revocation.LocalCache.{move_to_end, put_newest}
use ara_nes_lms_core.Revocation.LocalCache.Newest.{length-shrink}
use ara_nes_lms_core.Revocation.Identity.{
  IdentityCache, Verified, refused, claims, token_identity_cache_max_entries, extract_jti_and_exp,
  build_token_identity_cache_key, resolve_revocation_identity, present, remember, verified,
}

module _ {V : Type 0} where
  length-pop : (d : Dict String V) (k : String) → length (pop d k) ≤ length d
  unfolding pop
  length-pop [] k = omega arith
  length-pop ((j, v) ∷ d) k = ground (arith, length-pop d k)

  length-pop_found :
      (d : Dict String V) (k : String) (v : V)
      → get d k ≡ some v
      → suc (length (pop d k)) ≡ length d
  unfolding pop get
  length-pop_found [] k v h = ground arith
  length-pop_found ((j, w) ∷ d) k v h = ground (arith, length-pop_found d k v)

  length-move_to_end : (d : Dict String V) (k : String) → length (move_to_end d k) ≤ length d
  unfolding move_to_end
  length-move_to_end d k = elim (Option-cases (get d k)) [
    | inl missing ↦ rw (missing, length) (omega arith)
    | inr (v, found) ↦
        rw (found, length)
          (omega (arith, length-append (pop d k) ((k, v) ∷ []), length-pop_found d k v found))
  ]

module _ (verify_token : String → Verified) (sha256 : String → String) (security_id : String) where
  length-remember :
      (key : String) (jti : Option String) (exp : Option ℕ) (cache : IdentityCache)
      → length cache ≤ token_identity_cache_max_entries
      → length (remember verify_token sha256 security_id key jti exp cache).1
        ≤ token_identity_cache_max_entries
  length-remember key (some jti) (some exp) cache h =
      length-shrink token_identity_cache_max_entries (put_newest cache key (jti, exp))
  length-remember key (some jti) none cache h = h
  length-remember key none exp cache h = h

  length-verified :
      (key : String) (v : Verified) (cache : IdentityCache)
      → length cache ≤ token_identity_cache_max_entries
      → length (verified verify_token sha256 security_id key v cache).1
        ≤ token_identity_cache_max_entries
  length-verified key refused cache h = h
  length-verified key (claims jti exp) cache h =
      length-remember key (present verify_token sha256 security_id jti) exp cache h

  length-extract_jti_and_exp :
      (token : String) (now : ℕ) (cache : IdentityCache)
      → length cache ≤ token_identity_cache_max_entries
      → length (extract_jti_and_exp verify_token sha256 security_id token now cache).1
        ≤ token_identity_cache_max_entries
  unfolding extract_jti_and_exp
  length-extract_jti_and_exp token now cache h =
      let key = build_token_identity_cache_key verify_token sha256 security_id token in
      elim (Option-cases (get cache key)) [
        | inl unknown ↦ rw unknown (length-verified key (verify_token token) cache h)
        | inr ((jti, exp), found) ↦ elim (Bool-cases (ltb now exp)) [
          | inl fresh ↦ rw (found, fresh) (omega (arith, length-move_to_end cache key, h))
          | inr stale ↦
              rw (found, stale)
                (length-verified key (verify_token token) (pop cache key)
                  (omega (arith, length-pop cache key, h)))
        ]
      ]

  -- Resolving the identity of any token keeps the cache of identities within its 2048 entries.
  pub length-resolve_revocation_identity :
      (token : String) (now : ℕ) (cache : IdentityCache)
      → length cache ≤ token_identity_cache_max_entries
      → length (resolve_revocation_identity verify_token sha256 security_id token now cache).1
        ≤ token_identity_cache_max_entries
  unfolding resolve_revocation_identity
  length-resolve_revocation_identity token now cache h =
      elim (Option-cases (extract_jti_and_exp verify_token sha256 security_id token now cache).0) [
        | inl refused_token ↦
            rw (refused_token, length) (length-extract_jti_and_exp token now cache h)
        | inr (identity, resolved) ↦
            rw (resolved, length) (length-extract_jti_and_exp token now cache h)
      ]
