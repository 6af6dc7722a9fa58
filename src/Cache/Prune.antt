-- ===== src/Cache/Prune.antt =====
-- `prune_expired` of src/pooling/cache.rs on a cache whose eviction order agrees with its entries.
use rust_network_system.Base.{
  ℕ, ◌≤◌, ◌≡◌, refl, sym, ap, ◌∙◌, subst, inl, inr, none, some, List, [], ◌∷◌, arith, length,
  Option, le_or_gt,
}
use rust_network_system.Cache.{Cache, CacheEntry, forget, forget_all, prune_expired, expired_keys}
use rust_network_system.Cache.Maps.{
  erase, remove_first, bound, erase_unbound, remove_absent, length-erase,
}
use rust_network_system.Cache.Order.{Agree, InSync, Agree-forget}
use rust_network_system.Cache.Lru.{Fits, ordered}

module _ {K V : Type 0} (dec : Discrete K) where
  Agree-forget_any :
      (k : K) (m : List (K × CacheEntry V)) (order : List K)
      → Agree dec m order
      → Agree dec (erase dec k m) (remove_first dec k order) × (length (erase dec k m) ≤ length m)
  Agree-forget_any k m order a = elim (le_or_gt 1 (bound dec k m)) [
    | inl held ↦ (Agree-forget dec k held a, omega (arith, length-erase dec k m held))
    | inr free ↦
        let absent : bound dec k m ≡ 0 = omega (arith, free) in
        let kept = erase_unbound dec k m absent in
        (
          subst (λ l. Agree dec (erase dec k m) l)
              (sym (remove_absent dec k order (a.same k ∙ absent)))
              (subst (λ n. Agree dec n order) (sym kept) a),
          omega (arith, ap length kept),
        )
  ]

  forget-InSync :
      (c : Cache K V) (k : K)
      → InSync dec c
      → Fits dec c
      → InSync dec (forget dec c k) × Fits dec (forget dec c k)
  unfolding forget
  forget-InSync c k v fits =
      let (agree, fewer) = Agree-forget_any k c.entries c.lru_order v.agree in
      (ordered dec c _ _ v agree, omega (arith, fits, fewer))

  forget_all-InSync :
      (c : Cache K V) (ks : List K)
      → InSync dec c
      → Fits dec c
      → InSync dec (forget_all dec c ks) × Fits dec (forget_all dec c ks)
  unfolding forget_all
  forget_all-InSync c [] v fits = (v, fits)
  forget_all-InSync c (k ∷ ks) v fits =
      let (v', fits') = forget-InSync c k v fits in forget_all-InSync (forget dec c k) ks v' fits'

  forget_all-config : (c : Cache K V) (ks : List K) → (forget_all dec c ks).config ≡ c.config
  unfolding forget_all forget
  forget_all-config c [] = refl
  forget_all-config c (k ∷ ks) = forget_all-config (forget dec c k) ks

  forget_all_nothing :
      (c : Cache K V) (ks : List K) → c.entries ≡ [] → (forget_all dec c ks).entries ≡ []
  unfolding forget_all forget erase
  forget_all_nothing c [] e = e
  forget_all_nothing c (k ∷ ks) e = forget_all_nothing (forget dec c k) ks (ap (erase dec k) e)

  -- It returns the cache as it is, or without some keys.
  pruned :
      (P : Cache K V → Type 0) (c : Cache K V) (now : ℕ)
      → P c
      → ((ks : List K) → P (forget_all dec c ks))
      → P (prune_expired dec c now).1
  unfolding prune_expired
  pruned P c now same less = go c.config.ttl
    where
      go :
          (o : Option ℕ)
          → P
              (elim o as (λ _. ℕ × Cache K V) [
                | none ↦ (0, c)
                | some ttl ↦
                    (let ks = expired_keys dec ttl now c.entries in
                      (length ks, forget_all dec c ks))
              ]).1
      go none = same
      go (some ttl) = less (expired_keys dec ttl now c.entries)

  -- It keeps the agreement and the capacity.
  pub prune_expired-InSync :
      (c : Cache K V) (now : ℕ)
      → InSync dec c
      → Fits dec c
      → InSync dec (prune_expired dec c now).1 × Fits dec (prune_expired dec c now).1
  prune_expired-InSync c now v fits =
      pruned (λ d. InSync dec d × Fits dec d) c now (v, fits) (λ ks. forget_all-InSync c ks v fits)

  pub prune_expired-config :
      (c : Cache K V) (now : ℕ) → (prune_expired dec c now).1.config ≡ c.config
  prune_expired-config c now =
      pruned (λ d. d.config ≡ c.config) c now refl (λ ks. forget_all-config c ks)

  -- Without entries there is nothing to prune.
  pub prune_nothing :
      (c : Cache K V) (now : ℕ) → c.entries ≡ [] → (prune_expired dec c now).1.entries ≡ []
  prune_nothing c now e = pruned (λ d. d.entries ≡ []) c now e (λ ks. forget_all_nothing c ks e)
