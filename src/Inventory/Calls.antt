-- ===== src/Inventory/Calls.antt =====
-- Every call of the inventory keeps its cache coherent with the table.
use client_server_architectu.Platform.{Platform}
use client_server_architectu.Prelude.{
  ◌⊎◌, ◌≡◌, true, some, refl, none, inr, inl, contains, arith, String, Option-cases, Option,
  Bool-cases,
}
use client_server_architectu.Storage
use client_server_architectu.Inventory.Coherent.{
  IsCoherent, write-IsCoherent, remember-IsCoherent, keep-IsCoherent, load-IsCoherent,
}
use client_server_architectu.Inventory.{
  update_stock, get_stock, get_inventory_summary, update_valid, cache_put, validate_inventory,
  fetch, remember, load_summary, remember_all, get_stock_on_cache, UpdateStockResult,
}
use client_server_architectu.Storage.{
  find_stock, upsert, client_map, save_stock_update, count_statement,
}
use client_server_architectu.World.{World, Result, ok, err, std_exception}
use client_server_architectu.Prelude.Int.{ℤ, pos, ltb_ℤ}

-- the answer of an update that was carried out
abbrev pub Succeeds : Result UpdateStockResult → Type 0
Succeeds (ok r) = r.success ≡ true
Succeeds (err x) = ⊥

module _ ⦃p : Platform⦄ where
  pub save_stock_update-cases :
      (c k i : String) (q : ℤ) (w : World)
      → (save_stock_update c k i q w ≡ (err std_exception, count_statement w))
        ⊎ (save_stock_update c k i q w
            ≡ (ok tt, record (count_statement w) { stock = upsert c k i q w.stock }))
  unfolding save_stock_update
  save_stock_update-cases c k i q w = ground arith

  -- What an update may do: change neither the table nor the cache and not answer success, or make
  -- the same write to both and answer success.
  abbrev pub Writes :
      String → String → String → ℤ → World → Result UpdateStockResult × World → Type 0
  Writes c k i q w (o, v) =
      ((v.stock ≡ w.stock) × (v.cache ≡ w.cache) × ¬ Succeeds o)
      ⊎ ((v.stock ≡ upsert c k i q w.stock) × (v.cache ≡ (cache_put c k i q w).cache) × Succeeds o)

  update_valid-Writes :
      (c k i : String) (q : ℤ) (w : World) → Writes c k i q w (update_valid c k i q w)
  unfolding update_valid cache_put
  update_valid-Writes c k i q w = elim (save_stock_update-cases c k i q w) [
    | inl e ↦ inl (rw e (refl, refl, λ h. h))
    | inr e ↦ inr (rw e (refl, refl, refl))
  ]

  pub update_stock-Writes :
      (c k i : String) (q : ℤ) (w : World) → Writes c k i q w (update_stock c k i q w)
  unfolding update_stock
  update_stock-Writes c k i q w = elim (Bool-cases (ltb_ℤ q (pos 0))) [
    | inl e ↦ inl (rw e (refl, refl, λ h. cc))
    | inr e ↦ rw e (elim (Bool-cases (validate_inventory k i).success) [
      | inl f ↦ rw f (update_valid-Writes c k i q w)
      | inr f ↦ inl (rw f (refl, refl, λ h. cc))
    ])
  ]

  -- Every update keeps the cache coherent, whether it is carried out, rejected, or throws.
  pub update_stock-IsCoherent :
      (c k i : String) (q : ℤ) {w : World} → IsCoherent w → IsCoherent (update_stock c k i q w).1
  update_stock-IsCoherent c k i q {w} h = elim (update_stock-Writes c k i q w) [
    | inl (s, e, _) ↦ keep-IsCoherent _ h s e
    | inr (s, e, _) ↦ write-IsCoherent c k i q h _ s e
  ]

  fetch-IsCoherent :
      (c k i : String) (cached : Option ℤ) {w : World}
      → IsCoherent w
      → IsCoherent (fetch c k i cached w).1
  unfolding fetch remember Storage.get_stock cache_put
  fetch-IsCoherent c k i (some q) h = h
  fetch-IsCoherent c k i none {w} h = elim (Bool-cases (p.db_fault w.journal.statements)) [
    | inl e ↦ rw e (keep-IsCoherent _ h refl refl)
    | inr e ↦ rw e (elim (Option-cases (find_stock c k i w.stock)) [
      | inl f ↦ rw f (keep-IsCoherent _ h refl refl)
      | inr (q, f) ↦ rw f (remember-IsCoherent c k i q h _ f refl refl)
    ])
  ]

  -- Every query of one quantity keeps the cache coherent.
  pub get_stock-IsCoherent :
      (c k i : String) {w : World} → IsCoherent w → IsCoherent (get_stock c k i w).1
  unfolding get_stock
  get_stock-IsCoherent c k i {w} h = fetch-IsCoherent c k i (get_stock_on_cache c k i w.cache) h

  load_summary-IsCoherent :
      (c : String) {w : World} → IsCoherent w → IsCoherent (load_summary c w).1
  unfolding load_summary remember_all Storage.get_full_inventory
  load_summary-IsCoherent c {w} h = elim (Bool-cases (p.db_fault w.journal.statements)) [
    | inl f ↦ rw f (keep-IsCoherent _ h refl refl)
    | inr f ↦ rw f (elim (Option-cases (client_map c w.stock)) [
      | inl g ↦ rw g (keep-IsCoherent _ h refl refl)
      | inr (m, g) ↦ rw g (load-IsCoherent c m _ h g refl refl)
    ])
  ]

  -- Every summary keeps the cache coherent.
  pub get_inventory_summary-IsCoherent :
      (c : String) {w : World} → IsCoherent w → IsCoherent (get_inventory_summary c w).1
  unfolding get_inventory_summary
  get_inventory_summary-IsCoherent c {w} h =
      elim (Bool-cases (contains w.cache.fully_cached_clients c)) [
        | inl e ↦ rw e (keep-IsCoherent _ h refl refl)
        | inr e ↦ rw e (load_summary-IsCoherent c (keep-IsCoherent _ h refl refl))
      ]
