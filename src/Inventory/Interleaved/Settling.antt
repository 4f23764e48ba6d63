-- ===== src/Inventory/Interleaved/Settling.antt =====
-- The cache while calls that write different items of it are at work.
use client_server_architectu.Inventory.Coherent.{get_stock_on_cache-cache_put, fully-cache_put}
use client_server_architectu.Inventory.Interleaved.{
  Write, Shared, is_same_item, is_pending, perform_write,
}
use client_server_architectu.Inventory.{get_stock_on_cache, cache_put}
use client_server_architectu.Prelude.Dict
use client_server_architectu.Prelude.Dict.{lookup-insert}
use client_server_architectu.Prelude.Int.{ℤ}
use client_server_architectu.Prelude.{
  subst, eq_refl, All, contains, contains-set_insert, set_insert, ◌≡◌, ◌∷◌, ◌++◌, ◌||◌, ◌∙◌, true,
  false, some, refl, eq_iff, arith, [], String, List, Bool-cases, inl, inr, sym,
}
use client_server_architectu.Storage.{find_stock, upsert, client_map}
use client_server_architectu.Storage.Stock.{
  NodupStock, find_stock-upsert, upsert-NodupStock, quantity_in-client_map,
}
use client_server_architectu.World.{World, ClientInventoryMap, StockRow}

-- The table has what a pending write will put in the cache.
abbrev IsCurrent : List StockRow → Write → Type 0
IsCurrent rows x = find_stock x.client x.category x.item rows ≡ some x.quantity

-- The cache is coherent but for the items whose write is pending.
pub record IsSettling (s : Shared) : Type 0 where
  pub distinct : NodupStock s.world.stock
  pub current : All (IsCurrent s.world.stock) s.pending
  pub agrees :
      (c k i : String) (q : ℤ)
      → is_pending c k i s.pending ≡ false
      → get_stock_on_cache c k i s.world.cache ≡ some q
      → find_stock c k i s.world.stock ≡ some q
  pub complete :
      (c k i : String)
      → is_pending c k i s.pending ≡ false
      → contains s.world.cache.fully_cached_clients c ≡ true
      → get_stock_on_cache c k i s.world.cache ≡ find_stock c k i s.world.stock

is_pending-append :
    (c k i : String) (xs ys : List Write)
    → is_pending c k i (xs ++ ys) ≡ (is_pending c k i xs || is_pending c k i ys)
unfolding is_pending
is_pending-append c k i [] ys = refl
is_pending-append c k i (x ∷ xs) ys = ground (arith, is_pending-append c k i xs ys)

module _ (P : Write → Type 0) where
  All-append : (xs ys : List Write) → All P xs → All P ys → All P (xs ++ ys)
  All-append [] ys h h' = h'
  All-append (x ∷ xs) ys (a, h) h' = (a, All-append xs ys h h')

  All-split : (xs ys : List Write) → All P (xs ++ ys) → All P xs × All P ys
  All-split [] ys h = (tt, h)
  All-split (x ∷ xs) ys (a, h) = let (b, c) = All-split xs ys h in ((a, b), c)

-- An update of an item that no pending write is about.
not_overwritten :
    (c k i : String) (q : ℤ) (rows : List StockRow) (xs : List Write)
    → is_pending c k i xs ≡ false
    → All (IsCurrent rows) xs
    → All (IsCurrent (upsert c k i q rows)) xs
unfolding is_pending
not_overwritten c k i q rows [] e h = tt
not_overwritten c k i q rows (x ∷ xs) e (a, h) = (
  ground (
    arith,
    find_stock-upsert c k i q x.client x.category x.item rows,
    eq_iff x.client c,
    eq_iff x.category k,
    eq_iff x.item i,
    eq_iff c x.client,
    eq_iff k x.category,
    eq_iff i x.item,
  ),
  not_overwritten c k i q rows xs (ground arith) h,
)

module _ (c k i : String) (q : ℤ) (s : Shared) (h : IsSettling s)
    (alone : is_pending c k i s.pending ≡ false) where
  abbrev begun : World → Shared
  begun w = record {
    world = w;
    pending = record { client = c; category = k; item = i; quantity = q } ∷ s.pending;
  }

  pub store-IsSettling :
      (w : World)
      → w.stock ≡ upsert c k i q s.world.stock
      → w.cache ≡ s.world.cache
      → IsSettling (begun w)
  unfolding is_pending
  store-IsSettling w a b = record {
    distinct = rw a (upsert-NodupStock c k i q s.world.stock h.distinct);
    current =
        subst (λ rows. All (IsCurrent rows) (begun w).pending) (sym a)
          (
            find_stock-upsert c k i q c k i s.world.stock
                ∙ rw (eq_refl c, eq_refl k, eq_refl i) refl,
            not_overwritten c k i q s.world.stock s.pending alone h.current,
          );
    agrees = λ c' k' i' q' free hit.
        rw (a, find_stock-upsert c k i q c' k' i' s.world.stock)
          (ground (arith, h.agrees c' k' i' q', rw b at hit, free));
    complete = λ c' k' i' free full.
        rw (a, b, find_stock-upsert c k i q c' k' i' s.world.stock)
          (ground (arith, h.complete c' k' i', rw b at full, free));
  }

  pub read-IsSettling :
      (w : World)
      → find_stock c k i s.world.stock ≡ some q
      → w.stock ≡ s.world.stock
      → w.cache ≡ s.world.cache
      → IsSettling (begun w)
  unfolding is_pending
  read-IsSettling w found a b = record {
    distinct = rw a h.distinct;
    current = subst (λ rows. All (IsCurrent rows) (begun w).pending) (sym a) (found, h.current);
    agrees = λ c' k' i' q' free hit. rw a (h.agrees c' k' i' q' (ground arith) (rw b at hit));
    complete = λ c' k' i' free full. rw (a, b) (h.complete c' k' i' (ground arith) (rw b at full));
  }

pub keep-IsSettling :
    (s : Shared) (w : World)
    → IsSettling s
    → w.stock ≡ s.world.stock
    → w.cache ≡ s.world.cache
    → IsSettling (record s { world = w })
keep-IsSettling s w h a b = record {
  distinct = rw a h.distinct;
  current = subst (λ rows. All (IsCurrent rows) s.pending) (sym a) h.current;
  agrees = λ c k i q free. rw (a, b) (h.agrees c k i q free);
  complete = λ c k i free. rw (a, b) (h.complete c k i free);
}

-- All of a client's items are loaded from the table.
pub load-IsSettling :
    (c : String) (m : ClientInventoryMap) (s : Shared) (w : World)
    → IsSettling s
    → client_map c s.world.stock ≡ some m
    → w.stock ≡ s.world.stock
    → w.cache ≡ record {
      inventories = Dict.insert c m s.world.cache.inventories;
      fully_cached_clients = set_insert c s.world.cache.fully_cached_clients;
    }
    → IsSettling (record s { world = w })
unfolding get_stock_on_cache
load-IsSettling c m s w h found a b = record {
  distinct = rw a h.distinct;
  current = subst (λ rows. All (IsCurrent rows) s.pending) (sym a) h.current;
  agrees = λ c' k' i' q' free hit. rw a (
      ground (
        arith,
        h.agrees c' k' i' q' free,
        rw (b, lookup-insert) at hit,
        found,
        quantity_in-client_map c k' i' s.world.stock h.distinct,
        eq_iff c c',
      ));
  complete = λ c' k' i' free full.
      rw (a, b, lookup-insert)
        (ground (
          arith,
          h.complete c' k' i' free,
          rw (b, contains-set_insert) at full,
          found,
          quantity_in-client_map c k' i' s.world.stock h.distinct,
          eq_iff c c',
        ));
}

-- The write that was pending is done.
pub write-IsSettling :
    (before after : List Write) (x : Write) (s : Shared)
    → s.pending ≡ before ++ x ∷ after
    → IsSettling s
    → IsSettling (record { world = perform_write x s.world; pending = before ++ after })
unfolding is_pending cache_put
write-IsSettling before after x s e h =
    let (a, (found, b)) =
      All-split (IsCurrent s.world.stock) before (x ∷ after)
        (subst (All (IsCurrent s.world.stock)) e h.current) in
    let stays : (c k i : String)
        → is_pending c k i (before ++ after) ≡ false
        → is_same_item c k i x ≡ false
        → is_pending c k i s.pending ≡ false =
      λ c k i free other.
        rw (e, is_pending-append c k i before (x ∷ after))
          (ground (arith, is_pending-append c k i before after, free, other)) in
    record {
      distinct = h.distinct;
      current = All-append (IsCurrent s.world.stock) before after a b;
      agrees = λ c k i q free hit. elim (Bool-cases (is_same_item c k i x)) [
        | inl same ↦ ground (
          arith,
          same,
          found,
          hit,
          get_stock_on_cache-cache_put x.client x.category x.item x.quantity s.world c k i,
          eq_iff x.client c,
          eq_iff x.category k,
          eq_iff x.item i,
        )
        | inr other ↦ h.agrees c k i q (stays c k i free other) (
            ground (
              arith,
              other,
              hit,
              get_stock_on_cache-cache_put x.client x.category x.item x.quantity s.world c k i,
            ))
      ];
      complete = λ c k i free full. elim (Bool-cases (is_same_item c k i x)) [
        | inl same ↦ ground (
          arith,
          same,
          found,
          get_stock_on_cache-cache_put x.client x.category x.item x.quantity s.world c k i,
          eq_iff x.client c,
          eq_iff x.category k,
          eq_iff x.item i,
        )
        | inr other ↦
            get_stock_on_cache-cache_put x.client x.category x.item x.quantity s.world c k i
            ∙ rw other (
                h.complete c k i (stays c k i free other)
                  (rw (fully-cache_put x.client x.category x.item x.quantity s.world) at full))
      ];
    }
