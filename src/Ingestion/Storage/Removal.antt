-- ===== src/Ingestion/Storage/Removal.antt =====
-- Deletion: of one item, and of all the items of a tenant.
use email_analysis_agent.Prelude.{
  ℕ, ◌+◌, ◌≡◌, refl, ap, sym, ◌∙◌, Bool, none, some, List, [], ◌∷◌, if◌then◌else◌, ◌==◌, nat_eq,
  length, arith,
}
use email_analysis_agent.Dict.{has, remove, lookup-remove, length-remove-le}
use email_analysis_agent.Dict.Sweep.{
  Unique, remove-Unique, remove_absent, remove_all, keys_where, sweep, sweep-Unique, length-sweep,
  lookup-sweep,
}
use email_analysis_agent.Uuid.{Uuid}
use email_analysis_agent.Ingestion.Models.{DeadLetterItem}
use email_analysis_agent.Ingestion.Storage.{Storage, get, delete, discard_all, clear_tenant}
use email_analysis_agent.Ingestion.Storage.Ring.{Items, keys, ring, IsValid, eq-ring, keys-remove}

delete-ring :
    (m : ℕ) (id : Uuid) (items : Items)
    → Unique items
    → delete (ring m items) id ≡ (ring m (remove id items), has id items)
unfolding delete
delete-ring m id items u = ground (arith, keys-remove id items u, remove_absent id items)

-- Deleting from a well formed store keeps it well formed. It answers whether the item was there,
-- and afterwards that item is gone and every other one is found as before.
pub delete_lem :
    (s : Storage) (id other : Uuid)
    → IsValid s
    → IsValid (delete s id).0
      × ((delete s id).1 ≡ has id s.items)
      × (get (delete s id).0 other ≡ (if id == other then none else get s other))
unfolding get
delete_lem s id other v = rw (eq-ring s v) (
    rw (delete-ring s.max_items id s.items v.unique) (
      record {
        unique = remove-Unique id s.items v.unique;
        aligned = refl;
        bounded = omega (arith, v.bounded, length-remove-le {0, 0} id s.items);
      },
      refl,
      lookup-remove id other s.items,
    ))

keys-remove_all :
    (ids : List Uuid) (items : Items)
    → Unique items
    → keys (remove_all ids items) ≡ discard_all ids (keys items)
unfolding remove_all discard_all
keys-remove_all [] items u = refl
keys-remove_all (x ∷ xs) items u =
    keys-remove_all xs (remove x items) (remove-Unique x items u)
    ∙ ap (discard_all xs) (keys-remove x items u)

abbrev pub owned_by : Uuid → DeadLetterItem → Bool
owned_by tenant item = item.tenant_id == tenant

clear_tenant-ring :
    (m : ℕ) (tenant : Uuid) (items : Items)
    → Unique items
    → clear_tenant (ring m items) tenant
      ≡ (ring m (sweep (owned_by tenant) items), length (keys_where (owned_by tenant) items))
unfolding clear_tenant sweep
clear_tenant-ring m tenant items u =
    rw (sym (keys-remove_all (keys_where (owned_by tenant) items) items u))

-- Clearing a tenant keeps a well formed store well formed and reports as many items as it removes.
-- An item that was found before is gone if it is the tenant's, and is found as before if it is not.
pub clear_tenant_lem :
    (s : Storage) (tenant id : Uuid) {item : DeadLetterItem}
    → IsValid s
    → get s id ≡ some item
    → IsValid (clear_tenant s tenant).0
      × (length (clear_tenant s tenant).0.items + (clear_tenant s tenant).1 ≡ length s.items)
      × (get (clear_tenant s tenant).0 id ≡ (if item.tenant_id == tenant then none else some item))
unfolding get
clear_tenant_lem s tenant id v found = rw (eq-ring s v) (
    rw (clear_tenant-ring s.max_items tenant s.items v.unique) (
      record {
        unique = sweep-Unique (owned_by tenant) s.items v.unique;
        aligned = refl;
        bounded = omega (arith, v.bounded, length-sweep {0, 0} (owned_by tenant) s.items v.unique);
      },
      length-sweep (owned_by tenant) s.items v.unique,
      ground (arith, lookup-sweep (owned_by tenant) id s.items v.unique, found),
    ))
