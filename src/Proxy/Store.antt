-- ===== src/Proxy/Store.antt =====
-- The puts of internal/wait0/proxy_runtime_adapter.go on caches in order.
use mathlib.Core.Path.{subst}
use wait.Base.{ℕ, suc, ◌≡◌, refl, sym, none, some, List, Str, arith, inl, inr, Option-cases, length}
use wait.Cache.Entry.{Entry, Sink}
use wait.Cache.Lru.{Stores}
use wait.Cache.Ram.{put}
use wait.Cache.Ram.Slots.{contents}
use wait.Cache.Ram.Store.{put-Stores, new_slot}
use wait.Cache.Ram.Valid.{IsRam}
use wait.Cache.Disk.{Platform}
use wait.Cache.Disk.Total.{IsDisk}
use wait.Proxy.{Service, Settings, Times, encoded, ram_put, sink_ops}

module _ (p : Platform) where
  -- The cache in memory has a list, and the index of the disk counts its sizes.
  pub record IsService (s : Service p) : Type 0 where
    pub list : List ℕ
    pub ram : IsRam s.ram list
    pub disk : IsDisk p s.disk

  -- What `ram_put` leaves where the entry is encoded in `b` bytes.
  pub record RamPut (b : ℕ) (now : ℕ) (key : Str) (ent : Entry) (s s' : Service p) (l : List ℕ)
      : Type 0 where
    pub sink : Sink
    pub list : List ℕ
    pub ram : IsRam s'.ram list
    pub stores :
        Stores s.ram.max_bytes
          (new_slot key ent b now)
          (contents s.ram.heap l)
          (some s.disk.ops)
          (contents s'.ram.heap list)
          sink
    pub queue : s'.disk ≡ record s.disk { ops = sink_ops sink s.disk.ops }

  module _ (cfg : Settings) (t : Times) (key : Str) (ent : Entry) (s : Service p) where
    pub ram_put-RamPut :
        (b : ℕ) (l : List ℕ)
        → encoded p ent ≡ some b
        → IsRam s.ram l
        → RamPut b t.stored key ent s (ram_put p cfg t key ent s) l
    unfolding ram_put
    ram_put-RamPut b l e ok =
        let puts =
          put-Stores (suc (length s.ram.items)) b t.stored cfg.log ent s.ram (some s.disk.ops) key l
            ok (omega (arith, ok.index.counted)) in
        let same : ram_put p cfg t key ent s ≡ record s {
          ram = puts.after.ram;
          disk = record s.disk { ops = sink_ops puts.after.sink s.disk.ops };
        } =
          simp (e, puts.returns, ram_put) in
        subst (λ s'. RamPut b t.stored key ent s s' l) (sym same)
          (record {
            sink = puts.after.sink;
            list = puts.list;
            ram = puts.valid;
            stores = puts.stores;
            queue = refl;
          })

    pub ram_put_unencoded : encoded p ent ≡ none → ram_put p cfg t key ent s ≡ s
    unfolding ram_put put
    ram_put_unencoded e = simp (e, ram_put, put)

    pub ram_put-IsService : IsService s → IsService (ram_put p cfg t key ent s)
    ram_put-IsService ok = elim (Option-cases (encoded p ent)) [
      | inl e ↦ subst IsService (sym (ram_put_unencoded e)) ok
      | inr (b, e) ↦
          let r = ram_put-RamPut b ok.list e ok.ram in
          record { list = r.list; ram = r.ram; disk = subst (IsDisk p) (sym r.queue) ok.disk }
    ]
