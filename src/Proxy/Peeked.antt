-- ===== src/Proxy/Peeked.antt =====
-- What the cache in memory holds under a key after the deletions and the puts of
-- internal/wait0/proxy_runtime_adapter.go.
use mathlib.Core.Path.{subst}
use wait.Base.{
  ◌≡◌, sym, ap, ◌∙◌, ◌⊎◌, inl, inr, none, some, Str, str_eq, if◌then◌else◌, Option-cases,
}
use wait.Cache.Entry.{Entry}
use wait.Cache.Lru.{lru_peek}
use wait.Cache.Lru.Found.{lru_peek-without, Stores-lru_peek}
use wait.Cache.Ram.Slots.{contents}
use wait.Cache.Ram.Store.{new_slot}
use wait.Cache.Ram.Refines.{delete_key-without, peek-lru_peek}
use wait.Cache.Ram as Memory
use wait.Cache.Disk.{Platform}
use wait.Proxy.{Service, Settings, Times, encoded, ram_put, store, delete_everywhere}
use wait.Proxy.Store.{IsService, ram_put-RamPut, ram_put_unencoded}
use wait.Proxy.Hit.{store-ram}

module _ (p : Platform) where
  pub delete_everywhere-peek :
      (k key : Str) (s : Service p)
      → IsService p s
      → Memory.peek (delete_everywhere p key s).ram k
        ≡ (if str_eq key k then none else Memory.peek s.ram k)
  unfolding delete_everywhere
  delete_everywhere-peek k key s ok =
      let (l, ram, is) = delete_key-without s.ram ok.list ok.ram key in
      let before = peek-lru_peek s.ram ok.list ok.ram k in
      peek-lru_peek _ l ram k
      ∙ (ap (λ x. lru_peek x k) is
          ∙ (lru_peek-without k key (contents s.ram.heap ok.list)
              ∙ ap (λ x. if str_eq key k then none else x) (sym before)))

  pub ram_put-peek :
      (cfg : Settings) (t : Times) (k key : Str) (ent e : Entry) (s : Service p)
      → IsService p s
      → Memory.peek (ram_put p cfg t key ent s).ram k ≡ some e
      → (e ≡ ent) ⊎ (Memory.peek s.ram k ≡ some e)
  ram_put-peek cfg t k key ent e s ok h = elim (Option-cases (encoded p ent)) [
    | inl none_of ↦ inr (
        subst (λ s'. Memory.peek s'.ram k ≡ some e) (ram_put_unencoded p cfg t key ent s none_of) h)
    | inr (b, some_of) ↦
        let r = ram_put-RamPut p cfg t key ent s b ok.list some_of ok.ram in
        let h' = sym (peek-lru_peek (ram_put p cfg t key ent s).ram r.list r.ram k) ∙ h in
        elim (Stores-lru_peek _ (new_slot key ent b t.stored) _ _ _ _ k e r.stores h') [
          | inl is ↦ inl is
          | inr old ↦ inr (peek-lru_peek s.ram ok.list ok.ram k ∙ old)
        ]
  ]

  pub store-peek :
      (cfg : Settings) (t : Times) (k key : Str) (ent e : Entry) (s : Service p)
      → IsService p s
      → Memory.peek (store p cfg t key ent s).ram k ≡ some e
      → (e ≡ ent) ⊎ (Memory.peek s.ram k ≡ some e)
  store-peek cfg t k key ent e s ok h =
      ram_put-peek cfg t k key ent e s ok
        (ap (λ c. Memory.peek c k) (sym (store-ram p cfg t key ent s)) ∙ h)
