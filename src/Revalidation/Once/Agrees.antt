-- ===== src/Revalidation/Once/Agrees.antt =====
-- After `Once` of internal/wait0/revalidation/controller.go the cache in memory agrees with the
-- origin.
use mathlib.Core.Path.{subst}
use wait.Base.{
  ◌≢◌, ◌⊎◌, sym, Bool, true, [], str_eq, str_eq_iff, trim_space, lookup, lookup-delete, arith, ℕ,
  ◌≡◌, refl, ap, ◌∙◌, false, not, ◌&&◌, Option, none, some, ◌∷◌, ◌++◌, Str, str, str_eq_refl, inl,
  inr, Bool-cases, Option-cases, if◌then◌else◌, is_pos, slt, two64, ◌%◌,
}
use wait.Cache.Entry.{Entry}
use wait.Cache.Lru.{Slot, Lru, find, lru_peek}
use wait.Cache.Ram.Store.{new_slot}
use wait.Cache.Ram.Refines.{peek-lru_peek}
use wait.Cache.Ram as Memory
use wait.Cache.Disk as Stored
use wait.Cache.Disk.{Platform}
use wait.Proxy.Origin.{Response, forbids_caching, is_success, contains, to_lower, header_get}
use wait.Proxy.{Service, Settings, Times, encoded, ram_put, store, delete_everywhere}
use wait.Proxy.Store.{IsService, ram_put-RamPut}
use wait.Proxy.Valid.{store-IsService, delete_everywhere-IsService}
use wait.Proxy.Peeked.{delete_everywhere-peek}
use wait.Proxy.Hit.{stored_first, store-ram}
use wait.Revalidation.Once.{
  Task, uri_of, request_header, discovered_by_of, new_entry, peek_either, drop_current, keep_new,
  on_response, once,
}

lru_peek_head : (n : Slot) (l : Lru) → lru_peek (n ∷ l) n.key ≡ some n.ent
unfolding lru_peek find
lru_peek_head n l = simp (str_eq_refl n.key, lru_peek, find)

filled : (s : Str) → str_eq s [] ≡ false → s ≢ []
filled s e = λ empty. absurd (ground (arith, e, str_eq_iff s [], empty))

-- Whether the header Cache-Control says the word, in any case.
abbrev pub says : Response → Str → Bool
says resp word = contains (to_lower (header_get resp.header (str "Cache-Control"))) word

module _ (p : Platform) where
  deleted_peek :
      (key : Str) (s : Service p)
      → IsService p s
      → Memory.peek (delete_everywhere p key s).ram key ≡ none
  deleted_peek key s ok =
      delete_everywhere-peek p key key s ok
      ∙ ap (λ b. if b then none else Memory.peek s.ram key) (str_eq_refl key)

  stored_peek :
      (cfg : Settings) (t : Times) (key : Str) (ent : Entry) (s : Service p) (b : ℕ)
      → IsService p s
      → encoded p ent ≡ some b
      → (is_pos s.ram.max_bytes && slt s.ram.max_bytes (b % two64)) ≡ false
      → Memory.peek (store p cfg t key ent s).ram key ≡ some ent
  stored_peek cfg t key ent s b ok e small =
      let r = ram_put-RamPut p cfg t key ent s b ok.list e ok.ram in
      let (rest, first) = stored_first _ _ _ _ _ _ r.stores small in
      ap (λ c. Memory.peek c key) (store-ram p cfg t key ent s)
      ∙ (peek-lru_peek (ram_put p cfg t key ent s).ram r.list r.ram key
          ∙ (ap (λ l. lru_peek l key) first ∙ lru_peek_head (new_slot key ent b t.stored) rest))

  missing_ram :
      (key : Str) (s : Service p) → peek_either p key s ≡ none → Memory.peek s.ram key ≡ none
  unfolding peek_either
  missing_ram key s h = elim (Option-cases (Memory.peek s.ram key)) [
    | inl e ↦ e
    | inr (ent, e) ↦ absurd (let h' = simp (e, peek_either) at h in cc)
  ]

  drop_current-peek :
      (k : Task) (kind : Str) (s : Service p) (cur : Option Entry)
      → IsService p s
      → peek_either p k.key s ≡ cur
      → Memory.peek (drop_current p k cur kind s).0.ram k.key ≡ none
  unfolding drop_current
  drop_current-peek k kind s none ok e = missing_ram k.key s e
  drop_current-peek k kind s (some cur) ok e = deleted_peek k.key s ok

  unfoldable expected : Settings → Times → Task → Option Entry → Response → Option Entry
  expected cfg t k cur resp =
      if is_success resp.status && not (forbids_caching resp.header)
      then some (new_entry cfg t k cur resp)
      else none

  -- The discoverer of the entry that memory, or else the disk, has under the key, without the spaces
  -- around it; `user` where there is no entry or its discoverer is blank.
  pub data Discoverer (s : Service p) (key : Str) : Str → Type 0 where
    kept_memory :
        (cur : Entry)
        → Memory.peek s.ram key ≡ some cur
        → trim_space cur.discovered_by ≢ []
        → Discoverer s key (trim_space cur.discovered_by)
    kept_disk :
        (cur : Entry)
        → Memory.peek s.ram key ≡ none
        → Stored.peek p s.disk key ≡ some cur
        → trim_space cur.discovered_by ≢ []
        → Discoverer s key (trim_space cur.discovered_by)
    blank_memory :
        (cur : Entry)
        → Memory.peek s.ram key ≡ some cur
        → trim_space cur.discovered_by ≡ []
        → Discoverer s key (str "user")
    blank_disk :
        (cur : Entry)
        → Memory.peek s.ram key ≡ none
        → Stored.peek p s.disk key ≡ some cur
        → trim_space cur.discovered_by ≡ []
        → Discoverer s key (str "user")
    unknown :
        Memory.peek s.ram key ≡ none
        → Stored.peek p s.disk key ≡ none
        → Discoverer s key (str "user")

  -- The entry is active and has the status and the body of the response, its headers but the length
  -- of the content, the checksum of the body, the times of the refresh, by whom it is, and the
  -- discoverer.
  pub record IsAnswer (cfg : Settings) (t : Times) (k : Task) (s : Service p) (resp : Response)
      (ent : Entry) : Type 0 where
    pub status : ent.status ≡ resp.status
    pub body : ent.body ≡ resp.body
    pub hash32 : ent.hash32 ≡ cfg.client.checksum resp.body
    pub header :
        (name : Str)
        → lookup name ent.header
          ≡ (if str_eq (str "Content-Length") name then none else lookup name resp.header)
    pub active : ent.inactive ≡ false
    pub stored_at : ent.stored_at ≡ t.fetched
    pub revalidated_at : ent.revalidated_at ≡ t.fetched_nano
    pub revalidated_by : ent.revalidated_by ≡ k.by
    pub discovered_by : Discoverer s k.key ent.discovered_by

  -- What memory has under the key after a refresh with the response.
  abbrev pub Agrees : Settings → Times → Task → Service p → Response → Option Entry → Type 0
  Agrees cfg t k s resp none =
      (slt resp.status 200 ≡ true)
      ⊎ (slt resp.status 300 ≡ false)
      ⊎ (says resp (str "no-store") ≡ true)
      ⊎ (says resp (str "no-cache") ≡ true)
  Agrees cfg t k s resp (some ent) =
      (slt resp.status 200 ≡ false)
      × (slt resp.status 300 ≡ true)
      × (says resp (str "no-store") ≡ false)
      × (says resp (str "no-cache") ≡ false)
      × IsAnswer cfg t k s resp ent

  discovered_by_of-memory :
      (s : Service p) (key : Str) (cur : Entry)
      → Memory.peek s.ram key ≡ some cur
      → Discoverer s key (discovered_by_of (some cur))
  unfolding discovered_by_of
  discovered_by_of-memory s key cur there =
      elim (Bool-cases (str_eq (trim_space cur.discovered_by) [])) [
        | inl e ↦
            simp (e, discovered_by_of)
              (blank_memory cur there ((str_eq_iff (trim_space cur.discovered_by) []).0 e))
        | inr e ↦
            simp (e, discovered_by_of)
              (kept_memory cur there (filled (trim_space cur.discovered_by) e))
      ]

  discovered_by_of-disk :
      (s : Service p) (key : Str) (o : Option Entry)
      → Memory.peek s.ram key ≡ none
      → Stored.peek p s.disk key ≡ o
      → Discoverer s key (discovered_by_of o)
  unfolding discovered_by_of
  discovered_by_of-disk s key none no_entry there = unknown no_entry there
  discovered_by_of-disk s key (some cur) no_entry there =
      elim (Bool-cases (str_eq (trim_space cur.discovered_by) [])) [
        | inl e ↦
            simp (e, discovered_by_of)
              (blank_disk cur no_entry there ((str_eq_iff (trim_space cur.discovered_by) []).0 e))
        | inr e ↦
            simp (e, discovered_by_of)
              (kept_disk cur no_entry there (filled (trim_space cur.discovered_by) e))
      ]

  peek_either-Discoverer :
      (s : Service p) (key : Str) → Discoverer s key (discovered_by_of (peek_either p key s))
  unfolding peek_either
  peek_either-Discoverer s key = elim (Option-cases (Memory.peek s.ram key)) [
    | inl e ↦ simp (e, peek_either) (discovered_by_of-disk s key (Stored.peek p s.disk key) e refl)
    | inr (cur, e) ↦ simp (e, peek_either) (discovered_by_of-memory s key cur e)
  ]

  new_entry-IsAnswer :
      (cfg : Settings) (t : Times) (k : Task) (s : Service p) (resp : Response)
      → IsAnswer cfg t k s resp (new_entry cfg t k (peek_either p k.key s) resp)
  unfolding new_entry
  new_entry-IsAnswer cfg t k s resp = record {
    status = refl;
    body = refl;
    hash32 = refl;
    header = λ name. lookup-delete (str "Content-Length") name resp.header;
    active = refl;
    stored_at = refl;
    revalidated_at = refl;
    revalidated_by = refl;
    discovered_by = peek_either-Discoverer s k.key;
  }

  expected-Agrees :
      (cfg : Settings) (t : Times) (k : Task) (s : Service p) (resp : Response)
      → Agrees cfg t k s resp (expected cfg t k (peek_either p k.key s) resp)
  unfolding expected is_success forbids_caching
  expected-Agrees cfg t k s resp = elim (Bool-cases (slt resp.status 200)) [
    | inl low ↦ simp (low, expected) (inl refl)
    | inr fine ↦ elim (Bool-cases (slt resp.status 300)) [
      | inr high ↦ simp (fine, high, expected) (inr (inl refl))
      | inl ok ↦ elim (Bool-cases (says resp (str "no-store"))) [
        | inl store ↦ simp (fine, ok, store, expected) (inr (inr (inl refl)))
        | inr may ↦ elim (Bool-cases (says resp (str "no-cache"))) [
          | inl cache ↦ simp (fine, ok, may, cache, expected) (inr (inr (inr refl)))
          | inr both ↦
              simp (fine, ok, may, both, expected)
                (refl, refl, refl, refl, new_entry-IsAnswer cfg t k s resp)
        ]
      ]
    ]
  ]

  on_response-expected :
      (cfg : Settings) (t : Times) (k : Task) (s : Service p) (resp : Response) (b : ℕ)
      (cur : Option Entry)
      → IsService p s
      → peek_either p k.key s ≡ cur
      → encoded p (new_entry cfg t k cur resp) ≡ some b
      → (is_pos s.ram.max_bytes && slt s.ram.max_bytes (b % two64)) ≡ false
      → Memory.peek (on_response p cfg t k cur (some resp) s).0.ram k.key
        ≡ expected cfg t k cur resp
  unfolding on_response expected keep_new
  on_response-expected cfg t k s resp b cur ok there e small =
      elim (Bool-cases (is_success resp.status)) [
        | inr bad ↦
            simp (bad, on_response, expected)
              (drop_current-peek k (str "ignored-status") s cur ok there)
        | inl good ↦ elim (Bool-cases (forbids_caching resp.header)) [
          | inl no_store ↦
              simp (good, no_store, on_response, expected)
                (drop_current-peek k (str "ignored-cache-control") s cur ok there)
          | inr fine ↦
              simp (good, fine, on_response, expected)
                (stored_peek cfg t k.key (new_entry cfg t k cur resp) s b ok e small)
        ]
      ]

  -- From caches in order, where the origin answers and every entry of the answer is encoded and not
  -- larger than the limit of the cache in memory: after the refresh of a key, memory holds under it
  -- an active entry of the answer, with the discoverer of the entry that was there (that of memory,
  -- where both have one; `user` where there is none), or nothing where the status is not 2xx or
  -- Cache-Control says `no-store` or `no-cache`.
  pub once-Agrees :
      (cfg : Settings) (t : Times) (k : Task) (s : Service p) (resp : Response)
      → IsService p s
      → cfg.client.do_get (cfg.client.origin ++ uri_of k) (request_header k.markers) ≡ some resp
      → ((ent : Entry)
          → IsAnswer cfg t k s resp ent
          → (b : ℕ) × (encoded p ent ≡ some b)
            × ((is_pos s.ram.max_bytes && slt s.ram.max_bytes (b % two64)) ≡ false))
      → Agrees cfg t k s resp (Memory.peek (once p cfg t k s).0.ram k.key)
  unfolding once
  once-Agrees cfg t k s resp ok answer fits =
      let cur = peek_either p k.key s in
      let (b, e, small) = fits (new_entry cfg t k cur resp) (new_entry-IsAnswer cfg t k s resp) in
      subst (Agrees cfg t k s resp)
        (sym (
          ap (λ o. Memory.peek (on_response p cfg t k cur o s).0.ram k.key) answer
          ∙ on_response-expected cfg t k s resp b cur ok refl e small))
        (expected-Agrees cfg t k s resp)

  drop_current-IsService :
      (k : Task) (cur : Option Entry) (kind : Str) (s : Service p)
      → IsService p s
      → IsService p (drop_current p k cur kind s).0
  unfolding drop_current
  drop_current-IsService k none kind s ok = ok
  drop_current-IsService k (some cur) kind s ok = delete_everywhere-IsService p k.key s ok

  on_response-IsService :
      (cfg : Settings) (t : Times) (k : Task) (cur : Option Entry) (o : Option Response)
      (s : Service p)
      → IsService p s
      → IsService p (on_response p cfg t k cur o s).0
  unfolding on_response keep_new
  on_response-IsService cfg t k cur none s ok = ok
  on_response-IsService cfg t k cur (some resp) s ok = elim (Bool-cases (is_success resp.status)) [
    | inr bad ↦ simp (bad, on_response) (drop_current-IsService k cur (str "ignored-status") s ok)
    | inl good ↦ elim (Bool-cases (forbids_caching resp.header)) [
      | inl no_store ↦
          simp (good, no_store, on_response)
            (drop_current-IsService k cur (str "ignored-cache-control") s ok)
      | inr fine ↦
          simp (good, fine, on_response)
            (store-IsService p cfg t k.key (new_entry cfg t k cur resp) s ok)
    ]
  ]

  -- Whatever the origin answers, a refresh of a key keeps caches in order that are in order: the
  -- list, the map and the count of the cache in memory, and the index and the count of that on disk.
  pub once-IsService :
      (cfg : Settings) (t : Times) (k : Task) (s : Service p)
      → IsService p s
      → IsService p (once p cfg t k s).0
  unfolding once
  once-IsService cfg t k s ok =
      on_response-IsService cfg t k (peek_either p k.key s)
        (cfg.client.do_get (cfg.client.origin ++ uri_of k) (request_header k.markers)) s ok
