-- ===== src/Invalidation/Jobs/Renews.antt =====
-- The refreshes of `processJob` of internal/wait0/invalidation/controller.go, and the whole of it.
use wait.Base.{
  ◌≡◌, sym, ◌∙◌, ap, ◌⊎◌, inl, inr, true, Option, none, some, List, [], ◌∷◌, Str, str, member,
  Bool-cases, ◌++◌, arith,
}
use wait.Cache.Entry.{Entry}
use wait.Cache.Ram as Memory
use wait.Cache.Disk.{Platform}
use wait.Proxy.Origin.{Response, forbids_caching, is_success}
use wait.Proxy.{Service, Settings, Times}
use wait.Proxy.Store.{IsService}
use wait.Proxy.Peeked.{delete_everywhere-peek, store-peek}
use wait.Revalidation.Once.{
  Task, uri_of, request_header, new_entry, peek_either, drop_current, keep_new, on_response, once,
}
use wait.Revalidation.Once.Agrees.{once-IsService}
use wait.Invalidation.Handle.{Job}
use wait.Invalidation.Jobs.{
  Visit, recrawl_task, invalidate_keys, recrawl_keys, resolve_keys, process_job,
}
use wait.Invalidation.Jobs.Deletes.{invalidate_keys-IsService, invalidate_keys-peek}

module _ (p : Platform) where
  -- Memory has under the key what it had, or an entry by whom is given.
  abbrev Renewed : Str → Str → Service p → Service p → Type 0
  Renewed by k s s' =
      (e : Entry)
      → Memory.peek s'.ram k ≡ some e
      → (e.revalidated_by ≡ by) ⊎ (Memory.peek s.ram k ≡ some e)

  drop_current-Renewed :
      (t : Task) (k kind : Str) (cur : Option Entry) (s : Service p)
      → IsService p s
      → Renewed t.by k s (drop_current p t cur kind s).0
  unfolding drop_current
  drop_current-Renewed t k kind none s ok e h = inr h
  drop_current-Renewed t k kind (some cur) s ok e h =
      inr (ground (arith, h, delete_everywhere-peek p k t.key s ok))

  keep_new-Renewed :
      (cfg : Settings) (v : Times) (t : Task) (k : Str) (cur : Option Entry) (resp : Response)
      (s : Service p)
      → IsService p s
      → Renewed t.by k s (keep_new p cfg v t cur (new_entry cfg v t cur resp) s).0
  unfolding keep_new new_entry
  keep_new-Renewed cfg v t k cur resp s ok e h =
      elim (store-peek p cfg v k t.key (new_entry cfg v t cur resp) e s ok h) [
        | inl is ↦ inl (ap (λ (x : Entry). x.revalidated_by) is)
        | inr old ↦ inr old
      ]

  on_response-Renewed :
      (cfg : Settings) (v : Times) (t : Task) (k : Str) (cur : Option Entry) (o : Option Response)
      (s : Service p)
      → IsService p s
      → Renewed t.by k s (on_response p cfg v t cur o s).0
  unfolding on_response
  on_response-Renewed cfg v t k cur none s ok = λ e h. inr h
  on_response-Renewed cfg v t k cur (some resp) s ok = elim (Bool-cases (is_success resp.status)) [
    | inr bad ↦ simp (bad, on_response) (drop_current-Renewed t k (str "ignored-status") cur s ok)
    | inl good ↦ elim (Bool-cases (forbids_caching resp.header)) [
      | inl no_store ↦
          simp (good, no_store, on_response)
            (drop_current-Renewed t k (str "ignored-cache-control") cur s ok)
      | inr fine ↦ simp (good, fine, on_response) (keep_new-Renewed cfg v t k cur resp s ok)
    ]
  ]

  once-Renewed :
      (cfg : Settings) (v : Times) (t : Task) (k : Str) (s : Service p)
      → IsService p s
      → Renewed t.by k s (once p cfg v t s).0
  unfolding once
  once-Renewed cfg v t k s ok =
      on_response-Renewed cfg v t k (peek_either p t.key s)
        (cfg.client.do_get (cfg.client.origin ++ uri_of t) (request_header t.markers)) s ok

  recrawl_keys-Renewed :
      (cfg : Settings) (visits : Str → Visit) (k : Str) (ks : List Str) (s : Service p)
      → IsService p s
      → Renewed (str "invalidate") k s (recrawl_keys p cfg visits ks s).0
  unfolding recrawl_keys recrawl_task
  recrawl_keys-Renewed cfg visits k [] s ok e h = inr h
  recrawl_keys-Renewed cfg visits k (j ∷ ks) s ok e h =
      let v = visits j in
      let step = once-IsService p cfg v.times (recrawl_task v j) s ok in
      elim (recrawl_keys-Renewed cfg visits k ks (once p cfg v.times (recrawl_task v j) s).0 step e
        h) [
          | inl is ↦ inl is
          | inr then_ ↦ once-Renewed cfg v.times (recrawl_task v j) k s ok e then_
        ]

  recrawl_keys-IsService :
      (cfg : Settings) (visits : Str → Visit) (ks : List Str) (s : Service p)
      → IsService p s
      → IsService p (recrawl_keys p cfg visits ks s).0
  unfolding recrawl_keys
  recrawl_keys-IsService cfg visits [] s ok = ok
  recrawl_keys-IsService cfg visits (k ∷ ks) s ok =
      recrawl_keys-IsService cfg visits ks
        (once p cfg (visits k).times (recrawl_task (visits k) k) s).0
        (once-IsService p cfg (visits k).times (recrawl_task (visits k) k) s ok)

  -- From caches in order, where the deletions leave out no key of the job and no request is served
  -- during it: whatever the orders and the answers of the origin, every entry that memory has after
  -- a job under a key of the job was fetched by the invalidation.
  pub process_job-fresh :
      (cfg : Settings) (visits : Str → Visit) (deleting finishing : List Str → List Str) (job : Job)
      (s : Service p) (k : Str) (e : Entry)
      → IsService p s
      → ((j : Str) (js : List Str) → member j (deleting js) ≡ member j js)
      → member k (resolve_keys p job s) ≡ true
      → Memory.peek (process_job p cfg visits deleting finishing job s).0.ram k ≡ some e
      → e.revalidated_by ≡ str "invalidate"
  unfolding process_job
  process_job-fresh cfg visits deleting finishing job s k e ok all is h =
      let ks = deleting (resolve_keys p job s) in
      let gone : Memory.peek (invalidate_keys p ks s).0.ram k ≡ none =
        ground (arith, invalidate_keys-peek p k ks s ok, all k (resolve_keys p job s), is) in
      elim (recrawl_keys-Renewed cfg visits k (finishing ks) (invalidate_keys p ks s).0
        (invalidate_keys-IsService p ks s ok) e h) [
          | inl new ↦ new
          | inr old ↦ absurd (let e' = sym gone ∙ old in cc)
        ]

  -- Whatever the orders and the answers of the origin, a job keeps caches in order that are in order.
  pub process_job-IsService :
      (cfg : Settings) (visits : Str → Visit) (deleting finishing : List Str → List Str) (job : Job)
      (s : Service p)
      → IsService p s
      → IsService p (process_job p cfg visits deleting finishing job s).0
  unfolding process_job
  process_job-IsService cfg visits deleting finishing job s ok =
      let ks = deleting (resolve_keys p job s) in
      recrawl_keys-IsService cfg visits (finishing ks) (invalidate_keys p ks s).0
        (invalidate_keys-IsService p ks s ok)
