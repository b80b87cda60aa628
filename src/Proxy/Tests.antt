-- ===== src/Proxy/Tests.antt =====
-- Runs of internal/wait0/proxy over empty caches and an origin with one page.
use wait.Base.{
  ◌≡◌, refl, str, str_eq, member, arith, has_prefix, lookup, insert, delete, equal_fold, fold_case,
  trim_space, trim_left, is_space,
}
use wait.Cache.Entry.{entry_logical_size, put_async, offer}
use wait.Cache.Ram.{Ram, new_ram, add_item, add_to_front, put}
use wait.Cache.Disk.{Platform, Disk, BatchOp, put_op, delete_op, DiskMeta, put_later, delete_later}
use wait.Cache.Disk.Total.{EncodesShort}
use wait.Cache.Ram as Memory
use wait.Cache.Disk as Stored
use wait.Proxy.Origin.{
  header_get, header_add, add_values, copy_headers, to_lower, contains, forbids_caching, is_success,
  entry_of, fetched_of, fetch_from_origin,
}
use wait.Proxy.{
  Service, replied, matches, pick_rule, needed, has_any_cookie, handle_control, is_stale, encoded,
  ram_put, load_ram, load_disk, delete_everywhere, store, write_with_stats, reply_hit, proxy_pass,
  handle_miss, after_disk, after_ram, passes, handle,
}
use wait.Proxy.Samples.{empty, fresh, broken, settings, times, get_a, fetched, fresh-IsService}
use wait.Proxy.Store.{IsService}
use wait.Proxy.Valid.{Serves, begins, requested, Serves-IsService}
use wait.Proxy.Hit.{IsMiss, miss-then-hit}

program : Unit {0}
unfolding str_eq member has_prefix lookup insert delete equal_fold fold_case trim_space trim_left
    is_space entry_logical_size put_async offer new_ram add_item add_to_front put Memory.get
    Stored.get Stored.peek put_later delete_later header_get header_add add_values copy_headers
    to_lower contains forbids_caching is_success entry_of fetched_of fetch_from_origin matches
    pick_rule needed has_any_cookie handle_control is_stale encoded ram_put load_ram load_disk
    delete_everywhere store write_with_stats reply_hit proxy_pass handle_miss after_disk after_ram
    passes handle
program = tt

fresh-IsMiss : IsMiss empty settings times get_a fresh fetched 10
unfolding program
fresh-IsMiss = record {
  served = refl;
  cached = refl;
  no_ram = refl;
  no_disk = refl;
  fetched = refl;
  cacheable = refl;
  encodes = refl;
  small = refl;
}

-- The second request comes when the origin is down.
miss-then-hit_example :
    ((handle empty settings times get_a fresh).1 ≡ replied fetched.ent (str "miss"))
    × ((handle empty
          (record settings { client = broken })
          times
          get_a
          (handle empty settings times get_a fresh).0).1
        ≡ replied fetched.ent (str "hit"))
miss-then-hit_example =
    miss-then-hit empty settings times get_a fresh fetched 10 fresh-IsService fresh-IsMiss broken
      times

encodes_short : EncodesShort empty
encodes_short = λ ent b e. omega arith

after_one : Service empty
after_one = (handle empty settings times get_a fresh).0

after_one-Serves : Serves empty settings fresh after_one
unfolding after_one
after_one-Serves = requested times get_a fresh begins

Serves-IsService_example : IsService empty after_one
Serves-IsService_example =
    Serves-IsService empty settings fresh after_one encodes_short fresh-IsService after_one-Serves
