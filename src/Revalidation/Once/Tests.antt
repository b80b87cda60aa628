-- ===== src/Revalidation/Once/Tests.antt =====
-- Runs of `Once` of internal/wait0/revalidation/controller.go.
use wait.Base.{
  ◌≡◌, refl, none, [], str, str_eq, lookup, insert, delete, has_prefix, trim_space, trim_left,
  is_space,
}
use wait.Cache.Entry.{entry_logical_size, put_async, offer}
use wait.Cache.Ram.{new_ram, add_item, add_to_front, put}
use wait.Cache.Ram as Memory
use wait.Cache.Disk as Stored
use wait.Proxy.Origin.{header_get, to_lower, contains, forbids_caching, is_success}
use wait.Proxy.{encoded, ram_put, store, delete_everywhere}
use wait.Proxy.Store.{IsService}
use wait.Proxy.Samples.{empty, fresh, page, settings, times, fresh-IsService}
use wait.Revalidation.Once.{
  Task, uri_of, request_header, discovered_by_of, result_of, new_entry, same_hash, peek_either,
  drop_current, keep_new, on_response, once,
}
use wait.Revalidation.Once.Agrees.{once-IsService, Agrees, once-Agrees}

program : Unit {0}
unfolding str_eq lookup insert delete has_prefix trim_space trim_left is_space entry_logical_size
    put_async offer new_ram add_item add_to_front put Memory.peek Stored.peek header_get to_lower
    contains forbids_caching is_success encoded ram_put store delete_everywhere uri_of
    request_header discovered_by_of result_of new_entry same_hash peek_either drop_current keep_new
    on_response once
program = tt

abbrev warm_a : Task
warm_a = record {
  key = str "/a";
  path = str "/a";
  query = [];
  by = str "warmup";
  markers = none;
  dur = 1;
  err = [];
}

warm-kind : (once empty settings times warm_a fresh).1.kind ≡ str "updated"
unfolding program
warm-kind = refl

once-Agrees_example :
    Agrees empty settings times warm_a fresh page
      (Memory.peek (once empty settings times warm_a fresh).0.ram (str "/a"))
unfolding program
once-Agrees_example =
    once-Agrees empty settings times warm_a fresh page fresh-IsService refl
      (λ ent is. (10, refl, refl))

once-IsService_example : IsService empty (once empty settings times warm_a fresh).0
once-IsService_example = once-IsService empty settings times warm_a fresh fresh-IsService
