-- ===== src/Proxy/Samples.antt =====
-- Concrete caches and origins, for the runs of the modules over the two caches.
use wait.Base.{ℕ, refl, false, true, some, none, [], ◌∷◌, str, lookup}
use wait.Cache.Ram.{new_ram}
use wait.Cache.Ram.Valid.{new_ram-IsRam}
use wait.Cache.Disk.{Platform}
use wait.Proxy.Origin.{Client, Request, Response, Fetched, entry_of}
use wait.Proxy.{Service, Settings, Times}
use wait.Proxy.Store.{IsService}

-- A platform whose database is empty and keeps nothing.
abbrev pub empty : Platform
empty = record {
  Db = Unit {0};
  Blob = ℕ;
  blob_len = λ b. 10;
  read = λ db k. none;
  write = λ db ops. tt;
  scan = λ db k. [];
  scan_failed = λ db k. false;
  encode_entry = λ ent. some 1;
  decode_entry = λ b. none;
  encode_meta = λ m. 2;
  decode_meta = λ b. none;
  by_access = λ m. m;
}

abbrev pub fresh : Service empty
fresh = record {
  ram = new_ram 100;
  disk = record { max_bytes = 100; db = tt; index = []; total_size = 0; ops = [] };
  refreshes = [];
  observed = [];
}

abbrev pub page : Response
page = record { status = 200; header = []; body = 1 ∷ 2 ∷ [] }

abbrev pub one_page : Client
one_page = record { origin = str "http://o"; do_get = λ url h. some page; checksum = λ b. 7 }

abbrev pub broken : Client
broken = record { origin = str "http://o"; do_get = λ url h. none; checksum = λ b. 7 }

abbrev pub settings : Settings
settings = record { rules = []; client = one_page; log = true }

abbrev pub times : Times
times = record { loaded = 5; read = 5; stored = 5; fetched = 5; fetched_nano = 6; since = λ s. 0 }

abbrev pub get_a : Request
get_a = record {
  method = str "GET";
  path = str "/a";
  raw_query = [];
  request_uri = str "/a";
  header = [];
  cookies = [];
}

abbrev pub fetched : Fetched
fetched = record { ent = entry_of one_page page 5 6; cacheable = true; status_kind = str "ok" }

pub fresh-IsService : IsService empty fresh
unfolding new_ram lookup
fresh-IsService = record {
  list = [];
  ram = new_ram-IsRam 100;
  disk = record { summed = refl; unique = tt; lengths = λ k m e. absurd cc };
}
