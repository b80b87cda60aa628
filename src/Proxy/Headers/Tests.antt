-- ===== src/Proxy/Headers/Tests.antt =====
-- Runs of internal/wait0/proxy/headers.go.
use wait.Base.{
  ◌≡◌, refl, true, [], ◌∷◌, str, str_eq, lookup, insert, split, split_at, trim_space, trim_left,
  is_space, equal_fold, fold_case,
}
use wait.Cache.Entry.{Entry, zero_entry}
use wait.Proxy.Origin.{header_values, header_add, add_values}
use wait.Proxy.Headers.{
  expose, join, lists, expose_beside, ensure_exposed_header, set_wait0_headers, revalidated_ts,
  revalidated_by_text, set_wait0_revalidated_headers, set_wait0_discovered_headers,
  add_entry_headers, write_entry,
}
use wait.Proxy.Headers.Exposed.{IsName, exposes, ensure_exposed_header-exposes}

program : Unit {0}
unfolding str_eq lookup insert split split_at trim_space trim_left is_space equal_fold fold_case
    header_values header_add add_values join lists expose_beside ensure_exposed_header
    set_wait0_headers revalidated_ts revalidated_by_text set_wait0_revalidated_headers
    set_wait0_discovered_headers add_entry_headers write_entry exposes
program = tt

abbrev sent : Entry
sent = record zero_entry {
  header = (str "x-WAIT0", str "forged" ∷ []) ∷ (str "A", str "1" ∷ str "2" ∷ []) ∷ [];
  stored_at = 3;
}

write_entry_run :
    write_entry (λ ts. []) [] sent (str "miss")
    ≡ (str "A", str "1" ∷ str "2" ∷ [])
      ∷ (str "X-Wait0", str "miss" ∷ [])
      ∷ (expose, str "X-Wait0" ∷ [])
      ∷ []
unfolding program
write_entry_run = refl

x_wait0-IsName : IsName (str "X-Wait0")
unfolding program
x_wait0-IsName = record { full = refl; trimmed = refl; whole = refl }

ensure_exposed_header-exposes_example :
    (exposes
        (ensure_exposed_header ((expose, str "A, B" ∷ []) ∷ []) (str "X-Wait0"))
        (str "X-Wait0")
      ≡ true)
    × (ensure_exposed_header
          (ensure_exposed_header ((expose, str "A, B" ∷ []) ∷ []) (str "X-Wait0"))
          (str "X-Wait0")
        ≡ ensure_exposed_header ((expose, str "A, B" ∷ []) ∷ []) (str "X-Wait0"))
ensure_exposed_header-exposes_example =
    ensure_exposed_header-exposes ((expose, str "A, B" ∷ []) ∷ []) (str "X-Wait0") x_wait0-IsName
