-- ===== src/Backends/Tests.antt =====
-- The backends on a small list.
use serwebs.Prelude.{
  ◌≡◌, String, ◌+◌, ◌≤◌, ◌==◌, if◌then◌else◌, ◌≢◌, refl, eq_iff, false, none, some, List, [], ◌∷◌,
  arith,
}
use serwebs.Text.{rstrip_slash}
use serwebs.Roles.{User}
use serwebs.Backends.{BackendData, BackendConfig, of_data, of_list, Aggregator, reload_backends}
use serwebs.Backends.Restart.{Call, add, update, delete, reload, run, reload-run}
use serwebs.Backends.Names.{IsUnique, run-IsUnique}

abbrev admin : User
admin = record { username = "root"; role = "admin" }

abbrev entry : String → String → BackendData
entry name url = record {
  name = some name;
  url = some url;
  token = none;
  username = none;
  password = none;
  verify_ssl = some false;
}

abbrev backend : String → String → BackendConfig
backend name url = record {
  name = name;
  url = url;
  token = "";
  username = "";
  password = "";
  verify_ssl = false;
}

abbrev content : List BackendData
content = entry "lab" "http://lab/" ∷ entry "roof" "http://roof" ∷ []

abbrev loaded : Aggregator
loaded = record {
  backends = backend "lab" "http://lab" ∷ backend "roof" "http://roof" ∷ [];
  file = some content;
}

loads : of_list content ≡ some loaded.backends
unfolding of_list of_data rstrip_slash
loads = refl

abbrev calls : List Call
calls =
    add (entry "shed" "http://shed//") admin
    ∷ update "lab" (entry "lab" "http://new") admin
    ∷ delete "roof" admin
    ∷ reload
    ∷ []

reload-run_example :
    ((saved : List BackendData) × ((run loaded calls).file ≡ some saved)
      × (of_list saved ≡ some (run loaded calls).backends))
    × (reload_backends (record (run loaded calls) { backends = [] }) ≡ run loaded calls)
reload-run_example = reload-run loaded content calls [] refl loads

apart : (a b n : String) → a ≢ b → (if a == n then 1 else 0) + ((if b == n then 1 else 0) + 0) ≤ 1
apart a b n h = ground (arith, h, eq_iff a n, eq_iff b n)

loaded-IsUnique : IsUnique loaded.backends
loaded-IsUnique n = apart "lab" "roof" n (λ e. ground (arith, (eq_iff "lab" "roof").1 e))

run-IsUnique_example : IsUnique (run loaded calls).backends
run-IsUnique_example =
    run-IsUnique loaded content calls refl loads (tt, (refl, (tt, (tt, tt)))) loaded-IsUnique
