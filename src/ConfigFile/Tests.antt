-- ===== src/ConfigFile/Tests.antt =====
-- A run of `config_file_parse`, and its theorem there.
use awg2_webui.Base.{ℕ, ◌≡◌, refl, some, none, List, [], ◌∷◌, pos, codes}
use awg2_webui.ConfigFile.{FileConfig}
use awg2_webui.ConfigFile.Lines.{config_file_parse, no_params}
use awg2_webui.ConfigFile.Loaded.{IsFile}
use awg2_webui.ConfigFile.Invariant.{config_file_parse-IsFile}

abbrev content : List ℕ
content =
    codes
      "[Interface]\nJc = 4 # junk\nH1=5-70\n\n[Peer]\nEndpoint = example.org:51820\nPersistentKeepalive = 25\n"

abbrev expected : FileConfig
expected = record {
  params = record no_params { jc = some (pos 4); h1 = some (record { min = 5; max = 70 }) };
  cps = none ∷ none ∷ none ∷ none ∷ none ∷ [];
  client_pub = none;
  listen = none;
  dns = none;
  server_pub = none;
  endpoint = some (codes "example.org:51820");
  keepalive = some 25;
  peer_pubs = [];
}

small_file : config_file_parse (λ k. k) (some content) ≡ some expected
unfolding config_file_parse
small_file = refl

config_file_parse-IsFile_example : IsFile expected
config_file_parse-IsFile_example = config_file_parse-IsFile (λ k. k) content expected small_file
