-- ===== src/Web/Sample.antt =====
-- A world and the functions of a player cookie, for the tests: an empty canvas of four by three cells,
-- UUIDs of four digits, and a tag that is the secret and the text.
use pixel_beetle.Prelude.{ℕ, ◌++◌, Option, none, List, [], lookup, hex_of_bytes, bytes_of_hex}
use pixel_beetle.TbClient.External.{Transfer}
use pixel_beetle.Game.Anchors.{OnEvict}
use pixel_beetle.Game.Service.{World, new_service}
use pixel_beetle.Game.Service.Claims.{IsWf}

abbrev pub no_hook : OnEvict (Unit {0})
no_hook ts hash bmp f = (none, f)

abbrev pub new_world : World (List Transfer) (Unit {0})
new_world = record { svc = new_service 4 3; store = []; sidecar = tt; sent = [] }

pub new_world-IsWf : IsWf new_world.svc.registry
unfolding lookup new_service
new_world-IsWf = (record { indexed = λ i n f. cc; backed = λ p i f. cc }, λ k l f. absurd (cc))

abbrev pub print_id : ℕ → List ℕ
print_id id = hex_of_bytes 2 id

abbrev pub parse_id : List ℕ → Option ℕ
parse_id s = bytes_of_hex s

abbrev pub plain_tag : List ℕ → List ℕ → List ℕ
plain_tag secret text = secret ++ text
