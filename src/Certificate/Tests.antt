-- ===== src/Certificate/Tests.antt =====
-- Loading a certificate whose key file is another certificate.
use wtransport.Prelude.{◌≡◌, ◌↔◌, ℕ, List, [], ◌∷◌, Option, some, Result, ok, panic}
use wtransport.Certificate.{Item, other, load}
use wtransport.Certificate.Laws.{KeyIsOther, load_panics_iff}

abbrev read_file : ℕ → Result (List ℕ) (Unit {0})
read_file path = ok (path ∷ [])

abbrev parse_certs : List ℕ → Result (List (List ℕ)) (Unit {0})
parse_certs pem = ok (pem ∷ [])

abbrev parse_item : List ℕ → Result (Option Item) (Unit {0})
parse_item pem = ok (some other)

load_panics_iff_example :
    (load read_file parse_certs parse_item 1 1 ≡ panic)
    ↔ KeyIsOther read_file parse_certs parse_item 1 1
load_panics_iff_example = load_panics_iff read_file parse_certs parse_item 1 1
