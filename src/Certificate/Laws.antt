-- ===== src/Certificate/Laws.antt =====
-- When loading a certificate panics.
use wtransport.Prelude.{
  ◌≡◌, ◌↔◌, refl, ℕ, List, Option, none, some, Result, ok, err, Outcome, panic,
}
use wtransport.Certificate.{
  Certificate, Item, other, rsa_key, pkcs8_key, ec_key, private_key, LoadError, with_key, or_io,
  load,
}

module _ {E FilePath : Type 0} (read : FilePath → Result (List ℕ) E)
    (certs : List ℕ → Result (List (List ℕ)) E) (read_one : List ℕ → Result (Option Item) E)
    (cert_path key_path : FilePath) where
  -- Both files can be read and parsed, and the first item of the key file is no private key.
  abbrev pub KeyIsOther : Type 0
  KeyIsOther =
      (cert_pem : List ℕ) × (certificates : List (List ℕ)) × (key_pem : List ℕ) × (read cert_path
        ≡ ok cert_pem)
      × (certs cert_pem ≡ ok certificates)
      × (read key_path ≡ ok key_pem)
      × (read_one key_pem ≡ ok (some other))

  item_panics :
      (certificates : List (List ℕ)) (item : Option Item)
      → with_key {E = E} certificates item ≡ panic
      → item ≡ some other
  unfolding with_key private_key
  item_panics certificates none e = cc
  item_panics certificates (some (rsa_key d)) e = cc
  item_panics certificates (some (pkcs8_key d)) e = cc
  item_panics certificates (some (ec_key d)) e = cc
  item_panics certificates (some other) e = refl

  or_io_panics :
      {A : Type 0} (r : Result A E) (next : A → Outcome (Result Certificate (LoadError E)))
      → or_io r next ≡ panic
      → (a : A) × (r ≡ ok a) × (next a ≡ panic)
  or_io_panics (ok a) next e = (a, refl, e)
  or_io_panics (err x) next e = cc

  -- `load` panics exactly where both files can be read and parsed and the first item of the key file
  -- is no private key; in every other case it returns a certificate or an error.
  pub load_panics_iff : (load read certs read_one cert_path key_path ≡ panic) ↔ KeyIsOther
  unfolding load with_key private_key
  load_panics_iff = (
    λ e.
        let (cert_pem, e1, k1) = or_io_panics (read cert_path) _ e in
        let (certificates, e2, k2) = or_io_panics (certs cert_pem) _ k1 in
        let (key_pem, e3, k3) = or_io_panics (read key_path) _ k2 in
        let (item, e4, k4) = or_io_panics (read_one key_pem) _ k3 in
        (cert_pem, certificates, key_pem, e1, e2, e3, rw (item_panics certificates item k4) at e4),
    λ h. let (cert_pem, certificates, key_pem, e1, e2, e3, e4) = h in rw (e1, e2, e3, e4) refl,
  )
