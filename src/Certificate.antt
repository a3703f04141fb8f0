-- ===== src/Certificate.antt =====
-- wtransport/src/tls.rs: certificates with their key, and loading them. What the file system and
-- `rustls_pemfile` return is an argument.
pub mod Laws
mod Tests
use wtransport.Prelude.{ℕ, List, Option, none, some, Result, ok, err, Outcome, done, panic, bind}

pub record Certificate : Type 0 where
  pub certificates : List (List ℕ)
  pub key : List ℕ

unfoldable pub new : List (List ℕ) → List ℕ → Certificate
new certificates private_key = record { certificates = certificates; key = private_key }

-- `rustls_pemfile::Item`, whose other variants the code does not name.
pub data Item : Type 0 where
  rsa_key pkcs8_key ec_key : List ℕ → Item
  other : Item

-- An error of the file system or of `rustls_pemfile`, or the one that `load` makes.
pub data LoadError (E : Type 0) : Type 0 where
  io : E → LoadError E
  unexpected_eof : LoadError E

unfoldable pub private_key : Item → Outcome (List ℕ)
private_key (rsa_key d) = done d
private_key (pkcs8_key d) = done d
private_key (ec_key d) = done d
private_key other = panic

module _ {E : Type 0} where
  abbrev pub with_key : List (List ℕ) → Option Item → Outcome (Result Certificate (LoadError E))
  unfolding private_key new
  with_key certificates none = done (err unexpected_eof)
  with_key certificates (some item) = bind (private_key item) λ d. done (ok (new certificates d))

  -- The operator `?` on what the file system and the parser return.
  abbrev pub or_io :
      {A : Type 0}
      → Result A E
      → (A → Outcome (Result Certificate (LoadError E)))
      → Outcome (Result Certificate (LoadError E))
  or_io (ok a) next = next a
  or_io (err e) next = done (err (io e))

  -- `load`, with `read`, `certs` and `read_one`.
  unfoldable pub load :
      {FilePath : Type 0}
      → (FilePath → Result (List ℕ) E)
      → (List ℕ → Result (List (List ℕ)) E)
      → (List ℕ → Result (Option Item) E)
      → FilePath
      → FilePath
      → Outcome (Result Certificate (LoadError E))
  unfolding with_key
  load read certs read_one cert_path key_path = or_io (read cert_path) λ cert_pem.
      or_io (certs cert_pem) λ certificates.
        or_io (read key_path) λ key_pem. or_io (read_one key_pem) (with_key certificates)
