-- ===== src/Config/Tests.antt =====
-- Configurations on a stand-in for `rustls` that keeps the protocols and the roots, and refuses an
-- empty certificate.
use wtransport.Prelude.{
  ◌≡◌, refl, Bool, true, false, ℕ, List, [], ◌∷◌, ◌++◌, Result, ok, err, done, if◌then◌else◌,
}
use wtransport.Certificate.{Certificate}
use wtransport.Config.Crypto.{Tls, AlpnLaws}
use wtransport.Config.{
  server_builder, server_bind_address, with_certificate, client_builder, client_bind_address,
  native_cert_store, with_native_certs, with_no_cert_validation,
}
use wtransport.Config.Laws.{StoreLaws, valid_only, protocols_agree, native_cert_store-roots}

abbrev not_empty : List ℕ → Bool
not_empty [] = false
not_empty (b ∷ bs) = true

abbrev add_root : List ℕ → List (List ℕ) → Result (Unit {0}) (Unit {0}) × List (List ℕ)
add_root [] roots = (err tt, roots)
add_root (b ∷ bs) roots = (ok tt, roots ++ (b ∷ bs) ∷ [])

abbrev plain : Tls
plain = record {
  TlsError = Unit {0};
  ServerTls = List (List ℕ);
  with_single_cert = λ certs key. ok [];
  with_server_alpn = λ ps c. ps;
  server_alpn = λ c. c;
  RootCertStore = List (List ℕ);
  empty_store = [];
  add = add_root;
  Versions = Unit {0};
  with_safe_default_protocol_versions = ok tt;
  ClientTls = List (List ℕ) × List (List ℕ);
  with_root_certificates = λ v roots. (roots, []);
  with_client_alpn = λ ps c. (c.0, ps);
  client_alpn = λ c. c.1;
  Handshake = Unit {0};
  set_certificate_verifier = λ verifier c. c;
  QuicServerConfig = List (List ℕ);
  with_crypto = λ c. c;
  QuicClientConfig = List (List ℕ) × List (List ℕ);
  new_client = λ c. c;
}

plain-AlpnLaws : AlpnLaws plain
plain-AlpnLaws = record {
  server_alpn_lem = λ ps c. refl;
  client_alpn_lem = λ ps c. refl;
  verification_alpn_lem = λ verifier c. refl;
}

plain-add :
    (c : List ℕ) (s : List (List ℕ)) → (add_root c s).1 ≡ (if not_empty c then s ++ c ∷ [] else s)
plain-add [] s = refl
plain-add (b ∷ bs) s = refl

abbrev plain_roots : StoreLaws plain
plain_roots = record { roots = λ s. s; valid = not_empty; empty_lem = refl; add_lem = plain-add }

abbrev signed : Certificate
signed = record { certificates = (1 ∷ []) ∷ []; key = 2 ∷ [] }

protocols_agree_example :
    (t : List (List ℕ)) × (u : List (List ℕ) × List (List ℕ)) × (u' : List (List ℕ) × List (List ℕ))
    × (with_certificate plain ℕ signed (server_bind_address plain ℕ 443 (server_builder plain ℕ))
        ≡ done (record { quic_config = t; bind_address = 443 }))
    × (with_native_certs plain ℕ {E = Unit {0}}
          (ok ((5 ∷ []) ∷ []))
          (client_bind_address plain ℕ 7 (client_builder plain ℕ))
        ≡ done (record { quic_config = u; bind_address = 7 }))
    × (with_no_cert_validation plain ℕ (client_bind_address plain ℕ 7 (client_builder plain ℕ))
        ≡ done (record { quic_config = u'; bind_address = 7 }))
    × (t ≡ (104 ∷ 51 ∷ []) ∷ [])
    × (u.1 ≡ t)
    × (u'.1 ≡ t)
protocols_agree_example =
    protocols_agree plain plain-AlpnLaws ℕ 443 7 signed (ok ((5 ∷ []) ∷ [])) [] tt refl refl

native_cert_store-roots_example :
    (native_cert_store plain ℕ {E = Unit {0}} (ok ((1 ∷ []) ∷ [] ∷ (2 ∷ []) ∷ []))
      ≡ valid_only not_empty ((1 ∷ []) ∷ [] ∷ (2 ∷ []) ∷ []))
    × (native_cert_store plain ℕ {E = Unit {0}} (err tt) ≡ [])
native_cert_store-roots_example =
    native_cert_store-roots plain plain_roots ℕ ((1 ∷ []) ∷ [] ∷ (2 ∷ []) ∷ []) tt
