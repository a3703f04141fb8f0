-- ===== src/Config/Laws.antt =====
-- What the configurations are made of: the protocols, the addresses and the roots.
use wtransport.Prelude.{
  ◌≡◌, refl, sym, ◌∙◌, ap, Bool, Bool-cases, inl, inr, ℕ, List, [], ◌∷◌, ◌++◌, append-nil,
  append_assoc, Result, ok, err, done, if◌then◌else◌,
}
use wtransport.Certificate.{Certificate}
use wtransport.Config.Crypto.{Tls, AlpnLaws}
use wtransport.Config.{
  webtransport_alpn, server_builder, server_bind_address, server_tls_config, with_certificate,
  client_builder, client_bind_address, client_tls_config, native_cert_store, add_certs,
  with_native_certs, with_no_cert_validation, verify_server_cert,
}

module _ (tls : Tls) (laws : AlpnLaws tls) (Address : Type 0) where
  -- Let `rustls` accept the certificate of the server and have its safe protocol versions. Then the
  -- configurations that the builders make, also where the certificates are not validated, have the
  -- addresses that they were given, and the server and both clients offer the same protocols,
  -- which are `h3` alone.
  pub protocols_agree :
      {E : Type 0} (address address' : Address) (certificate : Certificate)
      (loaded : Result (List (List ℕ)) E) (c : tls.ServerTls) (v : tls.Versions)
      → tls.with_single_cert certificate.certificates certificate.key ≡ ok c
      → tls.with_safe_default_protocol_versions ≡ ok v
      → (t : tls.ServerTls) × (u : tls.ClientTls) × (u' : tls.ClientTls) × (with_certificate tls
            Address certificate
            (server_bind_address tls Address address (server_builder tls Address))
          ≡ done (record { quic_config = tls.with_crypto t; bind_address = address }))
        × (with_native_certs tls Address loaded
              (client_bind_address tls Address address' (client_builder tls Address))
            ≡ done (record { quic_config = tls.new_client u; bind_address = address' }))
        × (with_no_cert_validation tls Address
              (client_bind_address tls Address address' (client_builder tls Address))
            ≡ done (record { quic_config = tls.new_client u'; bind_address = address' }))
        × (tls.server_alpn t ≡ (104 ∷ 51 ∷ []) ∷ [])
        × (tls.client_alpn u ≡ tls.server_alpn t)
        × (tls.client_alpn u' ≡ tls.server_alpn t)
  unfolding with_certificate server_bind_address with_native_certs with_no_cert_validation
      client_bind_address server_tls_config client_tls_config webtransport_alpn
  protocols_agree address address' certificate loaded c v single versions =
      let offered : List (List ℕ) = (104 ∷ 51 ∷ []) ∷ [] in
      let safe = tls.with_client_alpn offered (tls.with_root_certificates v tls.empty_store) in
      (
        tls.with_server_alpn offered c,
        tls.with_client_alpn offered
            (tls.with_root_certificates v (native_cert_store tls Address loaded)),
        tls.set_certificate_verifier (verify_server_cert tls Address) safe,
        rw single refl,
        rw versions refl,
        rw versions refl,
        laws.server_alpn_lem offered c,
        rw (laws.server_alpn_lem offered c) (laws.client_alpn_lem offered _),
        rw (laws.server_alpn_lem offered c) (
            laws.verification_alpn_lem (verify_server_cert tls Address) safe
            ∙ laws.client_alpn_lem offered _),
      )

-- The roots of a store: `add` appends a certificate that is valid and leaves the store else.
pub record StoreLaws (tls : Tls) : Type 0 where
  pub roots : tls.RootCertStore → List (List ℕ)
  pub valid : List ℕ → Bool
  pub empty_lem : roots tls.empty_store ≡ []
  pub add_lem :
      (c : List ℕ) (s : tls.RootCertStore)
      → roots ((tls.add c s).1) ≡ (if valid c then roots s ++ c ∷ [] else roots s)

abbrev pub valid_only : (List ℕ → Bool) → List (List ℕ) → List (List ℕ)
valid_only valid [] = []
valid_only valid (c ∷ certs) =
    let rest = valid_only valid certs in if valid c then c ∷ rest else rest

module _ (tls : Tls) (laws : StoreLaws tls) (Address : Type 0) where
  add_certs-roots :
      (certs : List (List ℕ)) (s : tls.RootCertStore)
      → laws.roots (add_certs tls Address certs s) ≡ laws.roots s ++ valid_only laws.valid certs
  unfolding add_certs
  add_certs-roots [] s = sym (append-nil (laws.roots s))
  add_certs-roots (c ∷ certs) s = elim (Bool-cases (laws.valid c)) [
    | inl v ↦
        let added = rw v at (laws.add_lem c s) in
        rw v (
          add_certs-roots certs (tls.add c s).1
          ∙ ap (λ l. l ++ valid_only laws.valid certs) added
          ∙ append_assoc (laws.roots s) (c ∷ []) (valid_only laws.valid certs))
    | inr v ↦
        let added = rw v at (laws.add_lem c s) in
        rw v
          (add_certs-roots certs (tls.add c s).1 ∙ ap (λ l. l ++ valid_only laws.valid certs) added)
  ]

  -- The store of the native certificates has the valid ones as its roots, in their order, whatever
  -- is refused between them; where they cannot be loaded it is empty.
  pub native_cert_store-roots :
      {E : Type 0} (certs : List (List ℕ)) (e : E)
      → (laws.roots (native_cert_store tls Address {E = E} (ok certs))
          ≡ valid_only laws.valid certs)
        × (laws.roots (native_cert_store tls Address {E = E} (err e)) ≡ [])
  unfolding native_cert_store
  native_cert_store-roots certs e =
      (rw (add_certs-roots certs tls.empty_store, laws.empty_lem) refl, laws.empty_lem)
