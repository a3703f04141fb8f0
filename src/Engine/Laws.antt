-- ===== src/Engine/Laws.antt =====
-- The datagrams and streams of a session, and the settings of the peer.
use wtransport.Prelude.{
  ℕ, ◌≡◌, refl, true, false, List, [], ◌∷◌, none, some, Result, ok, done, ◌==◌, sym, ap, subst, ◌∙◌,
  arith, if◌then◌else◌,
}
use wtransport.Ids.SessionId.{SessionId}
use wtransport.Ids.Laws.{IsSessionId}
use wtransport.Quic.Octets.{Octets, OctetsLaws}
use wtransport.Datagram.App as App
use wtransport.Datagram.App.{Datagram}
use wtransport.Datagram.App.Laws.{read-write}
use wtransport.Worker.{WorkerError}
use wtransport.Engine.{receive_datagram}

-- Datagrams that were written for other sessions than `t`.
abbrev pub Foreign : Octets → SessionId → List (List ℕ) → Type 0
Foreign o t [] = Unit {0}
Foreign o t (bs ∷ rest) =
    ((s : SessionId) × (payload : List ℕ) × (d : Datagram) × IsSessionId s
      × ((t.session_stream.varint == s.session_stream.varint) ≡ false)
      × (App.write o s payload ≡ done d)
      × (d.quic_dgram ≡ bs))
    × Foreign o t rest

abbrev pub arriving :
    {E : Type 0} → List (List ℕ) → List (Result (List ℕ) E) → List (Result (List ℕ) E)
arriving [] more = more
arriving (bs ∷ rest) more = ok bs ∷ arriving rest more

module _ (o : Octets) (laws : OctetsLaws o) (ended : WorkerError) (t : SessionId) where
  -- A datagram that was written reads as itself in its session and as none in any other.
  read_written :
      (s : SessionId) (payload : List ℕ) (d : Datagram)
      → IsSessionId s
      → App.write o s payload ≡ done d
      → (App.read o t d.quic_dgram
          ≡ done (ok (if t.session_stream.varint == s.session_stream.varint then some d else none)))
        × (App.deref d ≡ done payload)
  read_written s payload d h written =
      let (d', wrote, reads, shows) = read-write o laws t s payload h in
      let is : d' ≡ d = let both = sym wrote ∙ written in cc in
      (
        subst
            (λ x.
              App.read o t x.quic_dgram
              ≡ done (
                  ok (if t.session_stream.varint == s.session_stream.varint then some x else none)))
            is reads,
        ap App.deref (sym is) ∙ shows,
      )

  same_session : (t.session_stream.varint == t.session_stream.varint) ≡ true
  same_session = ground arith

  -- `receive_datagram` passes over the datagrams of other sessions, and returns the first one that was
  -- written for its own, whose payload the application sees.
  pub receive_datagram-write :
      (others : List (List ℕ)) (payload : List ℕ) (d : Datagram)
      (more : List (Result (List ℕ) (Unit {0})))
      → IsSessionId t
      → Foreign o t others
      → App.write o t payload ≡ done d
      → (receive_datagram o ended t (arriving others (ok d.quic_dgram ∷ more)) ≡ done (some (ok d)))
        × (App.deref d ≡ done payload)
  unfolding receive_datagram
  receive_datagram-write [] payload d more h foreign written =
      let (reads, shows) = read_written t payload d h written in
      (rw (reads, same_session) refl, shows)
  receive_datagram-write (bs ∷ rest) payload d more h ((s, p, e, hs, other, wrote, is), foreign)
        written =
      let (reads, _) = read_written s p e hs wrote in
      let (rest_reads, shows) = receive_datagram-write rest payload d more h foreign written in
      let skips = rw (is, other) at reads in (rw skips rest_reads, shows)
