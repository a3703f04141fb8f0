-- ===== src/Session/Validation.antt =====
-- Which requests and responses are accepted.
use Prim.Native.String.{String}
use text.Mathlib.Text.{◌==◌}
use text.Mathlib.TextEquality.{eq_iff}
use wtransport.Prelude.{
  ◌≡◌, ◌⊎◌, ◌↔◌, ◌≢◌, refl, ap, arith, inl, inr, Bool-cases, Option, none, some, ok, err,
}
use wtransport.ErrorCode.{message}
use wtransport.Headers
use wtransport.Headers.{Headers}
use wtransport.Session.{closing, unwrap_or_default, validate_request, validate_response}

-- A value that is compared with a text which is not empty is there.
present : (v : Option String) (s : String) → "" ≢ s → (unwrap_or_default v ≡ s) ↔ (v ≡ some s)
present none s h = (λ e. absurd (h e), λ e. cc)
present (some t) s h = (λ e. ap some e, λ e. cc)

connect_given : ◌≢◌ {A = String} "" "CONNECT"
connect_given = λ e. cc

webtransport_given : ◌≢◌ {A = String} "" "webtransport"
webtransport_given = λ e. cc

https_given : ◌≢◌ {A = String} "" "https"
https_given = λ e. cc

ok_given : ◌≢◌ {A = String} "" "200"
ok_given = λ e. cc

-- A request is accepted exactly when its method, its protocol and its scheme are there and are
-- `CONNECT`, `webtransport` and `https`; any other is refused with a message error.
pub validate_request_iff :
    (hs : Headers)
    → ((validate_request hs ≡ ok tt) ↔ (
        (Headers.get ":method" hs ≡ some "CONNECT")
        × (Headers.get ":protocol" hs ≡ some "webtransport")
        × (Headers.get ":scheme" hs ≡ some "https")))
      × ((validate_request hs ≡ ok tt)
          ⊎ ((reason : String) × (validate_request hs ≡ err (closing message reason))))
unfolding validate_request
validate_request_iff hs =
    let m = unwrap_or_default (Headers.get ":method" hs) in
    let p = unwrap_or_default (Headers.get ":protocol" hs) in
    let s = unwrap_or_default (Headers.get ":scheme" hs) in
    (
      ground (
        arith,
        eq_iff m "CONNECT",
        eq_iff p "webtransport",
        eq_iff s "https",
        present (Headers.get ":method" hs) "CONNECT" connect_given,
        present (Headers.get ":protocol" hs) "webtransport" webtransport_given,
        present (Headers.get ":scheme" hs) "https" https_given,
      ),
      elim (Bool-cases (m == "CONNECT")) [
        | inr e ↦ inr ("Method not supported", rw e refl)
        | inl e ↦ elim (Bool-cases (p == "webtransport")) [
          | inr e' ↦ inr ("Protocol not supported", rw (e, e') refl)
          | inl e' ↦ elim (Bool-cases (s == "https")) [
            | inr e'' ↦ inr ("Protocol not supported", rw (e, e', e'') refl)
            | inl e'' ↦ inl (rw (e, e', e'') refl)
          ]
        ]
      ],
    )

-- A response is accepted exactly when its status is there and is 200; any other is refused with a
-- message error.
pub validate_response_iff :
    (hs : Headers)
    → ((validate_response hs ≡ ok tt) ↔ (Headers.get ":status" hs ≡ some "200"))
      × ((validate_response hs ≡ ok tt)
          ⊎ (validate_response hs ≡ err (closing message "CONNECT refused")))
unfolding validate_response
validate_response_iff hs =
    let s = unwrap_or_default (Headers.get ":status" hs) in
    (
      ground (arith, eq_iff s "200", present (Headers.get ":status" hs) "200" ok_given),
      elim (Bool-cases (s == "200")) [ inr e ↦ inr (rw e refl) | inl e ↦ inl (rw e refl) ],
    )
