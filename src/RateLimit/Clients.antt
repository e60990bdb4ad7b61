-- ===== src/RateLimit/Clients.antt =====
-- Which client a request counts for: the proxy's own entry decides, not what a client sends.
use mathlib.Core.List.{append-nil, append_assoc}
use csaf_trove.Base.{
  sym, ◌∙◌, ap, none, ◌↔◌, ◌⊎◌, ◌&&◌, ◌||◌, not, any, ◌≡◌, refl, ◌/◌, ◌%◌, ℕ, Bool, true, false,
  Option, some, [], ◌∷◌, ◌++◌, ◌==◌, arith, Bool-cases, inl, inr, if◌then◌else◌,
}
use csaf_trove.Base.Text.{Text}
use csaf_trove.RateLimit.{
  IpAddr, v4, v6, is_loopback, peer_of, is_mapped, network, after_comma, last_entry, ServiceRequest,
  client_key,
}

after_comma-append : (entry s t : Text) → after_comma entry (s ++ (44 ∷ t)) ≡ after_comma [] t
after_comma-append entry [] t = refl
after_comma-append entry (c ∷ s) t = elim (Bool-cases (c == 44)) [
  | inl e ↦ rw e (after_comma-append [] s t)
  | inr e ↦ rw e (after_comma-append (entry ++ (c ∷ [])) s t)
]

last_entry-append : (s t : Text) → last_entry (s ++ (44 ∷ t)) ≡ last_entry t
unfolding last_entry
last_entry-append s t = after_comma-append [] s t

last_entry-single : (entry : Text) → any (λ c. c == 44) entry ≡ false → last_entry entry ≡ entry
unfolding last_entry
last_entry-single entry h = single [] entry h
  where
    single :
        (before entry : Text)
        → any (λ c. c == 44) entry ≡ false
        → after_comma before entry ≡ before ++ entry
    single before [] h = sym (append-nil before)
    single before (c ∷ entry) h = elim (Bool-cases (c == 44)) [
      | inl comma ↦ cc (rw comma at h)
      | inr other ↦
          rw other (single (before ++ (c ∷ [])) entry (rw other at h))
          ∙ append_assoc before (c ∷ []) entry
    ]

-- Two addresses of one client: the same IPv4 address, written as such or mapped into IPv6, or two
-- other IPv6 addresses that agree in their first four segments.
abbrev pub same_v4 : (a b c d g h : ℕ) → Bool
same_v4 a b c d g h = (a == g / 256 && b == g % 256) && (c == h / 256 && d == h % 256)

abbrev pub same_network : IpAddr → IpAddr → Bool
same_network (v4 a b c d) (v4 a' b' c' d') = (a == a' && b == b') && (c == c' && d == d')
same_network (v4 a b c d) (v6 a' b' c' d' e' f' g' h') =
    is_mapped a' b' c' d' e' f' && same_v4 a b c d g' h'
same_network (v6 a b c d e f g h) (v4 a' b' c' d') =
    is_mapped a b c d e f && same_v4 a' b' c' d' g h
same_network (v6 a b c d e f g h) (v6 a' b' c' d' e' f' g' h') =
    (is_mapped a b c d e f && is_mapped a' b' c' d' e' f' && (g == g' && h == h'))
    || (not (is_mapped a b c d e f)
        && not (is_mapped a' b' c' d' e' f')
        && ((a == a' && b == b') && (c == c' && d == d')))

four_iff :
    (a b c d a' b' c' d' : ℕ)
    → ((a ≡ a') × (b ≡ b') × (c ≡ c') × (d ≡ d'))
      ↔ (((a == a' && b == b') && (c == c' && d == d')) ≡ true)
four_iff a b c d a' b' c' d' = (
  (λ (ea, eb, ec, ed). rw (ea, eb, ec, ed) (ground arith)),
  (λ h. (ground arith, ground arith, ground arith, ground arith)),
)

v4_iff :
    (a b c d a' b' c' d' : ℕ)
    → (v4 a b c d ≡ v4 a' b' c' d') ↔ (((a == a' && b == b') && (c == c' && d == d')) ≡ true)
v4_iff a b c d a' b' c' d' = (
  (λ e. (four_iff a b c d a' b' c' d').0 (cc, cc, cc, cc)),
  (λ h. let (ea, eb, ec, ed) = (four_iff a b c d a' b' c' d').1 h in cc),
)

v6_iff :
    (a b c d a' b' c' d' : ℕ)
    → (v6 a b c d 0 0 0 0 ≡ v6 a' b' c' d' 0 0 0 0)
      ↔ (((a == a' && b == b') && (c == c' && d == d')) ≡ true)
v6_iff a b c d a' b' c' d' = (
  (λ e. (four_iff a b c d a' b' c' d').0 (cc, cc, cc, cc)),
  (λ h. let (ea, eb, ec, ed) = (four_iff a b c d a' b' c' d').1 h in cc),
)

-- A segment and its two octets.
octets_iff :
    (g h g' h' : ℕ)
    → ((g / 256 == g' / 256 && g % 256 == g' % 256) && (h / 256 == h' / 256 && h % 256 == h' % 256))
      ≡ (g == g' && h == h')
octets_iff g h g' h' = ground arith

v4_v6_iff :
    (m : Bool) (a b c d a' b' c' d' g h : ℕ)
    → (v4 a b c d
        ≡ (if m then v4 (g / 256) (g % 256) (h / 256) (h % 256) else v6 a' b' c' d' 0 0 0 0))
      ↔ ((m && same_v4 a b c d g h) ≡ true)
v4_v6_iff true a b c d a' b' c' d' g h = v4_iff a b c d (g / 256) (g % 256) (h / 256) (h % 256)
v4_v6_iff false a b c d a' b' c' d' g h = ((λ e. cc), (λ e. cc))

or-false_right : (b : Bool) → (b || false) ≡ b
or-false_right true = refl
or-false_right false = refl

v6_v6_iff :
    (m m' : Bool) (a b c d g h a' b' c' d' g' h' : ℕ)
    → ((if m then v4 (g / 256) (g % 256) (h / 256) (h % 256) else v6 a b c d 0 0 0 0)
        ≡ (if m' then v4 (g' / 256) (g' % 256) (h' / 256) (h' % 256) else v6 a' b' c' d' 0 0 0 0))
      ↔ (((m && m' && (g == g' && h == h'))
            || (not m && not m' && ((a == a' && b == b') && (c == c' && d == d'))))
          ≡ true)
v6_v6_iff true true a b c d g h a' b' c' d' g' h' =
    let (to, from) =
      v4_iff (g / 256) (g % 256) (h / 256) (h % 256) (g' / 256) (g' % 256) (h' / 256) (h' % 256) in
    let same = octets_iff g h g' h' in
    ((λ e. or-false_right _ ∙ (sym same ∙ to e)), (λ e. from (same ∙ (sym (or-false_right _) ∙ e))))
v6_v6_iff true false a b c d g h a' b' c' d' g' h' = ((λ e. cc), (λ e. cc))
v6_v6_iff false true a b c d g h a' b' c' d' g' h' = ((λ e. cc), (λ e. cc))
v6_v6_iff false false a b c d g h a' b' c' d' g' h' = v6_iff a b c d a' b' c' d'

network_iff : (x y : IpAddr) → (network x ≡ network y) ↔ (same_network x y ≡ true)
unfolding network
network_iff (v4 a b c d) (v4 a' b' c' d') = v4_iff a b c d a' b' c' d'
network_iff (v4 a b c d) (v6 a' b' c' d' e' f' g' h') =
    v4_v6_iff (is_mapped a' b' c' d' e' f') a b c d a' b' c' d' g' h'
network_iff (v6 a b c d e f g h) (v4 a' b' c' d') =
    let (to, from) = v4_v6_iff (is_mapped a b c d e f) a' b' c' d' a b c d g h in
    ((λ e. to (sym e)), (λ e. sym (from e)))
network_iff (v6 a b c d e f g h) (v6 a' b' c' d' e' f' g' h') =
    v6_v6_iff (is_mapped a b c d e f) (is_mapped a' b' c' d' e' f') a b c d g h a' b' c' d' g' h'

-- What follows the last comma of a header, or the header if it has none.
abbrev pub IsLast : Text → Text → Type 0
IsLast entry header =
    (any (λ c. c == 44) entry ≡ false)
    × ((header ≡ entry) ⊎ ((sent : Text) × (header ≡ sent ++ (44 ∷ entry))))

last_entry-IsLast : (entry header : Text) → IsLast entry header → last_entry header ≡ entry
last_entry-IsLast entry header (single, inl whole) =
    ap last_entry whole ∙ last_entry-single entry single
last_entry-IsLast entry header (single, inr (sent, parts)) =
    ap last_entry parts ∙ last_entry-append sent entry ∙ last_entry-single entry single

-- The address that a request comes from: that of the peer, unless the peer is the proxy, a loopback
-- address. Then it is the last entry of the header, which the proxy has written, if there is one that
-- can be read.
pub data ClientOf (parse : Text → Option IpAddr) (req : ServiceRequest) (ip : IpAddr) : Type 0 where
  of_peer : is_loopback (peer_of req) ≡ false → peer_of req ≡ ip → ClientOf parse req ip
  without_header :
      is_loopback (peer_of req) ≡ true
      → req.forwarded ≡ none
      → peer_of req ≡ ip
      → ClientOf parse req ip
  of_entry :
      (entry header : Text)
      → is_loopback (peer_of req) ≡ true
      → req.forwarded ≡ some header
      → IsLast entry header
      → parse entry ≡ some ip
      → ClientOf parse req ip
  unreadable :
      (entry header : Text)
      → is_loopback (peer_of req) ≡ true
      → req.forwarded ≡ some header
      → IsLast entry header
      → parse entry ≡ none
      → peer_of req ≡ ip
      → ClientOf parse req ip

client_key-network :
    (parse : Text → Option IpAddr) (req : ServiceRequest) (ip : IpAddr)
    → ClientOf parse req ip
    → client_key parse req ≡ network ip
unfolding client_key
client_key-network parse req ip (of_peer direct same) = rw direct (ap network same)
client_key-network parse req ip (without_header loop bare same) = rw (loop, bare) (ap network same)
client_key-network parse req ip (of_entry entry header loop sent last read) =
    rw (loop, sent, last_entry-IsLast entry header last, read) refl
client_key-network parse req ip (unreadable entry header loop sent last failed same) =
    rw (loop, sent, last_entry-IsLast entry header last, failed) (ap network same)

-- Two requests count for the same key exactly when the addresses that they come from are those of one
-- client: equal IPv4 addresses, mapped into IPv6 or not, or IPv6 addresses that are no mapped ones and
-- have the same first four segments. A request comes from its peer, but behind the proxy from what
-- follows the last comma of its header, if that can be read.
pub client_key_iff :
    (parse : Text → Option IpAddr) (req other : ServiceRequest) (ip ip' : IpAddr)
    → ClientOf parse req ip
    → ClientOf parse other ip'
    → (client_key parse req ≡ client_key parse other) ↔ (same_network ip ip' ≡ true)
client_key_iff parse req other ip ip' from from' =
    let key = client_key-network parse req ip from in
    let key' = client_key-network parse other ip' from' in
    let (to, back) = network_iff ip ip' in
    ((λ e. to (sym key ∙ (e ∙ key'))), (λ same. key ∙ (back same ∙ sym key')))
