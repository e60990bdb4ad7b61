-- ===== src/RateLimit.antt =====
-- server/src/rate_limit.rs: the client of a request, the waiting, and the middleware. The budgets
-- are those of the governor crate, a parameter, as are the parsing of addresses and the API token.
pub mod Clients
pub mod Answers
use csaf_trove.Base.{
  ℕ, ◌+◌, ◌*◌, ◌/◌, ◌%◌, Bool, true, false, ◌&&◌, ◌||◌, not, Option, none, some, List, [], ◌∷◌,
  ◌++◌, ltb, leb, ◌==◌, max, if◌then◌else◌,
}
use csaf_trove.Base.Text.{Text}
use csaf_trove.Startup.{is_limited}

-- `IpAddr`: the octets of an IPv4 address, the segments of an IPv6 one.
pub data IpAddr : Type 0 where
  v4 : (a b c d : ℕ) → IpAddr
  v6 : (a b c d e f g h : ℕ) → IpAddr

-- `IpAddr::is_loopback`
unfoldable pub is_loopback : IpAddr → Bool
is_loopback (v4 a b c d) = a == 127
is_loopback (v6 a b c d e f g h) =
    (a == 0 && b == 0 && c == 0 && d == 0) && (e == 0 && f == 0 && g == 0 && h == 1)

-- Whether `Ipv6Addr::to_ipv4_mapped` finds an address.
abbrev pub is_mapped : (a b c d e f : ℕ) → Bool
is_mapped a b c d e f = (a == 0 && b == 0 && c == 0) && (d == 0 && e == 0 && f == 65535)

-- The match that ends `client_key`: IPv6 clients are grouped by their first four segments.
unfoldable pub network : IpAddr → IpAddr
network (v4 a b c d) = v4 a b c d
network (v6 a b c d e f g h) =
    if is_mapped a b c d e f then v4 (g / 256) (g % 256) (h / 256) (h % 256) else v6 a b c d 0 0 0 0

-- `rsplit(',').next()`: what follows the last comma.
abbrev pub after_comma : Text → Text → Text
after_comma entry [] = entry
after_comma entry (c ∷ s) =
    let later = after_comma [] s in
    let same = after_comma (entry ++ (c ∷ [])) s in if c == 44 then later else same

unfoldable pub last_entry : Text → Text
last_entry s = after_comma [] s

-- `forwarded` is the `x-forwarded-for` header where it is readable as a `str`, `has_token` whether
-- `verify_bearer_token` accepts the request for the configured API token.
pub record ServiceRequest : Type 0 where
  pub path : Text
  pub peer_addr : Option IpAddr
  pub forwarded : Option Text
  pub has_token : Bool

abbrev pub unspecified : IpAddr
unspecified = v6 0 0 0 0 0 0 0 0

abbrev pub peer_of : ServiceRequest → IpAddr
peer_of req = elim req.peer_addr [ none ↦ unspecified | some ip ↦ ip ]

abbrev pub or_peer : IpAddr → Option IpAddr → IpAddr
or_peer peer none = peer
or_peer peer (some ip) = ip

-- `parse` is `trim().parse().ok()`.
abbrev pub forwarded_client : (Text → Option IpAddr) → IpAddr → Option Text → IpAddr
forwarded_client parse peer none = peer
forwarded_client parse peer (some header) = or_peer peer (parse (last_entry header))

unfoldable pub client_key : (Text → Option IpAddr) → ServiceRequest → IpAddr
client_key parse req =
    let peer = peer_of req in
    network (if is_loopback peer then forwarded_client parse peer req.forwarded else peer)

-- `check_key` answers the time to wait, in nanoseconds, when the budget is spent; `until_key_ready`
-- answers whether the client was ready within the given time.
pub record Governor (S : Type 0) : Type 0 where
  pub check_key : IpAddr → S → Option ℕ × S
  pub until_key_ready : IpAddr → ℕ → S → Bool × S

-- `Result<(), Duration>`
pub data Acquired : Type 0 where
  proceed : Acquired
  back_off : (wait : ℕ) → Acquired

-- The response of the handler, or `429 Too Many Requests` with its `Retry-After` in seconds.
pub data Response : Type 0 where
  passed_on : Response
  too_many_requests : (retry_after : ℕ) → Response

abbrev pub answer_of : Acquired → Response
answer_of proceed = passed_on
answer_of (back_off wait) = too_many_requests (max (wait / 1000000000) 1)

module _ {S : Type 0} (limiter : Governor S) (max_wait : ℕ) where
  -- The timeout around `until_key_ready`.
  abbrev pub timed : Bool × S → Acquired × S
  timed (true, s) = (proceed, s)
  timed (false, s) = (back_off max_wait, s)

  -- What follows `check_key`.
  abbrev pub checked : IpAddr → Option ℕ × S → Acquired × S
  checked client (none, s) = (proceed, s)
  checked client (some wait, s) =
      if ltb max_wait wait
      then (back_off wait, s)
      else timed (limiter.until_key_ready client max_wait s)

  unfoldable pub acquire : IpAddr → S → Acquired × S
  acquire client s = checked client (limiter.check_key client s)

-- A limiter that is switched off is `none`; the budgets come with the response.
unfoldable pub middleware :
    {S : Type 0}
    → (Text → Option IpAddr)
    → Option (Governor S × ℕ)
    → ServiceRequest
    → S
    → Response × S
unfolding acquire
middleware parse none req s = (passed_on, s)
middleware parse (some limits) req s =
    if not (is_limited req.path) || req.has_token
    then (passed_on, s)
    else (let (acquired, after) = acquire limits.0 limits.1 (client_key parse req) s in
        (answer_of acquired, after))
