-- ===== src/Examples/Limits.antt =====
-- Requests of a client behind the proxy, and a budget that is spent.
use csaf_trove.Base.{
  ◌≡◌, ◌↔◌, inr, refl, ℕ, Bool, true, false, Option, none, some, [], ◌∷◌, ◌++◌, ◌==◌, ◌≤◌, ◌/◌,
  ◌||◌, not, any, if◌then◌else◌,
}
use csaf_trove.Base.Text.{Text, bytes, text_eq}
use csaf_trove.Startup.{is_limited}
use csaf_trove.RateLimit.{
  IpAddr, v4, v6, network, ServiceRequest, client_key, Governor, Response, passed_on,
  too_many_requests, acquire, middleware,
}
use csaf_trove.RateLimit.Clients.{ClientOf, of_peer, of_entry, same_network, client_key_iff}
use csaf_trove.RateLimit.Answers.{middleware-rejected}

abbrev home : Text
home = bytes "10.0.0.1"

abbrev parse_home : Text → Option IpAddr
unfolding text_eq
parse_home s = if text_eq s home then some (v4 10 0 0 1) else none

abbrev proxied : ServiceRequest
proxied = record {
  path = bytes "/api/providers";
  peer_addr = some (v4 127 0 0 1);
  forwarded = some (bytes "9.9.9.9,10.0.0.1");
  has_token = false;
}

proxied-key : client_key parse_home proxied ≡ v4 10 0 0 1
unfolding client_key csaf_trove.RateLimit.last_entry network csaf_trove.RateLimit.is_loopback
    parse_home
proxied-key = refl

grouped : network (v6 8193 3512 1 2 3 4 5 6) ≡ v6 8193 3512 1 2 0 0 0 0
unfolding network
grouped = refl

mapped : network (v6 0 0 0 0 0 65535 2560 1) ≡ v4 10 0 0 1
unfolding network
mapped = refl

-- The same client without the proxy, with a header that does not count.
abbrev without_proxy : ServiceRequest
without_proxy = record {
  path = bytes "/api/providers";
  peer_addr = some (v6 0 0 0 0 0 65535 2560 1);
  forwarded = some (bytes "9.9.9.9");
  has_token = false;
}

proxied-ClientOf : ClientOf parse_home proxied (v4 10 0 0 1)
unfolding parse_home csaf_trove.RateLimit.is_loopback
proxied-ClientOf =
    of_entry home (bytes "9.9.9.9,10.0.0.1") refl refl (refl, inr (bytes "9.9.9.9", refl)) refl

without_proxy-ClientOf : ClientOf parse_home without_proxy (v6 0 0 0 0 0 65535 2560 1)
unfolding csaf_trove.RateLimit.is_loopback
without_proxy-ClientOf = of_peer refl refl

client_key_iff_example :
    (client_key parse_home proxied ≡ client_key parse_home without_proxy)
    ↔ (same_network (v4 10 0 0 1) (v6 0 0 0 0 0 65535 2560 1) ≡ true)
client_key_iff_example =
    client_key_iff parse_home proxied without_proxy (v4 10 0 0 1) (v6 0 0 0 0 0 65535 2560 1)
      proxied-ClientOf without_proxy-ClientOf

-- A budget that is spent for 20 seconds.
abbrev spent : Governor ℕ
spent = record {
  check_key = λ client s. (some 20000000000, s);
  until_key_ready = λ client longest s. (false, s);
}

middleware-rejected_example :
    (is_limited proxied.path ≡ true)
    × (proxied.has_token ≡ false)
    × (1 ≤ 20)
    × (10000000000 / 1000000000 ≤ 20)
unfolding middleware is_limited csaf_trove.Base.Text.starts_with acquire
middleware-rejected_example = middleware-rejected parse_home spent 10000000000 proxied 0 20 refl
