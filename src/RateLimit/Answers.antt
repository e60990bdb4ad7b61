-- ===== src/RateLimit/Answers.antt =====
-- The requests that the middleware rejects, and what it asks of the client.
use csaf_trove.Base.{
  ◌≡◌, refl, ℕ, Bool, true, false, ◌||◌, not, Option, none, some, ◌≤◌, ◌/◌, max, arith, Bool-cases,
  inl, inr, ltb, if◌then◌else◌,
}
use csaf_trove.Base.Text.{Text}
use csaf_trove.Startup.{is_limited}
use csaf_trove.RateLimit.{
  IpAddr, ServiceRequest, client_key, Governor, Acquired, proceed, back_off, Response, passed_on,
  too_many_requests, acquire, timed, checked, answer_of, middleware,
}

module _ {S : Type 0} (limiter : Governor S) (max_wait : ℕ) where
  abbrev Waits : Acquired → Type 0
  Waits proceed = Unit
  Waits (back_off wait) = max_wait ≤ wait

  timed-Waits : (r : Bool × S) → Waits (timed limiter max_wait r).0
  timed-Waits (true, s) = tt
  timed-Waits (false, s) = omega arith

  checked-Waits : (client : IpAddr) (r : Option ℕ × S) → Waits (checked limiter max_wait client r).0
  checked-Waits client (none, s) = tt
  checked-Waits client (some wait, s) = elim (Bool-cases (ltb max_wait wait)) [
    | inl e ↦ rw e (ground arith)
    | inr e ↦ rw e (timed-Waits (limiter.until_key_ready client max_wait s))
  ]

  acquire-Waits : (client : IpAddr) (s : S) → Waits (acquire limiter max_wait client s).0
  unfolding acquire
  acquire-Waits client s = checked-Waits client (limiter.check_key client s)

seconds-bounds :
    (least wait retry : ℕ)
    → least ≤ wait
    → max (wait / 1000000000) 1 ≡ retry
    → (1 ≤ retry) × (least / 1000000000 ≤ retry)
seconds-bounds least wait retry longer e = (omega arith, omega arith)

abbrev answered : {S : Type 0} → Bool → Bool → S → Acquired × S → Response × S
answered limited token s r = if not limited || token then (passed_on, s) else (answer_of r.0, r.1)

-- Only a request to a limited path without the API token is rejected, and it is asked to stay away
-- for one second at least, and for at least the whole seconds of the longest delay, the rest of
-- which is cut off.
pub middleware-rejected :
    {S : Type 0} (parse : Text → Option IpAddr) (limiter : Governor S) (max_wait : ℕ)
    (req : ServiceRequest) (s : S) (retry : ℕ)
    → (middleware parse (some (limiter, max_wait)) req s).0 ≡ too_many_requests retry
    → (is_limited req.path ≡ true)
      × (req.has_token ≡ false)
      × (1 ≤ retry)
      × (max_wait / 1000000000 ≤ retry)
unfolding middleware
middleware-rejected {S} parse limiter max_wait req s retry ran =
    of_tests (is_limited req.path) req.has_token (acquire limiter max_wait (client_key parse req) s)
      (acquire-Waits limiter max_wait (client_key parse req) s) ran
  where
    of_tests :
        (limited token : Bool) (r : Acquired × S)
        → Waits limiter max_wait r.0
        → (answered limited token s r).0 ≡ too_many_requests retry
        → (limited ≡ true) × (token ≡ false) × (1 ≤ retry) × (max_wait / 1000000000 ≤ retry)
    of_tests false token r waits h = cc
    of_tests true true r waits h = cc
    of_tests true false (proceed, t) waits h = cc
    of_tests true false (back_off wait, t) waits h =
        let e : max (wait / 1000000000) 1 ≡ retry = cc h in
        let bounds = seconds-bounds max_wait wait retry waits e in (refl, refl, bounds.0, bounds.1)
