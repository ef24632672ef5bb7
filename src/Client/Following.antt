-- ===== src/Client/Following.antt =====
-- `Client::request`: how the loop over the redirects ends.
use cpp_request.Base.{
  both, yielded, ℕ, ◌+◌, ◌≡◌, refl, sym, ap, Bool, not, Option, none, some, Bytes, arith, ◌<◌, ◌-◌,
  ◌||◌, ◌≤◌, ◌∙◌, ◌⊎◌, inl, inr,
}
use cpp_request.Base.Loop.{After, loop, Falls, Rounds, Settles, loop-Decided}
use cpp_request.Error.{Result, ok, err}
use cpp_request.Request.{Request}
use cpp_request.Response.{Response}
use cpp_request.Platform.{System}
use cpp_request.Client.Keeping.{Client, forget_connection}
use cpp_request.Client.Exchange.{Executed, execute_once}
use mathlib.Core.Path.{subst}
use cpp_request.Redirect.{is_redirect_status}
use cpp_request.Client.{Redirection, next_redirection, redirected}
use cpp_request.Client.Redirects.{next_redirection-Followed}
use cpp_request.Client.Requests.{
  Redirecting, judge_redirected, after_redirected, follow, step_redirect, follow_all, request,
  initial_redirection,
}
use cpp_request.Client.Settings.{IsSound, BodyWithin, execute_once-IsSound}
use cpp_request.Client.Redirecting.{IsRedirecting, step_redirect-After}

module _ (sys : System) (inet_pton6 : Bytes → Bool) (fuel : ℕ) where
  open sys use {World}

  -- Each round counts a redirect.
  judge_redirected-Falls :
      (measure : Redirecting World → ℕ) (x : Redirecting World) (t : Redirection) (s : Client)
      (w : World) (r : Result Response)
      → ((response : Response)
          → measure (record { redirection = t; response = response; client = s; world = w })
            < measure x)
      → Falls measure x (judge_redirected sys inet_pton6 fuel t s w r)
  unfolding judge_redirected
  judge_redirected-Falls measure x t s w (err e) h = tt
  judge_redirected-Falls measure x t s w (ok r) h = h r

  counted : ℕ → Redirecting World → ℕ
  counted max x = max - x.redirection.redirects_followed

  after_redirected-Falls :
      (max : ℕ) (x : Redirecting World) (t : Redirection) (d : Option (Executed World))
      → max - t.redirects_followed < max - x.redirection.redirects_followed
      → Falls (counted max) x (after_redirected sys inet_pton6 fuel t d)
  unfolding counted
  after_redirected-Falls max x t none h = tt
  after_redirected-Falls max x t (some d) h =
      judge_redirected-Falls (counted max) x t d.client d.world d.result (λ _. h)

  follow-Falls :
      (max : ℕ) (x : Redirecting World) (r : Result Redirection)
      → next_redirection inet_pton6 max x.redirection x.response ≡ r
      → Falls (counted max) x (follow sys inet_pton6 fuel x.client x.world r)
  unfolding follow
  follow-Falls max x (err e) h = tt
  follow-Falls max x (ok t) h =
      let (base, target, (_, _, e, le, _)) =
        next_redirection-Followed inet_pton6 max x.redirection t x.response h in
      after_redirected-Falls max x t _ (omega arith)

  step_redirect-Falls :
      (max : ℕ) (x : Redirecting World)
      → x.client.max_redirects ≡ max
      → Falls (counted max) x (step_redirect sys inet_pton6 fuel x)
  unfolding step_redirect
  step_redirect-Falls max x e =
      both (Falls (counted max) x) (not (is_redirect_status x.response.status_code)) tt (
        subst
          (λ m. Falls (counted max) x (
            follow sys inet_pton6 fuel x.client x.world
              (next_redirection inet_pton6 m x.redirection x.response)))
          (sym e)
          (follow-Falls max x (next_redirection inet_pton6 max x.redirection x.response) refl))

  -- The redirect loop behind a first exchange.
  abbrev pub first_round : Request → Executed World → Response → Redirecting World
  first_round r x response = record {
    redirection = initial_redirection r;
    response = response;
    client = x.client;
    world = x.world;
  }

  -- After so many further exchanges, fewer than `max`, a redirect that may be followed: what the
  -- next exchange gives.
  abbrev pub IsNext : ℕ → ℕ → Redirecting World → Option (Executed World) → Type 0
  IsNext max n y d =
      (n < max)
      × ((t : Redirection) × ((next_redirection inet_pton6 max y.redirection y.response ≡ ok t)
            × (execute_once sys inet_pton6 fuel (redirected t) y.client y.world ≡ d)))

  -- A result at a round of the loop: nothing was done in the round, or one more exchange.
  abbrev pub IsLast : ℕ → ℕ → Redirecting World → Executed World → Type 0
  IsLast max n y d = ((d.client ≡ y.client) × (d.world ≡ y.world)) ⊎ IsNext max n y (some d)

  judge_redirected-Settles :
      (max n : ℕ) (y : Redirecting World) (t : Redirection) (x : Executed World)
      (r : Result Response)
      → x.result ≡ r
      → IsNext max n y (some x)
      → Settles
          (IsLast max n y)
          (IsNext max n y none)
          (judge_redirected sys inet_pton6 fuel t x.client x.world r)
  unfolding judge_redirected
  judge_redirected-Settles max n y t x (err e) h (le, (u, (ok_u, run))) =
      inr (le, (u, (ok_u, run ∙ ap (λ r. some (record x { result = r })) h)))
  judge_redirected-Settles max n y t x (ok r) h g = tt

  after_redirected-Settles :
      (max n : ℕ) (y : Redirecting World) (t : Redirection) (d : Option (Executed World))
      → IsNext max n y d
      → Settles (IsLast max n y) (IsNext max n y none) (after_redirected sys inet_pton6 fuel t d)
  after_redirected-Settles max n y t none g = g
  after_redirected-Settles max n y t (some x) g =
      judge_redirected-Settles max n y t x x.result refl g

  follow-Settles :
      (max n : ℕ) (y : Redirecting World) (r : Result Redirection)
      → next_redirection inet_pton6 max y.redirection y.response ≡ r
      → n + counted max y ≤ max
      → Settles
          (IsLast max n y)
          (IsNext max n y none)
          (follow sys inet_pton6 fuel y.client y.world r)
  unfolding follow counted
  follow-Settles max n y (err e) h le = inl (refl, refl)
  follow-Settles max n y (ok t) h le =
      let (base, target, (_, _, e, bound, _)) =
        next_redirection-Followed inet_pton6 max y.redirection t y.response h in
      after_redirected-Settles max n y t _ (omega arith, (t, (h, refl)))

  step_redirect-Settles :
      (max n : ℕ) (y : Redirecting World)
      → y.client.max_redirects ≡ max
      → n + counted max y ≤ max
      → Settles (IsLast max n y) (IsNext max n y none) (step_redirect sys inet_pton6 fuel y)
  unfolding step_redirect
  step_redirect-Settles max n y e le =
      let P = Settles (IsLast max n y) (IsNext max n y none) in
      both P (not (is_redirect_status y.response.status_code)) (inl (refl, refl)) (
        subst
          (λ m. P (
            follow sys inet_pton6 fuel y.client y.world
              (next_redirection inet_pton6 m y.redirection y.response)))
          (sym e) (follow-Settles max n y _ refl le))

  -- What comes of a request behind some rounds of its redirect loop: it returns, or the next
  -- exchange does not.
  abbrev pub HasEnded : ℕ → ℕ → Redirecting World → Option (Executed World) → Type 0
  HasEnded max n y result =
      ((d : Executed World) × ((result ≡ some d) × IsLast max n y d)) ⊎ IsNext max n y none

  abbrev EndsAfter : ℕ → Redirecting World → Option (Executed World) → Type 0
  EndsAfter max start result =
      (n : ℕ) × (y : Redirecting World) × (Rounds (step_redirect sys inet_pton6 fuel) n start y
        × ((n ≤ max) × HasEnded max n y result))

  loop-EndsAfter :
      (x : Redirecting World)
      → BodyWithin x.client.response_limits (ok x.response)
      → x.redirection.redirects_followed ≡ 0
      → EndsAfter x.client.max_redirects x
          (loop (x.client.max_redirects + 1) (step_redirect sys inet_pton6 fuel) x)
  unfolding forget_connection counted
  loop-EndsAfter x fits zero_count =
      let settings = forget_connection x.client in
      let max = x.client.max_redirects in
      let step = step_redirect sys inet_pton6 fuel in
      let (n, y, (rounds, (le, (p, ends)))) =
        loop-Decided (IsRedirecting sys inet_pton6 fuel settings) (counted max) step
          (λ y p. step_redirect-Falls max y (ap (λ t. t.max_redirects) p.0))
          (λ y y' p f.
            subst (After (IsRedirecting sys inet_pton6 fuel settings) (IsSound sys settings)) f
              (step_redirect-After sys inet_pton6 fuel settings y p))
          (max + 1) x (refl, fits) (omega arith) in
      let settled = step_redirect-Settles max n y (ap (λ t. t.max_redirects) p.0) (omega arith) in
      let P = Settles (IsLast max n y) (IsNext max n y none) in
      (
        n,
        y,
        (
          rounds,
          (
            omega arith,
            elim ends [
              | inl (d, stops, run) ↦ inl (d, (run, subst P stops settled))
              | inr stalls ↦ inr (subst P stalls settled)
            ],
          ),
        ),
      )

  follow_all-EndsAfter :
      (r : Request) (x : Executed World) (response : Response)
      → BodyWithin x.client.response_limits (ok response)
      → EndsAfter x.client.max_redirects
          (first_round r x response)
          (follow_all sys inet_pton6 fuel r x.client x.world (ok response))
  unfolding follow_all initial_redirection
  follow_all-EndsAfter r x response fits =
      let y = first_round r x response in
      both (EndsAfter x.client.max_redirects y)
        (not x.client.follow_redirects || not (is_redirect_status response.status_code))
        (0, y, (refl, (omega arith, inl (_, (refl, inl (refl, refl))))))
        (loop-EndsAfter y fits refl)

  -- If the first exchange of a request gives a response, then behind some number of further
  -- exchanges that give responses, at most the client's `max_redirects`, whatever the servers answer,
  -- one of three things comes: the request returns with the client and the world as these exchanges
  -- left them; fewer than `max_redirects` were made, one more is, and it is the last: the request
  -- returns with its client and world; or fewer were made and the next one does not
  -- return within the fuel of its own loops.
  pub redirects_end :
      (r : Request) (s : Client) (w : World) (x : Executed World) (response : Response)
      → execute_once sys inet_pton6 fuel r s w ≡ some x
      → x.result ≡ ok response
      → (n : ℕ) × (y : Redirecting World) × (Rounds
            (step_redirect sys inet_pton6 fuel)
            n
            (first_round r x response)
            y
          × ((n ≤ x.client.max_redirects)
              × HasEnded x.client.max_redirects n y (request sys inet_pton6 fuel r s w)))
  unfolding request forget_connection
  redirects_end r s w x response h e =
      let sound =
        yielded (IsSound sys (forget_connection s)) x
          (execute_once-IsSound sys (forget_connection s) inet_pton6 fuel r s w refl) h in
      let fits =
        subst (λ t. BodyWithin t.response_limits (ok response)) (sym sound.0)
          (subst (BodyWithin s.response_limits) e sound.1) in
      let run : request sys inet_pton6 fuel r s w
          ≡ follow_all sys inet_pton6 fuel r x.client x.world (ok response) =
        rw (h, e) refl in
      subst (EndsAfter x.client.max_redirects (first_round r x response)) (sym run)
        (follow_all-EndsAfter r x response fits)
