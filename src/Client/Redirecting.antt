-- ===== src/Client/Redirecting.antt =====
-- `Client::request`: what the loop over the redirects keeps.
use cpp_request.Base.{
  both, Yields, yields, yielded, ℕ, ◌≡◌, refl, Bool, not, Option, none, some, Bytes, ◌||◌,
}
use cpp_request.Base.Loop.{After, loop_inv}
use cpp_request.Error.{Result, ok, err}
use cpp_request.Request.{Request}
use cpp_request.Response.{Response}
use cpp_request.Platform.{System}
use cpp_request.Client.Keeping.{Client, forget_connection}
use cpp_request.Client.Exchange.{Executed, execute_once}
use cpp_request.Redirect.{is_redirect_status}
use cpp_request.Client.{Redirection, redirected}
use cpp_request.Client.Requests.{
  Redirecting, judge_redirected, after_redirected, follow, step_redirect, follow_all, after_first,
  request,
}
use cpp_request.Client.Settings.{IsSound, BodyWithin, execute_once-IsSound}

module _ (sys : System) (inet_pton6 : Bytes → Bool) (fuel : ℕ) where
  open sys use {World}

  module _ (settings : Client) where
    -- At each round: the settings, and the response that is looked at.
    abbrev pub IsRedirecting : Redirecting World → Type 0
    IsRedirecting x =
        (forget_connection x.client ≡ settings)
        × BodyWithin settings.response_limits (ok x.response)

    judge_redirected-After :
        (t : Redirection) (s : Client) (w : World) (r : Result Response)
        → forget_connection s ≡ settings
        → BodyWithin settings.response_limits r
        → After IsRedirecting (IsSound sys settings) (judge_redirected sys inet_pton6 fuel t s w r)
    unfolding judge_redirected
    judge_redirected-After t s w (err e) h b = (h, tt)
    judge_redirected-After t s w (ok r) h b = (h, b)

    after_redirected-After :
        (t : Redirection) (x : Option (Executed World))
        → Yields (IsSound sys settings) x
        → After IsRedirecting (IsSound sys settings) (after_redirected sys inet_pton6 fuel t x)
    after_redirected-After t none h = tt
    after_redirected-After t (some x) (h, b) =
        judge_redirected-After t x.client x.world x.result h b

    follow-After :
        (s : Client) (w : World) (r : Result Redirection)
        → forget_connection s ≡ settings
        → After IsRedirecting (IsSound sys settings) (follow sys inet_pton6 fuel s w r)
    unfolding follow
    follow-After s w (err e) h = (h, tt)
    follow-After s w (ok t) h =
        after_redirected-After t _
          (execute_once-IsSound sys settings inet_pton6 fuel (redirected t) s w h)

    pub step_redirect-After :
        (x : Redirecting World)
        → IsRedirecting x
        → After IsRedirecting (IsSound sys settings) (step_redirect sys inet_pton6 fuel x)
    unfolding step_redirect
    step_redirect-After x (h, b) =
        both (After IsRedirecting (IsSound sys settings))
          (not (is_redirect_status x.response.status_code)) (h, b)
          (follow-After x.client x.world _ h)

    follow_all-IsSound :
        (r : Request) (s : Client) (w : World) (x : Result Response)
        → forget_connection s ≡ settings
        → BodyWithin settings.response_limits x
        → Yields (IsSound sys settings) (follow_all sys inet_pton6 fuel r s w x)
    unfolding follow_all
    follow_all-IsSound r s w (err e) h b = (h, tt)
    follow_all-IsSound r s w (ok response) h b =
        both (Yields (IsSound sys settings))
          (not s.follow_redirects || not (is_redirect_status response.status_code)) (h, b)
          (yields (IsSound sys settings) _ (λ x.
            loop_inv IsRedirecting (IsSound sys settings) (step_redirect sys inet_pton6 fuel)
              step_redirect-After _ _ (h, b)))

    after_first-IsSound :
        (r : Request) (x : Option (Executed World))
        → Yields (IsSound sys settings) x
        → Yields (IsSound sys settings) (after_first sys inet_pton6 fuel r x)
    after_first-IsSound r none h = tt
    after_first-IsSound r (some x) (h, b) = follow_all-IsSound r x.client x.world x.result h b

  -- When a request, with all redirects that it follows, returns, the settings of the client are as
  -- they were, and if it gives a response, its body is within the client's `max_body_bytes`.
  pub request-IsSound :
      (r : Request) (s : Client) (w : World) (x : Executed World)
      → request sys inet_pton6 fuel r s w ≡ some x
      → (forget_connection x.client ≡ forget_connection s) × BodyWithin s.response_limits x.result
  unfolding request forget_connection
  request-IsSound r s w x = yielded (IsSound sys (forget_connection s)) x (
      after_first-IsSound (forget_connection s) r (execute_once sys inet_pton6 fuel r s w)
        (execute_once-IsSound sys (forget_connection s) inet_pton6 fuel r s w refl))
