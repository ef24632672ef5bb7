-- ===== src/Client/Owner.antt =====
-- The open sockets of the process over a request with its redirects: the client owns the one that it
-- keeps, and every other one that a request opens is closed when the request returns.
use cpp_request.Base.{
  both, Yields, yields, yielded, ℕ, ◌≡◌, refl, ◌∙◌, Bool, not, Option, none, some, List, Bytes,
}
use cpp_request.Base.Loop.{After, loop_inv}
use cpp_request.Error.{ℤ, Result, ok, err}
use cpp_request.Request.{Request}
use cpp_request.Response.{Response}
use cpp_request.Platform.{System}
use cpp_request.Platform.Kernel.{Observer, Kernel}
use cpp_request.Client.Keeping.{
  Client, kept_socket, forget_connection, keep_connection, close_reusable_connection,
  decode_socket_handle,
}
use cpp_request.Client.Exchange.{Executed, execute_once}
use cpp_request.Redirect.{is_redirect_status}
use cpp_request.Request.{get}
use cpp_request.Client.{Redirection, redirected, make_request}
use cpp_request.Client.Keeping.{new_client}
use cpp_request.Client.Keeping
use cpp_request.Base.{◌||◌, []}
use cpp_request.Client.Requests.{
  drop_client, Redirecting, RedirectStep, judge_redirected, after_redirected, follow, step_redirect,
  follow_all, after_first, request, get_with, free_get,
}
use cpp_request.Client.Leaving.{kept_aside, HasLeft}
use cpp_request.Client.NoLeak.{Leaves, execute_once-Leaves}
use cpp_request.Client.Acquiring.{opened-close_reusable_connection}

module _ (sys : System) (o : Observer sys) (k : Kernel sys o) (inet_pton6 : Bytes → Bool)
    (fuel : ℕ) where
  open sys use {World}
  open o use {opened}

  module _ (before : List ℤ) where
    abbrev RedirectingLeft : Redirecting World → Type 0
    RedirectingLeft x = kept_aside x.client (opened x.world) ≡ before

    abbrev StepLeft : RedirectStep sys inet_pton6 fuel → Type 0
    StepLeft = After RedirectingLeft (HasLeft sys o k before)

    judge_redirected-StepLeft :
        (t : Redirection) (s : Client) (w : World) (r : Result Response)
        → kept_aside s (opened w) ≡ before
        → StepLeft (judge_redirected sys inet_pton6 fuel t s w r)
    unfolding judge_redirected
    judge_redirected-StepLeft t s w (err e) h = h
    judge_redirected-StepLeft t s w (ok r) h = h

    after_redirected-StepLeft :
        (t : Redirection) (x : Option (Executed World))
        → Leaves sys o k before x
        → StepLeft (after_redirected sys inet_pton6 fuel t x)
    after_redirected-StepLeft t none h = tt
    after_redirected-StepLeft t (some x) h = judge_redirected-StepLeft t x.client x.world x.result h

    follow-StepLeft :
        (s : Client) (w : World) (r : Result Redirection)
        → kept_aside s (opened w) ≡ before
        → StepLeft (follow sys inet_pton6 fuel s w r)
    unfolding follow
    follow-StepLeft s w (err e) h = h
    follow-StepLeft s w (ok t) h =
        after_redirected-StepLeft t (execute_once sys inet_pton6 fuel (redirected t) s w)
          (execute_once-Leaves sys o k before inet_pton6 fuel (redirected t) s w h)

    step_redirect-StepLeft :
        (x : Redirecting World) → RedirectingLeft x → StepLeft (step_redirect sys inet_pton6 fuel x)
    unfolding step_redirect
    step_redirect-StepLeft x h =
        both StepLeft (not (is_redirect_status x.response.status_code)) h
          (follow-StepLeft x.client x.world _ h)

    follow_all-Leaves :
        (r : Request) (s : Client) (w : World) (x : Result Response)
        → kept_aside s (opened w) ≡ before
        → Leaves sys o k before (follow_all sys inet_pton6 fuel r s w x)
    unfolding follow_all
    follow_all-Leaves r s w (err e) h = h
    follow_all-Leaves r s w (ok response) h =
        both (Leaves sys o k before)
          (not s.follow_redirects || not (is_redirect_status response.status_code)) h
          (yields (HasLeft sys o k before) _ (λ x.
            loop_inv RedirectingLeft (HasLeft sys o k before) (step_redirect sys inet_pton6 fuel)
              step_redirect-StepLeft _ _ h))

    after_first-Leaves :
        (r : Request) (x : Option (Executed World))
        → Leaves sys o k before x
        → Leaves sys o k before (after_first sys inet_pton6 fuel r x)
    after_first-Leaves r none h = tt
    after_first-Leaves r (some x) h = follow_all-Leaves r x.client x.world x.result h

  -- Under the laws of the system calls, when a request, with all redirects that it follows,
  -- returns, then but for the connection that the client keeps, the open sockets of the process
  -- are what they were before it, whether it succeeds or fails, at any point.
  pub request-HasLeft :
      (r : Request) (s : Client) (w : World) (x : Executed World)
      → request sys inet_pton6 fuel r s w ≡ some x
      → kept_aside x.client (opened x.world) ≡ kept_aside s (opened w)
  unfolding request
  request-HasLeft r s w x = yielded (HasLeft sys o k (kept_aside s (opened w))) x (
      after_first-Leaves (kept_aside s (opened w)) r (execute_once sys inet_pton6 fuel r s w)
        (execute_once-Leaves sys o k (kept_aside s (opened w)) inet_pton6 fuel r s w refl))

  opened-destroy_client :
      (s : Client) (w : World) → opened (Keeping.destroy sys s w) ≡ kept_aside s (opened w)
  unfolding Keeping.destroy
  opened-destroy_client s w = opened-close_reusable_connection sys o k [] s w

  -- The end of a free function: its result, with the open sockets of a list.
  abbrev Restores : List ℤ → Result Response × World → Type 0
  Restores before r = opened r.1 ≡ before

  drop_client-Restores :
      (before : List ℤ) (x : Option (Executed World))
      → Leaves sys o k before x
      → Yields (Restores before) (drop_client sys inet_pton6 fuel x)
  drop_client-Restores before none h = tt
  drop_client-Restores before (some x) h = opened-destroy_client x.client x.world ∙ h

  request-Leaves :
      (r : Request) (w : World)
      → Leaves sys o k (opened w) (request sys inet_pton6 fuel r new_client w)
  unfolding kept_aside
  request-Leaves r w = yields (HasLeft sys o k (opened w)) _ (request-HasLeft r new_client w)

  -- Under the laws of the system calls, the free function `get` leaves no socket open: when it
  -- returns, the open sockets of the process are those of its call.
  pub free_get-Restores :
      (url : Bytes) (w : World) (r : Result Response) (w' : World)
      → free_get sys inet_pton6 fuel url w ≡ some (r, w')
      → opened w' ≡ opened w
  unfolding free_get get_with
  free_get-Restores url w r w' =
      yielded (Restores (opened w)) (r, w')
        (drop_client-Restores (opened w) _ (request-Leaves (make_request get url []) w))
