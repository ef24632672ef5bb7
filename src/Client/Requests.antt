-- ===== src/Client/Requests.antt =====
-- src/core/client.cpp: `Client::request` with its redirects, the functions for each method, and the
-- free functions, which use a client of their own.
use cpp_request.Base.{ℕ, ◌+◌, Bool, not, ◌||◌, Option, none, some, [], Bytes, if◌then◌else◌}
use cpp_request.Base.Loop.{Step, next, stop, stuck, loop}
use cpp_request.Error.{Result, ok, err}
use cpp_request.Request.{Request, get, head, post, put, patch, delete}
use cpp_request.Response.{Response}
use cpp_request.Redirect.{is_redirect_status}
use cpp_request.RequestSerializer.{effective_request_url}
use cpp_request.Platform.{System}
use cpp_request.Client.{Redirection, next_redirection, redirected, make_request}
use cpp_request.Client.Keeping.{Client, new_client, destroy}
use cpp_request.Client.Exchange.{Executed, execute_once}

-- The variables of the redirect loop, with those of the client.
pub record Redirecting (W : Type 0) : Type 0 where
  pub redirection : Redirection
  pub response : Response
  pub client : Client
  pub world : W

-- In front of the loop.
unfoldable pub initial_redirection : Request → Redirection
initial_redirection r = record {
  current_url = effective_request_url r;
  current_method = r.method;
  current_headers = r.headers;
  current_body = r.body;
  redirects_followed = 0;
}

-- `fuel` bounds the loops that read.
module _ (sys : System) (inet_pton6 : Bytes → Bool) (fuel : ℕ) where
  open sys use {World}

  abbrev pub RedirectStep : Type 0
  RedirectStep = Step (Redirecting World) (Executed World)

  -- Behind `execute_once(redirected)`.
  unfoldable pub judge_redirected : Redirection → Client → World → Result Response → RedirectStep
  judge_redirected t s w (err e) = stop (record { client = s; world = w; result = err e })
  judge_redirected t s w (ok response) =
      next (record { redirection = t; response = response; client = s; world = w })

  abbrev pub after_redirected : Redirection → Option (Executed World) → RedirectStep
  after_redirected t none = stuck
  after_redirected t (some x) = judge_redirected t x.client x.world x.result

  -- Behind the new variables.
  unfoldable pub follow : Client → World → Result Redirection → RedirectStep
  follow s w (err e) = stop (record { client = s; world = w; result = err e })
  follow s w (ok t) = after_redirected t (execute_once sys inet_pton6 fuel (redirected t) s w)

  -- The body of the loop, with its test.
  unfoldable pub step_redirect : Redirecting World → RedirectStep
  step_redirect x =
      if not (is_redirect_status x.response.status_code)
      then stop (record { client = x.client; world = x.world; result = ok x.response })
      else follow x.client x.world
          (next_redirection inet_pton6 x.client.max_redirects x.redirection x.response)

  -- Behind the first `execute_once`. Each round counts a redirect.
  unfoldable pub follow_all : Request → Client → World → Result Response → Option (Executed World)
  follow_all r s w (err e) = some (record { client = s; world = w; result = err e })
  follow_all r s w (ok response) =
      if not s.follow_redirects || not (is_redirect_status response.status_code)
      then some (record { client = s; world = w; result = ok response })
      else loop (s.max_redirects + 1) step_redirect (record {
        redirection = initial_redirection r;
        response = response;
        client = s;
        world = w;
      })

  abbrev pub after_first : Request → Option (Executed World) → Option (Executed World)
  after_first r none = none
  after_first r (some x) = follow_all r x.client x.world x.result

  unfoldable pub request : Request → Client → World → Option (Executed World)
  request r s w = after_first r (execute_once sys inet_pton6 fuel r s w)

  unfoldable pub get_with : Bytes → Client → World → Option (Executed World)
  get_with url = request (make_request get url [])

  unfoldable pub head_with : Bytes → Client → World → Option (Executed World)
  head_with url = request (make_request head url [])

  unfoldable pub post_with : Bytes → Bytes → Client → World → Option (Executed World)
  post_with url body = request (make_request post url body)

  unfoldable pub put_with : Bytes → Bytes → Client → World → Option (Executed World)
  put_with url body = request (make_request put url body)

  unfoldable pub patch_with : Bytes → Bytes → Client → World → Option (Executed World)
  patch_with url body = request (make_request patch url body)

  unfoldable pub delete_with : Bytes → Client → World → Option (Executed World)
  delete_with url = request (make_request delete url [])

  -- `Client client; return client.…;`, with the destructor.
  abbrev pub drop_client : Option (Executed World) → Option (Result Response × World)
  drop_client none = none
  drop_client (some x) = some (x.result, destroy sys x.client x.world)

  unfoldable pub free_get : Bytes → World → Option (Result Response × World)
  free_get url w = drop_client (get_with url new_client w)

  unfoldable pub free_head : Bytes → World → Option (Result Response × World)
  free_head url w = drop_client (head_with url new_client w)

  unfoldable pub free_post : Bytes → Bytes → World → Option (Result Response × World)
  free_post url body w = drop_client (post_with url body new_client w)

  unfoldable pub free_put : Bytes → Bytes → World → Option (Result Response × World)
  free_put url body w = drop_client (put_with url body new_client w)

  unfoldable pub free_patch : Bytes → Bytes → World → Option (Result Response × World)
  free_patch url body w = drop_client (patch_with url body new_client w)

  unfoldable pub free_del : Bytes → World → Option (Result Response × World)
  free_del url w = drop_client (delete_with url new_client w)
