-- ===== src/Request.antt =====
-- include/cpp_request/request.hpp: a request. The views into the caller's memory (`url`, `body`) are
-- the bytes that they show; that the memory outlives the request is the caller's duty.
use cpp_request.Base.{List, [], ◌∷◌, ◌++◌, Bytes}
use cpp_request.Headers.{Headers}

pub data Method : Type 0 where
  get head post put patch delete : Method

pub Method-discrete : Discrete Method
Method-discrete = hlevel

pub record QueryParam : Type 0 where
  pub name : Bytes
  pub value : Bytes

pub record Request : Type 0 where
  pub method : Method
  pub url : Bytes
  pub headers : Headers
  pub body : Bytes
  pub query_params : List QueryParam

-- The constructor.
abbrev pub new_request : Method → Bytes → Request
new_request method url = record {
  method = method;
  url = url;
  headers = [];
  body = [];
  query_params = [];
}

abbrev pub set_body : Bytes → Request → Request
set_body body r = record r { body = body }

abbrev pub add_query_param : Bytes → Bytes → Request → Request
add_query_param name value r = record r {
  query_params = r.query_params ++ (record { name = name; value = value } ∷ []);
}
