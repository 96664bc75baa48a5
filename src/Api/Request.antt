-- ===== src/Api/Request.antt =====
-- What the handlers read of a request. The parsing of HTTP and of the query is net/http's and
-- net/url's: a header or a parameter is looked up by name, and is empty where it is absent.
use locals.Base.{Bytes, Bool, List}

pub data Method : Type 0 where
  get_method head_method put_method post_method delete_method other_method : Method

pub record Request : Type 0 where
  pub method : Method
  -- `r.URL.Path` and `r.Host`
  pub path : Bytes
  pub host : Bytes
  -- the header's fields with all their values, in the order in which a `range` visits them
  pub fields : List (Bytes × List Bytes)
  -- what the body's reader yields in all
  pub body : Bytes
  -- `r.Header.Get(name)`, `q.Get(name)` and `q.Has(name)`
  pub header : Bytes → Bytes
  pub query : Bytes → Bytes
  pub has_query : Bytes → Bool
