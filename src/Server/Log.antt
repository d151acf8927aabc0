-- ===== src/Server/Log.antt =====
-- server/log.go: what the proxy logs of a request.
use hasura_secret_refresh.Base.{List, [], ◌∷◌}
use hasura_secret_refresh.Strings.{Text, codes}
use hasura_secret_refresh.Http.{Url, Request}
use hasura_secret_refresh.Log.{debug_level, Event, header_dict}
use hasura_secret_refresh.Server.{Handled, replied, forwarded, aborted}

-- logRequest. `url_string` is the method String of a URL.
module _ (url_string : Url → Text) where
  unfoldable pub log_request : Request → Text → Event
  unfolding header_dict
  log_request r msg = record {
    level = debug_level;
    fields =
        (codes "log_type", codes "request_log")
        ∷ (codes "url", url_string r.url)
        ∷ (codes "method", r.method)
        ∷ [];
    dicts = (codes "headers", header_dict r.header r.header) ∷ [];
    msg = msg;
  }

  abbrev logged_sending : Handled → List Event
  logged_sending (forwarded out) = log_request out (codes "Sending request to backend service") ∷ []
  logged_sending (replied reply) = []
  logged_sending aborted = []

  -- The requests that ServeHTTP logs: the one that it got, and the rewritten one before it is sent.
  unfoldable pub logged_requests : Request → Handled → List Event
  unfolding log_request
  logged_requests r handled = log_request r (codes "Received a request") ∷ logged_sending handled
