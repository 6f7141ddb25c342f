-- ===== src/Tests/Edge.antt =====
-- The hook of every request, the endpoints of a browser, and the traffic of the storage.
use astra_file_host.Base.{
  ◌≡◌, refl, true, false, Bool, some, none, [], ◌∷◌, ok, err, api_error, request_failed,
  plain_error,
}
use astra_file_host.Auth.{nobody}
use astra_file_host.Validation.Endpoints.{
  https, Url, is_loopback_host, validate_browser_endpoint, localhost,
}
use astra_file_host.Metrics.{traffic_rate, read_lines, parse_traffic, counter, in_bytes, out_bytes}
use astra_file_host.Gateway.{Call, on_request, api_path, other_method}

-- A change without the header of the web client is refused, and one with it passes.
abbrev post : Bool → Call
post from_web = record {
  path = api_path;
  method = other_method;
  has_authorization = false;
  same_origin = true;
  is_web_client = from_web;
  address = 1;
}

foreign_refused :
    on_request 2000 (λ a. a ∷ []) [] (ok tt) false (post false) nobody
    ≡ err (api_error 403 request_failed)
unfolding on_request
foreign_refused = refl

own_passes : on_request 2000 (λ a. a ∷ []) [] (ok tt) false (post true) nobody ≡ ok tt
unfolding on_request
own_passes = refl

-- A public website, `a.b`, may not send its users to `localhost`.
abbrev public_site : Url
public_site = record {
  protocol = https;
  has_username = false;
  has_password = false;
  hostname = 97 ∷ 46 ∷ 98 ∷ [];
}

localhost_refused :
    validate_browser_endpoint public_site (record public_site { hostname = localhost })
    ≡ err plain_error
unfolding validate_browser_endpoint is_loopback_host
localhost_refused = refl

site_passes : validate_browser_endpoint public_site public_site ≡ ok tt
unfolding validate_browser_endpoint is_loopback_host
site_passes = refl

traffic :
    parse_traffic true (counter in_bytes 3 (some 70) ∷ counter out_bytes 4 (some 9) ∷ []) 3 5000
    ≡ ok (record { received = 70; sent = 0; at = 5000 })
unfolding parse_traffic read_lines
traffic = refl

restarted_counter :
    traffic_rate
      (some (record { received = 70; sent = 0; at = 5000 }))
      (record { received = 60; sent = 0; at = 15000 })
    ≡ none
unfolding traffic_rate
restarted_counter = refl
