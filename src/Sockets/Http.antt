-- ===== src/Sockets/Http.antt =====
-- The HTTP proxy of pkg/core/http_server.go and `serveWeb` of pkg/core/server_web.go. fasthttp, the
-- SOCKS5 dialer and the copies of bytes are parameters; each function gives what it does, in order.
use relaybaton.Common.{
  String, Bool, true, false, not, Option, none, some, List, [], ◌∷◌, if◌then◌else◌, Result, ok,
  ◌>>◌, guard,
}
use relaybaton.Sockets.Memory.{MemSocket, dial}

pub data HttpEffect : Type 0 where
  -- A connection through the SOCKS5 server on this machine, to what the request names.
  dials : String → HttpEffect
  -- The two copies of a tunnel, each until its end; the tunnel waits for both.
  copies_up copies_down : HttpEffect
  -- A request that fasthttp's client sends through the SOCKS5 server.
  forwards : String → HttpEffect

-- What the outside answers to one request.
pub record HttpRound : Type 0 where
  pub is_connect : Bool
  pub request_uri : String
  pub gives_dialer : Bool
  pub connects : Bool

-- `hijackHandler.Handle`. The dialed connection is not closed.
tunnel : HttpRound → List HttpEffect
tunnel r =
    if not r.gives_dialer
    then []
    else if not r.connects
    then dials r.request_uri ∷ []
    else dials r.request_uri ∷ copies_up ∷ copies_down ∷ []

-- `HTTPServer.requestHandler`.
request_handler : HttpRound → List HttpEffect
unfolding tunnel
request_handler r = if r.is_connect then tunnel r else forwards r.request_uri ∷ []

-- `HTTPServer.Serve`, from whether each of the two ports can be listened on: the listeners that are
-- served, or the error.
serve : Bool → Bool → Result Bool (List Bool)
serve listens4 listens6 = do guard listens4 false; guard listens6 true; ok (true ∷ false ∷ [])

response_of : {Response : Type 0} → Bool → Option Response → Option Response
response_of false response = none
response_of true response = response

-- `serveWeb`: a pipe to the listener of the web interface; `none` waits for room. The response is
-- there if the request could be written and the response read. The caller's end is not closed.
serve_web :
    {Response : Type 0} → MemSocket → Bool → Option Response → Option (MemSocket × Option Response)
unfolding response_of
serve_web s wrote response = elim (dial s) [
  | none ↦ none
  | some (after, mine) ↦ some (after, response_of wrote response)
]
