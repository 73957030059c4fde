-- ===== src/Client/React/Laws.antt =====
-- The handshake and the relayed frames of `React` (pkg/core/client.go).
pub mod Stored
pub mod Handled
pub mod Frames
pub mod Connecting
pub mod Answers
pub mod Session
use relaybaton.Common.{
  ◌<◌, ◌≡◌, refl, Bool, true, false, [], ◌∷◌, ◌++◌, arith, ◌=ℕ◌, Bytes, length, any, Result, ok,
  err,
}
use relaybaton.Socks5.Codes.{method_no_auth_required}
use relaybaton.Socks5.Method.{MethodRequest, new_method_request_from}
use relaybaton.Socks5.Method.Laws.{
  request_of, new_method_request_from-encode, new_method_request_from_sound,
}
use relaybaton.Socks5.Method.Laws
use relaybaton.Socks5.Reply.{new_method_reply, encode}
use relaybaton.Client.Conn.{Conn, status_method_accepted}
use relaybaton.Socks5.Reader.{Error}
use relaybaton.Client.React.{
  closes, Client, Reaction, Action, no_action, close, offers_no_auth, react_opened, store,
}

abbrev offered : Bytes → Bool
offered methods = any (λ v. v =ℕ method_no_auth_required) methods

-- A frame that begins with a method selection which offers the method 0.
pub record IsGreeting (frame : Bytes) : Type 0 where
  pub methods : Bytes
  pub rest : Bytes
  pub begins : frame ≡ Laws.encode methods ++ rest
  pub offers : offered methods ≡ true

nonempty : (methods rest : Bytes) → offered methods ≡ true → 0 < length (methods ++ rest)
nonempty [] rest h = cc
nonempty (m ∷ ms) rest h = omega arith

parses :
    (frame : Bytes) (g : IsGreeting frame)
    → new_method_request_from frame ≡ ok (request_of g.methods)
parses frame g =
    rw g.begins
      (new_method_request_from-encode g.methods g.rest (nonempty g.methods g.rest g.offers))

greets :
    (frame : Bytes) (mr : MethodRequest)
    → new_method_request_from frame ≡ ok mr
    → offers_no_auth mr ≡ true
    → IsGreeting frame
unfolding offers_no_auth
greets frame mr e o =
    let (rest, b, _) = new_method_request_from_sound frame mr e in
    record { methods = mr.methods; rest = rest; begins = b; offers = o }

module _ {Reader : Type 0} where
  abbrev pub greeted : Client Reader → Conn → Reaction Reader
  greeted c conn = record {
    out = 5 ∷ 0 ∷ [];
    action = no_action;
    client = store c (record conn { status = status_method_accepted });
    effects = [];
  }

  -- A fresh connection whose first frame begins with a well-formed method selection that offers the
  -- method 0 is answered with the bytes 5 and 0 and goes on to the next status, and nothing else of
  -- the client changes.
  pub react_opened-IsGreeting :
      (c : Client Reader) (conn : Conn) (frame : Bytes)
      → IsGreeting frame
      → react_opened c conn frame ≡ greeted c conn
  unfolding react_opened new_method_reply encode
  react_opened-IsGreeting c conn frame g = rw (parses frame g, react_opened) (ground arith)

  -- A fresh connection whose first frame does not begin with a well-formed method selection that
  -- offers the method 0 is closed without an answer, and the client does not change.
  react_opened-closes :
      (c : Client Reader) (conn : Conn) (frame : Bytes)
      → ¬ IsGreeting frame
      → react_opened c conn frame ≡ closes [] c
  unfolding react_opened
  react_opened-closes c conn frame no_greeting = by_result (new_method_request_from frame) refl
    where
      by_offer :
          (mr : MethodRequest)
          → new_method_request_from frame ≡ ok mr
          → (b : Bool) → offers_no_auth mr ≡ b
          → react_opened c conn frame ≡ closes [] c
      by_offer mr e true o = absurd (no_greeting (greets frame mr e o))
      by_offer mr e false o = rw (e, react_opened) (ground arith)

      by_result :
          (x : Result Error MethodRequest)
          → new_method_request_from frame ≡ x
          → react_opened c conn frame ≡ closes [] c
      by_result (err e) p = rw (p, react_opened)
      by_result (ok mr) p = by_offer mr p (offers_no_auth mr) refl
