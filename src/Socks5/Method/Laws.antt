-- ===== src/Socks5/Method/Laws.antt =====
-- What `NewMethodRequestFrom` accepts (pkg/socks5/method_request.go).
use relaybaton.Common.{
  ◌<◌, ◌≡◌, [], ◌∷◌, ◌++◌, arith, Bytes, length, drop, take-append-drop, same_nat, same_string,
  same_bytes, ok,
}
use relaybaton.Socks5.Reader.{
  read_byte, number_of_methods_mismatch, read_exactly-append, read_byte_cons, version_not_read,
  number_of_methods_not_read,
}
use relaybaton.Socks5.Method.{MethodRequest, new_method_request_from}

-- The message on the wire.
abbrev pub encode : Bytes → Bytes
encode methods = 5 ∷ length methods ∷ methods

abbrev pub request_of : Bytes → MethodRequest
request_of methods = record { ver = 5; n_methods = length methods; methods = methods }

-- The encoding of a method selection is read back by `NewMethodRequestFrom`, whatever follows it;
-- one that offers no method only if something follows it.
pub new_method_request_from-encode :
    (methods rest : Bytes)
    → 0 < length (methods ++ rest)
    → new_method_request_from (encode methods ++ rest) ≡ ok (request_of methods)
unfolding new_method_request_from
new_method_request_from-encode methods rest h = ground (
  arith,
  read_byte_cons version_not_read 5 (length methods ∷ (methods ++ rest)),
  read_byte_cons number_of_methods_not_read (length methods) (methods ++ rest),
  read_exactly-append number_of_methods_mismatch methods rest h,
)

-- Whatever bytes `NewMethodRequestFrom` accepts are the encoding of the method selection that it
-- returns, with the rest of the frame behind it.
pub new_method_request_from_sound :
    (b : Bytes) (mr : MethodRequest)
    → new_method_request_from b ≡ ok mr
    → (rest : Bytes) × (b ≡ encode mr.methods ++ rest) × (mr ≡ request_of mr.methods)
unfolding new_method_request_from read_byte
new_method_request_from_sound [] mr h = cc
new_method_request_from_sound (v ∷ []) mr h = ground arith
new_method_request_from_sound (v ∷ n ∷ bs) mr h =
    (drop n bs, ground (arith, take-append-drop n bs), ground arith)
