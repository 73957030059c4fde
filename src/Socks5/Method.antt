-- ===== src/Socks5/Method.antt =====
-- The method selection message, `NewMethodRequestFrom` of pkg/socks5/method_request.go.
-- On an error the source also returns the half filled struct, which no caller reads.
pub mod Laws
use relaybaton.Common.{ℕ, ◌=ℕ◌, Bytes, Result}
use relaybaton.Socks5.Reader.{
  Error, version_not_read, version_error, number_of_methods_not_read, number_of_methods_mismatch,
  Read, ◌>>=◌, ◌>>◌, return, require, read_exactly, read_byte, run_reader,
}

pub record MethodRequest : Type 0 where
  pub ver : ℕ
  pub n_methods : ℕ
  pub methods : Bytes

unfoldable read_method_request : Read MethodRequest
read_method_request = do
  ver ← read_byte version_not_read
  require (ver =ℕ 5) version_error
  n ← read_byte number_of_methods_not_read
  methods ← read_exactly n number_of_methods_mismatch
  return (record { ver = ver; n_methods = n; methods = methods })

unfoldable pub new_method_request_from : Bytes → Result Error MethodRequest
unfolding read_method_request
new_method_request_from b = run_reader read_method_request b
