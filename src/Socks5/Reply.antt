-- ===== src/Socks5/Reply.antt =====
-- The two replies: `MethodReply.Encode` of pkg/socks5/method_reply.go and `Reply.Pack` of
-- pkg/socks5/reply.go.
pub mod RoundTrip
use relaybaton.Common.{ℕ, [], ◌∷◌, ◌++◌, Bytes}
use relaybaton.Common.Words.{uint16_to_bytes}

pub record MethodReply : Type 0 where
  pub ver : ℕ
  pub method : ℕ

unfoldable pub new_method_reply : ℕ → MethodReply
new_method_reply method = record { ver = 5; method = method }

unfoldable pub encode : MethodReply → Bytes
encode mr = mr.ver ∷ mr.method ∷ []

pub record Reply : Type 0 where
  pub ver : ℕ
  pub rep : ℕ
  pub rsv : ℕ
  pub a_typ : ℕ
  pub bnd_addr : Bytes
  pub bnd_port : ℕ

unfoldable pub new_reply : ℕ → ℕ → Bytes → ℕ → Reply
new_reply rep a_typ bnd_addr bnd_port = record {
  ver = 5;
  rep = rep;
  rsv = 0;
  a_typ = a_typ;
  bnd_addr = bnd_addr;
  bnd_port = bnd_port;
}

unfoldable pub pack : Reply → Bytes
pack reply =
    (reply.ver ∷ reply.rep ∷ reply.rsv ∷ reply.a_typ ∷ [])
    ++ (reply.bnd_addr ++ uint16_to_bytes reply.bnd_port)
