-- ===== src/Bindings/Udp.antt =====
-- cmd/relaybaton_mobile/udp_handler.go: the datagrams that the Android program answers. The resolver,
-- the package `dns` and the connection are parameters; the texts that `dns.NewRR` reads are kept in
-- their parts.
pub mod Answers
use relaybaton.Common.{
  ℕ, String, Bool, Option, none, some, List, [], ◌∷◌, ◌++◌, map, ◌=ℕ◌, if◌then◌else◌, Bytes, Result,
  ok, err, ◌>>=◌, ◌>>◌, guard,
}
use relaybaton.Ip.Address.{Ip, to4}

-- The types that have a case, and any other.
pub data Qtype : Type 0 where
  a aaaa txt cname mx ns other : Qtype

pub record Question : Type 0 where
  pub name : String
  pub qtype : Qtype

-- The text `name kind value`.
pub record Line : Type 0 where
  pub name : String
  pub kind : String
  pub value : String

pub data UdpError : Type 0 where
  unpack_error lookup_error rr_error pack_error write_error : UdpError

pub record Msg (Rr : Type 0) : Type 0 where
  pub id : ℕ
  pub question : List Question
  pub answer : List Rr

-- The datagrams that were written, and the error that `ReceiveTo` returns.
pub record Sent : Type 0 where
  pub datagrams : List Bytes
  pub error : Option UdpError

-- For exchangers and name servers, the host.
pub record Dns : Type 1 where
  pub Rr : Type 0
  pub unpack_msg : Bytes → Option (Msg Rr)
  pub set_reply : Msg Rr → Msg Rr
  pub pack_msg : Msg Rr → Option Bytes
  pub new_rr : Line → Option Rr
  pub ip_text : Ip → String
  pub lookup_ip4 : String → Option (List Ip)
  pub lookup_ip6 : String → Option (List Ip)
  pub lookup_txt : String → Option (List String)
  pub lookup_cname : String → Option String
  pub lookup_mx : String → Option (List String)
  pub lookup_ns : String → Option (List String)
  pub writes : Bytes → Bool

pub or_udp_error : {A : Type 0} → UdpError → Option A → Result UdpError A
or_udp_error e none = err e
or_udp_error e (some x) = ok x

abbrev pub line_of : String → String → String → Line
line_of name kind value = record { name = name; kind = kind; value = value }

module _ (dns : Dns) where
  open dns use {Rr, unpack_msg, set_reply, pack_msg, new_rr, ip_text, writes}

  -- `ip.To4().String()`, for addresses of either kind.
  ip_lines : String → String → List Ip → List Line
  ip_lines name kind ips = map (λ ip. line_of name kind (ip_text (to4 ip))) ips

  -- What is looked up for a question, where its type has a case.
  unfoldable pub lines : Question → Result UdpError (Option (List Line))
  unfolding ip_lines or_udp_error
  lines q = lines_of q.qtype
    where
      lines_of : Qtype → Result UdpError (Option (List Line))
      lines_of a = do
        ips ← or_udp_error lookup_error (dns.lookup_ip4 q.name)
        ok (some (ip_lines q.name "A" ips))
      lines_of aaaa = do
        ips ← or_udp_error lookup_error (dns.lookup_ip6 q.name)
        ok (some (ip_lines q.name "AAAA" ips))
      lines_of txt = do
        txts ← or_udp_error lookup_error (dns.lookup_txt q.name)
        ok (some (map (line_of q.name "TXT") txts))
      lines_of cname = do
        host ← or_udp_error lookup_error (dns.lookup_cname q.name)
        ok (some (line_of q.name "CNAME" host ∷ []))
      lines_of mx = do
        hosts ← or_udp_error lookup_error (dns.lookup_mx q.name)
        ok (some (map (line_of q.name "MX") hosts))
      lines_of ns = do
        hosts ← or_udp_error lookup_error (dns.lookup_ns q.name)
        ok (some (map (line_of q.name "NS") hosts))
      lines_of other = ok none

  -- `resp.Answer = append(req.Answer, rr)` for each record.
  pub answers : List Rr → List Line → List Rr → Result UdpError (List Rr)
  unfolding or_udp_error
  answers base [] answer = ok answer
  answers base (l ∷ ls) answer = do
    rr ← or_udp_error rr_error (new_rr l)
    answers base ls (base ++ rr ∷ [])

  -- The reply after a question, and the datagram that was written for it.
  pub reply_lines : Msg Rr → Msg Rr → Option (List Line) → Result UdpError (Msg Rr × List Bytes)
  unfolding or_udp_error answers
  reply_lines req resp none = ok (resp, [])
  reply_lines req resp (some ls) = do
    answer ← answers req.answer ls resp.answer
    bytes ← or_udp_error pack_error (pack_msg (record resp { answer = answer }))
    guard (writes bytes) write_error
    ok (record resp { answer = answer }, bytes ∷ [])

  pub reply_question : Msg Rr → Msg Rr → Question → Result UdpError (Msg Rr × List Bytes)
  unfolding reply_lines
  reply_question req resp q = do ls ← lines q; reply_lines req resp ls

  pub reply_questions : Msg Rr → Msg Rr → List Question → Sent
  unfolding reply_question
  reply_questions req resp [] = record { datagrams = []; error = none }
  reply_questions req resp (q ∷ qs) =
      after (reply_question req resp q) (λ next. reply_questions req next qs)
    where
      after : Result UdpError (Msg Rr × List Bytes) → (Msg Rr → Sent) → Sent
      after (err e) rest = record { datagrams = []; error = some e }
      after (ok (next, written)) rest = record {
        datagrams = written ++ (rest next).datagrams;
        error = (rest next).error;
      }

  -- Only what is sent to port 53 is answered.
  pub receive_to : ℕ → Bytes → Sent
  unfolding reply_questions
  receive_to port data_in = if port =ℕ 53 then answered (unpack_msg data_in) else nothing
    where
      nothing : Sent
      nothing = record { datagrams = []; error = none }

      answered : Option (Msg Rr) → Sent
      answered none = record { datagrams = []; error = some unpack_error }
      answered (some req) = reply_questions req (set_reply req) req.question
