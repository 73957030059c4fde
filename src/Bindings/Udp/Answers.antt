-- ===== src/Bindings/Udp/Answers.antt =====
-- How many datagrams are answered, and with which records
-- (cmd/relaybaton_mobile/udp_handler.go).
use relaybaton.Common.{
  ℕ, ◌+◌, ◌≤◌, String, ◌≡◌, refl, ap, ◌∙◌, inl, inr, Bool, true, false, Option, none, some, List,
  [], ◌∷◌, ◌++◌, arith, if◌then◌else◌, Option-cases, is_some, Bytes, length, All, length-append, ok,
  err, Result-cases,
}
use relaybaton.Ip.Address.{Ip, to4}
use relaybaton.Bindings.Udp.{
  Qtype, a, aaaa, txt, cname, mx, ns, other, Question, Line, line_of, Msg, Dns, UdpError, rr_error,
  or_udp_error, lines, answers, reply_lines, reply_question, reply_questions, receive_to,
}

abbrev has_case : Qtype → Bool
has_case other = false
has_case _ = true

abbrev count_answered : List Question → ℕ
count_answered [] = 0
count_answered (q ∷ qs) = (if has_case q.qtype then 1 else 0) + count_answered qs

module _ (dns : Dns) where
  open dns use {Rr, unpack_msg, set_reply, pack_msg, new_rr, ip_text, writes}

  lines-has_case :
      (name : String) (t : Qtype) (o : Option (List Line))
      → lines dns (record { name = name; qtype = t }) ≡ ok o
      → is_some o ≡ has_case t
  unfolding lines or_udp_error
  lines-has_case name a o h = ground (arith, Option-cases (dns.lookup_ip4 name))
  lines-has_case name aaaa o h = ground (arith, Option-cases (dns.lookup_ip6 name))
  lines-has_case name txt o h = ground (arith, Option-cases (dns.lookup_txt name))
  lines-has_case name cname o h = ground (arith, Option-cases (dns.lookup_cname name))
  lines-has_case name mx o h = ground (arith, Option-cases (dns.lookup_mx name))
  lines-has_case name ns o h = ground (arith, Option-cases (dns.lookup_ns name))
  lines-has_case name other o h = ground arith

  reply_lines-length :
      (req resp next : Msg Rr) (o : Option (List Line)) (written : List Bytes)
      → reply_lines dns req resp o ≡ ok (next, written)
      → length written ≡ (if is_some o then 1 else 0)
  unfolding reply_lines or_udp_error
  reply_lines-length req resp next none written h = ground arith
  reply_lines-length req resp next (some ls) written h = ground arith

  reply_question-length :
      (req resp next : Msg Rr) (q : Question) (written : List Bytes)
      → reply_question dns req resp q ≡ ok (next, written)
      → length written ≡ (if has_case q.qtype then 1 else 0)
  unfolding reply_question
  reply_question-length req resp next q written h = elim (Result-cases (lines dns q)) [
    | inr (e, failed) ↦ cc (rw (failed) at h)
    | inl (o, found) ↦
        rw⁻¹ (lines-has_case q.name q.qtype o found)
          (reply_lines-length req resp next o written (rw (found) at h))
  ]

  reply_questions-length :
      (req resp : Msg Rr) (qs : List Question)
      → (length (reply_questions dns req resp qs).datagrams ≤ count_answered qs)
        × ((reply_questions dns req resp qs).error ≡ none
            → length (reply_questions dns req resp qs).datagrams ≡ count_answered qs)
  unfolding reply_questions
  reply_questions-length req resp [] = (omega arith, λ h. refl)
  reply_questions-length req resp (q ∷ qs) = elim (Result-cases (reply_question dns req resp q)) [
    | inr (e, failed) ↦ rw (failed) (omega arith, λ h. cc)
    | inl ((next, written), done) ↦
        let l = reply_question-length req resp next q written done in
        let (most, all) = reply_questions-length req next qs in
        rw (done, length-append written (reply_questions dns req next qs).datagrams, l)
          (omega arith, λ h. rw (all h) refl)
  ]

  -- Of a message that was read there is at most one datagram for each question whose type has a
  -- case, and where no error is returned there is one for each.
  receive_to-length :
      (data_in : Bytes) (req : Msg Rr)
      → unpack_msg data_in ≡ some req
      → (length (receive_to dns 53 data_in).datagrams ≤ count_answered req.question)
        × ((receive_to dns 53 data_in).error ≡ none
            → length (receive_to dns 53 data_in).datagrams ≡ count_answered req.question)
  unfolding receive_to
  receive_to-length data_in req u = rw (u) (reply_questions-length req (set_reply req) req.question)

  answers-last :
      (base : List Rr) (ls : List Line) (l : Line) (answer : List Rr) (rr : Rr)
      → All (λ x. is_some (new_rr x) ≡ true) ls
      → new_rr l ≡ some rr
      → answers dns base (ls ++ l ∷ []) answer ≡ ok (base ++ rr ∷ [])
  unfolding answers or_udp_error
  answers-last base [] l answer rr all e = rw (e) refl
  answers-last base (x ∷ ls) l answer rr (p, all) e = elim (Option-cases (new_rr x)) [
    | inl none_x ↦ cc (rw (none_x) at p)
    | inr (r, some_x) ↦ rw (some_x) (answers-last base ls l (base ++ r ∷ []) rr all e)
  ]

  reply_question-last :
      (req resp : Msg Rr) (q : Question) (ls : List Line) (l : Line) (rr : Rr) (bytes : Bytes)
      → lines dns q ≡ ok (some (ls ++ l ∷ []))
      → All (λ x. is_some (new_rr x) ≡ true) ls
      → new_rr l ≡ some rr
      → pack_msg (record resp { answer = req.answer ++ rr ∷ [] }) ≡ some bytes
      → writes bytes ≡ true
      → reply_question dns req resp q
        ≡ ok (record resp { answer = req.answer ++ rr ∷ [] }, bytes ∷ [])
  unfolding reply_question reply_lines or_udp_error
  reply_question-last req resp q ls l rr bytes found all e packed written =
      rw (found, answers-last req.answer ls l resp.answer rr all e, packed, written) refl

  reply_questions-one :
      (req resp next : Msg Rr) (q : Question) (written : List Bytes)
      → reply_question dns req resp q ≡ ok (next, written)
      → reply_questions dns req resp (q ∷ []) ≡ record { datagrams = written ++ []; error = none }
  unfolding reply_questions
  reply_questions-one req resp next q written e = rw (e) refl

  reply_questions-failed :
      (req resp : Msg Rr) (q : Question) (qs : List Question) (x : UdpError)
      → reply_question dns req resp q ≡ err x
      → reply_questions dns req resp (q ∷ qs) ≡ record { datagrams = []; error = some x }
  unfolding reply_questions
  reply_questions-failed req resp q qs x e = rw (e) refl

  reply_question-aaaa :
      (req resp : Msg Rr) (name : String) (ip : Ip) (ips : List Ip)
      → new_rr (line_of name "AAAA" (ip_text [])) ≡ none
      → dns.lookup_ip6 name ≡ some (ip ∷ ips)
      → to4 ip ≡ []
      → reply_question dns req resp (record { name = name; qtype = aaaa }) ≡ err rr_error
  unfolding reply_question reply_lines lines answers or_udp_error
  reply_question-aaaa req resp name ip ips bad found six = rw (found, six, bad) refl

  -- The answer to a message of one question keeps only the last record that was found: if each line
  -- is a record, what is sent has the answers of the request and the last of the lines.
  pub receive_to-last :
      (data_in : Bytes) (req : Msg Rr) (q : Question) (ls : List Line) (l : Line) (rr : Rr)
      (bytes : Bytes)
      → unpack_msg data_in ≡ some req
      → req.question ≡ q ∷ []
      → lines dns q ≡ ok (some (ls ++ l ∷ []))
      → All (λ x. is_some (new_rr x) ≡ true) ls
      → new_rr l ≡ some rr
      → pack_msg (record (set_reply req) { answer = req.answer ++ rr ∷ [] }) ≡ some bytes
      → writes bytes ≡ true
      → receive_to dns 53 data_in ≡ record { datagrams = bytes ∷ []; error = none }
  unfolding receive_to
  receive_to-last data_in req q ls l rr bytes u one found all e packed written = rw (u) (
      ap (reply_questions dns req (set_reply req)) one
      ∙ reply_questions-one req (set_reply req) _ q _
          (reply_question-last req (set_reply req) q ls l rr bytes found all e packed written))

  -- A question for the addresses of version 6 whose first address is one fails, and nothing is sent:
  -- `To4` gives nil of such an address, and the text of nil is not an address.
  receive_to-aaaa :
      (data_in : Bytes) (req : Msg Rr) (name : String) (qs : List Question) (ip : Ip)
      (ips : List Ip)
      → ((n : String) → new_rr (line_of n "AAAA" (ip_text [])) ≡ none)
      → unpack_msg data_in ≡ some req
      → req.question ≡ record { name = name; qtype = aaaa } ∷ qs
      → dns.lookup_ip6 name ≡ some (ip ∷ ips)
      → to4 ip ≡ []
      → receive_to dns 53 data_in ≡ record { datagrams = []; error = some rr_error }
  unfolding receive_to
  receive_to-aaaa data_in req name qs ip ips bad u one found six = rw (u) (
      ap (reply_questions dns req (set_reply req)) one
      ∙ reply_questions-failed req (set_reply req) _ qs rr_error
          (reply_question-aaaa req (set_reply req) name ip ips (bad name) found six))
